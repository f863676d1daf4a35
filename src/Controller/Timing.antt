-- ===== src/Controller/Timing.antt =====
-- internal/controller/opportunistic.go: the durations that the reconciler waits. Times and
-- durations are nanoseconds.
use podpool_controller.Prelude.{ℕ, ◌+◌, ◌*◌, Bool, none, some, ltb, leb, if◌then◌else◌, any}
use podpool_controller.Api.{PodPoolSpec}
use podpool_controller.Workload.Scaling.{is_opportunistic}

abbrev pub second : ℕ
second = 1000000000

abbrev pub default_opportunistic_heartbeat_seconds : ℕ
default_opportunistic_heartbeat_seconds = 300

abbrev pub default_opportunistic_heartbeat : ℕ
default_opportunistic_heartbeat = default_opportunistic_heartbeat_seconds * second

abbrev pub probe_verdict_requeue : ℕ
probe_verdict_requeue = 15 * second

abbrev pub probe_verdict_timeout : ℕ
probe_verdict_timeout = 120 * second

abbrev pub max_unschedulable_probe : ℕ
max_unschedulable_probe = 256

abbrev pub reconcile_floor : ℕ
reconcile_floor = 600 * second

abbrev pub default_progress_deadline_seconds : ℕ
default_progress_deadline_seconds = 600

-- `now.Sub(t) >= d`, for a `d` that is positive. `Sub` saturates at 292 years, which no `d` of
-- this program reaches.
abbrev pub has_elapsed : ℕ → ℕ → ℕ → Bool
has_elapsed now t d = leb (t + d) now

unfoldable pub opportunistic_heartbeat : PodPoolSpec → ℕ
opportunistic_heartbeat spec =
    let configured : ℕ = elim spec.opportunistic_heartbeat_seconds [
      | some s ↦ if ltb 0 s then s * second else default_opportunistic_heartbeat
      | none ↦ default_opportunistic_heartbeat
    ] in
    if any (λ g. is_opportunistic g.scaling) spec.groups then configured else 0

-- `wait.Jitter(d, 0.1)` is random: the parameter maps a duration to what it returned.
unfoldable pub requeue_after : (ℕ → ℕ) → PodPoolSpec → ℕ
unfolding opportunistic_heartbeat
requeue_after jitter spec =
    let h = opportunistic_heartbeat spec in if ltb 0 h then jitter h else jitter reconcile_floor

unfoldable pub deadline_seconds : PodPoolSpec → ℕ
deadline_seconds spec = elim spec.progress_deadline_seconds [
  | some s ↦ s
  | none ↦ default_progress_deadline_seconds
]

unfoldable pub progress_deadline : PodPoolSpec → ℕ
unfolding deadline_seconds
progress_deadline spec = deadline_seconds spec * second

unfoldable pub has_progress_deadline : PodPoolSpec → Bool
unfolding deadline_seconds
has_progress_deadline spec = ltb (deadline_seconds spec) 2147483647
