-- ===== src/Controller/Reconcile/Due.antt =====
-- internal/controller/podpool_controller.go: when a full pass asks for the next one.
use podpool_controller.Prelude.{
  ℕ, ◌+◌, ◌-◌, ◌≤◌, ◌<◌, Bool, true, false, some, List, [], ◌∷◌, ◌++◌, map, String, ◌≡◌, refl, inl,
  inr, length, Bool-cases, if◌then◌else◌, ◌==◌, get_elem?, max,
}
use podpool_controller.Json.{Fields}
use podpool_controller.Api.{GroupStatus, PodPool}
use podpool_controller.Workload.Object.{Gvk}
use podpool_controller.Controller.Timing.{
  second, probe_verdict_requeue, progress_deadline, has_progress_deadline,
}
use podpool_controller.Controller.Probe.{Observations}
use podpool_controller.Controller.Progress.{shortfall, deadline_aware_requeue}
use podpool_controller.Controller.Progress.Deadline.{requeue_by_deadline}
use podpool_controller.Controller.Errors.{Error, leaf}
use podpool_controller.Controller.Sweep.{sweep_all_orphans}
use podpool_controller.Controller.Reconcile.{Libraries, Answers, Memory, Exit}
use podpool_controller.Controller.Reconcile.Body.{ending, final_rows, filled, inputs_of}
use podpool_controller.Controller.Reconcile.Rows.{set_conditions-groups}
use podpool_controller.Controller.Reconcile.Run.{placed, probed, looped, full_exit}

-- A pass that returns no error waits, and an awaited verdict sets the wait.
ending_waits :
    (errors : List Error) (terminal_groups : List String) (awaited : Bool) (wait : ℕ)
    → (ending errors terminal_groups awaited wait).1 ≡ []
    → (ending errors terminal_groups awaited wait).0
      ≡ (if awaited then probe_verdict_requeue else wait)
unfolding ending
ending_waits [] terminal_groups true wait h = refl
ending_waits [] terminal_groups false wait h = refl
ending_waits (e ∷ errors) terminal_groups awaited wait h =
    elim (Bool-cases (length (e ∷ errors) == length terminal_groups)) [
      | inr other ↦ let clash : e ∷ errors ≡ [] = rw (other) at h in absurd (cc)
      | inl same ↦ elim (Bool-cases awaited) [
        | inl awaits ↦ rw (same, awaits) refl
        | inr quiet ↦ rw (same, quiet) refl
      ]
    ]

-- Whether the wait of a pass is that of an awaited verdict, or leads no further than to the time.
abbrev pub IsDue : Bool → ℕ → ℕ → Type 0
IsDue true left wait = wait ≡ probe_verdict_requeue
IsDue false left wait = (second ≤ wait) × (wait ≤ max second left)

waits-IsDue :
    (awaited : Bool) (left wait asked : ℕ)
    → asked ≡ (if awaited then probe_verdict_requeue else wait)
    → second ≤ wait
    → wait ≤ max second left
    → IsDue awaited left asked
waits-IsDue true left wait asked e low high = e
waits-IsDue false left wait asked e low high = rw (e) (low, high)

module _ (libs : Libraries) (ans : Answers) (mem : Memory) (before pool : PodPool)
    (was_paused : Bool) (gvk : Gvk) (template : Fields) (observed : Observations) where
  abbrev pub full : Exit
  full = full_exit libs ans mem before pool was_paused gvk template observed

  full_exit-groups :
      full.pool.status.groups
      ≡ (final_rows libs ans before pool (looped libs ans mem before pool gvk template observed)).1
  unfolding full_exit
  full_exit-groups =
      let c = looped libs ans mem before pool gvk template observed in
      let (stalled, rows, totals) = final_rows libs ans before pool c in
      let result = placed libs ans mem pool observed in
      let counted = filled libs ans pool result rows totals in
      set_conditions-groups libs.decimal libs.set_condition counted
        (inputs_of libs ans counted result c stalled)

  full_exit-waits :
      full.errors ≡ []
      → full.requeue_after ≡ (
          if (probed libs ans mem pool observed).pending
          then probe_verdict_requeue
          else deadline_aware_requeue ans.jitter pool.spec
              (final_rows libs ans before pool
                (looped libs ans mem before pool gvk template observed)).1
              ans.now)
  unfolding full_exit
  full_exit-waits quiet =
      let c = looped libs ans mem before pool gvk template observed in
      ending_waits
        (c.errors
          ++ map leaf (sweep_all_orphans ans.cluster before.status.groups pool gvk c.reconciled).1)
        c.terminal_groups (probed libs ans mem pool observed).pending
        (deadline_aware_requeue ans.jitter pool.spec (final_rows libs ans before pool c).1 ans.now)
        quiet

  -- A deadline is not slept through. A full pass that returns no error, with the deadline enabled,
  -- publishes no row that is short and not yet stalled without asking to be called again by the time
  -- that the row's deadline runs out, or a second from now where less is left; except while it awaits
  -- the verdict on a probe: then it asks for the fifteen seconds that the verdict is given, whatever the
  -- deadlines.
  pub full_exit-IsDue :
      (i t : ℕ) (gs : GroupStatus)
      → full.errors ≡ []
      → has_progress_deadline pool.spec ≡ true
      → get_elem? full.pool.status.groups i ≡ some gs
      → 0 < shortfall gs
      → gs.last_progress_time ≡ some t
      → ans.now < t + progress_deadline pool.spec
      → IsDue
          (probed libs ans mem pool observed).pending
          (t + progress_deadline pool.spec - ans.now)
          full.requeue_after
  full_exit-IsDue i t gs quiet enabled found short stamped ahead =
      let rows =
        (final_rows libs ans before pool
          (looped libs ans mem before pool gvk template observed)).1 in
      let (low, high) =
        requeue_by_deadline ans.jitter pool.spec rows ans.now i t gs enabled
          (rw (full_exit-groups) at found) short stamped ahead in
      waits-IsDue (probed libs ans mem pool observed).pending
        (t + progress_deadline pool.spec - ans.now)
        (deadline_aware_requeue ans.jitter pool.spec rows ans.now) full.requeue_after
        (full_exit-waits quiet) low high
