-- ===== src/Controller/Progress/Deadline.antt =====
-- internal/controller: a group that stops making progress is reported, and in time.
use podpool_controller.Prelude.{
  ℕ, ◌+◌, ◌-◌, ◌≤◌, ◌<◌, ◌≡◌, refl, ◌⊎◌, inl, inr, Bool, true, false, Bool-cases, List, [], ◌∷◌,
  some, get_elem?, any, max, zero, suc, str_eq_iff, arith, str_eq,
}
use native.Mathlib.Nat.{le_trans}
use podpool_controller.Api.{GroupStatus, PodPoolSpec}
use podpool_controller.Controller.Timing.{
  second, requeue_after, progress_deadline, has_progress_deadline,
}
use podpool_controller.Controller.Progress.{
  shortfall, stamp_group_progress, is_stalled, stalled_names, evaluate_stalled, shorten,
  deadline_aware_requeue, next_wait,
}

-- One pass over a group: the row before its time is stamped, and the time.
pub record Seen : Type 0 where
  pub row : GroupStatus
  pub now : ℕ

-- The row of a group after successive passes of one generation.
pub progress_run : GroupStatus → List Seen → GroupStatus
progress_run gs [] = gs
progress_run gs (p ∷ ps) = progress_run (stamp_group_progress p.row (some gs) false p.now) ps

-- The passes bring no progress: each finds the group short, by no less than before, and asks for no
-- more replicas than before.
abbrev pub NoProgress : GroupStatus → List Seen → Type 0
NoProgress gs [] = Unit
NoProgress gs (p ∷ ps) =
    (0 < shortfall gs)
    × (shortfall gs ≤ shortfall p.row)
    × (p.row.target_replicas ≤ gs.target_replicas)
    × NoProgress (stamp_group_progress p.row (some gs) false p.now) ps

no_restamp :
    (gs row : GroupStatus) (now : ℕ)
    → 0 < shortfall gs
    → shortfall gs ≤ shortfall row
    → row.target_replicas ≤ gs.target_replicas
    → ((stamp_group_progress row (some gs) false now).last_progress_time ≡ gs.last_progress_time)
      × (shortfall (stamp_group_progress row (some gs) false now) ≡ shortfall row)
unfolding stamp_group_progress
no_restamp gs row now s le t = ground arith

progress_run_keeps :
    (gs : GroupStatus) (ps : List Seen)
    → 0 < shortfall gs
    → NoProgress gs ps
    → ((progress_run gs ps).last_progress_time ≡ gs.last_progress_time)
      × (0 < shortfall (progress_run gs ps))
unfolding progress_run
progress_run_keeps gs [] s n = (refl, s)
progress_run_keeps gs (p ∷ ps) s (a, b, c, rest) =
    let (kept, short) = no_restamp gs p.row p.now a b c in
    let (time, left) =
      progress_run_keeps (stamp_group_progress p.row (some gs) false p.now) ps (omega arith) rest in
    (cc, left)

-- The deadline runs from the first shortfall. However many passes follow without progress, whether
-- the ready count stays or falls, the group is stalled as soon as the deadline has passed since its
-- time was stamped.
pub stall_fires :
    (gs : GroupStatus) (ps : List Seen) (since deadline now : ℕ)
    → gs.last_progress_time ≡ some since
    → 0 < shortfall gs
    → NoProgress gs ps
    → since + deadline ≤ now
    → is_stalled now deadline (progress_run gs ps) ≡ true
unfolding is_stalled
stall_fires gs ps since deadline now t s n d =
    let (kept, left) = progress_run_keeps gs ps s n in
    let time : (progress_run gs ps).last_progress_time ≡ some since = cc in ground (arith, time)

-- Work that moves is never called stalled: a pass that stamps the time, for any of its reasons,
-- leaves the group unstalled for any positive deadline.
pub fresh_stamp_unstalled :
    (row : GroupStatus) (prev : GroupStatus) (gen_changed : Bool) (now deadline : ℕ)
    → 0 < deadline
    → (gen_changed ≡ true)
      ⊎ (shortfall prev ≡ 0)
      ⊎ (shortfall row < shortfall prev)
      ⊎ (prev.target_replicas < row.target_replicas)
    → is_stalled now deadline (stamp_group_progress row (some prev) gen_changed now) ≡ false
unfolding is_stalled stamp_group_progress
fresh_stamp_unstalled row prev gen_changed now deadline d why = ground arith

next_wait-le : (base now deadline : ℕ) (gs : GroupStatus) → next_wait base now deadline gs ≤ base
next_wait-le base now deadline gs = ground arith

next_wait_due :
    (base now deadline t : ℕ) (gs : GroupStatus)
    → 0 < shortfall gs
    → gs.last_progress_time ≡ some t
    → now < t + deadline
    → next_wait base now deadline gs ≤ t + deadline - now
next_wait_due base now deadline t gs s e l = ground (arith, e)

shorten-le :
    (base now deadline : ℕ) (groups : List GroupStatus) → shorten base now deadline groups ≤ base
unfolding shorten
shorten-le base now deadline [] = omega arith
shorten-le base now deadline (gs ∷ rest) =
    le_trans (shorten-le (next_wait base now deadline gs) now deadline rest)
      (next_wait-le base now deadline gs)

shorten_due :
    (base now deadline t i : ℕ) (groups : List GroupStatus) (gs : GroupStatus)
    → get_elem? groups i ≡ some gs
    → 0 < shortfall gs
    → gs.last_progress_time ≡ some t
    → now < t + deadline
    → shorten base now deadline groups ≤ t + deadline - now
unfolding shorten
shorten_due base now deadline t i [] gs at s e l = absurd (cc)
shorten_due base now deadline t zero (g ∷ rest) gs at s e l =
    let same : g ≡ gs = cc in
    le_trans (shorten-le (next_wait base now deadline g) now deadline rest)
      (rw same (next_wait_due base now deadline t gs s e l))
shorten_due base now deadline t (suc i) (g ∷ rest) gs at s e l =
    shorten_due (next_wait base now deadline g) now deadline t i rest gs at s e l

-- The wait that the deadlines ask for: with the deadline enabled, it is no longer than until the
-- deadline of any group that is short and not yet stalled runs out, but a second at the least.
pub requeue_by_deadline :
    (jitter : ℕ → ℕ) (spec : PodPoolSpec) (groups : List GroupStatus) (now i t : ℕ)
    (gs : GroupStatus)
    → has_progress_deadline spec ≡ true
    → get_elem? groups i ≡ some gs
    → 0 < shortfall gs
    → gs.last_progress_time ≡ some t
    → now < t + progress_deadline spec
    → (second ≤ deadline_aware_requeue jitter spec groups now)
      × (deadline_aware_requeue jitter spec groups now
          ≤ max second (t + progress_deadline spec - now))
unfolding deadline_aware_requeue
requeue_by_deadline jitter spec groups now i t gs d at s e l = ground (
  arith,
  d,
  shorten_due (requeue_after jitter spec) now (progress_deadline spec) t i groups gs at s e l,
)

stalled-at :
    (now deadline i : ℕ) (groups : List GroupStatus) (gs : GroupStatus)
    → get_elem? groups i ≡ some gs
    → is_stalled now deadline gs ≡ true
    → any (str_eq gs.name) (stalled_names now deadline groups) ≡ true
unfolding stalled_names
stalled-at now deadline i [] gs at s = absurd (cc)
stalled-at now deadline zero (g ∷ rest) gs at s =
    let same : g ≡ gs = cc in rw same (rw s (ground (arith, (str_eq_iff gs.name gs.name).1 refl)))
stalled-at now deadline (suc i) (g ∷ rest) gs at s = elim (Bool-cases (is_stalled now deadline g)) [
  | inl e ↦ rw e (ground (arith, stalled-at now deadline i rest gs at s))
  | inr e ↦ rw e (stalled-at now deadline i rest gs at s)
]

-- The pool names every group that the deadline caught: with the deadline enabled, a group that has
-- been short since the deadline at least is among the stalled ones.
pub evaluate_stalled_complete :
    (spec : PodPoolSpec) (groups : List GroupStatus) (now i t : ℕ) (gs : GroupStatus)
    → has_progress_deadline spec ≡ true
    → get_elem? groups i ≡ some gs
    → 0 < shortfall gs
    → gs.last_progress_time ≡ some t
    → t + progress_deadline spec ≤ now
    → any (str_eq gs.name) (evaluate_stalled spec groups now) ≡ true
unfolding evaluate_stalled
evaluate_stalled_complete spec groups now i t gs d at s e l = rw d (
    stalled-at now (progress_deadline spec) i groups gs at (unfold is_stalled in ground (arith, e)))
