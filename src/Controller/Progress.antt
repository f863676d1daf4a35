-- ===== src/Controller/Progress.antt =====
-- internal/controller/podpool_controller.go and opportunistic.go: the clock of each group's progress,
-- the deadline, and the sums that the pool's status reports.
pub mod Deadline
pub mod Totals
use podpool_controller.Prelude.{
  ℕ, ◌+◌, ◌-◌, ◌*◌, ◌/◌, ◌%◌, ◌≡◌, Bool, true, false, not, ◌&&◌, ◌||◌, List, [], ◌∷◌, map, Option,
  none, some, String, str_eq, ltb, leb, ◌==◌, if◌then◌else◌, sum, max_int32, ℤ, pos, negsuc,
}
use podpool_controller.Api.{GroupStatus, PodPoolSpec, PodPool}
use podpool_controller.Controller.Timing.{
  second, has_elapsed, requeue_after, progress_deadline, has_progress_deadline,
}

-- `max(int32(0), target - ready)`.
abbrev pub shortfall : GroupStatus → ℕ
shortfall gs = gs.target_replicas - gs.ready_replicas

abbrev stamped : ℕ → GroupStatus → GroupStatus
stamped now gs = record gs { last_progress_time = some now }

-- The cases of the switch, given the row that the previous pass wrote.
abbrev restamps : GroupStatus → GroupStatus → Bool → Bool
restamps gs prev gen_changed =
    gen_changed
    || shortfall prev == 0
    || ltb (shortfall gs) (shortfall prev)
    || ltb prev.target_replicas gs.target_replicas

abbrev continued : GroupStatus → Option GroupStatus → Bool → ℕ → GroupStatus
continued gs none gen_changed now = stamped now gs
continued gs (some prev) gen_changed now =
    if restamps gs prev gen_changed
    then stamped now gs
    else record gs { last_progress_time = prev.last_progress_time }

unfoldable pub stamp_group_progress : GroupStatus → Option GroupStatus → Bool → ℕ → GroupStatus
stamp_group_progress gs prev gen_changed now =
    if shortfall gs == 0
    then record gs { last_progress_time = none }
    else continued gs prev gen_changed now

unfoldable pub find_group_status : List GroupStatus → String → Option GroupStatus
find_group_status [] name = none
find_group_status (gs ∷ rest) name =
    if str_eq gs.name name then some gs else find_group_status rest name

-- Only the groups that this pass reconciled are stamped.
unfoldable pub stamp_all_progress :
    List GroupStatus → ℕ → (String → Bool) → ℕ → ℕ → List GroupStatus → List GroupStatus
unfolding stamp_group_progress find_group_status
stamp_all_progress before before_generation reconciled generation now [] = []
stamp_all_progress before before_generation reconciled generation now (gs ∷ rest) =
    let more = stamp_all_progress before before_generation reconciled generation now rest in
    let gen_changed = not (before_generation == generation) in
    (if reconciled gs.name
      then stamp_group_progress gs (find_group_status before gs.name) gen_changed now
      else gs)
    ∷ more

-- A group is stalled that is short since the deadline at least.
abbrev overdue : ℕ → ℕ → Option ℕ → Bool
overdue now deadline none = false
overdue now deadline (some t) = has_elapsed now t deadline

unfoldable pub is_stalled : ℕ → ℕ → GroupStatus → Bool
is_stalled now deadline gs = ltb 0 (shortfall gs) && overdue now deadline gs.last_progress_time

unfoldable pub stalled_names : ℕ → ℕ → List GroupStatus → List String
unfolding is_stalled
stalled_names now deadline [] = []
stalled_names now deadline (gs ∷ rest) =
    let more = stalled_names now deadline rest in
    if is_stalled now deadline gs then gs.name ∷ more else more

unfoldable pub evaluate_stalled : PodPoolSpec → List GroupStatus → ℕ → List String
unfolding stalled_names progress_deadline has_progress_deadline
evaluate_stalled spec groups now =
    if has_progress_deadline spec then stalled_names now (progress_deadline spec) groups else []

-- The time until a group's deadline shortens the wait, if it lies ahead.
abbrev sooner : ℕ → ℕ → ℕ → Option ℕ → ℕ
sooner base now deadline none = base
sooner base now deadline (some t) =
    let remaining = t + deadline - now in
    if ltb 0 remaining && ltb remaining base then remaining else base

abbrev pub next_wait : ℕ → ℕ → ℕ → GroupStatus → ℕ
next_wait base now deadline gs =
    if ltb 0 (shortfall gs) then sooner base now deadline gs.last_progress_time else base

unfoldable pub shorten : ℕ → ℕ → ℕ → List GroupStatus → ℕ
shorten base now deadline [] = base
shorten base now deadline (gs ∷ rest) = shorten (next_wait base now deadline gs) now deadline rest

unfoldable pub deadline_aware_requeue : (ℕ → ℕ) → PodPoolSpec → List GroupStatus → ℕ → ℕ
unfolding shorten requeue_after progress_deadline has_progress_deadline
deadline_aware_requeue jitter spec groups now =
    let base = requeue_after jitter spec in
    let soon =
      if has_progress_deadline spec
      then shorten base now (progress_deadline spec) groups
      else base in
    if ltb soon second then second else soon

-- From an `int64` to the `int32` that the API stores.
unfoldable pub clamp_int32 : ℤ → ℕ
clamp_int32 (negsuc n) = 0
clamp_int32 (pos n) = if ltb max_int32 n then max_int32 else n

-- How many whole percent `replicas` is of `total`. The conversion of the floating-point quotient
-- cuts off its fraction; where the exact quotient is a whole number, `rounds_down` says whether the
-- computed one falls just below it. Elsewhere the rounding error does not reach a whole number.
unfoldable pub share_of_total : (ℕ → ℕ → Bool) → ℕ → ℕ → ℕ
share_of_total rounds_down replicas total =
    if total == 0 || replicas == 0
    then 0
    else if leb total replicas
    then 100
    else if replicas * 100 % total == 0 && rounds_down replicas total
    then replicas * 100 / total - 1
    else replicas * 100 / total

pub record GroupTotals : Type 0 where
  pub replicas : ℕ
  pub ready : ℕ
  pub updated : ℕ

-- The rows with their shares, and the sums.
unfoldable pub summarise_groups : (ℕ → ℕ → Bool) → List GroupStatus → List GroupStatus × GroupTotals
unfolding clamp_int32 share_of_total
summarise_groups rounds_down statuses =
    let total = clamp_int32 (pos (sum (map {A = GroupStatus} (λ gs. gs.replicas) statuses))) in
    (
      map {A = GroupStatus}
          (λ gs. record gs { share_percent = share_of_total rounds_down gs.replicas total })
          statuses,
      record {
        replicas = total;
        ready = clamp_int32 (pos (sum (map {A = GroupStatus} (λ gs. gs.ready_replicas) statuses)));
        updated =
            clamp_int32 (pos (sum (map {A = GroupStatus} (λ gs. gs.updated_replicas) statuses)));
      },
    )
