-- ===== src/Controller/Tests/ProgressTests.antt =====
-- The deadline and the totals at concrete rows.
use podpool_controller.Prelude.{
  ℕ, ◌+◌, ◌-◌, ◌*◌, ◌≤◌, ◌≡◌, refl, inl, inr, max, true, false, List, [], ◌∷◌, any, Option, none,
  some, String, arith, str_eq, max_int32,
}
use podpool_controller.Json.{empty}
use podpool_controller.Api.{GroupStatus, PodPoolSpec}
use podpool_controller.Controller.Timing.{second, progress_deadline, has_progress_deadline}
use podpool_controller.Controller.Progress.{
  stamp_group_progress, is_stalled, evaluate_stalled, deadline_aware_requeue, share_of_total,
  summarise_groups,
}
use podpool_controller.Controller.Progress.Deadline.{
  Seen, progress_run, stall_fires, fresh_stamp_unstalled, requeue_by_deadline,
  evaluate_stalled_complete,
}
use podpool_controller.Controller.Progress.Totals.{share_of_total_exact, summarise_groups_totals}

abbrev row : String → ℕ → ℕ → Option ℕ → GroupStatus
row name target ready time = record {
  name = name;
  ready = false;
  reason = "";
  message = "";
  replicas = target;
  target_replicas = target;
  ready_replicas = ready;
  updated_replicas = ready;
  share_percent = 0;
  last_progress_time = time;
  workload_ref = none;
}

abbrev spec : PodPoolSpec
spec = record {
  replicas = 20;
  workload_template = empty;
  groups = [];
  opportunistic_heartbeat_seconds = none;
  progress_deadline_seconds = some 60;
}

abbrev stuck : List Seen
stuck =
    record { row = row "base" 5 3 none; now = 40 }
    ∷ record { row = row "base" 5 2 none; now = 90 }
    ∷ []

stall_fires_example : is_stalled 100 60 (progress_run (row "base" 5 3 (some 10)) stuck) ≡ true
unfolding stamp_group_progress
stall_fires_example =
    stall_fires (row "base" 5 3 (some 10)) stuck 10 60 100 refl (omega arith) (omega arith)
      (omega arith)

fresh_stamp_unstalled_run :
    is_stalled 100 60
      (stamp_group_progress (row "base" 5 4 none) (some (row "base" 5 3 (some 10))) false 100)
    ≡ false
fresh_stamp_unstalled_run =
    fresh_stamp_unstalled (row "base" 5 4 none) (row "base" 5 3 (some 10)) false 100 60
      (omega arith) (inr (inr (inl (omega arith))))

abbrev rows : List GroupStatus
rows = row "base" 5 5 none ∷ row "burst" 7 3 (some (40 * second)) ∷ []

requeue_by_deadline_run :
    (second ≤ deadline_aware_requeue (λ d. d) spec rows (70 * second))
    × (deadline_aware_requeue (λ d. d) spec rows (70 * second)
        ≤ max second (40 * second + progress_deadline spec - 70 * second))
unfolding has_progress_deadline progress_deadline
requeue_by_deadline_run =
    requeue_by_deadline (λ d. d) spec rows (70 * second) 1 (40 * second)
      (row "burst" 7 3 (some (40 * second))) refl refl (omega arith) refl (omega arith)

wakes_after_half_a_minute : deadline_aware_requeue (λ d. d) spec rows (70 * second) ≡ 30 * second
unfolding deadline_aware_requeue
wakes_after_half_a_minute = refl

evaluate_stalled_complete_run :
    any (str_eq "burst") (evaluate_stalled spec rows (100 * second)) ≡ true
unfolding has_progress_deadline progress_deadline
evaluate_stalled_complete_run =
    evaluate_stalled_complete spec rows (100 * second) 1 (40 * second)
      (row "burst" 7 3 (some (40 * second))) refl refl (omega arith) refl (omega arith)

share_of_total_exact_run :
    (share_of_total (λ a b. false) 1 3 * 3 ≤ 1 * 100)
    × (1 * 100 ≤ share_of_total (λ a b. false) 1 3 * 3 + 3)
share_of_total_exact_run = share_of_total_exact (λ a b. false) 1 3 (omega arith) (omega arith)

-- 29 / 100 * 100 is 28.999999999999996 in floating point.
share_of_29 : share_of_total (λ a b. true) 29 100 ≡ 28
unfolding share_of_total
share_of_29 = refl

abbrev huge : List GroupStatus
huge = row "a" 2000000000 0 none ∷ row "b" 2000000000 0 none ∷ []

summarise_groups_totals_example : (summarise_groups (λ a b. false) huge).1.replicas ≡ max_int32
summarise_groups_totals_example = (summarise_groups_totals (λ a b. false) huge).0
