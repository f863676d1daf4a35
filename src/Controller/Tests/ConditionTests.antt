-- ===== src/Controller/Tests/ConditionTests.antt =====
-- Runs of the conditions and their theorems at a concrete pool.
use podpool_controller.Prelude.{
  ℕ, ◌≤◌, ◌≡◌, refl, true, false, Option, none, some, List, [], ◌∷◌, String, str_eq, str_eq_refl,
  str_eq_same, if◌then◌else◌, Bool-cases, inl, inr, ◌⊎◌, ◌↔◌,
}
use podpool_controller.Api.{true_status, false_status, Condition, PodPool}
use podpool_controller.Workload.Tests.RenderTests.{web_pool}
use podpool_controller.Controller.Conditions.{
  ConditionInputs, Finding, condition, is_empty, size, available, progressing, degraded,
  groups_ready, summary_ready, set_conditions,
}
use podpool_controller.Controller.Conditions.Laws.{
  halted_claims_nothing, published_one_generation, summary_ready_iff,
}
use podpool_controller.Controller.Conditions.Messages.{summary_ready_short}

-- `meta.SetStatusCondition` and `meta.FindStatusCondition`, without transition times.
unfoldable pub set_status_condition : Condition → List Condition → List Condition
set_status_condition c [] = c ∷ []
set_status_condition c (d ∷ cs) =
    let rest = set_status_condition c cs in if str_eq d.kind c.kind then c ∷ cs else d ∷ rest

unfoldable pub find_status_condition : String → List Condition → Option Condition
find_status_condition kind [] = none
find_status_condition kind (d ∷ cs) =
    let rest = find_status_condition kind cs in if str_eq d.kind kind then some d else rest

find-set :
    (c : Condition) (cs : List Condition)
    → find_status_condition c.kind (set_status_condition c cs) ≡ some c
unfolding set_status_condition find_status_condition
find-set c [] = rw (str_eq_refl c.kind) refl
find-set c (d ∷ cs) = elim (Bool-cases (str_eq d.kind c.kind)) [
  | inl e ↦ rw (e, str_eq_refl c.kind) refl
  | inr e ↦ rw e (rw e (find-set c cs))
]

find-set_other :
    (c : Condition) (k : String) (cs : List Condition)
    → str_eq c.kind k ≡ false
    → find_status_condition k (set_status_condition c cs) ≡ find_status_condition k cs
unfolding set_status_condition find_status_condition
find-set_other c k [] h = rw h refl
find-set_other c k (d ∷ cs) h = elim (Bool-cases (str_eq d.kind c.kind)) [
  | inl e ↦ rw (e, h, str_eq_same d.kind c.kind k e h) refl
  | inr e ↦ rw e (elim (Bool-cases (str_eq d.kind k)) [
    | inl f ↦ rw f refl
    | inr f ↦ rw f (find-set_other c k cs h)
  ])
]

abbrev three : ℕ → String
three n = "3"

abbrev calm : ConditionInputs
calm = record {
  target_degraded = false;
  unplaced = 0;
  ready = 2;
  desired = 3;
  failed_groups = [];
  stalled_groups = [];
  not_owned_groups = [];
  terminal_groups = [];
  pool_invalid = false;
  paused = false;
  watch_failed = false;
}

abbrev paused : ConditionInputs
paused = record calm { paused = true }

abbrev after_pause : PodPool
after_pause = set_conditions three set_status_condition web_pool paused

abbrev after_work : PodPool
after_work = set_conditions three set_status_condition web_pool calm

halted_claims_nothing_example :
    (after_pause.status.observed_generation ≡ web_pool.status.observed_generation)
    × ((f : Finding) × (f.status ≡ false_status)
        × (find_status_condition "Ready" after_pause.status.conditions
            ≡ some (condition "Ready" web_pool.status.observed_generation f))
        × (find_status_condition "Progressing" after_pause.status.conditions
            ≡ some (condition "Progressing" web_pool.status.observed_generation f)))
    × (find_status_condition "Available" after_pause.status.conditions
        ≡ find_status_condition "Available" web_pool.status.conditions)
halted_claims_nothing_example =
    halted_claims_nothing three set_status_condition find_status_condition find-set find-set_other
      web_pool paused "Available" refl refl refl

published_one_generation_run :
    (after_work.status.observed_generation ≡ web_pool.generation)
    × (find_status_condition "Available" after_work.status.conditions
        ≡ some (condition "Available" web_pool.generation (available three calm)))
    × (find_status_condition "Progressing" after_work.status.conditions
        ≡ some (condition "Progressing" web_pool.generation (progressing three calm)))
    × (find_status_condition "TargetDegraded" after_work.status.conditions
        ≡ some (condition "TargetDegraded" web_pool.generation (degraded three calm)))
    × (find_status_condition "GroupsReady" after_work.status.conditions
        ≡ some (condition "GroupsReady" web_pool.generation (groups_ready three calm)))
    × (find_status_condition "Ready" after_work.status.conditions
        ≡ some (condition "Ready" web_pool.generation (summary_ready three 2 3 0 [] [] [])))
published_one_generation_run =
    published_one_generation three set_status_condition find_status_condition find-set
      find-set_other web_pool calm refl refl

abbrev wanted : ℕ
wanted = 3

abbrev left_over : ℕ
left_over = 0

summary_ready_iff_example :
    ((summary_ready three wanted wanted left_over [] [] []).status ≡ true_status) ↔ (
      (wanted ≡ 0)
      ⊎ ((is_empty [] ≡ true)
          × (is_empty [] ≡ true)
          × (left_over ≡ 0)
          × (is_empty [] ≡ true)
          × (wanted ≤ wanted)))
summary_ready_iff_example = summary_ready_iff three wanted wanted left_over [] [] []

abbrev wordy : List String
wordy = "a-group-with-a-rather-long-name" ∷ "and-another-one" ∷ []

summary_ready_short_run : size (summary_ready three 0 3 0 wordy [] []).message ≤ 60
summary_ready_short_run = summary_ready_short three 0 3 0 wordy [] []
