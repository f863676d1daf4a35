-- ===== src/Controller/Conditions/Laws.antt =====
-- internal/controller/conditions.go: the conditions and the generation after a pass.
use podpool_controller.Prelude.{
  ℕ, ◌≤◌, ◌≡◌, refl, subst, ◌∙◌, true, false, ◌||◌, Option, some, List, String, str_eq, arith, ◌↔◌,
  ◌⊎◌, inl, inr, Bool-cases,
}
use podpool_controller.Api.{true_status, false_status, Condition, PodPoolStatus, PodPool}
use podpool_controller.Controller.Conditions.{
  ConditionInputs, Finding, found, condition, is_empty, available, progressing, degraded,
  groups_ready, summary_ready, halted_conditions, publish, set_conditions,
}

-- The kinds of conditions that a halted pass does not touch.
abbrev pub Untouched : String → Type 0
Untouched kind = (str_eq "Ready" kind ≡ false) × (str_eq "Progressing" kind ≡ false)

module _ (decimal : ℕ → String) (set : Condition → List Condition → List Condition)
    (find : String → List Condition → Option Condition)
    (find-set : (c : Condition) (cs : List Condition) → find c.kind (set c cs) ≡ some c)
    (find-set_other : (c : Condition) (k : String) (cs : List Condition)
      → str_eq c.kind k ≡ false
      → find k (set c cs) ≡ find k cs) where
  abbrev cond : String → PodPool → Option Condition
  cond kind pool = find kind pool.status.conditions

  abbrev ClaimsNothing : PodPoolStatus → PodPoolStatus → String → Type 0
  ClaimsNothing before after kind =
      (after.observed_generation ≡ before.observed_generation)
      × ((f : Finding) × (f.status ≡ false_status)
          × (find "Ready" after.conditions ≡ some (condition "Ready" before.observed_generation f))
          × (find "Progressing" after.conditions
              ≡ some (condition "Progressing" before.observed_generation f)))
      × (find kind after.conditions ≡ find kind before.conditions)

  halted_conditions-ClaimsNothing :
      (before : PodPoolStatus) (reason message kind : String)
      → Untouched kind
      → ClaimsNothing before (halted_conditions decimal set before reason message) kind
  unfolding halted_conditions
  halted_conditions-ClaimsNothing before reason message kind (not_ready, not_progressing) =
      let halt = found false_status reason message in
      let ready = condition "Ready" before.observed_generation halt in
      let progress = condition "Progressing" before.observed_generation halt in
      let first = set progress before.conditions in
      (
        refl,
        (
          halt,
          refl,
          find-set ready first,
          find-set_other ready "Progressing" first refl ∙ find-set progress before.conditions,
        ),
        find-set_other ready kind first not_ready
            ∙ find-set_other progress kind before.conditions not_progressing,
      )

  publish-ClaimsNothing :
      (generation : ℕ) (before : PodPoolStatus) (i : ConditionInputs) (kind : String)
      → (i.paused || i.watch_failed) ≡ true
      → Untouched kind
      → ClaimsNothing before (publish decimal set generation before i) kind
  unfolding publish
  publish-ClaimsNothing generation before i kind halted untouched = elim (Bool-cases i.paused) [
    | inl e ↦
        rw e
          (halted_conditions-ClaimsNothing before "Paused" "Reconciliation paused" kind untouched)
    | inr e ↦
        let failed : i.watch_failed ≡ true = subst (λ b. (b || i.watch_failed) ≡ true) e halted in
        rw (e, failed)
          (halted_conditions-ClaimsNothing before "WatchSetupFailed"
            "No watch could be established for the workload type" kind untouched)
  ]

  -- A pass that halts, because the pool is paused or its workloads cannot be watched, claims nothing:
  -- over a SetStatusCondition that replaces the condition of its kind and no other, the observed
  -- generation stays, Ready and Progressing are False and carry that generation, and the condition of
  -- any other kind stays as it was.
  pub halted_claims_nothing :
      (pool : PodPool) (i : ConditionInputs) (kind : String)
      → (i.paused || i.watch_failed) ≡ true
      → str_eq "Ready" kind ≡ false
      → str_eq "Progressing" kind ≡ false
      → ((set_conditions decimal set pool i).status.observed_generation
          ≡ pool.status.observed_generation)
        × ((f : Finding) × (f.status ≡ false_status)
            × (find "Ready" (set_conditions decimal set pool i).status.conditions
                ≡ some (condition "Ready" pool.status.observed_generation f))
            × (find "Progressing" (set_conditions decimal set pool i).status.conditions
                ≡ some (condition "Progressing" pool.status.observed_generation f)))
        × (find kind (set_conditions decimal set pool i).status.conditions
            ≡ find kind pool.status.conditions)
  unfolding set_conditions
  halted_claims_nothing pool i kind halted not_ready not_progressing =
      publish-ClaimsNothing pool.generation pool.status i kind halted (not_ready, not_progressing)

  -- A pass that is neither paused nor without a watch speaks of one generation: over a
  -- SetStatusCondition that replaces the condition of its kind and no other, the observed generation
  -- and the five conditions all carry the pool's.
  pub published_one_generation :
      (pool : PodPool) (i : ConditionInputs)
      → i.paused ≡ false
      → i.watch_failed ≡ false
      → ((set_conditions decimal set pool i).status.observed_generation ≡ pool.generation)
        × (find "Available" (set_conditions decimal set pool i).status.conditions
            ≡ some (condition "Available" pool.generation (available decimal i)))
        × (find "Progressing" (set_conditions decimal set pool i).status.conditions
            ≡ some (condition "Progressing" pool.generation (progressing decimal i)))
        × (find "TargetDegraded" (set_conditions decimal set pool i).status.conditions
            ≡ some (condition "TargetDegraded" pool.generation (degraded decimal i)))
        × (find "GroupsReady" (set_conditions decimal set pool i).status.conditions
            ≡ some (condition "GroupsReady" pool.generation (groups_ready decimal i)))
        × (find "Ready" (set_conditions decimal set pool i).status.conditions
            ≡ some (
                condition "Ready" pool.generation (
                  summary_ready decimal i.ready i.desired i.unplaced i.failed_groups
                    i.terminal_groups i.stalled_groups)))
  unfolding set_conditions groups_ready degraded progressing available
  published_one_generation pool i a b =
      rw (publish, a, b)
        (let g : ℕ = pool.generation in
          let c1 : Condition = condition "Available" g (available decimal i) in
          let c2 : Condition = condition "Progressing" g (progressing decimal i) in
          let c3 : Condition = condition "TargetDegraded" g (degraded decimal i) in
          let c4 : Condition = condition "GroupsReady" g (groups_ready decimal i) in
          let c5 : Condition = condition "Ready" g (
            summary_ready decimal i.ready i.desired i.unplaced i.failed_groups i.terminal_groups
              i.stalled_groups) in
          let s1 : List Condition = set c1 pool.status.conditions in
          let s2 : List Condition = set c2 s1 in
          let s3 : List Condition = set c3 s2 in
          let s4 : List Condition = set c4 s3 in
          (
            refl,
            find-set_other c5 "Available" s4 refl
                ∙ find-set_other c4 "Available" s3 refl
                ∙ find-set_other c3 "Available" s2 refl
                ∙ find-set_other c2 "Available" s1 refl
                ∙ find-set c1 pool.status.conditions,
            find-set_other c5 "Progressing" s4 refl
                ∙ find-set_other c4 "Progressing" s3 refl
                ∙ find-set_other c3 "Progressing" s2 refl
                ∙ find-set c2 s1,
            find-set_other c5 "TargetDegraded" s4 refl
                ∙ find-set_other c4 "TargetDegraded" s3 refl
                ∙ find-set c3 s2,
            find-set_other c5 "GroupsReady" s4 refl ∙ find-set c4 s3,
            find-set c5 s4,
          ))

-- The summary is Ready exactly if the pool is scaled to zero, or no group failed, nothing is unplaced,
-- nothing is stalled and at least as many replicas are ready as are wanted.
pub summary_ready_iff :
    (decimal : ℕ → String) (ready desired unplaced : ℕ) (failed terminal stalled : List String)
    → ((summary_ready decimal ready desired unplaced failed terminal stalled).status ≡ true_status)
      ↔ ((desired ≡ 0)
          ⊎ ((is_empty terminal ≡ true)
              × (is_empty failed ≡ true)
              × (unplaced ≡ 0)
              × (is_empty stalled ≡ true)
              × (desired ≤ ready)))
unfolding summary_ready
summary_ready_iff decimal ready desired unplaced failed terminal stalled = ground arith
