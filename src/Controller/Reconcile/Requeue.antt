-- ===== src/Controller/Reconcile/Requeue.antt =====
-- internal/controller/podpool_controller.go: when a full pass returns an error, and when it comes back.
use podpool_controller.Prelude.{
  ℕ, Bool, true, false, List, [], ◌∷◌, ◌++◌, map, String, ◌≡◌, refl, ◌↔◌, ◌⊎◌, inl, inr, length,
  length-append, length-map, append-nil, Bool-cases, All, ◌==◌, arith,
}
use podpool_controller.Json.{Fields}
use podpool_controller.Api.{PodPool}
use podpool_controller.Workload.Object.{Gvk}
use podpool_controller.Controller.Probe.{Observations}
use podpool_controller.Controller.Progress.{deadline_aware_requeue}
use podpool_controller.Controller.Errors.{Error, leaf}
use podpool_controller.Controller.Sweep.{sweep_all_orphans}
use podpool_controller.Controller.Loop.{nothing_collected}
use podpool_controller.Controller.Loop.Accounts.{
  is_final, finals, finals_small, finals-All, All-finals, IsBalanced, reconcile_groups-IsBalanced,
}
use podpool_controller.Controller.Reconcile.{Libraries, Answers, Memory}
use podpool_controller.Controller.Reconcile.Body.{ending, final_rows}
use podpool_controller.Controller.Reconcile.Run.{probed, looped, full_exit}

map-nil : (texts : List String) → map leaf texts ≡ [] → texts ≡ []
map-nil [] h = refl
map-nil (t ∷ texts) h = absurd (cc)

no_texts : (texts : List String) → length texts ≡ 0 → texts ≡ []
no_texts [] h = refl
no_texts (t ∷ texts) h = absurd (omega (arith, h))

-- An ending without an error had none to return, or as many as there are terminal groups.
ending_silent :
    (errors : List Error) (terminal_groups : List String) (pending : Bool) (wait : ℕ)
    → (ending errors terminal_groups pending wait).1 ≡ []
    → (errors ≡ []) ⊎ (length errors ≡ length terminal_groups)
unfolding ending
ending_silent [] terminal_groups pending wait h = inl refl
ending_silent (e ∷ errors) terminal_groups pending wait h =
    elim (Bool-cases (length (e ∷ errors) == length terminal_groups)) [
      | inl same ↦ inr (ground arith)
      | inr other ↦
          let returned : Path (List Error) (e ∷ errors) [] = simp (other) at h in absurd (cc)
    ]

ending_equal :
    (errors : List Error) (terminal_groups : List String) (pending : Bool) (wait : ℕ)
    → length errors ≡ length terminal_groups
    → (ending errors terminal_groups pending wait).1 ≡ []
unfolding ending
ending_equal [] terminal_groups true wait h = refl
ending_equal [] terminal_groups false wait h = refl
ending_equal (e ∷ errors) terminal_groups true wait h =
    let same : (length (e ∷ errors) == length terminal_groups) ≡ true = ground arith in
    rw (same) refl
ending_equal (e ∷ errors) terminal_groups false wait h =
    let same : (length (e ∷ errors) == length terminal_groups) ≡ true = ground arith in
    rw (same) refl

-- The errors of a full pass: the groups', and the sweep's.
All-final_of :
    (errors : List Error) (texts terminal_groups : List String)
    → length terminal_groups ≡ finals errors
    → (errors ++ map leaf texts ≡ []) ⊎ (length (errors ++ map leaf texts) ≡ length terminal_groups)
    → All (λ e. is_final e ≡ true) errors × (texts ≡ [])
All-final_of errors texts terminal_groups balanced (inl empty) =
    let (no_errors, no_swept) = append-nil errors (map leaf texts) empty in
    (rw (no_errors) tt, map-nil texts no_swept)
All-final_of errors texts terminal_groups balanced (inr equal) =
    let small = finals_small errors in
    let sized = length-append errors (map leaf texts) in
    let mapped = length-map leaf texts in
    (
      finals-All errors (omega (arith, small, sized, mapped, equal, balanced)),
      no_texts texts (omega (arith, small, sized, mapped, equal, balanced)),
    )

equal_of :
    (errors : List Error) (texts terminal_groups : List String)
    → length terminal_groups ≡ finals errors
    → All (λ e. is_final e ≡ true) errors
    → texts ≡ []
    → length (errors ++ map leaf texts) ≡ length terminal_groups
equal_of errors texts terminal_groups balanced final quiet =
    let every = All-finals errors final in
    let sized = length-append errors (map leaf texts) in
    let mapped = length-map leaf texts in
    let none_swept : length texts ≡ 0 = rw (quiet) refl in
    omega (arith, sized, mapped, balanced, every, none_swept)

module _ (libs : Libraries) (ans : Answers) (mem : Memory) (before pool : PodPool) where
  looped-IsBalanced :
      (gvk : Gvk) (template : Fields) (observed : Observations)
      → IsBalanced (looped libs ans mem before pool gvk template observed)
  unfolding looped finals
  looped-IsBalanced gvk template observed =
      reconcile_groups-IsBalanced libs.api libs.kube ans.applying pool before.status.groups template
        gvk pool.spec.groups (probed libs ans mem pool observed).targets
        (nothing_collected mem.out_of_range mem.proven) refl

  -- A full pass is retried exactly when a retry may help: it returns no error if and only if each error
  -- of a group is one of its spec, which no retry mends, and the sweep met none; one failure that may
  -- heal, an ownership conflict or a failed deletion among them, and the work queue has the pool again.
  pub full_exit_retried :
      (was_paused : Bool) (gvk : Gvk) (template : Fields) (observed : Observations)
      → (let c = looped libs ans mem before pool gvk template observed in
          let swept = sweep_all_orphans ans.cluster before.status.groups pool gvk c.reconciled in
          ((full_exit libs ans mem before pool was_paused gvk template observed).errors ≡ [])
          ↔ (All (λ e. is_final e ≡ true) c.errors × (swept.1 ≡ [])))
  unfolding full_exit
  full_exit_retried was_paused gvk template observed =
      let c = looped libs ans mem before pool gvk template observed in
      let texts = (sweep_all_orphans ans.cluster before.status.groups pool gvk c.reconciled).1 in
      let rows = (final_rows libs ans before pool c).1 in
      let pending = (probed libs ans mem pool observed).pending in
      let wait = deadline_aware_requeue ans.jitter pool.spec rows ans.now in
      let balanced = looped-IsBalanced gvk template observed in
      (
        λ h.
            All-final_of c.errors texts c.terminal_groups balanced
              (ending_silent (c.errors ++ map leaf texts) c.terminal_groups pending wait h),
        λ (final, quiet).
            ending_equal (c.errors ++ map leaf texts) c.terminal_groups pending wait
              (equal_of c.errors texts c.terminal_groups balanced final quiet),
      )
