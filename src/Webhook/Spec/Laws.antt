-- ===== src/Webhook/Spec/Laws.antt =====
-- internal/webhook/v1alpha1/podpool_webhook.go: what holds of a spec that the validation passes.
use podpool_controller.Prelude.{
  ℕ, suc, ◌-◌, ◌≤◌, ◌<◌, ◌≡◌, refl, sym, subst, ap, ◌∙◌, Bool, true, false, ◌||◌, ◌&&◌, some, List,
  [], ◌∷◌, ◌++◌, String, str_eq, if◌then◌else◌, length, All, any, append-nil, no_reason, is_some,
  arith, Option-cases, inl, inr,
}
use podpool_controller.Json.{Raw, empty, malformed, decoded}
use podpool_controller.Api.{GroupSpec, PodPool}
use podpool_controller.Workload.Object.{ObjectApi, Gvk}
use podpool_controller.Workload.Render.{extract_gvk}
use podpool_controller.Workload.Scaling.{is_opportunistic}
use podpool_controller.Webhook.Report.{Segment, child, FieldError, Texts}
use podpool_controller.Webhook.Groups.{
  at_group, crossed, both_ceilings, min_above_max, validate_scaling, validate_overflow_sink,
  validate_opportunistic,
}
use podpool_controller.Webhook.Groups.Laws.{sinks, length-validate_overflow_sink}
use podpool_controller.Webhook.Template.{validate_workload_template, check_kind}
use podpool_controller.Webhook.Spec.{
  name_errors, one_group, group_errors, groups_path, validate_pod_pool_spec, groups_errors,
  duplicate_error,
}

-- The groups' names are unlike each other, and no group's bounds are the wrong way round.
abbrev pub AreSound : List GroupSpec → Type 0
AreSound [] = Unit
AreSound (g ∷ gs) =
    (crossed g.scaling.min g.scaling.max ≡ false)
    × All {A = GroupSpec} (λ h. str_eq h.name g.name ≡ false) gs
    × AreSound gs

module _ (texts : Texts) where
  -- A template that passes has a kind that can be read.
  pub validate_workload_template-readable :
      (api : ObjectApi) (path : List Segment) (raw : Raw)
      → validate_workload_template texts api path raw ≡ []
      → (gvk : Gvk) × (extract_gvk api raw ≡ some gvk)
  unfolding validate_workload_template
  validate_workload_template-readable api path empty h = absurd (cc)
  validate_workload_template-readable api path malformed h = absurd (cc)
  validate_workload_template-readable api path (decoded v) h =
      elim (Option-cases (extract_gvk api (decoded v))) [
        | inl e ↦ let bad = subst (λ o. check_kind texts path (decoded v) o ≡ []) e h in absurd (cc)
        | inr found ↦ found
      ]

  validate_scaling_sound :
      (path : List Segment) (g : GroupSpec)
      → validate_scaling texts path g.scaling ≡ []
      → crossed g.scaling.min g.scaling.max ≡ false
  unfolding validate_scaling
  validate_scaling_sound path g h =
      no_reason (crossed g.scaling.min g.scaling.max) (min_above_max texts path g.scaling)
        (append-nil
          (if is_opportunistic g.scaling && (is_some g.scaling.max || is_some g.scaling.target)
            then both_ceilings texts path g.scaling ∷ []
            else [])
          (if crossed g.scaling.min g.scaling.max
            then min_above_max texts path g.scaling ∷ []
            else [])
          h).1

  one_group_sound :
      (names : List String) (i : ℕ) (g : GroupSpec)
      → one_group texts names i g ≡ []
      → (any {A = String} (str_eq g.name) names ≡ false)
        × (crossed g.scaling.min g.scaling.max ≡ false)
  one_group_sound names i g h =
      let path = at_group groups_path i in
      let doubled =
        if any {A = String} (str_eq g.name) names then duplicate_error path g.name ∷ [] else [] in
      let scaling = validate_scaling texts (path ++ (child "scaling" ∷ [])) g.scaling in
      let later = (append-nil (name_errors path g.name) (doubled ++ scaling) h).1 in
      let parts = append-nil doubled scaling later in
      (
        no_reason (any {A = String} (str_eq g.name) names) (duplicate_error path g.name) parts.0,
        validate_scaling_sound (path ++ (child "scaling" ∷ [])) g parts.1,
      )

-- No group has a name that has been met.
abbrev AllFresh : List String → List GroupSpec → Type 0
AllFresh names gs = All {A = GroupSpec} (λ h. any {A = String} (str_eq h.name) names ≡ false) gs

neither : (a b : Bool) → (a || b) ≡ false → (a ≡ false) × (b ≡ false)
neither false b h = (refl, h)
neither true b h = absurd (cc)

AllFresh-cons :
    (name : String) (names : List String) (gs : List GroupSpec)
    → AllFresh (name ∷ names) gs
    → All {A = GroupSpec} (λ h. str_eq h.name name ≡ false) gs × AllFresh names gs
AllFresh-cons name names [] fresh = (tt, tt)
AllFresh-cons name names (g ∷ gs) (here, fresh) =
    let (one, others) =
      neither (str_eq g.name name) (any {A = String} (str_eq g.name) names) here in
    let rest = AllFresh-cons name names gs fresh in ((one, rest.0), (others, rest.1))

group_errors-AreSound :
    (texts : Texts) (names : List String) (i : ℕ) (gs : List GroupSpec)
    → group_errors texts names i gs ≡ []
    → AreSound gs × AllFresh names gs
unfolding group_errors
group_errors-AreSound texts names i [] h = (tt, tt)
group_errors-AreSound texts names i (g ∷ gs) h =
    let parts =
      append-nil (one_group texts names i g) (group_errors texts (g.name ∷ names) (suc i) gs) h in
    let here = one_group_sound texts names i g parts.0 in
    let later = group_errors-AreSound texts (g.name ∷ names) (suc i) gs parts.1 in
    let names-split = AllFresh-cons g.name names gs later.1 in
    ((here.1, names-split.0, later.0), (here.0, names-split.1))

groups_errors_sound :
    (texts : Texts) (gs : List GroupSpec)
    → groups_errors texts gs ≡ []
    → (0 < length gs) × (sinks gs ≤ 1) × AreSound gs
groups_errors_sound texts [] h = absurd (cc)
groups_errors_sound texts (g ∷ gs) h =
    let parts =
      append-nil (group_errors texts [] 0 (g ∷ gs))
        (validate_overflow_sink texts groups_path (g ∷ gs)
          ++ validate_opportunistic texts groups_path (g ∷ gs))
        h in
    let across =
      append-nil (validate_overflow_sink texts groups_path (g ∷ gs))
        (validate_opportunistic texts groups_path (g ∷ gs)) parts.1 in
    let few : sinks (g ∷ gs) - 1 ≡ 0 =
      sym (length-validate_overflow_sink texts groups_path (g ∷ gs))
      ∙ ap {A = List FieldError} length across.0 in
    (omega arith, omega arith, (group_errors-AreSound texts [] 0 (g ∷ gs) parts.0).0)

-- A spec that the validation passes has at least one group, at most one unbounded group, group names
-- that are unlike each other, no group whose min exceeds its max, and a template whose kind can be
-- read.
pub valid_spec-AreSound :
    (texts : Texts) (api : ObjectApi) (pool : PodPool)
    → validate_pod_pool_spec texts api pool ≡ []
    → (0 < length pool.spec.groups)
      × (sinks pool.spec.groups ≤ 1)
      × AreSound pool.spec.groups
      × ((gvk : Gvk) × (extract_gvk api pool.spec.workload_template ≡ some gvk))
unfolding validate_pod_pool_spec
valid_spec-AreSound texts api pool h =
    let path = child "spec" ∷ child "workloadTemplate" ∷ [] in
    let parts =
      append-nil (validate_workload_template texts api path pool.spec.workload_template)
        (groups_errors texts pool.spec.groups) h in
    let (some_group, one_sink, sound) = groups_errors_sound texts pool.spec.groups parts.1 in
    (
      some_group,
      one_sink,
      sound,
      validate_workload_template-readable texts api path pool.spec.workload_template parts.0,
    )
