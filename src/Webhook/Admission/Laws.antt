-- ===== src/Webhook/Admission/Laws.antt =====
-- internal/webhook/v1alpha1/podpool_webhook.go: an admission, followed back to the errors and
-- the review behind it.
use podpool_controller.Prelude.{
  ◌≤◌, ◌≡◌, refl, subst, true, false, Option, none, some, List, [], ◌∷◌, ◌++◌, String,
  if◌then◌else◌, append-nil, ◌⊎◌, inl, inr, Bool-cases, leb→le, leb,
}
use podpool_controller.Api.{PodPool}
use podpool_controller.Workload.Object.{Gvk}
use podpool_controller.Workload.Render.{extract_gvk}
use podpool_controller.Webhook.Report.{FieldError}
use podpool_controller.Webhook.Spec.{validate_pod_pool_spec}
use podpool_controller.Webhook.Spec.Laws.{valid_spec-AreSound}
use podpool_controller.Webhook.Warnings.{
  validate_pool_name_create, name_error, name_length, max_pool_name_len,
}
use podpool_controller.Webhook.Rendered.{all_errors}
use podpool_controller.Webhook.Authorization.{
  UserInfo, Review, Answer, answered, review_of, plural_resource, check_workload_authorization,
}
use podpool_controller.Webhook.Authorization.Laws.{authorization_fails_closed}
use podpool_controller.Webhook.Admission.{
  Setting, admitted, decide, to_list, create_errors, create_warnings, validate_create, same_gvk,
  immutable_kind, vouched_for, reauthorize_reason, reauthorize, render_verdict, update_errors,
  update_warnings, validate_update, authorize, children_of, changed_kind,
}

decide-admitted : (es : List FieldError) (ws w : List String) → decide es ws ≡ admitted w → es ≡ []
decide-admitted [] ws w h = refl
decide-admitted (e ∷ es) ws w h = absurd (cc)

to_list-nil : (o : Option FieldError) → to_list o ≡ [] → o ≡ none
to_list-nil none h = refl
to_list-nil (some e) h = absurd (cc)

short_name :
    (set : Setting) (pool : PodPool)
    → validate_pool_name_create set.texts pool ≡ none
    → name_length pool.name ≤ max_pool_name_len
unfolding validate_pool_name_create
short_name set pool h = elim (Bool-cases (leb (name_length pool.name) max_pool_name_len)) [
  | inl e ↦ leb→le (name_length pool.name) max_pool_name_len e
  | inr e ↦
      let none_left =
        subst (λ b. (if b then none else some (name_error set.texts pool)) ≡ none) e h in
      absurd (cc)
]

-- Whoever creates a pool could have created its workloads: with a client and a request, a creation is
-- admitted only if the template's kind can be read, its resource could be resolved, and the review of
-- creating just that in the pool's namespace came back allowed for the requesting user; and the pool's
-- name fits into a label.
pub created-IsAuthorized :
    (set : Setting) (create : Review → Answer) (user : UserInfo) (pool : PodPool) (w : List String)
    → set.validator.client ≡ some create
    → validate_create set (some user) pool ≡ admitted w
    → (name_length pool.name ≤ max_pool_name_len)
      × ((gvk : Gvk) × (plural : String) × (extract_gvk set.api pool.spec.workload_template
            ≡ some gvk)
          × (plural_resource set.validator gvk ≡ inr plural)
          × (create (review_of user pool gvk plural) ≡ answered true))
unfolding validate_create create_errors
created-IsAuthorized set create user pool w has_client h =
    let spec = validate_pod_pool_spec set.texts set.api pool in
    let name = to_list (validate_pool_name_create set.texts pool) in
    let children = all_errors (children_of set pool) in
    let asked =
      authorize set (some user) pool (extract_gvk set.api pool.spec.workload_template) "" in
    let no_errors =
      decide-admitted (spec ++ (name ++ (children ++ asked))) (create_warnings set pool) w h in
    let after_spec = append-nil spec (name ++ (children ++ asked)) no_errors in
    let after_name = append-nil name (children ++ asked) after_spec.1 in
    let (_, _, _, kind) = valid_spec-AreSound set.texts set.api pool after_spec.0 in
    let (gvk, readable) = kind in
    let passed : authorize set (some user) pool (some gvk) "" ≡ [] =
      subst (λ o. authorize set (some user) pool o "" ≡ []) readable
        (append-nil children asked after_name.1).1 in
    let (plural, resolved, allowed) =
      authorization_fails_closed set.texts set.validator create user pool gvk "" has_client (
        to_list-nil (check_workload_authorization set.texts set.validator (some user) pool gvk "")
          passed) in
    (
      short_name set pool (to_list-nil (validate_pool_name_create set.texts pool) after_name.0),
      (gvk, plural, readable, resolved, allowed),
    )

abbrev Vouched : Setting → UserInfo → PodPool → Option Gvk → Gvk → Type 0
Vouched set user after before_gvk gvk =
    ((old : Gvk) × (before_gvk ≡ some old) × (same_gvk set old gvk ≡ true))
    ⊎ ((before_gvk ≡ none)
        × (check_workload_authorization set.texts set.validator (some user) after gvk
              (reauthorize_reason set)
            ≡ none))

module _ (set : Setting) (user : UserInfo) (after : PodPool) (gvk : Gvk) where
  abbrev asked_again : Option Gvk → List FieldError
  asked_again before_gvk =
      if vouched_for set before_gvk (some gvk)
      then []
      else authorize set (some user) after (some gvk) (reauthorize_reason set)

  vouches :
      (before_gvk : Option Gvk)
      → immutable_kind set before_gvk (some gvk) ≡ []
      → asked_again before_gvk ≡ []
      → Vouched set user after before_gvk gvk
  unfolding immutable_kind vouched_for
  vouches none unchanged passed = inr (
    refl,
    to_list-nil
        (check_workload_authorization set.texts set.validator (some user) after gvk
          (reauthorize_reason set))
        passed,
  )
  vouches (some old) unchanged passed = elim (Bool-cases (same_gvk set old gvk)) [
    | inl e ↦ inl (old, refl, e)
    | inr e ↦
        let bad = subst (λ b. (if b then [] else changed_kind set old gvk) ≡ []) e unchanged in
        absurd (cc)
  ]

-- An update never moves a pool to a kind of workload that nobody was asked about: an update of the
-- spec is admitted only if the new kind can be read and is either the stored kind, or, where the stored
-- kind cannot be read, one that the authorization of the requesting user passes.
pub updated-IsVouched :
    (set : Setting) (user : UserInfo) (before after : PodPool) (w : List String)
    → set.same_spec before.spec after.spec ≡ false
    → validate_update set (some user) before after ≡ admitted w
    → (gvk : Gvk) × (extract_gvk set.api after.spec.workload_template ≡ some gvk)
      × (((old : Gvk) × (extract_gvk set.api before.spec.workload_template ≡ some old)
            × (same_gvk set old gvk ≡ true))
          ⊎ ((extract_gvk set.api before.spec.workload_template ≡ none)
              × (check_workload_authorization set.texts set.validator
                    (some user)
                    after
                    gvk
                    (reauthorize_reason set)
                  ≡ none)))
unfolding validate_update update_errors reauthorize
updated-IsVouched set user before after w differs h =
    let old = extract_gvk set.api before.spec.workload_template in
    let new = extract_gvk set.api after.spec.workload_template in
    let spec = validate_pod_pool_spec set.texts set.api after in
    let kind = immutable_kind set old new in
    let again = reauthorize set (some user) before after in
    let render = (render_verdict set before after).0 in
    let judged =
      subst
        (λ b.
          (if b
            then admitted []
            else decide (update_errors set (some user) before after)
                (update_warnings set before after))
          ≡ admitted w)
        differs h in
    let no_errors =
      decide-admitted (spec ++ (kind ++ (again ++ render))) (update_warnings set before after) w
        judged in
    let after_spec = append-nil spec (kind ++ (again ++ render)) no_errors in
    let after_kind = append-nil kind (again ++ render) after_spec.1 in
    let after_again = append-nil again render after_kind.1 in
    let (_, _, _, found) = valid_spec-AreSound set.texts set.api after after_spec.0 in
    let (gvk, readable) = found in
    (
      gvk,
      readable,
      vouches set user after gvk old
          (subst (λ o. immutable_kind set old o ≡ []) readable after_kind.0)
          (subst
            (λ o.
              (if vouched_for set old o
                then []
                else authorize set (some user) after o (reauthorize_reason set))
              ≡ [])
            readable after_again.0),
    )
