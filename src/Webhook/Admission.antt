-- ===== src/Webhook/Admission.antt =====
-- internal/webhook/v1alpha1/podpool_webhook.go: the verdict on a creation, an update and a deletion.
pub mod Laws
use podpool_controller.Prelude.{
  Bool, true, false, not, ◌&&◌, ◌||◌, Option, none, some, List, [], ◌∷◌, ◌++◌, String, str_eq,
  if◌then◌else◌, concat, ◌⊎◌, inl, inr,
}
use podpool_controller.Api.{PodPool, PodPoolSpec}
use podpool_controller.Workload.Object.{ObjectApi, Gvk}
use podpool_controller.Workload.Distribution.{Rounding}
use podpool_controller.Workload.Render.{extract_gvk}
use podpool_controller.Webhook.Report.{
  Segment, child, index, key, ErrorKind, required, invalid, duplicate, forbidden, internal,
  FieldError, Texts,
}
use podpool_controller.Webhook.Spec.{validate_pod_pool_spec}
use podpool_controller.Webhook.Warnings.{
  warn_on_fully_capped_pool, warn_on_unreadable_target, warn_on_group_removal,
  validate_pool_name_create, warn_pool_name_update, warn_stateful_set_ordinal_budget,
}
use podpool_controller.Webhook.Rendered.{
  RenderedChildResult, StrictDecode, all_errors, validate_rendered_children,
}
use podpool_controller.Webhook.Downgrade.{downgrade_pre_existing}
use podpool_controller.Webhook.Authorization.{
  PodPoolCustomValidator, UserInfo, template_path, check_workload_authorization,
}

-- What the handlers use of other code. `same_spec` is `apiequality.Semantic.DeepEqual`.
pub record Setting : Type 0 where
  pub texts : Texts
  pub api : ObjectApi
  pub decode : StrictDecode
  pub rounding : Rounding
  pub validator : PodPoolCustomValidator
  pub same_spec : PodPoolSpec → PodPoolSpec → Bool

-- A rejection carries its errors, an admission its warnings.
pub data Verdict : Type 0 where
  rejected : List FieldError → Verdict
  admitted : List String → Verdict

abbrev pub decide : List FieldError → List String → Verdict
decide [] warnings = admitted warnings
decide (e ∷ es) warnings = rejected (e ∷ es)

abbrev pub to_list : Option FieldError → List FieldError
to_list none = []
to_list (some e) = e ∷ []

module _ (set : Setting) where
  abbrev pub gvk_of : PodPool → Option Gvk
  gvk_of pool = extract_gvk set.api pool.spec.workload_template

  abbrev pub children_of : PodPool → RenderedChildResult
  children_of pool = validate_rendered_children set.texts set.api set.decode set.rounding pool

  -- A template whose kind cannot be read has been rejected before.
  abbrev pub authorize : Option UserInfo → PodPool → Option Gvk → String → List FieldError
  authorize user pool none reason = []
  authorize user pool (some gvk) reason =
      to_list (check_workload_authorization set.texts set.validator user pool gvk reason)

  unfoldable pub create_errors : Option UserInfo → PodPool → List FieldError
  create_errors user pool =
      validate_pod_pool_spec set.texts set.api pool
      ++ (to_list (validate_pool_name_create set.texts pool)
          ++ (all_errors (children_of pool) ++ authorize user pool (gvk_of pool) ""))

  unfoldable pub create_warnings : PodPool → List String
  create_warnings pool =
      (children_of pool).warnings
      ++ (warn_on_fully_capped_pool pool
          ++ (warn_on_unreadable_target set.texts pool
              ++ warn_stateful_set_ordinal_budget set.texts set.api pool))

  unfoldable pub validate_create : Option UserInfo → PodPool → Verdict
  unfolding create_errors create_warnings
  validate_create user pool = decide (create_errors user pool) (create_warnings pool)

  abbrev pub same_gvk : Gvk → Gvk → Bool
  same_gvk a b = str_eq a.group b.group && str_eq a.version b.version && str_eq a.kind b.kind

  abbrev pub changed_kind : Gvk → Gvk → List FieldError
  changed_kind before after =
      record {
        kind = invalid;
        path = template_path;
        value = set.texts.gvk_text after;
        detail = concat ("workload GVK is immutable (was " ∷ set.texts.gvk_text before ∷ ")" ∷ []);
      }
      ∷ []

  unfoldable pub immutable_kind : Option Gvk → Option Gvk → List FieldError
  immutable_kind (some before) (some after) =
      if same_gvk before after then [] else changed_kind before after
  immutable_kind _ _ = []

  -- The review at creation vouches for the kind only where both kinds are readable and equal.
  unfoldable pub vouched_for : Option Gvk → Option Gvk → Bool
  vouched_for (some before) (some after) = same_gvk before after
  vouched_for _ _ = false

  abbrev pub reauthorize_reason : String
  reauthorize_reason =
      "the stored workloadTemplate could not be read, so the workload type must be re-authorized: "

  unfoldable pub reauthorize : Option UserInfo → PodPool → PodPool → List FieldError
  unfolding vouched_for
  reauthorize user before after =
      if vouched_for (gvk_of before) (gvk_of after)
      then []
      else authorize user after (gvk_of after) reauthorize_reason

  abbrev compared : PodPool → RenderedChildResult → List FieldError → List FieldError × List String
  compared before new [] = ([], [])
  compared before new (_ ∷ _) = downgrade_pre_existing set.texts (children_of before) new

  unfoldable pub render_verdict : PodPool → PodPool → List FieldError × List String
  render_verdict before after = let new = children_of after in compared before new (all_errors new)

  unfoldable pub update_errors : Option UserInfo → PodPool → PodPool → List FieldError
  unfolding immutable_kind reauthorize render_verdict
  update_errors user before after =
      validate_pod_pool_spec set.texts set.api after
      ++ (immutable_kind (gvk_of before) (gvk_of after)
          ++ (reauthorize user before after ++ (render_verdict before after).0))

  unfoldable pub update_warnings : PodPool → PodPool → List String
  unfolding render_verdict
  update_warnings before after =
      (render_verdict before after).1
      ++ ((children_of after).warnings
          ++ (warn_on_group_removal set.texts before after
              ++ (warn_on_fully_capped_pool after
                  ++ (warn_on_unreadable_target set.texts after
                      ++ (warn_pool_name_update set.texts after
                          ++ warn_stateful_set_ordinal_budget set.texts set.api after)))))

  unfoldable pub validate_update : Option UserInfo → PodPool → PodPool → Verdict
  unfolding update_errors update_warnings
  validate_update user before after =
      if set.same_spec before.spec after.spec
      then admitted []
      else decide (update_errors user before after) (update_warnings before after)

unfoldable pub validate_delete : PodPool → Verdict
validate_delete pool = admitted []
