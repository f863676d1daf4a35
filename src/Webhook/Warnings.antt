-- ===== src/Webhook/Warnings.antt =====
-- internal/webhook/v1alpha1/podpool_webhook.go: what a pool is warned of, and the bound on its name.
use podpool_controller.Prelude.{
  ℕ, ◌+◌, not, ◌&&◌, Option, none, some, List, [], ◌∷◌, String, str_eq, codes, leb, ltb, is_some,
  if◌then◌else◌, any, concat,
}
use podpool_controller.Api.{GroupSpec, PodPool}
use podpool_controller.Workload.Percent.{target_percent}
use podpool_controller.Workload.Scaling.{is_bounded}
use podpool_controller.Workload.Object.{ObjectApi, Gvk}
use podpool_controller.Workload.Render.{extract_gvk, child_name, label_pool}
use podpool_controller.Webhook.Report.{child, invalid, FieldError, Texts}
use podpool_controller.Webhook.Groups.{fmt_target}
use podpool_controller.Webhook.Spec.{byte_length}

abbrev pub fully_capped : String
fully_capped =
    "every group sets max or target, so no group can absorb overflow: replicas beyond the combined ceiling will be left unplaced and reported in status.unplacedReplicas. Remove target from one group to make it the overflow bucket."

abbrev capped_warning : List GroupSpec → List String
capped_warning [] = []
capped_warning (_ ∷ _) = fully_capped ∷ []

unfoldable pub warn_on_fully_capped_pool : PodPool → List String
warn_on_fully_capped_pool pool =
    if any {A = GroupSpec} (λ g. not (is_bounded g.scaling)) pool.spec.groups
    then []
    else capped_warning pool.spec.groups

abbrev pub max_pool_name_len : ℕ
max_pool_name_len = 63

-- `len(s)`.
abbrev pub name_length : String → ℕ
name_length name = byte_length (codes name)

module _ (texts : Texts) where
  abbrev unreadable : GroupSpec → String
  unreadable g = concat (
      "group "
      ∷ texts.quote g.name
      ∷ ": target "
      ∷ texts.quote (fmt_target texts g.scaling.target)
      ∷ " is not a percentage string like \"30%\" (1%–100%), so the group is capped at 0 and will not grow beyond its min. Set a valid target or remove the field"
      ∷ [])

  unfoldable pub unreadable_targets : List GroupSpec → List String
  unreadable_targets [] = []
  unreadable_targets (g ∷ gs) =
      let rest = unreadable_targets gs in
      if is_some g.scaling.target && not (is_some (target_percent g.scaling.target))
      then unreadable g ∷ rest
      else rest

  unfoldable pub warn_on_unreadable_target : PodPool → List String
  unfolding unreadable_targets
  warn_on_unreadable_target pool = unreadable_targets pool.spec.groups

  abbrev removed : String → GroupSpec → String
  removed pool_name g = concat (
      "group "
      ∷ texts.quote g.name
      ∷ " was removed: its child workload "
      ∷ child_name pool_name g.name
      ∷ " will be deleted and its replicas will move to other groups"
      ∷ [])

  unfoldable pub removals : String → List GroupSpec → List GroupSpec → List String
  removals pool_name kept [] = []
  removals pool_name kept (g ∷ gs) =
      let rest = removals pool_name kept gs in
      if any {A = GroupSpec} (λ h. str_eq h.name g.name) kept
      then rest
      else removed pool_name g ∷ rest

  unfoldable pub warn_on_group_removal : PodPool → PodPool → List String
  unfolding removals
  warn_on_group_removal before after = removals before.name after.spec.groups before.spec.groups

  abbrev name_detail : String
  name_detail = concat (
      "must be at most "
      ∷ texts.decimal max_pool_name_len
      ∷ " characters (it becomes the "
      ∷ label_pool
      ∷ " label value, which is bounded by the Kubernetes label value limit)"
      ∷ [])

  abbrev generated_detail : String → String
  generated_detail name = concat (
      "generated name "
      ∷ texts.quote name
      ∷ " is "
      ∷ texts.decimal (name_length name)
      ∷ " characters; "
      ∷ name_detail
      ∷ [])

  abbrev pub name_error : PodPool → FieldError
  name_error pool = record {
    kind = invalid;
    path = child "metadata" ∷ child "name" ∷ [];
    value = pool.name;
    detail = if str_eq pool.generate_name "" then name_detail else generated_detail pool.name;
  }

  unfoldable pub validate_pool_name_create : PodPool → Option FieldError
  validate_pool_name_create pool =
      if leb (name_length pool.name) max_pool_name_len then none else some (name_error pool)

  unfoldable pub warn_pool_name_update : PodPool → List String
  warn_pool_name_update pool =
      if leb (name_length pool.name) max_pool_name_len
      then []
      else concat (
          "pool name "
          ∷ texts.quote pool.name
          ∷ " is "
          ∷ texts.decimal (name_length pool.name)
          ∷ " characters, exceeding the "
          ∷ texts.decimal max_pool_name_len
          ∷ "-character label value limit; it was admitted before this check existed and cannot be renamed. Consider recreating with a shorter name"
          ∷ [])
        ∷ []

  -- The longest name of a pod: the child's, a hyphen and the largest ordinal.
  abbrev pub hostname_length : PodPool → GroupSpec → ℕ
  hostname_length pool g =
      name_length (child_name pool.name g.name) + 1 + name_length (texts.decimal pool.spec.replicas)

  abbrev long_hostname : PodPool → GroupSpec → String
  long_hostname pool g = concat (
      "group "
      ∷ texts.quote g.name
      ∷ ": StatefulSet pods will be named "
      ∷ child_name pool.name g.name
      ∷ "-<ordinal>, up to "
      ∷ texts.decimal (hostname_length pool g)
      ∷ " characters, exceeding the 63-byte hostname limit; pods with high ordinals will fail to schedule"
      ∷ [])

  unfoldable pub ordinal_warnings : PodPool → List GroupSpec → List String
  ordinal_warnings pool [] = []
  ordinal_warnings pool (g ∷ gs) =
      let rest = ordinal_warnings pool gs in
      if ltb max_pool_name_len (hostname_length pool g) then long_hostname pool g ∷ rest else rest

  abbrev for_kind : PodPool → Option Gvk → List String
  for_kind pool none = []
  for_kind pool (some gvk) =
      if str_eq gvk.kind "StatefulSet" then ordinal_warnings pool pool.spec.groups else []

  unfoldable pub warn_stateful_set_ordinal_budget : ObjectApi → PodPool → List String
  unfolding ordinal_warnings
  warn_stateful_set_ordinal_budget api pool =
      for_kind pool (extract_gvk api pool.spec.workload_template)
