-- ===== src/Workload/Render/Child.antt =====
-- internal/workload/render.go: the child workload of a group.
use podpool_controller.Prelude.{
  ℕ, true, Option, none, some, List, [], ◌∷◌, String, if◌then◌else◌, pos, str_eq,
}
use podpool_controller.Json.{
  Json, num, str, obj, Fields, end, field, Raw, empty, insert, lookup, as_map,
}
use podpool_controller.Api.{GroupSpec, PodPool}
use podpool_controller.Workload.Object.{ObjectApi, OwnerReference}
use podpool_controller.Workload.Merge.{merge_maps, strip_pasted_metadata}
use podpool_controller.Workload.Render.{
  label_pool, label_group, label_managed_by, manager_name, kind_pod_pool, scheme_group_version,
  child_name, unmarshal_map,
}

-- The patch of a group that has overrides; no bytes are no overrides.
abbrev merged : Fields → Option Fields → Option Fields
merged m none = none
merged m (some patch) = some (merge_maps m patch)

unfoldable pub apply_overrides : Fields → Option Raw → Option Fields
apply_overrides m none = some m
apply_overrides m (some empty) = some m
apply_overrides m (some raw) = merged m (unmarshal_map raw)

-- `md, _ := m[k].(map[string]any)`: an empty map where there is none.
abbrev pub or_empty : Option Fields → Fields
or_empty none = end
or_empty (some m) = m

abbrev pub controller_labels : PodPool → GroupSpec → List (String × String)
controller_labels pool group =
    (label_pool, pool.name) ∷ (label_group, group.name) ∷ (label_managed_by, manager_name) ∷ []

unfoldable pub label_template : PodPool → GroupSpec → Fields → Fields
label_template pool group template =
    let md = or_empty (as_map (lookup "metadata" template)) in
    let labels = or_empty (as_map (lookup "labels" md)) in
    insert "metadata"
      (obj (
        insert "labels"
          (obj (
            insert label_managed_by (str manager_name)
              (insert label_group (str group.name) (insert label_pool (str pool.name) labels))))
          md))
      template

abbrev pub match_labels : PodPool → GroupSpec → Json
match_labels pool group =
    obj (field label_pool (str pool.name) (field label_group (str group.name) end))

-- `maps.Copy` onto a map of strings.
unfoldable pub put_label : String → String → List (String × String) → List (String × String)
put_label k v [] = (k, v) ∷ []
put_label k v ((j, w) ∷ m) =
    let rest = put_label k v m in if str_eq j k then (j, v) ∷ m else (j, w) ∷ rest

unfoldable pub copy_labels :
    List (String × String) → List (String × String) → List (String × String)
unfolding put_label
copy_labels labels [] = labels
copy_labels labels ((k, v) ∷ m) = copy_labels (put_label k v labels) m

abbrev pub owner_of : PodPool → OwnerReference
owner_of pool = record {
  api_version = scheme_group_version;
  kind = kind_pod_pool;
  name = pool.name;
  uid = pool.uid;
  is_controller = true;
  blocks_deletion = true;
}

module _ (api : ObjectApi) where
  -- The metadata that the controller owns.
  unfoldable pub own : PodPool → GroupSpec → Fields → Fields
  unfolding copy_labels child_name
  own pool group child =
      let named =
        api.set_namespace pool.namespace (api.set_name (child_name pool.name group.name) child) in
      let labels = copy_labels (api.get_labels named) (controller_labels pool group) in
      api.set_owner_references (owner_of pool ∷ []) (api.set_labels labels named)

  abbrev pub owned : PodPool → GroupSpec → Option Fields → Option Fields
  owned pool group none = none
  owned pool group (some child) = some (own pool group child)

  abbrev pub scaled : PodPool → GroupSpec → ℕ → Option Fields → Option Fields
  scaled pool group replicas none = none
  scaled pool group replicas (some child) =
      owned pool group (api.set_nested (num (pos replicas)) ("spec" ∷ "replicas" ∷ []) child)

  -- The template's map is changed in place, so the child holds the new labels.
  unfoldable pub fill : PodPool → GroupSpec → ℕ → Fields → Option Fields → Option Fields
  unfolding label_template own
  fill pool group replicas child none = none
  fill pool group replicas child (some template) = scaled pool group replicas (
      api.set_nested (match_labels pool group) ("spec" ∷ "selector" ∷ "matchLabels" ∷ []) (
        api.put_in_place ("spec" ∷ "template" ∷ []) (obj (label_template pool group template))
          child))

  abbrev pub stripped : PodPool → GroupSpec → ℕ → Option Fields → Option Fields
  stripped pool group replicas none = none
  stripped pool group replicas (some m) =
      let child = strip_pasted_metadata m in
      fill pool group replicas child (as_map (api.nested_field ("spec" ∷ "template" ∷ []) child))

  -- An error is `none`.
  unfoldable pub build_child_workload : Fields → GroupSpec → PodPool → ℕ → Option Fields
  unfolding apply_overrides fill
  build_child_workload template group pool replicas =
      stripped pool group replicas (apply_overrides template group.overrides)
