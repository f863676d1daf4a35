-- ===== src/Workload/Merge.antt =====
-- internal/workload/render.go: the merge of a group's overrides over the template, and what is
-- taken out of a template that was copied from a live object.
pub mod Laws
use podpool_controller.Prelude.{
  Bool, true, false, Option, none, some, List, [], ◌∷◌, String, str_eq, if◌then◌else◌,
}
use podpool_controller.Json.{
  Json, null, bool, num, str, arr, obj, Fields, end, field, lookup, insert, delete, as_map,
}

-- The range over the patch: a key that holds null is deleted, maps merge where both sides are maps,
-- and anything else replaces.
unfoldable mutual
  pub merge_maps : Fields → Fields → Fields
  merge_maps base end = base
  merge_maps base (field k v patch) = merge_maps (merge_key base k v (lookup k base)) patch

  pub merge_key : Fields → String → Json → Option Json → Fields
  merge_key base k null held = delete k base
  merge_key base k (obj p) (some (obj b)) = insert k (obj (merge_maps b p)) base
  merge_key base k v held = insert k v base

unfoldable pub delete_all : List String → Fields → Fields
delete_all [] m = m
delete_all (k ∷ ks) m = delete_all ks (delete k m)

abbrev pub pasted_keys : List String
pasted_keys =
    "uid" ∷ "resourceVersion" ∷ "generation" ∷ "generateName" ∷ "creationTimestamp"
    ∷ "deletionTimestamp" ∷ "finalizers" ∷ "managedFields" ∷ "selfLink" ∷ "ownerReferences" ∷ []

abbrev pub last_applied : String
last_applied = "kubectl.kubernetes.io/last-applied-configuration"

-- The map of the annotations is changed in place, and dropped once it is empty.
abbrev pub put_annotations : Fields → Fields → Fields
put_annotations end md = delete "annotations" md
put_annotations annotations md = insert "annotations" (obj annotations) md

abbrev pub strip_annotations : Option Fields → Fields → Fields
strip_annotations none md = md
strip_annotations (some annotations) md = put_annotations (delete last_applied annotations) md

unfoldable pub strip_metadata : Fields → Fields
unfolding delete_all
strip_metadata md =
    let md' = delete_all pasted_keys md in strip_annotations (as_map (lookup "annotations" md')) md'

abbrev pub with_metadata : Option Fields → Fields → Fields
with_metadata none m = m
with_metadata (some md) m = insert "metadata" (obj (strip_metadata md)) m

unfoldable pub strip_pasted_metadata : Fields → Fields
strip_pasted_metadata m =
    let m' = delete "status" m in with_metadata (as_map (lookup "metadata" m')) m'
