-- ===== src/Workload/Render.antt =====
-- internal/workload/render.go and labels.go: the template's kind, the child that is rendered from it,
-- and what is read back from a child.
pub mod Child
pub mod Detail
pub mod Ownership
pub mod Reading
use Prim.Native.Char.{code}
use Prim.Native.String.{◌++◌}
use podpool_controller.Prelude.{
  ℕ, suc, ◌+◌, ◌-◌, Bool, true, false, not, ◌&&◌, ◌||◌, Option, none, some, List, [], ◌∷◌, String,
  str_eq, codes, leb, ltb, ◌==◌, if◌then◌else◌, ℤ, pos, negsuc, max_int32, length,
}
use podpool_controller.Json.{
  Json, null, bool, num, str, arr, obj, Items, nil, cons, Fields, end, field, Raw, empty, malformed,
  decoded, lookup, insert, as_map, as_string,
}
use podpool_controller.Api.{GroupSpec, PodPool}
use podpool_controller.Workload.Object.{ObjectApi, OwnerReference, Gvk}
use podpool_controller.Workload.Merge.{merge_maps, strip_pasted_metadata}

abbrev pub label_pool : String
label_pool = "podpools.dev/pool"

abbrev pub label_group : String
label_group = "podpools.dev/group"

abbrev pub label_managed_by : String
label_managed_by = "podpools.dev/managed-by"

abbrev pub manager_name : String
manager_name = "podpool-controller"

abbrev pub kind_pod_pool : String
kind_pod_pool = "PodPool"

-- `podpoolsv1alpha1.SchemeGroupVersion`.
abbrev pub scheme_group : String
scheme_group = "podpools.dev"

abbrev pub scheme_group_version : String
scheme_group_version = "podpools.dev/v1alpha1"

unfoldable pub child_name : String → String → String
child_name pool_name group_name = pool_name ++ ("-" ++ group_name)

-- `json.Unmarshal` into a `map[string]any`: a null leaves the map nil, which reads as an empty one.
abbrev pub unmarshal_map : Raw → Option Fields
unmarshal_map (decoded null) = some end
unmarshal_map (decoded (obj m)) = some m
unmarshal_map _ = none

-- The folding under which `encoding/json` compares a key with the name of a field: the letters of
-- either case, the Kelvin sign and the long s.
abbrev fold_code : ℕ → ℕ
fold_code c =
    if leb b'A' c && leb c b'Z'
    then c + 32
    else if c == 8490
    then b'k'
    else if c == 383
    then b's'
    else c

unfoldable pub eq_fold : List ℕ → List ℕ → Bool
eq_fold [] [] = true
eq_fold (c ∷ s) (d ∷ t) = let rest = eq_fold s t in fold_code c == fold_code d && rest
eq_fold _ _ = false

-- A string field of a struct: the last key that names it counts, a null leaves it as it is, and a
-- value of another type is an error.
unfoldable pub string_field : String → String → Fields → Option String
unfolding eq_fold
string_field name held end = some held
string_field name held (field k null m) = string_field name held m
string_field name held (field k (str s) m) =
    let taken = string_field name s m in
    let kept = string_field name held m in if eq_fold (codes k) (codes name) then taken else kept
string_field name held (field k v m) =
    let kept = string_field name held m in if eq_fold (codes k) (codes name) then none else kept

abbrev with_group_version : String → Option (String × String) → Option Gvk
with_group_version kind none = none
with_group_version kind (some (group, version)) =
    some record { group = group; version = version; kind = kind }

abbrev checked_gvk : ObjectApi → Option String → Option String → Option Gvk
checked_gvk api (some api_version) (some kind) =
    if str_eq api_version "" || str_eq kind ""
    then none
    else with_group_version kind (api.parse_group_version api_version)
checked_gvk api _ _ = none

abbrev pub clamped : Option ℤ → ℕ × Bool × Bool
clamped none = (0, false, false)
clamped (some (negsuc _)) = (0, true, true)
clamped (some (pos n)) = if ltb max_int32 n then (max_int32, true, true) else (n, true, false)

abbrev at_least : ℤ → ℤ → Bool
at_least (pos a) (pos b) = leb b a
at_least (pos _) (negsuc _) = true
at_least (negsuc _) (pos _) = false
at_least (negsuc a) (negsuc b) = leb a b

abbrev current : Option ℤ → Option ℤ → Bool
current (some gen) (some observed) = at_least observed gen
current _ _ = true

module _ (api : ObjectApi) where
  -- A null decodes into a struct with both fields empty.
  unfoldable pub extract_gvk : Raw → Option Gvk
  unfolding string_field
  extract_gvk (decoded null) = none
  extract_gvk (decoded (obj m)) =
      checked_gvk api (string_field "apiVersion" "" m) (string_field "kind" "" m)
  extract_gvk _ = none

  unfoldable pub parse_template : Raw → Option Fields
  parse_template raw = unmarshal_map raw

  -- The value, whether there is one, and whether it was out of range.
  unfoldable pub read_int32_checked : Fields → List String → ℕ × Bool × Bool
  read_int32_checked object path = clamped (api.nested_int64 path object)

  unfoldable pub read_int32 : Fields → List String → ℕ × Bool
  unfolding read_int32_checked
  read_int32 object path = let read = read_int32_checked object path in (read.0, read.1)

  unfoldable pub generation_current : Fields → Bool
  generation_current child =
      current (api.nested_int64 ("metadata" ∷ "generation" ∷ []) child)
        (api.nested_int64 ("status" ∷ "observedGeneration" ∷ []) child)
