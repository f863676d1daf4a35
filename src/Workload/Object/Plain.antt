-- ===== src/Workload/Object/Plain.antt =====
-- Accessors of unstructured objects as plain walks over maps, as the documentation of
-- k8s.io/apimachinery describes them, so that the models that take them as a parameter can be run.
use podpool_controller.Prelude.{
  ℕ, Bool, true, false, Option, none, some, List, [], ◌∷◌, String, ℤ, pos, negsuc, if◌then◌else◌,
  ◌≡◌, refl, sym, ap, subst, ◌∙◌, str_eq, Bool-cases, Option-cases, inl, inr,
}
pub mod Laws
use podpool_controller.Json.{
  Json, null, bool, num, str, arr, obj, Items, nil, cons, Fields, end, field, lookup, insert,
  as_map,
}
use podpool_controller.Json.Laws.{lookup-insert, lookup-insert_other}
use podpool_controller.Workload.Object.{ObjectApi, OwnerReference}
use podpool_controller.Workload.Object.Laws.{ObjectLaws}

unfoldable pub get_path : List String → Fields → Option Json
get_path [] m = some (obj m)
get_path (k ∷ []) m = lookup k m
get_path (k ∷ j ∷ p) m = elim (as_map (lookup k m)) [ none ↦ none | some n ↦ get_path (j ∷ p) n ]

-- The map to go down to: a new one where there is none, and no way through another value.
abbrev pub room : Option Json → Option Fields
room none = some end
room (some (obj n)) = some n
room (some _) = none

abbrev pub wrap : String → Fields → Option Fields → Option Fields
wrap k m none = none
wrap k m (some n) = some (insert k (obj n) m)

unfoldable pub set_path : Json → List String → Fields → Option Fields
set_path v [] m = none
set_path v (k ∷ []) m = some (insert k v m)
set_path v (k ∷ j ∷ p) m = elim (room (lookup k m)) [
  | none ↦ none
  | some n ↦ wrap k m (set_path v (j ∷ p) n)
]

abbrev pub or_same : Fields → Option Fields → Fields
or_same m none = m
or_same m (some n) = n

abbrev pub as_int : Option Json → Option ℤ
as_int (some (num n)) = some n
as_int _ = none

abbrev pub as_text : Option Json → String
as_text (some (str s)) = s
as_text _ = ""

-- A map that a metadata field is written to; what is no map is replaced.
abbrev pub metadata_of : Option Json → Fields
metadata_of (some (obj m)) = m
metadata_of _ = end

abbrev pub put_metadata : String → Json → Fields → Fields
put_metadata k v m = insert "metadata" (obj (insert k v (metadata_of (lookup "metadata" m)))) m

abbrev pub get_metadata : String → Fields → Option Json
get_metadata k m = lookup k (metadata_of (lookup "metadata" m))

unfoldable pub from_labels : List (String × String) → Fields
from_labels [] = end
from_labels ((k, v) ∷ ls) = field k (str v) (from_labels ls)

unfoldable pub to_labels : Fields → List (String × String)
to_labels end = []
to_labels (field k v m) = (k, as_text (some v)) ∷ to_labels m

abbrev pub as_flag : Option Json → Bool
as_flag (some (bool b)) = b
as_flag _ = false

abbrev pub from_owner : OwnerReference → Json
from_owner r = obj (
    field "apiVersion" (str r.api_version) (
      field "kind" (str r.kind) (
        field "name" (str r.name) (
          field "uid" (str r.uid) (
            field "controller" (bool r.is_controller)
              (field "blockOwnerDeletion" (bool r.blocks_deletion) end))))))

unfoldable pub from_owners : List OwnerReference → Items
from_owners [] = nil
from_owners (r ∷ rs) = cons (from_owner r) (from_owners rs)

abbrev pub to_owner : Json → OwnerReference
to_owner v =
    let m = metadata_of (some v) in
    record {
      api_version = as_text (lookup "apiVersion" m);
      kind = as_text (lookup "kind" m);
      name = as_text (lookup "name" m);
      uid = as_text (lookup "uid" m);
      is_controller = as_flag (lookup "controller" m);
      blocks_deletion = as_flag (lookup "blockOwnerDeletion" m);
    }

unfoldable pub to_owners : Items → List OwnerReference
to_owners nil = []
to_owners (cons v vs) = to_owner v ∷ to_owners vs

abbrev pub owners_at : Option Json → List OwnerReference
owners_at (some (arr vs)) = to_owners vs
owners_at _ = []

abbrev pub labels_at : Option Json → List (String × String)
labels_at (some (obj m)) = to_labels m
labels_at _ = []

unfoldable pub plain : (String → Option (String × String)) → ObjectApi
unfolding get_path set_path from_labels to_labels from_owners to_owners
plain parse = record {
  nested_field = get_path;
  nested_int64 = λ p m. as_int (get_path p m);
  put_in_place = λ p v m. or_same m (set_path v p m);
  set_nested = set_path;
  get_name = λ m. as_text (get_metadata "name" m);
  set_name = λ s m. put_metadata "name" (str s) m;
  set_namespace = λ s m. put_metadata "namespace" (str s) m;
  get_labels = λ m. labels_at (get_metadata "labels" m);
  set_labels = λ ls m. put_metadata "labels" (obj (from_labels ls)) m;
  get_owner_references = λ m. owners_at (get_metadata "ownerReferences" m);
  set_owner_references = λ rs m. put_metadata "ownerReferences" (arr (from_owners rs)) m;
  parse_group_version = parse;
}
