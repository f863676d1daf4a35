-- ===== src/Workload/Merge/Laws.antt =====
-- internal/workload/render.go: what a merge leaves under each key.
use podpool_controller.Prelude.{
  ◌≡◌, refl, ap, subst, ◌∙◌, false, Option, none, some, String, str_eq, str_eq_iff, Bool-cases, inl,
  inr,
}
use podpool_controller.Json.{Json, null, bool, num, str, arr, obj, Fields, end, field, lookup}
use podpool_controller.Json.Laws.{
  lookup-insert, lookup-insert_other, lookup-delete, lookup-delete_other,
}
use podpool_controller.Workload.Merge.{merge_maps, merge_key}

-- No key stands twice.
abbrev pub IsMap : Fields → Type 0
IsMap end = Unit
IsMap (field k v m) = (lookup k m ≡ none) × IsMap m

-- What the code makes of one key that the patch names or not. This is neither a strategic merge patch,
-- since a list replaces a list as a whole, nor RFC 7386 in full, since a map that meets no map stands as
-- it is, with the nulls inside it.
unfoldable pub patched : Option Json → Option Json → Option Json
patched held none = held
patched held (some null) = none
patched (some (obj b)) (some (obj p)) = some (obj (merge_maps b p))
patched held (some v) = some v

lookup-merge_key :
    (base : Fields) (k : String) (v : Json)
    → lookup k (merge_key base k v (lookup k base)) ≡ patched (lookup k base) (some v)
unfolding merge_maps patched
lookup-merge_key base k null = lookup-delete k base
lookup-merge_key base k (bool b) = lookup-insert k (bool b) base
lookup-merge_key base k (num n) = lookup-insert k (num n) base
lookup-merge_key base k (str s) = lookup-insert k (str s) base
lookup-merge_key base k (arr xs) = lookup-insert k (arr xs) base
lookup-merge_key base k (obj p) = over_held (lookup k base)
  where
    over_held :
        (held : Option Json)
        → lookup k (merge_key base k (obj p) held) ≡ patched held (some (obj p))
    over_held none = lookup-insert k (obj p) base
    over_held (some null) = lookup-insert k (obj p) base
    over_held (some (bool b)) = lookup-insert k (obj p) base
    over_held (some (num n)) = lookup-insert k (obj p) base
    over_held (some (str s)) = lookup-insert k (obj p) base
    over_held (some (arr xs)) = lookup-insert k (obj p) base
    over_held (some (obj b)) = lookup-insert k (obj (merge_maps b p)) base

lookup-merge_key_other :
    (base : Fields) (k j : String) (v : Json) (held : Option Json)
    → str_eq j k ≡ false
    → lookup k (merge_key base j v held) ≡ lookup k base
unfolding merge_maps
lookup-merge_key_other base k j null held h = lookup-delete_other k j base h
lookup-merge_key_other base k j (bool b) held h = lookup-insert_other k j (bool b) base h
lookup-merge_key_other base k j (num n) held h = lookup-insert_other k j (num n) base h
lookup-merge_key_other base k j (str s) held h = lookup-insert_other k j (str s) base h
lookup-merge_key_other base k j (arr xs) held h = lookup-insert_other k j (arr xs) base h
lookup-merge_key_other base k j (obj p) none h = lookup-insert_other k j (obj p) base h
lookup-merge_key_other base k j (obj p) (some null) h = lookup-insert_other k j (obj p) base h
lookup-merge_key_other base k j (obj p) (some (bool b)) h = lookup-insert_other k j (obj p) base h
lookup-merge_key_other base k j (obj p) (some (num n)) h = lookup-insert_other k j (obj p) base h
lookup-merge_key_other base k j (obj p) (some (str s)) h = lookup-insert_other k j (obj p) base h
lookup-merge_key_other base k j (obj p) (some (arr xs)) h = lookup-insert_other k j (obj p) base h
lookup-merge_key_other base k j (obj p) (some (obj b)) h =
    lookup-insert_other k j (obj (merge_maps b p)) base h

-- A merge goes key by key, in whatever order the patch lists its keys: a key that the patch does not
-- name keeps its value, one that it sets to null is gone, two maps are merged in turn, and any other
-- value replaces what was there as it stands: a list as a whole, and a map that meets no map with the
-- nulls inside it; no key stands twice in the patch.
pub lookup-merge_maps :
    (base patch : Fields) (k : String)
    → IsMap patch
    → lookup k (merge_maps base patch) ≡ patched (lookup k base) (lookup k patch)
unfolding merge_maps patched lookup
lookup-merge_maps base end k wf = refl
lookup-merge_maps base (field j v patch) k wf =
    let ih = lookup-merge_maps (merge_key base j v (lookup j base)) patch k wf.1 in
    elim (Bool-cases (str_eq j k)) [
      | inl e ↦
          let same : j ≡ k = (str_eq_iff j k).0 e in
          rw e (
            ih
            ∙ ap (patched (lookup k (merge_key base j v (lookup j base))))
                (subst (λ x. lookup x patch ≡ none) same wf.0)
            ∙ subst
                (λ x.
                  lookup x (merge_key base j v (lookup j base)) ≡ patched (lookup x base) (some v))
                same (lookup-merge_key base j v))
      | inr e ↦ rw e (
          ih
          ∙ ap (λ held. patched held (lookup k patch))
              (lookup-merge_key_other base k j v (lookup j base) e))
    ]
