-- ===== src/Json/Laws.antt =====
-- Maps: what is found after an insertion and after a deletion.
use podpool_controller.Prelude.{
  ◌≡◌, refl, false, none, some, String, str_eq, Bool-cases, str_eq_refl, str_eq_same, inl, inr,
}
use podpool_controller.Json.{Json, Fields, end, field, lookup, insert, delete}

pub lookup-insert : (k : String) (v : Json) (m : Fields) → lookup k (insert k v m) ≡ some v
unfolding lookup insert
lookup-insert k v end = rw (str_eq_refl k) refl
lookup-insert k v (field j w m) = elim (Bool-cases (str_eq j k)) [
  | inl e ↦ rw e (rw e refl)
  | inr e ↦ rw e (rw e (lookup-insert k v m))
]

pub lookup-insert_other :
    (k j : String) (v : Json) (m : Fields)
    → str_eq j k ≡ false
    → lookup k (insert j v m) ≡ lookup k m
unfolding lookup insert
lookup-insert_other k j v end h = rw h refl
lookup-insert_other k j v (field i w m) h = elim (Bool-cases (str_eq i j)) [
  | inl e ↦ rw e (rw (str_eq_same i j k e h) refl)
  | inr e ↦ rw e (elim (Bool-cases (str_eq i k)) [
    | inl f ↦ rw f refl
    | inr f ↦ rw f (lookup-insert_other k j v m h)
  ])
]

pub lookup-delete : (k : String) (m : Fields) → lookup k (delete k m) ≡ none
unfolding lookup delete
lookup-delete k end = refl
lookup-delete k (field j w m) = elim (Bool-cases (str_eq j k)) [
  | inl e ↦ rw e (lookup-delete k m)
  | inr e ↦ rw e (rw e (lookup-delete k m))
]

pub lookup-delete_other :
    (k j : String) (m : Fields) → str_eq j k ≡ false → lookup k (delete j m) ≡ lookup k m
unfolding lookup delete
lookup-delete_other k j end h = refl
lookup-delete_other k j (field i w m) h = elim (Bool-cases (str_eq i j)) [
  | inl e ↦ rw (e, str_eq_same i j k e h) (lookup-delete_other k j m h)
  | inr e ↦ rw e (elim (Bool-cases (str_eq i k)) [
    | inl f ↦ rw f refl
    | inr f ↦ rw f (lookup-delete_other k j m h)
  ])
]
