-- ===== src/Prelude/Table.antt =====
-- Go's maps as association lists: a key stands at most once in what these operations build.
use mathlib.Core.Path.{◌≡◌, refl, subst}
use mathlib.Core.Logic.{inl, inr, ◌↔◌}
use mathlib.Core.Bool.{Bool, true, false}
use mathlib.Core.Option.{Option, none, some}
use mathlib.Core.List.{List, [], ◌∷◌}
use podpool_controller.Prelude.Tests.{if◌then◌else◌, Bool-cases}

-- `same` is the comparison of keys.
module _ {ℓ κ} {K : Type ℓ} {V : Type κ} (same : K → K → Bool) where
  abbrev pub at : K → List (K × V) → Option V
  at k [] = none
  at k ((j, v) ∷ m) = let rest = at k m in if same k j then some v else rest

  abbrev pub put : K → V → List (K × V) → List (K × V)
  put k v [] = (k, v) ∷ []
  put k v ((j, w) ∷ m) = let rest = put k v m in if same k j then (k, v) ∷ m else (j, w) ∷ rest

  abbrev pub remove : K → List (K × V) → List (K × V)
  remove k [] = []
  remove k ((j, w) ∷ m) = let rest = remove k m in if same k j then rest else (j, w) ∷ rest

module _ {ℓ} {K : Type ℓ} (same : K → K → Bool)
    (agrees : (a b : K) → (same a b ≡ true) ↔ (a ≡ b)) where
  same_refl : (k : K) → same k k ≡ true
  same_refl k = (agrees k k).1 refl

  apart : (j k i : K) → same j k ≡ false → same k i ≡ true → same j i ≡ false
  apart j k i off hit = subst (λ x. same j x ≡ false) ((agrees k i).0 hit) off

  module _ {κ} {V : Type κ} where
    pub at-put : (k : K) (v : V) (m : List (K × V)) → at same k (put same k v m) ≡ some v
    at-put k v [] = rw (same_refl k) refl
    at-put k v ((j, w) ∷ m) = elim (Bool-cases (same k j)) [
      | inl hit ↦ rw (hit, same_refl k) refl
      | inr miss ↦ rw (miss, miss) (at-put k v m)
    ]

    pub at-put_other :
        (j k : K) (v : V) (m : List (K × V))
        → same j k ≡ false
        → at same j (put same k v m) ≡ at same j m
    at-put_other j k v [] off = rw (off) refl
    at-put_other j k v ((i, w) ∷ m) off = elim (Bool-cases (same k i)) [
      | inl hit ↦ rw (hit, off, apart j k i off hit) refl
      | inr miss ↦ rw (miss, at-put_other j k v m off) refl
    ]

    pub at-remove : (k : K) (m : List (K × V)) → at same k (remove same k m) ≡ none
    at-remove k [] = refl
    at-remove k ((j, w) ∷ m) = elim (Bool-cases (same k j)) [
      | inl hit ↦ rw (hit) (at-remove k m)
      | inr miss ↦ rw (miss, miss) (at-remove k m)
    ]

    pub at-remove_other :
        (j k : K) (m : List (K × V)) → same j k ≡ false → at same j (remove same k m) ≡ at same j m
    at-remove_other j k [] off = refl
    at-remove_other j k ((i, w) ∷ m) off = elim (Bool-cases (same k i)) [
      | inl hit ↦ rw (hit, apart j k i off hit) (at-remove_other j k m off)
      | inr miss ↦ rw (miss, at-remove_other j k m off) refl
    ]
