-- ===== src/Workload/Object/Plain/Laws.antt =====
-- The plain accessors obey the laws that internal/workload/render.go relies on.
use podpool_controller.Prelude.{
  false, Option, none, some, List, [], ◌∷◌, String, ◌≡◌, refl, sym, ap, subst, ◌∙◌, str_eq,
  Option-cases, inl, inr,
}
use mathlib.Core.Option.{some-injective}
use podpool_controller.Json.{
  Json, null, bool, num, str, arr, obj, Fields, end, lookup, insert, as_map,
}
use podpool_controller.Json.Laws.{lookup-insert, lookup-insert_other}
use podpool_controller.Workload.Object.{OwnerReference}
use podpool_controller.Workload.Object.Laws.{ObjectLaws}
use podpool_controller.Workload.Object.Plain.{
  get_path, room, wrap, set_path, or_same, as_text, metadata_of, put_metadata, get_metadata,
  from_labels, from_owners, to_owners, owners_at, plain,
}

-- How a value is set two fields down or more.
set_path-through :
    (v : Json) (k j : String) (p : List String) (m n : Fields)
    → set_path v (k ∷ j ∷ p) m ≡ some n
    → (b : Fields) × (b' : Fields) × (room (lookup k m) ≡ some b)
      × (set_path v (j ∷ p) b ≡ some b')
      × (insert k (obj b') m ≡ n)
unfolding set_path
set_path-through v k j p m n h = elim (Option-cases (room (lookup k m))) [
  | inl e ↦
      let bad =
        subst
          (λ o.
            elim o as (λ _. Option Fields) [
              | none ↦ none
              | some b ↦ wrap k m (set_path v (j ∷ p) b)
            ]
            ≡ some n)
          e h in
      absurd (cc)
  | inr (b, e) ↦
      let h2 : wrap k m (set_path v (j ∷ p) b) ≡ some n =
        subst
          (λ o.
            elim o as (λ _. Option Fields) [
              | none ↦ none
              | some b ↦ wrap k m (set_path v (j ∷ p) b)
            ]
            ≡ some n)
          e h in
      elim (Option-cases (set_path v (j ∷ p) b)) [
        | inl f ↦ let bad = subst (λ o. wrap k m o ≡ some n) f h2 in absurd (cc)
        | inr (b', f) ↦ (
          b,
          b',
          e,
          f,
          some-injective (insert k (obj b') m) n (subst (λ o. wrap k m o ≡ some n) f h2),
        )
      ]
]

set_path-get_path :
    (v : Json) (p : List String) (m n : Fields) → set_path v p m ≡ some n → get_path p n ≡ some v
unfolding get_path set_path
set_path-get_path v [] m n h = absurd (cc)
set_path-get_path v (k ∷ []) m n h =
    subst (λ x. lookup k x ≡ some v) (some-injective (insert k v m) n h) (lookup-insert k v m)
set_path-get_path v (k ∷ j ∷ p) m n h =
    let (b, b', e, f, g) = set_path-through v k j p m n h in
    subst (λ x. get_path (k ∷ j ∷ p) x ≡ some v) g
      (rw (get_path, lookup-insert k (obj b') m) (set_path-get_path v (j ∷ p) b b' f))

-- What is found depends on the first field alone, and setting a value touches only that.
get_path-first :
    (i : String) (q : List String) (b c : Fields)
    → lookup i c ≡ lookup i b
    → get_path (i ∷ q) c ≡ get_path (i ∷ q) b
unfolding get_path
get_path-first i [] b c h = h
get_path-first i (j ∷ q) b c h =
    ap (λ o. elim (as_map o) as (λ _. Option Json) [ none ↦ none | some n ↦ get_path (j ∷ q) n ]) h

set_path-first :
    (v : Json) (j i : String) (p : List String) (b c : Fields)
    → set_path v (j ∷ p) b ≡ some c
    → str_eq j i ≡ false
    → lookup i c ≡ lookup i b
unfolding set_path
set_path-first v j i [] b c h other =
    subst (λ x. lookup i x ≡ lookup i b) (some-injective (insert j v b) c h)
      (lookup-insert_other i j v b other)
set_path-first v j i (k ∷ p) b c h other =
    let (_, b', _, _, g) = set_path-through v j k p b c h in
    subst (λ x. lookup i x ≡ lookup i b) g (lookup-insert_other i j (obj b') b other)

get_path-room :
    (k i : String) (q : List String) (m b : Fields)
    → room (lookup k m) ≡ some b
    → get_path (k ∷ i ∷ q) m ≡ get_path (i ∷ q) b
unfolding get_path lookup
get_path-room k i q m b h = over_held (lookup k m) h
  where
    over_held :
        (held : Option Json)
        → room held ≡ some b
        → elim (as_map held) as (λ _. Option Json) [ none ↦ none | some n ↦ get_path (i ∷ q) n ]
          ≡ get_path (i ∷ q) b
    over_held none e = subst (λ x. none ≡ get_path (i ∷ q) x) (some-injective end b e) (at_end q)
      where
        at_end : (q : List String) → none ≡ get_path (i ∷ q) end
        at_end [] = refl
        at_end (_ ∷ _) = refl
    over_held (some (obj n)) e = ap {A = Fields} (get_path (i ∷ q)) (some-injective n b e)
    over_held (some null) e = absurd (cc)
    over_held (some (bool x)) e = absurd (cc)
    over_held (some (num x)) e = absurd (cc)
    over_held (some (str x)) e = absurd (cc)
    over_held (some (arr x)) e = absurd (cc)

set_path-other :
    (v : Json) (k j i : String) (p q : List String) (m n : Fields)
    → set_path v (k ∷ j ∷ p) m ≡ some n
    → str_eq j i ≡ false
    → get_path (k ∷ i ∷ q) n ≡ get_path (k ∷ i ∷ q) m
set_path-other v k j i p q m n h other =
    let (b, b', e, f, g) = set_path-through v k j p m n h in
    let here : room (lookup k n) ≡ some b' =
      subst (λ x. room (lookup k x) ≡ some b') g (ap room (lookup-insert k (obj b') m)) in
    get_path-room k i q n b' here
    ∙ get_path-first i q b b' (set_path-first v j i p b b' f other)
    ∙ sym (get_path-room k i q m b e)

as_map-room : (o : Option Json) (b : Fields) → as_map o ≡ some b → room o ≡ some b
as_map-room none b h = absurd (cc)
as_map-room (some (obj n)) b h = h
as_map-room (some null) b h = absurd (cc)
as_map-room (some (bool x)) b h = absurd (cc)
as_map-room (some (num x)) b h = absurd (cc)
as_map-room (some (str x)) b h = absurd (cc)
as_map-room (some (arr x)) b h = absurd (cc)

-- Where something is found, something can be set.
can_set :
    (v w : Json) (k : String) (p : List String) (m : Fields)
    → get_path (k ∷ p) m ≡ some w
    → (n : Fields) × (set_path v (k ∷ p) m ≡ some n)
unfolding get_path set_path
can_set v w k [] m h = (insert k v m, refl)
can_set v w k (j ∷ p) m h = elim (Option-cases (as_map (lookup k m))) [
  | inl e ↦
      let bad =
        subst
          (λ o. elim o as (λ _. Option Json) [ none ↦ none | some n ↦ get_path (j ∷ p) n ] ≡ some w)
          e h in
      absurd (cc)
  | inr (b, e) ↦
      let h2 : get_path (j ∷ p) b ≡ some w =
        subst
          (λ o. elim o as (λ _. Option Json) [ none ↦ none | some n ↦ get_path (j ∷ p) n ] ≡ some w)
          e h in
      let (c, f) = can_set v w j p b h2 in
      (insert k (obj c) m, rw (set_path, as_map-room (lookup k m) b e) (ap (wrap k m) f))
]

put_path-get_path :
    (v w : Json) (k : String) (p : List String) (m : Fields)
    → get_path (k ∷ p) m ≡ some w
    → get_path (k ∷ p) (or_same m (set_path v (k ∷ p) m)) ≡ some v
put_path-get_path v w k p m h =
    let (n, e) = can_set v w k p m h in
    subst (λ o. get_path (k ∷ p) (or_same m o) ≡ some v) (sym e) (set_path-get_path v (k ∷ p) m n e)

spec_past_metadata :
    (k : String) (v : Json) (p : List String) (m : Fields)
    → get_path ("spec" ∷ p) (put_metadata k v m) ≡ get_path ("spec" ∷ p) m
spec_past_metadata k v p m = get_path-first "spec" p m (put_metadata k v m) (
    lookup-insert_other "spec" "metadata" (obj (insert k v (metadata_of (lookup "metadata" m)))) m
      refl)

get_metadata-put :
    (k : String) (v : Json) (m : Fields) → get_metadata k (put_metadata k v m) ≡ some v
get_metadata-put k v m = simp (lookup-insert)

get_metadata-put_other :
    (k j : String) (v : Json) (m : Fields)
    → str_eq j k ≡ false
    → get_metadata k (put_metadata j v m) ≡ get_metadata k m
get_metadata-put_other k j v m h =
    let at : lookup "metadata" (put_metadata j v m)
        ≡ some (obj (insert j v (metadata_of (lookup "metadata" m)))) =
      lookup-insert "metadata" (obj (insert j v (metadata_of (lookup "metadata" m)))) m in
    rw at (lookup-insert_other k j v (metadata_of (lookup "metadata" m)) h)

to_owners-from_owners : (rs : List OwnerReference) → to_owners (from_owners rs) ≡ rs
unfolding to_owners from_owners lookup
to_owners-from_owners [] = refl
to_owners-from_owners (r ∷ rs) = ap (◌∷◌ r) (to_owners-from_owners rs)

pub plain_laws : (parse : String → Option (String × String)) → ObjectLaws (plain parse)
unfolding plain
plain_laws parse = record {
  set-get = set_path-get_path;
  set-get_other = set_path-other;
  put-get = put_path-get_path;
  name-spec = λ s p m. spec_past_metadata "name" (str s) p m;
  namespace-spec = λ s p m. spec_past_metadata "namespace" (str s) p m;
  labels-spec = λ ls p m. spec_past_metadata "labels" (obj (from_labels ls)) p m;
  owners-spec = λ rs p m. spec_past_metadata "ownerReferences" (arr (from_owners rs)) p m;
  name-name = λ s m. ap as_text (get_metadata-put "name" (str s) m);
  namespace-name = λ s m. ap as_text (get_metadata-put_other "name" "namespace" (str s) m refl);
  labels-name =
      λ ls m. ap as_text (get_metadata-put_other "name" "labels" (obj (from_labels ls)) m refl);
  owners-name = λ rs m.
      ap as_text (get_metadata-put_other "name" "ownerReferences" (arr (from_owners rs)) m refl);
  owners-owners = λ rs m.
      ap owners_at (get_metadata-put "ownerReferences" (arr (from_owners rs)) m)
      ∙ to_owners-from_owners rs;
}
