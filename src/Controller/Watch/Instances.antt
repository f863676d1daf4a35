-- ===== src/Controller/Watch/Instances.antt =====
-- internal/controller/watch.go: the informers of the cache, the handlers that they carry, and what the
-- controller remembers of both.
use podpool_controller.Prelude.{
  ℕ, suc, ◌≤◌, ◌<◌, Bool, true, false, ◌&&◌, some, List, [], ◌∷◌, ◌==◌, ltb, str_eq, str_eq_iff,
  str_eq_refl, ◌≡◌, refl, sym, ◌∙◌, ap, subst, ◌↔◌, ◌⊎◌, inl, inr, Bool-cases, if◌then◌else◌, at,
  put, remove, at-put, at-put_other, at-remove, at-remove_other, arith,
}
use podpool_controller.Workload.Object.{Gvk}
use podpool_controller.Controller.Sweep.{same_kind}
use podpool_controller.Controller.Watch.{is_instance}

and_true : (a b : Bool) → (a && b) ≡ true → (a ≡ true) × (b ≡ true)
and_true true b h = (refl, h)
and_true false b h = absurd (cc)

pub same_kind_iff : (a b : Gvk) → (same_kind a b ≡ true) ↔ (a ≡ b)
same_kind_iff a b = (
  λ h.
      let (gv, k) = and_true (str_eq a.group b.group && str_eq a.version b.version) _ h in
      let (g, v) = and_true (str_eq a.group b.group) _ gv in
      let eg = (str_eq_iff a.group b.group).0 g in
      let ev = (str_eq_iff a.version b.version).0 v in
      let ek = (str_eq_iff a.kind b.kind).0 k in cc,
  λ h.
      subst (λ x. same_kind a x ≡ true) h
        (rw (str_eq_refl a.group, str_eq_refl a.version, str_eq_refl a.kind) refl),
)

-- How many handlers were registered on an instance.
unfoldable pub handlers_of : Gvk → ℕ → List (Gvk × ℕ) → ℕ
handlers_of gvk inf [] = 0
handlers_of gvk inf ((g, i) ∷ log) =
    let rest = handlers_of gvk inf log in if same_kind gvk g && i == inf then suc rest else rest

-- What a call of `GetInformer`, of `RemoveInformer` and of `Watch` leaves: the instances that the cache
-- has, the number of the next one, the handlers that were registered, and the controller's record.
pub record Ledger : Type 0 where
  pub current : List (Gvk × ℕ)
  pub next : ℕ
  pub handlers : List (Gvk × ℕ)
  pub states : List (Gvk × ℕ)

pub record IsSound (l : Ledger) : Type 0 where
  pub once : (g : Gvk) (i : ℕ) → handlers_of g i l.handlers ≤ 1
  pub used : (g : Gvk) (i : ℕ) → 1 ≤ handlers_of g i l.handlers → i < l.next
  pub live : (g : Gvk) (i : ℕ) → at same_kind g l.current ≡ some i → i < l.next
  pub known :
      (g : Gvk) (i : ℕ)
      → at same_kind g l.current ≡ some i
      → 1 ≤ handlers_of g i l.handlers
      → at same_kind g l.states ≡ some i
  pub held : (g : Gvk) (i : ℕ) → at same_kind g l.states ≡ some i → 1 ≤ handlers_of g i l.handlers

some-injective : (a b : ℕ) → some a ≡ some b → a ≡ b
some-injective a b h = cc

-- What is found after a write, and after a removal.
found_put :
    (g gvk : Gvk) (v i : ℕ) (m : List (Gvk × ℕ))
    → at same_kind g (put same_kind gvk v m) ≡ some i
    → ((g ≡ gvk) × (i ≡ v)) ⊎ ((same_kind g gvk ≡ false) × (at same_kind g m ≡ some i))
found_put g gvk v i m h = elim (Bool-cases (same_kind g gvk)) [
  | inl hit ↦
      let e = (same_kind_iff g gvk).0 hit in
      let stored = subst (λ x. at same_kind x (put same_kind gvk v m) ≡ some i) e h in
      inl (e, some-injective i v (sym stored ∙ at-put same_kind same_kind_iff gvk v m))
  | inr miss ↦ inr (miss, sym (at-put_other same_kind same_kind_iff g gvk v m miss) ∙ h)
]

found_remove :
    (g gvk : Gvk) (i : ℕ) (m : List (Gvk × ℕ))
    → at same_kind g (remove same_kind gvk m) ≡ some i
    → (same_kind g gvk ≡ false) × (at same_kind g m ≡ some i)
found_remove g gvk i m h = elim (Bool-cases (same_kind g gvk)) [
  | inl hit ↦
      let e = (same_kind_iff g gvk).0 hit in
      let gone = subst (λ x. at same_kind x (remove same_kind gvk m) ≡ some i) e h in
      let empty = at-remove same_kind same_kind_iff gvk m in absurd (cc)
  | inr miss ↦ (miss, sym (at-remove_other same_kind same_kind_iff g gvk m miss) ∙ h)
]

-- The cache builds an instance that it never had before.
abbrev pub grown : Gvk → Ledger → Ledger
grown gvk l = record l { current = put same_kind gvk l.next l.current; next = suc l.next }

pub grown-IsSound : (gvk : Gvk) (l : Ledger) → IsSound l → IsSound (grown gvk l)
grown-IsSound gvk l s = record {
  once = s.once;
  used = λ g i h. omega (arith, s.used g i h);
  live = λ g i h. elim (found_put g gvk l.next i l.current h) [
    | inl (e, new) ↦ omega (arith, new)
    | inr (miss, old) ↦ omega (arith, s.live g i old)
  ];
  known = λ g i h n. elim (found_put g gvk l.next i l.current h) [
    | inl (e, new) ↦ absurd (omega (arith, new, s.used g i n))
    | inr (miss, old) ↦ s.known g i old n
  ];
  held = s.held;
}

-- The cache drops its instance, and the controller with it or without it.
abbrev pub dropped : Gvk → Ledger → Ledger
dropped gvk l = record l { current = remove same_kind gvk l.current }

pub dropped-IsSound : (gvk : Gvk) (l : Ledger) → IsSound l → IsSound (dropped gvk l)
dropped-IsSound gvk l s = record {
  once = s.once;
  used = s.used;
  live = λ g i h. s.live g i (found_remove g gvk i l.current h).1;
  known = λ g i h n. s.known g i (found_remove g gvk i l.current h).1 n;
  held = s.held;
}

abbrev pub forgotten : Gvk → Ledger → Ledger
forgotten gvk l = record l {
  current = remove same_kind gvk l.current;
  states = remove same_kind gvk l.states;
}

pub forgotten-IsSound : (gvk : Gvk) (l : Ledger) → IsSound l → IsSound (forgotten gvk l)
forgotten-IsSound gvk l s = record {
  once = s.once;
  used = s.used;
  live = λ g i h. s.live g i (found_remove g gvk i l.current h).1;
  known = λ g i h n.
      let (miss, old) = found_remove g gvk i l.current h in
      at-remove_other same_kind same_kind_iff g gvk l.states miss ∙ s.known g i old n;
  held = λ g i h. s.held g i (found_remove g gvk i l.states h).1;
}

-- A handler is registered on the instance that the cache has, and recorded.
abbrev pub watched : Gvk → ℕ → Ledger → Ledger
watched gvk inf l = record l {
  handlers = (gvk, inf) ∷ l.handlers;
  states = put same_kind gvk inf l.states;
}

handlers_more :
    (g gvk : Gvk) (i inf : ℕ) (log : List (Gvk × ℕ))
    → ((g ≡ gvk) × (i ≡ inf) × (handlers_of g i ((gvk, inf) ∷ log) ≡ suc (handlers_of g i log)))
      ⊎ (handlers_of g i ((gvk, inf) ∷ log) ≡ handlers_of g i log)
unfolding handlers_of
handlers_more g gvk i inf log = elim (Bool-cases (same_kind g gvk)) [
  | inl hit ↦ elim (Bool-cases (inf == i)) [
    | inl same ↦ inl ((same_kind_iff g gvk).0 hit, ground arith, rw (hit, same) refl)
    | inr other ↦ inr (rw (hit, other) refl)
  ]
  | inr miss ↦ inr (rw (miss) refl)
]

handlers_new :
    (gvk : Gvk) (inf : ℕ) (log : List (Gvk × ℕ)) → 1 ≤ handlers_of gvk inf ((gvk, inf) ∷ log)
unfolding handlers_of
handlers_new gvk inf log =
    let same : inf == inf ≡ true = ground arith in
    rw ((same_kind_iff gvk gvk).1 refl, same) (omega arith)

record_of_put :
    (g gvk : Gvk) (i inf : ℕ) (m : List (Gvk × ℕ))
    → g ≡ gvk
    → i ≡ inf
    → at same_kind g (put same_kind gvk inf m) ≡ some i
record_of_put g gvk i inf m eg ei =
    subst (λ x. at same_kind x (put same_kind gvk inf m) ≡ some i) (sym eg)
      (at-put same_kind same_kind_iff gvk inf m ∙ ap some (sym ei))

unrecorded :
    (gvk : Gvk) (inf : ℕ) (l : Ledger)
    → IsSound l
    → at same_kind gvk l.current ≡ some inf
    → is_instance inf (at same_kind gvk l.states) ≡ false
    → handlers_of gvk inf l.handlers ≡ 0
unrecorded gvk inf l s here fresh = elim (Bool-cases (ltb 0 (handlers_of gvk inf l.handlers))) [
  | inl some_there ↦
      let stored = s.known gvk inf here (ground arith) in
      let bad : is_instance inf (some inf) ≡ false =
        subst (λ o. is_instance inf o ≡ false) stored fresh in
      absurd (ground arith)
  | inr none_there ↦ ground arith
]

pub watched-IsSound :
    (gvk : Gvk) (inf : ℕ) (l : Ledger)
    → IsSound l
    → at same_kind gvk l.current ≡ some inf
    → is_instance inf (at same_kind gvk l.states) ≡ false
    → IsSound (watched gvk inf l)
watched-IsSound gvk inf l s here fresh = record {
  once = λ g i. elim (handlers_more g gvk i inf l.handlers) [
    | inl (eg, ei, more) ↦
        let zero_here : handlers_of g i l.handlers ≡ 0 =
          rw (eg, ei) (unrecorded gvk inf l s here fresh) in
        omega (arith, more, zero_here)
    | inr same ↦ omega (arith, same, s.once g i)
  ];
  used = λ g i h. elim (handlers_more g gvk i inf l.handlers) [
    | inl (eg, ei, more) ↦ omega (arith, ei, s.live gvk inf here)
    | inr same ↦ s.used g i (omega (arith, same, h))
  ];
  live = s.live;
  known = λ g i h n. elim (handlers_more g gvk i inf l.handlers) [
    | inl (eg, ei, more) ↦ record_of_put g gvk i inf l.states eg ei
    | inr same ↦ elim (Bool-cases (same_kind g gvk)) [
      | inl hit ↦
          let eg = (same_kind_iff g gvk).0 hit in
          let both = subst (λ x. at same_kind x l.current ≡ some i) eg h in
          record_of_put g gvk i inf l.states eg (some-injective i inf (sym both ∙ here))
      | inr miss ↦
          at-put_other same_kind same_kind_iff g gvk inf l.states miss
          ∙ s.known g i h (omega (arith, same, n))
    ]
  ];
  held = λ g i h. elim (handlers_more g gvk i inf l.handlers) [
    | inl (eg, ei, more) ↦ omega (arith, more)
    | inr same ↦ elim (found_put g gvk inf i l.states h) [
      | inl (eg, ei) ↦ rw (eg, ei) (handlers_new gvk inf l.handlers)
      | inr (miss, old) ↦ omega (arith, same, s.held g i old)
    ]
  ];
}
