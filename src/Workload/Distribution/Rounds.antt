-- ===== src/Workload/Distribution/Rounds.antt =====
-- internal/workload/algorithm.go: what the loops of `ComputeGroupTargets` have in common. A round
-- moves replicas from `remaining` to one entry, and a loop keeps what every round keeps.
use podpool_controller.Prelude.{
  ℕ, ◌+◌, ◌-◌, ◌≤◌, ◌≡◌, refl, List, [], ◌∷◌, true, false, inl, inr, Option, Option-cases, String,
  arith, ◌==◌, map, sum, All, Bool-cases, max_int32, add_int32_small, min,
}
use native.Mathlib.Nat.{le_refl}
use podpool_controller.Api.{GroupSpec}
use podpool_controller.Workload.Scaling.{group_target, group_ceiling}
use podpool_controller.Workload.Distribution.{
  Slot, Round, each_slot, each_slot_while, raise, target_round, opportunistic_round, overflow_round,
  slot_targets, offered,
}

abbrev pub placed : List Slot → ℕ
placed slots = sum (slot_targets slots)

-- A round keeps the group, takes nothing back, and loses no replica. The bound is what keeps the
-- addition on `int32` exact.
abbrev pub Moves : Round → Type 0
Moves round =
    (r : ℕ) (s : Slot)
    → s.target + r ≤ max_int32
    → ((round r s).0.group ≡ s.group)
      × (s.target ≤ (round r s).0.target)
      × ((round r s).0.target + (round r s).1 ≡ s.target + r)

abbrev pub Keeps : Round → (Slot → Type 0) → Type 0
Keeps round P = (r : ℕ) (s : Slot) → s.target + r ≤ max_int32 → P s → P (round r s).0

abbrev pub groups_of : List Slot → List GroupSpec
groups_of = map (λ s. s.group)

-- Entry by entry, the first list is below the second.
abbrev pub LeAll : List ℕ → List ℕ → Type 0
LeAll [] [] = Unit
LeAll (x ∷ xs) (y ∷ ys) = (x ≤ y) × LeAll xs ys
LeAll _ _ = ⊥

pub LeAll-refl : (xs : List ℕ) → LeAll xs xs
LeAll-refl [] = tt
LeAll-refl (x ∷ xs) = (omega arith, LeAll-refl xs)

pub LeAll-trans : (xs ys zs : List ℕ) → LeAll xs ys → LeAll ys zs → LeAll xs zs
LeAll-trans [] [] [] p q = tt
LeAll-trans (x ∷ xs) (y ∷ ys) (z ∷ zs) p q = (omega arith, LeAll-trans xs ys zs p.1 q.1)
LeAll-trans [] [] (z ∷ zs) p q = q
LeAll-trans [] (y ∷ ys) zs p q = absurd p
LeAll-trans (x ∷ xs) [] zs p q = absurd p
LeAll-trans (x ∷ xs) (y ∷ ys) [] p q = absurd q

-- The outcome of a loop holds as many replicas, the groups in the same order, and no smaller entry.
abbrev pub Accounts : List Slot → ℕ → List Slot × ℕ → Type 0
Accounts slots r out =
    (placed out.0 + out.1 ≡ placed slots + r)
    × (groups_of out.0 ≡ groups_of slots)
    × LeAll (slot_targets slots) (slot_targets out.0)

module _ (round : Round) (moves : Moves round) where
  pub each_slot-Accounts :
      (r : ℕ) (slots : List Slot)
      → placed slots + r ≤ max_int32
      → Accounts slots r (each_slot round r slots)
  unfolding each_slot
  each_slot-Accounts r [] h = (refl, refl, tt)
  each_slot-Accounts r (s ∷ rest) h =
      let m = moves r s (omega arith) in
      let ih = each_slot-Accounts (round r s).1 rest (omega arith) in (omega arith, cc, (m.1, ih.2))

  pub each_slot_while-Accounts :
      (r : ℕ) (slots : List Slot)
      → placed slots + r ≤ max_int32
      → Accounts slots r (each_slot_while round r slots)
  unfolding each_slot_while
  each_slot_while-Accounts r [] h = (refl, refl, tt)
  each_slot_while-Accounts r (s ∷ rest) h =
      let m = moves r s (omega arith) in
      let ih = each_slot_while-Accounts (round r s).1 rest (omega arith) in
      elim (Bool-cases (r == 0)) [
        | inl e ↦ rw e (refl, refl, LeAll-refl (slot_targets (s ∷ rest)))
        | inr e ↦ rw e (omega arith, cc, (m.1, ih.2))
      ]

  module _ (P : Slot → Type 0) (keeps : Keeps round P) where
    pub each_slot-All :
        (r : ℕ) (slots : List Slot)
        → placed slots + r ≤ max_int32
        → All P slots
        → All P (each_slot round r slots).0
    unfolding each_slot
    each_slot-All r [] h a = tt
    each_slot-All r (s ∷ rest) h (p, ps) =
        let m = moves r s (omega arith) in
        (keeps r s (omega arith) p, each_slot-All (round r s).1 rest (omega arith) ps)

    pub each_slot_while-All :
        (r : ℕ) (slots : List Slot)
        → placed slots + r ≤ max_int32
        → All P slots
        → All P (each_slot_while round r slots).0
    unfolding each_slot_while
    each_slot_while-All r [] h a = tt
    each_slot_while-All r (s ∷ rest) h (p, ps) =
        let m = moves r s (omega arith) in
        let ih = each_slot_while-All (round r s).1 rest (omega arith) ps in
        elim (Bool-cases (r == 0)) [
          | inl e ↦ rw e (p, ps)
          | inr e ↦ rw e (keeps r s (omega arith) p, ih)
        ]

-- With nothing remaining a loop changes nothing.
pub each_slot_while_done :
    (round : Round) (slots : List Slot) → each_slot_while round 0 slots ≡ (slots, 0)
unfolding each_slot_while
each_slot_while_done round [] = refl
each_slot_while_done round (s ∷ rest) = refl

pub each_slot_while_stop :
    (round : Round) (r : ℕ) (slots : List Slot)
    → (r == 0) ≡ true
    → each_slot_while round r slots ≡ (slots, r)
unfolding each_slot_while
each_slot_while_stop round r [] e = refl
each_slot_while_stop round r (s ∷ rest) e = rw e

pub each_slot_while_step :
    (round : Round) (r : ℕ) (s : Slot) (rest : List Slot)
    → (r == 0) ≡ false
    → each_slot_while round r (s ∷ rest) ≡ (
      (round r s).0 ∷ (each_slot_while round (round r s).1 rest).0,
      (each_slot_while round (round r s).1 rest).1,
    )
unfolding each_slot_while
each_slot_while_step round r s rest e = rw e

pub raise-Moves : (want : ℕ) → Moves (raise want)
unfolding raise
raise-Moves want r s h = ground (arith, add_int32_small s.target (min (want - s.target) r))

pub target_round-Moves : (total : ℕ) → Moves (target_round total)
unfolding target_round
target_round-Moves total r s h = elim (Option-cases (group_target total s.group.scaling)) [
  | inl e ↦ rw (e, target_round) (refl, le_refl s.target, refl)
  | inr (t, e) ↦ rw (e, target_round) (raise-Moves t r s h)
]

pub opportunistic_round-Moves :
    (observed : String → Option ℕ) → Moves (opportunistic_round observed)
unfolding opportunistic_round
opportunistic_round-Moves observed r s h =
    ground (arith, raise-Moves (offered r (observed s.group.name)) r s h)

pub overflow_round-Moves : (total : ℕ) → Moves (overflow_round total)
unfolding overflow_round
overflow_round-Moves total r s h = elim (Option-cases (group_ceiling total s.group.scaling)) [
  | inl e ↦ ground (arith, e, add_int32_small s.target r)
  | inr (w, e) ↦ ground (arith, e, raise-Moves w r s h)
]
