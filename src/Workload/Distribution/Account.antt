-- ===== src/Workload/Distribution/Account.antt =====
-- internal/workload/algorithm.go: `ComputeGroupTargets` as a whole. No replica is lost or made up,
-- and what every phase keeps holds of the result.
use podpool_controller.Prelude.{
  ℕ, zero, suc, ◌+◌, ◌≤◌, ◌≡◌, refl, subst, List, [], ◌∷◌, true, inl, inr, Option, some, String,
  get_elem?, arith, ◌==◌, ◌∙◌, sum, All, Bool-cases, max_int32,
}
use podpool_controller.Api.{GroupSpec}
use podpool_controller.Workload.Distribution.{
  Slot, Rounding, each_slot, each_slot_while, floor_round, target_round, opportunistic_round,
  overflow_round, start, slot_targets, spread, distribute, compute_group_targets,
}
use podpool_controller.Workload.Distribution.Rounds.{
  placed, groups_of, LeAll, LeAll-refl, LeAll-trans, Keeps, Accounts, each_slot_while-Accounts,
  each_slot_while-All, target_round-Moves, opportunistic_round-Moves, overflow_round-Moves,
}

abbrev pub fresh : GroupSpec → Slot
fresh g = record { group = g; target = 0 }

floor_round-fresh :
    (r : ℕ) (g : GroupSpec)
    → ((floor_round r (fresh g)).0.group ≡ g)
      × ((floor_round r (fresh g)).0.target + (floor_round r (fresh g)).1 ≡ r)
unfolding floor_round
floor_round-fresh r g = ground arith

pub floors-Accounts :
    (r : ℕ) (gs : List GroupSpec)
    → (placed (each_slot floor_round r (start gs)).0 + (each_slot floor_round r (start gs)).1 ≡ r)
      × (groups_of (each_slot floor_round r (start gs)).0 ≡ gs)
unfolding each_slot
floors-Accounts r [] = (omega arith, refl)
floors-Accounts r (g ∷ gs) =
    let one = floor_round-fresh r g in
    let ih = floors-Accounts (floor_round r (fresh g)).1 gs in (omega arith, cc)

pub floors-All :
    (P : Slot → Type 0)
    → ((r : ℕ) (g : GroupSpec) → P (floor_round r (fresh g)).0)
    → (r : ℕ) (gs : List GroupSpec) → All P (each_slot floor_round r (start gs)).0
unfolding each_slot
floors-All P p r [] = tt
floors-All P p r (g ∷ gs) = (p r g, floors-All P p (floor_round r (fresh g)).1 gs)

-- A predicate that phases 2 to 4 keep.
pub record KeptBy (observed : String → Option ℕ) (total : ℕ) (P : Slot → Type 0) : Type 0 where
  pub by_target : Keeps (target_round total) P
  pub by_opportunistic : Keeps (opportunistic_round observed) P
  pub by_overflow : Keeps (overflow_round total) P

module _ (observed : String → Option ℕ) (total : ℕ) where
  pub spread-Accounts :
      (slots : List Slot) (r : ℕ)
      → placed slots + r ≤ max_int32
      → Accounts slots r (spread observed total (slots, r))
  unfolding spread
  spread-Accounts slots r h =
      let p2 = each_slot_while (target_round total) r slots in
      let p3 = each_slot_while (opportunistic_round observed) p2.1 p2.0 in
      let a2 = each_slot_while-Accounts (target_round total) (target_round-Moves total) r slots h in
      let a3 =
        each_slot_while-Accounts (opportunistic_round observed) (opportunistic_round-Moves observed)
          p2.1 p2.0 (omega arith) in
      let a4 =
        each_slot_while-Accounts (overflow_round total) (overflow_round-Moves total) p3.1 p3.0
          (omega arith) in
      (
        omega arith,
        a4.1 ∙ a3.1 ∙ a2.1,
        LeAll-trans (slot_targets slots) _ _ a2.2 (LeAll-trans (slot_targets p2.0) _ _ a3.2 a4.2),
      )

  pub spread-All :
      (P : Slot → Type 0)
      → KeptBy observed total P
      → (slots : List Slot) (r : ℕ) → placed slots + r ≤ max_int32
      → All P slots
      → All P (spread observed total (slots, r)).0
  unfolding spread
  spread-All P k slots r h a =
      let m2 = target_round-Moves total in
      let m3 = opportunistic_round-Moves observed in
      let m4 = overflow_round-Moves total in
      let p2 = each_slot_while (target_round total) r slots in
      let p3 = each_slot_while (opportunistic_round observed) p2.1 p2.0 in
      let a2 = each_slot_while-Accounts (target_round total) m2 r slots h in
      let a3 = each_slot_while-Accounts (opportunistic_round observed) m3 p2.1 p2.0 (omega arith) in
      let q2 = each_slot_while-All (target_round total) m2 P k.by_target r slots h a in
      let q3 =
        each_slot_while-All (opportunistic_round observed) m3 P k.by_opportunistic p2.1 p2.0
          (omega arith) q2 in
      each_slot_while-All (overflow_round total) m4 P k.by_overflow p3.1 p3.0 (omega arith) q3

  pub distribute-Accounts :
      (gs : List GroupSpec)
      → total ≤ max_int32
      → (placed (distribute observed total gs).0 + (distribute observed total gs).1 ≡ total)
        × (groups_of (distribute observed total gs).0 ≡ gs)
        × LeAll
            (slot_targets (each_slot floor_round total (start gs)).0)
            (slot_targets (distribute observed total gs).0)
  unfolding distribute
  distribute-Accounts gs h =
      let f = floors-Accounts total gs in
      let s =
        spread-Accounts (each_slot floor_round total (start gs)).0
          (each_slot floor_round total (start gs)).1 (omega arith) in
      elim (Bool-cases ((each_slot floor_round total (start gs)).1 == 0)) [
        | inl e ↦ rw e (f.0, f.1, LeAll-refl _)
        | inr e ↦ rw e (omega arith, s.1 ∙ f.1, s.2)
      ]

  pub distribute-All :
      (P : Slot → Type 0)
      → KeptBy observed total P
      → (gs : List GroupSpec) → total ≤ max_int32
      → All P (each_slot floor_round total (start gs)).0
      → All P (distribute observed total gs).0
  unfolding distribute
  distribute-All P k gs h a =
      let f = floors-Accounts total gs in
      let s =
        spread-All P k (each_slot floor_round total (start gs)).0
          (each_slot floor_round total (start gs)).1 (omega arith) a in
      elim (Bool-cases ((each_slot floor_round total (start gs)).1 == 0)) [
        | inl e ↦ rw e a
        | inr e ↦ rw e s
      ]

-- A relation between the groups and the targets, position by position.
abbrev pub Pointwise : (GroupSpec → ℕ → Type 0) → List GroupSpec → List ℕ → Type 0
Pointwise P [] [] = Unit
Pointwise P (g ∷ gs) (t ∷ ts) = P g t × Pointwise P gs ts
Pointwise P _ _ = ⊥

pub Pointwise-slots :
    (P : GroupSpec → ℕ → Type 0) (slots : List Slot)
    → All (λ s. P s.group s.target) slots
    → Pointwise P (groups_of slots) (slot_targets slots)
Pointwise-slots P [] a = tt
Pointwise-slots P (s ∷ slots) (p, ps) = (p, Pointwise-slots P slots ps)

pub Pointwise-start :
    (P : GroupSpec → ℕ → Type 0) (gs : List GroupSpec)
    → All (λ g. P g 0) gs
    → Pointwise P gs (slot_targets (start gs))
Pointwise-start P [] a = tt
Pointwise-start P (g ∷ gs) (p, ps) = (p, Pointwise-start P gs ps)

-- The relation at one position.
pub Pointwise-at :
    (P : GroupSpec → ℕ → Type 0) (gs : List GroupSpec) (ts : List ℕ) (i : ℕ) (g : GroupSpec) (t : ℕ)
    → Pointwise P gs ts
    → get_elem? gs i ≡ some g
    → get_elem? ts i ≡ some t
    → P g t
Pointwise-at P [] [] i g t p e d = cc
Pointwise-at P (g' ∷ gs) (t' ∷ ts) zero g t p e d =
    let same : g' ≡ g = cc in let equal : t' ≡ t = cc in rw (← same, ← equal) p.0
Pointwise-at P (g' ∷ gs) (t' ∷ ts) (suc i) g t p e d = Pointwise-at P gs ts i g t p.1 e d
Pointwise-at P [] (t' ∷ ts) i g t p e d = absurd p
Pointwise-at P (g' ∷ gs) [] i g t p e d = absurd p

module _ (f : Rounding) (observed : String → Option ℕ) (total : ℕ) where
  -- What relates the groups to the targets at the end of the phases, and to targets of 0 if there
  -- is nothing to distribute, relates them in the result.
  pub compute_relates :
      (Q : List GroupSpec → List ℕ → Type 0) (gs : List GroupSpec)
      → total ≤ max_int32
      → Q [] []
      → (total ≡ 0 → Q gs (slot_targets (start gs)))
      → Q
          (groups_of (distribute observed total gs).0)
          (slot_targets (distribute observed total gs).0)
      → Q gs (compute_group_targets f total gs observed).targets
  unfolding compute_group_targets
  compute_relates Q [] h n z a = n
  compute_relates Q (g ∷ gs) h n z a = elim (Bool-cases (total == 0)) [
    | inl e ↦ rw e (z (ground arith))
    | inr e ↦ rw e (
        subst (λ xs. Q xs (slot_targets (distribute observed total (g ∷ gs)).0))
          (distribute-Accounts observed total (g ∷ gs) h).1 a)
  ]

  pub compute-Pointwise :
      (P : GroupSpec → ℕ → Type 0) (gs : List GroupSpec)
      → total ≤ max_int32
      → (total ≡ 0 → All (λ g. P g 0) gs)
      → All (λ s. P s.group s.target) (distribute observed total gs).0
      → Pointwise P gs (compute_group_targets f total gs observed).targets
  compute-Pointwise P gs h z a =
      compute_relates (Pointwise P) gs h tt (λ e. Pointwise-start P gs (z e))
        (Pointwise-slots P (distribute observed total gs).0 a)

  -- With nothing to distribute every target is 0.
  pub compute-Pointwise_zero :
      (P : GroupSpec → ℕ → Type 0) (gs : List GroupSpec)
      → total ≡ 0
      → All (λ g. P g 0) gs
      → Pointwise P gs (compute_group_targets f total gs observed).targets
  unfolding compute_group_targets
  compute-Pointwise_zero P [] z a = tt
  compute-Pointwise_zero P (g ∷ gs) z a =
      let e : (total == 0) ≡ true = ground arith in rw e (Pointwise-start P (g ∷ gs) a)

sum-start : (gs : List GroupSpec) → sum (slot_targets (start gs)) ≡ 0
sum-start [] = refl
sum-start (g ∷ gs) = omega (arith, sum-start gs)

-- Every replica is accounted for: the targets of a pool that has groups, together with what is
-- unplaced, add up to the pool's replicas, for every total that an `int32` holds.
pub compute_conserves :
    (f : Rounding) (observed : String → Option ℕ) (total : ℕ) (g : GroupSpec) (gs : List GroupSpec)
    → total ≤ max_int32
    → sum (compute_group_targets f total (g ∷ gs) observed).targets
        + (compute_group_targets f total (g ∷ gs) observed).unplaced
      ≡ total
unfolding compute_group_targets
compute_conserves f observed total g gs h =
    let s = sum-start gs in
    let d = distribute-Accounts observed total (g ∷ gs) h in
    elim (Bool-cases (total == 0)) [ inl e ↦ rw e (ground arith) | inr e ↦ rw e d.0 ]
