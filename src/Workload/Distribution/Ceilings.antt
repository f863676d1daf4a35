-- ===== src/Workload/Distribution/Ceilings.antt =====
-- internal/workload/algorithm.go: no phase of `ComputeGroupTargets` passes a ceiling, and an
-- opportunistic group gets no more than its floor and its observed capacity.
use podpool_controller.Prelude.{
  ℕ, ◌+◌, ◌-◌, ◌≤◌, ◌≡◌, min, max, List, [], ◌∷◌, true, false, inl, inr, Option, none, some,
  Option-cases, Bool-cases, String, arith, All, max_int32, get_elem?, add_int32_small,
}
use podpool_controller.Api.{ScalingConstraints, GroupSpec}
use podpool_controller.Workload.Scaling.{group_floor, group_target, is_opportunistic, group_ceiling}
use podpool_controller.Workload.Percent.{target_percent}
use podpool_controller.Workload.Distribution.{
  Slot, Rounding, floor_round, target_round, opportunistic_round, overflow_round, raise, offered,
  compute_group_targets,
}
use podpool_controller.Workload.Distribution.Rounds.{Keeps}
use podpool_controller.Workload.Distribution.Account.{
  fresh, KeptBy, Pointwise, Pointwise-at, floors-All, distribute-All, compute-Pointwise,
}

-- A statically bounded group holds no more than its floor and its ceiling.
abbrev pub Capped : ℕ → GroupSpec → ℕ → Type 0
Capped total g t =
    (limit : ℕ)
    → is_opportunistic g.scaling ≡ false
    → group_ceiling total g.scaling ≡ some limit
    → t ≤ max (group_floor g.scaling) limit

-- An opportunistic group with a capacity on record holds no more than its floor and that capacity.
abbrev pub WithinCapacity : (String → Option ℕ) → GroupSpec → ℕ → Type 0
WithinCapacity observed g t =
    (capacity : ℕ)
    → is_opportunistic g.scaling ≡ true
    → (target_percent g.scaling.target ≡ none)
    → observed g.name ≡ some capacity
    → t ≤ max (group_floor g.scaling) capacity

pub floor_round-le :
    (r : ℕ) (g : GroupSpec) → (floor_round r (fresh g)).0.target ≤ group_floor g.scaling
unfolding floor_round
floor_round-le r g = ground arith

pub floor_round-group : (r : ℕ) (s : Slot) → (floor_round r s).0.group ≡ s.group
unfolding floor_round
floor_round-group r s = ground arith

pub raise-le :
    (want r : ℕ) (s : Slot)
    → s.target + r ≤ max_int32
    → (raise want r s).0.target ≤ max s.target want
unfolding raise
raise-le want r s h = ground (arith, add_int32_small s.target (min (want - s.target) r))

pub raise-group : (want r : ℕ) (s : Slot) → (raise want r s).0.group ≡ s.group
unfolding raise
raise-group want r s = ground arith

-- The target of a group is within its ceiling.
pub target-le-ceiling :
    (total t limit : ℕ) (s : ScalingConstraints)
    → group_target total s ≡ some t
    → group_ceiling total s ≡ some limit
    → t ≤ limit
unfolding group_target group_ceiling
target-le-ceiling total t limit s p q = ground arith

abbrev pub OfSlot : (GroupSpec → ℕ → Type 0) → Slot → Type 0
OfSlot P s = P s.group s.target

-- A relation that survives `raise` towards each phase's bound is kept by the phases.
module _ (total : ℕ) where
  Capped-target : Keeps (target_round total) (OfSlot (Capped total))
  unfolding target_round
  Capped-target r s h p = elim (Option-cases (group_target total s.group.scaling)) [
    | inl e ↦ rw (e, target_round) p
    | inr (t, e) ↦
        rw (e, target_round, raise-group t r s)
          (λ limit o c.
            let below = target-le-ceiling total t limit s.group.scaling e c in
            let old = p limit o c in omega (arith, raise-le t r s h))
  ]

  Capped-opportunistic :
      (observed : String → Option ℕ) → Keeps (opportunistic_round observed) (OfSlot (Capped total))
  unfolding opportunistic_round
  Capped-opportunistic observed r s h p = elim (Bool-cases (is_opportunistic s.group.scaling)) [
    | inl e ↦
        rw (e, opportunistic_round, raise-group (offered r (observed s.group.name)) r s)
          (λ limit o c. cc)
    | inr e ↦ rw (e, opportunistic_round) p
  ]

  Capped-overflow : Keeps (overflow_round total) (OfSlot (Capped total))
  unfolding overflow_round
  Capped-overflow r s h p = elim (Bool-cases (is_opportunistic s.group.scaling)) [
    | inl e ↦ rw (e, overflow_round) p
    | inr e ↦ elim (Option-cases (group_ceiling total s.group.scaling)) [
      | inl u ↦ rw (e, u, overflow_round) (λ limit o c. cc)
      | inr (w, u) ↦
          rw (e, u, overflow_round, raise-group w r s)
            (λ limit o c.
              let old = p limit o c in let same : w ≡ limit = cc in omega (arith, raise-le w r s h))
    ]
  ]

  Capped-kept : (observed : String → Option ℕ) → KeptBy observed total (OfSlot (Capped total))
  Capped-kept observed = record {
    by_target = Capped-target;
    by_opportunistic = Capped-opportunistic observed;
    by_overflow = Capped-overflow;
  }

Capped-floor : (total r : ℕ) (g : GroupSpec) → OfSlot (Capped total) (floor_round r (fresh g)).0
Capped-floor total r g =
    rw (floor_round-group r (fresh g)) (λ limit o c. omega (arith, floor_round-le r g))

pub All-zero :
    (P : GroupSpec → ℕ → Type 0)
    → ((g : GroupSpec) → P g 0)
    → (gs : List GroupSpec) → All (λ g. P g 0) gs
All-zero P z [] = tt
All-zero P z (g ∷ gs) = (z g, All-zero P z gs)

-- A relation that the floors meet, that 0 meets and that phases 2 to 4 keep holds of every group
-- and its target.
pub compute-Pointwise_kept :
    (f : Rounding) (observed : String → Option ℕ) (total : ℕ) (P : GroupSpec → ℕ → Type 0)
    → KeptBy observed total (OfSlot P)
    → ((r : ℕ) (g : GroupSpec) → OfSlot P (floor_round r (fresh g)).0)
    → ((g : GroupSpec) → P g 0)
    → (gs : List GroupSpec) → total ≤ max_int32
    → Pointwise P gs (compute_group_targets f total gs observed).targets
compute-Pointwise_kept f observed total P kept floors zeros gs h =
    compute-Pointwise f observed total P gs h (λ _. All-zero P zeros gs)
      (distribute-All observed total (OfSlot P) kept gs h (floors-All (OfSlot P) floors total gs))

compute-Capped :
    (f : Rounding) (observed : String → Option ℕ) (total : ℕ) (gs : List GroupSpec)
    → total ≤ max_int32
    → Pointwise (Capped total) gs (compute_group_targets f total gs observed).targets
compute-Capped f observed total =
    compute-Pointwise_kept f observed total (Capped total) (Capped-kept total observed)
      (Capped-floor total) (λ g limit o c. omega arith)

module _ (observed : String → Option ℕ) where
  group_target-none :
      (total : ℕ) (s : ScalingConstraints)
      → target_percent s.target ≡ none
      → group_target total s ≡ none
  unfolding group_target
  group_target-none total s e = ground arith

  WithinCapacity-target :
      (total : ℕ) → Keeps (target_round total) (OfSlot (WithinCapacity observed))
  unfolding target_round
  WithinCapacity-target total r s h p = elim (Option-cases (group_target total s.group.scaling)) [
    | inl e ↦ rw (e, target_round) p
    | inr (t, e) ↦
        rw (e, target_round, raise-group t r s)
          (λ k o n c. cc (group_target-none total s.group.scaling n))
  ]

  WithinCapacity-opportunistic :
      Keeps (opportunistic_round observed) (OfSlot (WithinCapacity observed))
  unfolding opportunistic_round
  WithinCapacity-opportunistic r s h p = elim (Bool-cases (is_opportunistic s.group.scaling)) [
    | inl e ↦
        rw (e, opportunistic_round, raise-group (offered r (observed s.group.name)) r s)
          (λ k o n c.
            let old = p k o n c in
            let want : offered r (observed s.group.name) ≡ k = rw c in
            omega (arith, raise-le (offered r (observed s.group.name)) r s h))
    | inr e ↦ rw (e, opportunistic_round) p
  ]

  WithinCapacity-overflow :
      (total : ℕ) → Keeps (overflow_round total) (OfSlot (WithinCapacity observed))
  unfolding overflow_round
  WithinCapacity-overflow total r s h p = elim (Bool-cases (is_opportunistic s.group.scaling)) [
    | inl e ↦ rw (e, overflow_round) p
    | inr e ↦ elim (Option-cases (group_ceiling total s.group.scaling)) [
      | inl u ↦ rw (e, u, overflow_round) (λ k o n c. cc)
      | inr (w, u) ↦ rw (e, u, overflow_round, raise-group w r s) (λ k o n c. cc)
    ]
  ]

compute-WithinCapacity :
    (f : Rounding) (observed : String → Option ℕ) (total : ℕ) (gs : List GroupSpec)
    → total ≤ max_int32
    → Pointwise (WithinCapacity observed) gs (compute_group_targets f total gs observed).targets
compute-WithinCapacity f observed total =
    compute-Pointwise_kept f observed total (WithinCapacity observed)
      (record {
        by_target = WithinCapacity-target observed total;
        by_opportunistic = WithinCapacity-opportunistic observed;
        by_overflow = WithinCapacity-overflow observed total;
      })
      (λ r g. rw (floor_round-group r (fresh g)) (λ k o n c. omega (arith, floor_round-le r g)))
      (λ g k o n c. omega arith)

module _ (f : Rounding) (observed : String → Option ℕ) (total : ℕ) (gs : List GroupSpec) (i : ℕ)
    (g : GroupSpec) (t : ℕ) where
  -- A ceiling is honoured absolutely: of any total that an `int32` holds, a group that has a `max`
  -- or a `target` and is not opportunistic gets at most the larger of its floor and its ceiling.
  pub ceiling_honoured :
      (limit : ℕ)
      → total ≤ max_int32
      → get_elem? gs i ≡ some g
      → get_elem? (compute_group_targets f total gs observed).targets i ≡ some t
      → is_opportunistic g.scaling ≡ false
      → group_ceiling total g.scaling ≡ some limit
      → t ≤ max (group_floor g.scaling) limit
  ceiling_honoured limit h a b =
      Pointwise-at (Capped total) gs (compute_group_targets f total gs observed).targets i g t
        (compute-Capped f observed total gs h) a b limit

  -- Of any total that an `int32` holds, an opportunistic group without a readable target gets at
  -- most the larger of its floor and the capacity that was observed of it.
  pub capacity_honoured :
      (capacity : ℕ)
      → total ≤ max_int32
      → get_elem? gs i ≡ some g
      → get_elem? (compute_group_targets f total gs observed).targets i ≡ some t
      → is_opportunistic g.scaling ≡ true
      → target_percent g.scaling.target ≡ none
      → observed g.name ≡ some capacity
      → t ≤ max (group_floor g.scaling) capacity
  capacity_honoured capacity h a b =
      Pointwise-at (WithinCapacity observed) gs (compute_group_targets f total gs observed).targets
        i g t (compute-WithinCapacity f observed total gs h) a b capacity
