-- ===== src/Workload/Distribution/Capacity.antt =====
-- internal/workload/algorithm.go: phase 3 of `ComputeGroupTargets` comes before the overflow.
use podpool_controller.Prelude.{
  ℕ, ◌+◌, ◌-◌, ◌≤◌, ◌<◌, ◌≡◌, subst, ◌⊎◌, inl, inr, max, min, add_int32_small, List, [], ◌∷◌, true,
  false, Option, none, some, Option-cases, Bool-cases, String, arith, ◌==◌, All, max_int32,
  get_elem?,
}
use podpool_controller.Api.{GroupSpec}
use podpool_controller.Workload.Scaling.{group_floor, group_target, is_opportunistic}
use podpool_controller.Workload.Distribution.{
  Slot, Rounding, each_slot_while, floor_round, target_round, opportunistic_round, overflow_round,
  raise, offered, distribute, compute_group_targets,
}
use podpool_controller.Workload.Distribution.Rounds.{
  placed, Keeps, each_slot_while_stop, each_slot_while_step, each_slot_while-All,
  opportunistic_round-Moves, overflow_round-Moves,
}
use podpool_controller.Workload.Distribution.Account.{
  fresh, Pointwise-at, compute-Pointwise, compute-Pointwise_zero, floors-All,
}
use podpool_controller.Workload.Distribution.Phases.{
  after_targets, after_capacity, distribute-phases, after_targets-le, after_capacity-le,
  after_capacity-All,
}
use podpool_controller.Workload.Distribution.Ceilings.{
  floor_round-le, floor_round-group, raise-le, raise-group, OfSlot, All-zero,
}
use podpool_controller.Workload.Distribution.Overflow.{raise_leaves, loop_leaves}

-- An opportunistic group that holds the capacity observed of it, or of which none is on record.
abbrev pub IsSupplied : (String → Option ℕ) → GroupSpec → ℕ → Type 0
IsSupplied observed g t =
    (is_opportunistic g.scaling ≡ false)
    ⊎ (observed g.name ≡ none)
    ⊎ ((capacity : ℕ) × (observed g.name ≡ some capacity) × (capacity ≤ t))

-- The percentage target, where there is one.
abbrev pub target_or_zero : Option ℕ → ℕ
target_or_zero none = 0
target_or_zero (some t) = t

-- A group without overflow: it holds no more than its floor and its target.
abbrev pub HasNoOverflow : ℕ → GroupSpec → ℕ → Type 0
HasNoOverflow total g t =
    (is_opportunistic g.scaling ≡ true)
    ⊎ (t ≤ max (group_floor g.scaling) (target_or_zero (group_target total g.scaling)))

module _ (observed : String → Option ℕ) where
  capacity_round_leaves :
      (r : ℕ) (s : Slot)
      → s.target + r ≤ max_int32
      → 0 < (opportunistic_round observed r s).1
      → OfSlot (IsSupplied observed) (opportunistic_round observed r s).0
  unfolding opportunistic_round
  capacity_round_leaves r s h p = elim (Bool-cases (is_opportunistic s.group.scaling)) [
    | inr e ↦ rw (e, opportunistic_round) (inl e)
    | inl e ↦
        rw (e, opportunistic_round, raise-group (offered r (observed s.group.name)) r s)
          (elim (Option-cases (observed s.group.name)) [
            | inl u ↦ inr (inl u)
            | inr (c, u) ↦
                let left =
                  raise_leaves (offered r (observed s.group.name)) r s h
                    (rw (e, opportunistic_round) at p) in
                let want : offered r (observed s.group.name) ≡ c = rw u in
                inr (
                  inr (
                    c,
                    u,
                    subst (λ w. w ≤ (raise (offered r (observed s.group.name)) r s).0.target) want
                        left,
                  ))
          ])
  ]

  capacity_loop_supplies :
      (r : ℕ) (slots : List Slot)
      → placed slots + r ≤ max_int32
      → 0 < (each_slot_while (opportunistic_round observed) r slots).1
      → All
          (OfSlot (IsSupplied observed))
          (each_slot_while (opportunistic_round observed) r slots).0
  capacity_loop_supplies r [] h p = unfold each_slot_while in tt
  capacity_loop_supplies r (s ∷ rest) h p = elim (Bool-cases (r == 0)) [
    | inl e ↦
        absurd (ground (arith, each_slot_while_stop (opportunistic_round observed) r (s ∷ rest) e))
    | inr e ↦
        let m = opportunistic_round-Moves observed r s (omega arith) in
        let left = loop_leaves (opportunistic_round observed) r s rest p in
        let step = each_slot_while_step (opportunistic_round observed) r s rest e in
        rw step (
          capacity_round_leaves r s (omega arith) left,
          capacity_loop_supplies (opportunistic_round observed r s).1 rest (omega arith)
              (rw step at p),
        )
  ]

  IsSupplied-overflow : (total : ℕ) → Keeps (overflow_round total) (OfSlot (IsSupplied observed))
  unfolding overflow_round
  IsSupplied-overflow total r s h p = elim (Bool-cases (is_opportunistic s.group.scaling)) [
    | inl e ↦ rw (e, overflow_round) p
    | inr e ↦ let m = overflow_round-Moves total r s h in rw m.0 (inl e)
  ]

  HasNoOverflow-target : (total : ℕ) → Keeps (target_round total) (OfSlot (HasNoOverflow total))
  unfolding target_round
  HasNoOverflow-target total r s h p = elim (Option-cases (group_target total s.group.scaling)) [
    | inl e ↦ rw (e, target_round) p
    | inr (t, e) ↦
        rw (e, target_round, raise-group t r s)
          (elim p [
            | inl o ↦ inl o
            | inr le ↦
                let le' : s.target ≤ max (group_floor s.group.scaling) t = rw e at le in
                inr (rw e (omega (arith, raise-le t r s h)))
          ])
  ]

  HasNoOverflow-opportunistic :
      (total : ℕ) → Keeps (opportunistic_round observed) (OfSlot (HasNoOverflow total))
  unfolding opportunistic_round
  HasNoOverflow-opportunistic total r s h p = elim (Bool-cases (is_opportunistic s.group.scaling)) [
    | inl e ↦
        rw (e, opportunistic_round, raise-group (offered r (observed s.group.name)) r s) (inl e)
    | inr e ↦ rw (e, opportunistic_round) p
  ]

  HasNoOverflow-floor :
      (total r : ℕ) (g : GroupSpec) → OfSlot (HasNoOverflow total) (floor_round r (fresh g)).0
  HasNoOverflow-floor total r g =
      rw (floor_round-group r (fresh g)) (inr (omega (arith, floor_round-le r g)))

  distribute_supplies :
      (total : ℕ) (gs : List GroupSpec)
      → total ≤ max_int32
      → All (OfSlot (IsSupplied observed)) (distribute observed total gs).0
        ⊎ All (OfSlot (HasNoOverflow total)) (distribute observed total gs).0
  distribute_supplies total gs h =
      let p2 = after_targets observed total gs in
      let p3 = after_capacity observed total gs in
      elim (distribute-phases observed total gs) [
        | inl (z, e) ↦
            rw e
              (inr (floors-All (OfSlot (HasNoOverflow total)) (HasNoOverflow-floor total) total gs))
        | inr e ↦ elim (Bool-cases (p3.1 == 0)) [
          | inl z ↦
              rw (e, each_slot_while_stop (overflow_round total) p3.1 p3.0 z)
                (inr (
                  after_capacity-All observed total gs h (OfSlot (HasNoOverflow total))
                    (HasNoOverflow-floor total) (HasNoOverflow-target total)
                    (HasNoOverflow-opportunistic total)))
          | inr z ↦ rw e (
              inl (
                each_slot_while-All (overflow_round total) (overflow_round-Moves total)
                  (OfSlot (IsSupplied observed)) (IsSupplied-overflow total) p3.1 p3.0
                  (after_capacity-le observed total gs h)
                  (capacity_loop_supplies p2.1 p2.0 (after_targets-le observed total gs h)
                    (ground arith))))
        ]
      ]

-- What a cold start is offered. A group that was never sized is raised to what remains, counting
-- what it already holds: of `r` replicas it leaves as many as its floor gave it, or all of them
-- where it holds more than remains.
pub cold_start_offer :
    (observed : String → Option ℕ) (r : ℕ) (s : Slot)
    → s.target + r ≤ max_int32
    → is_opportunistic s.group.scaling ≡ true
    → observed s.group.name ≡ none
    → ((opportunistic_round observed r s).0.target ≡ max s.target r)
      × ((opportunistic_round observed r s).1 ≡ min s.target r)
unfolding opportunistic_round raise
cold_start_offer observed r s h o n =
    ground (arith, o, n, add_int32_small s.target (min (r - s.target) r))

-- Free capacity is used before an overflow. Of any total that an `int32` holds, if an opportunistic
-- group ends below the capacity that was observed of it, then no other kind of group holds more
-- than its floor and its percentage target.
pub capacity_before_overflow :
    (f : Rounding) (observed : String → Option ℕ) (total : ℕ) (gs : List GroupSpec) (i j : ℕ)
    (g k : GroupSpec) (t u capacity : ℕ)
    → total ≤ max_int32
    → get_elem? gs i ≡ some g
    → get_elem? (compute_group_targets f total gs observed).targets i ≡ some t
    → is_opportunistic g.scaling ≡ true
    → observed g.name ≡ some capacity
    → t < capacity
    → get_elem? gs j ≡ some k
    → get_elem? (compute_group_targets f total gs observed).targets j ≡ some u
    → is_opportunistic k.scaling ≡ false
    → u ≤ max (group_floor k.scaling) (target_or_zero (group_target total k.scaling))
capacity_before_overflow f observed total gs i j g k t u capacity h a b o c l a' b' o' =
    elim related [
      | inl supplied ↦ absurd (starved supplied)
      | inr (inl other) ↦ cc
      | inr (inr le) ↦ le
    ]
  where
    targets : List ℕ
    targets = (compute_group_targets f total gs observed).targets

    idle : All (λ g. HasNoOverflow total g 0) gs
    idle = All-zero (HasNoOverflow total) (λ g. inr (omega arith)) gs

    related : IsSupplied observed g t ⊎ HasNoOverflow total k u
    related = elim (Bool-cases (total == 0)) [
      | inl z ↦ inr (
          Pointwise-at (HasNoOverflow total) gs targets j k u
            (compute-Pointwise_zero f observed total (HasNoOverflow total) gs (ground arith) idle)
            a' b')
      | inr z ↦ elim (distribute_supplies observed total gs h) [
        | inl all ↦ inl (
            Pointwise-at (IsSupplied observed) gs targets i g t
              (compute-Pointwise f observed total (IsSupplied observed) gs h
                (λ e. absurd (ground arith)) all)
              a b)
        | inr all ↦ inr (
            Pointwise-at (HasNoOverflow total) gs targets j k u
              (compute-Pointwise f observed total (HasNoOverflow total) gs h (λ _. idle) all) a' b')
      ]
    ]

    starved : IsSupplied observed g t → ⊥
    starved s = ground arith
