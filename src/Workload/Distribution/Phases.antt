-- ===== src/Workload/Distribution/Phases.antt =====
-- internal/workload/algorithm.go: the state of `ComputeGroupTargets` between its phases.
use podpool_controller.Prelude.{
  ℕ, ◌+◌, ◌≤◌, ◌≡◌, refl, ◌⊎◌, inl, inr, List, Bool-cases, Option, String, arith, ◌==◌, All,
  max_int32,
}
use podpool_controller.Api.{GroupSpec}
use podpool_controller.Workload.Distribution.{
  Slot, each_slot, each_slot_while, floor_round, target_round, opportunistic_round, overflow_round,
  start, spread, distribute,
}
use podpool_controller.Workload.Distribution.Rounds.{
  placed, Keeps, each_slot_while-Accounts, each_slot_while-All, target_round-Moves,
  opportunistic_round-Moves,
}
use podpool_controller.Workload.Distribution.Account.{fresh, floors-Accounts, floors-All}

module _ (observed : String → Option ℕ) (total : ℕ) (gs : List GroupSpec) where
  abbrev pub after_floors : List Slot × ℕ
  after_floors = each_slot floor_round total (start gs)

  abbrev pub after_targets : List Slot × ℕ
  after_targets = each_slot_while (target_round total) after_floors.1 after_floors.0

  abbrev pub after_capacity : List Slot × ℕ
  after_capacity = each_slot_while (opportunistic_round observed) after_targets.1 after_targets.0

  abbrev pub after_overflow : List Slot × ℕ
  after_overflow = each_slot_while (overflow_round total) after_capacity.1 after_capacity.0

  -- The function returns after phase 1 if nothing remains, and after phase 4 else.
  pub distribute-phases :
      ((after_floors.1 ≡ 0) × (distribute observed total gs ≡ after_floors))
      ⊎ (distribute observed total gs ≡ after_overflow)
  unfolding distribute spread
  distribute-phases = elim (Bool-cases (after_floors.1 == 0)) [
    | inl e ↦ rw e (inl (ground arith, refl))
    | inr e ↦ rw e (inr refl)
  ]

  module _ (h : total ≤ max_int32) where
    pub after_floors-le : placed after_floors.0 + after_floors.1 ≤ max_int32
    after_floors-le = let f = floors-Accounts total gs in omega arith

    pub after_targets-le : placed after_targets.0 + after_targets.1 ≤ max_int32
    after_targets-le =
        let a =
          each_slot_while-Accounts (target_round total) (target_round-Moves total) after_floors.1
            after_floors.0 after_floors-le in
        let b = after_floors-le in omega arith

    pub after_capacity-le : placed after_capacity.0 + after_capacity.1 ≤ max_int32
    after_capacity-le =
        let a =
          each_slot_while-Accounts (opportunistic_round observed)
            (opportunistic_round-Moves observed) after_targets.1 after_targets.0 after_targets-le in
        let b = after_targets-le in omega arith

    -- What phase 1 meets and phases 2 and 3 keep holds before the overflow.
    pub after_capacity-All :
        (P : Slot → Type 0)
        → ((r : ℕ) (g : GroupSpec) → P (floor_round r (fresh g)).0)
        → Keeps (target_round total) P
        → Keeps (opportunistic_round observed) P
        → All P after_capacity.0
    after_capacity-All P p k2 k3 =
        each_slot_while-All (opportunistic_round observed) (opportunistic_round-Moves observed) P k3
          after_targets.1 after_targets.0 after_targets-le
          (each_slot_while-All (target_round total) (target_round-Moves total) P k2 after_floors.1
            after_floors.0 after_floors-le (floors-All P p total gs))
