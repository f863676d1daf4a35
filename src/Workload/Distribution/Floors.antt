-- ===== src/Workload/Distribution/Floors.antt =====
-- internal/workload/algorithm.go: phase 1 of `ComputeGroupTargets`, and that later phases take
-- nothing of what it gave.
use podpool_controller.Prelude.{
  ℕ, ◌-◌, ◌≤◌, ◌≡◌, refl, sym, subst, min, List, [], ◌∷◌, inl, inr, Option, String, arith, ◌==◌,
  Bool-cases, max_int32,
}
use podpool_controller.Api.{GroupSpec}
use podpool_controller.Workload.Scaling.{group_floor}
use podpool_controller.Workload.Distribution.{
  Rounding, each_slot, floor_round, start, slot_targets, distribute, compute_group_targets,
}
use podpool_controller.Workload.Distribution.Rounds.{LeAll}
use podpool_controller.Workload.Distribution.Account.{fresh, distribute-Accounts}

-- What each group is granted when the floors are served in list order from `r` replicas.
abbrev pub cascade : ℕ → List GroupSpec → List ℕ
cascade r [] = []
cascade r (g ∷ gs) = min (group_floor g.scaling) r ∷ cascade (r - group_floor g.scaling) gs

floor_round_min :
    (r : ℕ) (g : GroupSpec)
    → ((floor_round r (fresh g)).0.target ≡ min (group_floor g.scaling) r)
      × ((floor_round r (fresh g)).1 ≡ r - group_floor g.scaling)
unfolding floor_round
floor_round_min r g = ground arith

floors-cascade :
    (r : ℕ) (gs : List GroupSpec)
    → slot_targets (each_slot floor_round r (start gs)).0 ≡ cascade r gs
unfolding each_slot
floors-cascade r [] = refl
floors-cascade r (g ∷ gs) =
    let (t, left) = floor_round_min r g in
    cc (t, left, floors-cascade (floor_round r (fresh g)).1 gs)

cascade_zero : (gs : List GroupSpec) → LeAll (cascade 0 gs) (slot_targets (start gs))
cascade_zero [] = tt
cascade_zero (g ∷ gs) =
    let e : 0 - group_floor g.scaling ≡ 0 = omega arith in (omega arith, rw e (cascade_zero gs))

-- Every group holds at least what the cascade grants it, for every total that an `int32` holds: the
-- floors are served first, in list order and as far as the total goes, and no later phase takes a
-- replica back.
pub compute-cascade :
    (f : Rounding) (observed : String → Option ℕ) (total : ℕ) (gs : List GroupSpec)
    → total ≤ max_int32
    → LeAll (cascade total gs) (compute_group_targets f total gs observed).targets
unfolding compute_group_targets
compute-cascade f observed total [] h = tt
compute-cascade f observed total (g ∷ gs) h =
    let d = (distribute-Accounts observed total (g ∷ gs) h).2 in
    let c = floors-cascade total (g ∷ gs) in
    elim (Bool-cases (total == 0)) [
      | inl e ↦
          let z : total ≡ 0 = ground arith in
          rw e (
            subst (λ t. LeAll (cascade t (g ∷ gs)) (slot_targets (start (g ∷ gs)))) (sym z)
              (cascade_zero (g ∷ gs)))
      | inr e ↦
          rw e (subst (λ xs. LeAll xs (slot_targets (distribute observed total (g ∷ gs)).0)) c d)
    ]
