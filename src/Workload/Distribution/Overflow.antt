-- ===== src/Workload/Distribution/Overflow.antt =====
-- internal/workload/algorithm.go: where the remainder goes in phases 3 and 4 of
-- `ComputeGroupTargets`, and when some of it stays unplaced.
use podpool_controller.Prelude.{
  ℕ, ◌+◌, ◌-◌, ◌≤◌, ◌<◌, ◌≡◌, ◌⊎◌, inl, inr, min, List, [], ◌∷◌, true, Option, some, Option-cases,
  Bool-cases, String, arith, ◌==◌, All, max_int32, add_int32_small, get_elem?,
}
use podpool_controller.Api.{ScalingConstraints, GroupSpec}
use podpool_controller.Workload.Scaling.{
  is_opportunistic, group_ceiling, has_static_ceiling, is_bounded,
}
use podpool_controller.Workload.Distribution.{
  Slot, Round, Rounding, each_slot_while, overflow_round, raise, distribute, compute_group_targets,
}
use podpool_controller.Workload.Distribution.Rounds.{
  placed, each_slot_while_done, overflow_round-Moves,
}
use podpool_controller.Workload.Distribution.Account.{Pointwise-at, compute-Pointwise}
use podpool_controller.Workload.Distribution.Phases.{
  distribute-phases, after_capacity, after_capacity-le,
}
use podpool_controller.Workload.Distribution.Ceilings.{raise-group, OfSlot}

-- A group that phase 4 cannot raise: it is opportunistic, or bounded and at its ceiling.
abbrev pub IsFull : ℕ → GroupSpec → ℕ → Type 0
IsFull total g t =
    (is_opportunistic g.scaling ≡ true)
    ⊎ ((limit : ℕ) × (group_ceiling total g.scaling ≡ some limit) × (limit ≤ t))

pub raise_leaves :
    (want r : ℕ) (s : Slot)
    → s.target + r ≤ max_int32
    → 0 < (raise want r s).1
    → want ≤ (raise want r s).0.target
unfolding raise
raise_leaves want r s h p = ground (arith, add_int32_small s.target (min (want - s.target) r))

overflow_round_leaves :
    (total r : ℕ) (s : Slot)
    → s.target + r ≤ max_int32
    → 0 < (overflow_round total r s).1
    → IsFull total (overflow_round total r s).0.group (overflow_round total r s).0.target
unfolding overflow_round
overflow_round_leaves total r s h p = elim (Bool-cases (is_opportunistic s.group.scaling)) [
  | inl e ↦ rw (e, overflow_round) (inl e)
  | inr e ↦ elim (Option-cases (group_ceiling total s.group.scaling)) [
    | inl u ↦ absurd (ground arith)
    | inr (w, u) ↦
        rw (e, u, overflow_round, raise-group w r s)
          (inr (w, u, raise_leaves w r s h (rw (e, u, overflow_round) at p)))
  ]
]

-- Nothing remains after a loop that starts with nothing.
pub loop_leaves :
    (round : Round) (r : ℕ) (s : Slot) (rest : List Slot)
    → 0 < (each_slot_while round r (s ∷ rest)).1
    → 0 < (round r s).1
unfolding each_slot_while
loop_leaves round r s rest p = elim (Bool-cases ((round r s).1 == 0)) [
  | inl e ↦
      let z : (round r s).1 ≡ 0 = ground arith in
      absurd (ground (arith, each_slot_while_done round rest, z))
  | inr e ↦ ground arith
]

overflow_loop-IsFull :
    (total r : ℕ) (slots : List Slot)
    → placed slots + r ≤ max_int32
    → 0 < (each_slot_while (overflow_round total) r slots).1
    → All (OfSlot (IsFull total)) (each_slot_while (overflow_round total) r slots).0
unfolding each_slot_while
overflow_loop-IsFull total r [] h p = tt
overflow_loop-IsFull total r (s ∷ rest) h p = elim (Bool-cases (r == 0)) [
  | inl e ↦ absurd (ground arith)
  | inr e ↦
      let m = overflow_round-Moves total r s (omega arith) in
      let left = loop_leaves (overflow_round total) r s rest p in
      rw e (
        overflow_round_leaves total r s (omega arith) left,
        overflow_loop-IsFull total (overflow_round total r s).1 rest (omega arith)
            (rw (e, each_slot_while) at p),
      )
]

distribute-IsFull :
    (observed : String → Option ℕ) (total : ℕ) (gs : List GroupSpec)
    → total ≤ max_int32
    → 0 < (distribute observed total gs).1
    → All (OfSlot (IsFull total)) (distribute observed total gs).0
distribute-IsFull observed total gs h p = elim (distribute-phases observed total gs) [
  | inl (z, e) ↦ absurd (ground (arith, z, e))
  | inr e ↦
      let full =
        overflow_loop-IsFull total (after_capacity observed total gs).1
          (after_capacity observed total gs).0 (after_capacity-le observed total gs h) in
      rw e (full (rw e at p))
]

unplaced-distribute :
    (f : Rounding) (observed : String → Option ℕ) (total : ℕ) (gs : List GroupSpec)
    → 0 < (compute_group_targets f total gs observed).unplaced
    → (0 < (distribute observed total gs).1) × (0 < total)
unfolding compute_group_targets
unplaced-distribute f observed total [] p = absurd (omega arith)
unplaced-distribute f observed total (g ∷ gs) p = ground arith

ceiling-IsBounded :
    (total limit : ℕ) (s : ScalingConstraints)
    → group_ceiling total s ≡ some limit
    → is_bounded s ≡ true
unfolding is_bounded group_ceiling
ceiling-IsBounded total limit s e = ground arith

opportunistic-IsBounded : (s : ScalingConstraints) → is_opportunistic s ≡ true → is_bounded s ≡ true
unfolding is_bounded has_static_ceiling is_opportunistic
opportunistic-IsBounded s e = ground arith

IsFull-IsBounded : (total t : ℕ) (g : GroupSpec) → IsFull total g t → is_bounded g.scaling ≡ true
IsFull-IsBounded total t g (inl e) = opportunistic-IsBounded g.scaling e
IsFull-IsBounded total t g (inr (limit, e, _)) = ceiling-IsBounded total limit g.scaling e

-- Of a total that an `int32` holds, replicas stay unplaced only if every group is bounded, and each
-- group that is not opportunistic has reached its ceiling.
pub unplaced_once_capped :
    (f : Rounding) (observed : String → Option ℕ) (total : ℕ) (gs : List GroupSpec) (i : ℕ)
    (g : GroupSpec) (t : ℕ)
    → total ≤ max_int32
    → 0 < (compute_group_targets f total gs observed).unplaced
    → get_elem? gs i ≡ some g
    → get_elem? (compute_group_targets f total gs observed).targets i ≡ some t
    → (is_bounded g.scaling ≡ true) × IsFull total g t
unplaced_once_capped f observed total gs i g t h p a b =
    let (left, pos_total) = unplaced-distribute f observed total gs p in
    let all =
      compute-Pointwise f observed total (IsFull total) gs h (λ z. absurd (omega arith))
        (distribute-IsFull observed total gs h left) in
    let full =
      Pointwise-at (IsFull total) gs (compute_group_targets f total gs observed).targets i g t all a
        b in
    (IsFull-IsBounded total t g full, full)
