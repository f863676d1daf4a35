-- ===== src/Workload/Distribution/Sinks.antt =====
-- internal/workload/algorithm.go: the first unbounded group takes the whole remainder, and free
-- capacity is used before it does.
use podpool_controller.Prelude.{
  ℕ, zero, suc, ◌+◌, ◌≤◌, ◌<◌, ◌≡◌, ◌⊎◌, inl, inr, List, [], ◌∷◌, true, false, Option, none, some,
  Option-cases, Bool-cases, String, arith, ◌==◌, All, max_int32, get_elem?,
}
use podpool_controller.Api.{ScalingConstraints, GroupSpec}
use podpool_controller.Workload.Percent.{target_percent}
use podpool_controller.Workload.Scaling.{
  group_floor, group_target, is_opportunistic, group_ceiling, has_static_ceiling, is_bounded,
}
use podpool_controller.Workload.Distribution.{
  Slot, Rounding, each_slot_while, floor_round, target_round, opportunistic_round, overflow_round,
  offered, start, distribute, compute_group_targets, slot_targets,
}
use podpool_controller.Workload.Distribution.Rounds.{
  placed, groups_of, Keeps, each_slot_while_done, each_slot_while_stop, each_slot_while_step,
  overflow_round-Moves,
}
use podpool_controller.Workload.Distribution.Account.{
  fresh, Pointwise, Pointwise-at, Pointwise-slots, Pointwise-start, compute_relates, floors-All,
}
use podpool_controller.Workload.Distribution.Phases.{
  after_capacity, distribute-phases, after_capacity-le, after_capacity-All,
}
use podpool_controller.Workload.Distribution.Ceilings.{
  floor_round-le, floor_round-group, raise-group, OfSlot,
}

-- An unbounded group that holds no more than its floor.
abbrev pub IsQuiet : GroupSpec → ℕ → Type 0
IsQuiet g t = (is_bounded g.scaling ≡ true) ⊎ (t ≤ group_floor g.scaling)

-- Behind an unbounded group every other unbounded group is quiet.
abbrev pub HasOneSink : List GroupSpec → List ℕ → Type 0
HasOneSink [] [] = Unit
HasOneSink (g ∷ gs) (t ∷ ts) =
    ((is_bounded g.scaling ≡ true) ⊎ Pointwise IsQuiet gs ts) × HasOneSink gs ts
HasOneSink _ _ = ⊥

unbounded_parts :
    (s : ScalingConstraints)
    → is_bounded s ≡ false
    → (is_opportunistic s ≡ false)
      × ((total : ℕ) → group_ceiling total s ≡ none)
      × ((total : ℕ) → group_target total s ≡ none)
unfolding is_bounded has_static_ceiling is_opportunistic group_ceiling group_target target_percent
unbounded_parts s e = (ground arith, λ total. ground arith, λ total. ground arith)

IsQuiet-target : (total : ℕ) → Keeps (target_round total) (OfSlot IsQuiet)
unfolding target_round
IsQuiet-target total r s h p = elim (Option-cases (group_target total s.group.scaling)) [
  | inl e ↦ rw (e, target_round) p
  | inr (t, e) ↦ elim (Bool-cases (is_bounded s.group.scaling)) [
    | inl b ↦ rw (e, target_round, raise-group t r s) (inl b)
    | inr b ↦ absurd (let n = (unbounded_parts s.group.scaling b).2 total in cc)
  ]
]

IsQuiet-opportunistic :
    (observed : String → Option ℕ) → Keeps (opportunistic_round observed) (OfSlot IsQuiet)
unfolding opportunistic_round
IsQuiet-opportunistic observed r s h p = elim (Bool-cases (is_bounded s.group.scaling)) [
  | inl b ↦ elim (Bool-cases (is_opportunistic s.group.scaling)) [
    | inl e ↦
        rw (e, opportunistic_round, raise-group (offered r (observed s.group.name)) r s) (inl b)
    | inr e ↦ rw (e, opportunistic_round) p
  ]
  | inr b ↦ rw ((unbounded_parts s.group.scaling b).0, opportunistic_round) p
]

quiet-HasOneSink :
    (slots : List Slot)
    → All (OfSlot IsQuiet) slots
    → HasOneSink (groups_of slots) (slot_targets slots)
quiet-HasOneSink [] a = tt
quiet-HasOneSink (s ∷ rest) (q, qs) =
    (inr (Pointwise-slots IsQuiet rest qs), quiet-HasOneSink rest qs)

sink_takes_all :
    (total r : ℕ) (s : Slot) → is_bounded s.group.scaling ≡ false → (overflow_round total r s).1 ≡ 0
unfolding overflow_round
sink_takes_all total r s b =
    let (o, c, _) = unbounded_parts s.group.scaling b in ground (arith, o, c total)

overflow_loop_sink :
    (total r : ℕ) (slots : List Slot)
    → placed slots + r ≤ max_int32
    → All (OfSlot IsQuiet) slots
    → HasOneSink
        (groups_of (each_slot_while (overflow_round total) r slots).0)
        (slot_targets (each_slot_while (overflow_round total) r slots).0)
overflow_loop_sink total r [] h a = unfold each_slot_while in tt
overflow_loop_sink total r (s ∷ rest) h (q, qs) = elim (Bool-cases (r == 0)) [
  | inl e ↦
      rw (each_slot_while_stop (overflow_round total) r (s ∷ rest) e)
        (quiet-HasOneSink (s ∷ rest) (q, qs))
  | inr e ↦
      let m = overflow_round-Moves total r s (omega arith) in
      let ih = overflow_loop_sink total (overflow_round total r s).1 rest (omega arith) qs in
      rw (each_slot_while_step (overflow_round total) r s rest e)
        (elim (Bool-cases (is_bounded s.group.scaling)) [
          | inl b ↦ (inl (rw m.0 b), ih)
          | inr b ↦
              rw (sink_takes_all total r s b, each_slot_while_done (overflow_round total) rest)
                (inr (Pointwise-slots IsQuiet rest qs), quiet-HasOneSink rest qs)
        ])
]

IsQuiet-floor : (r : ℕ) (g : GroupSpec) → OfSlot IsQuiet (floor_round r (fresh g)).0
IsQuiet-floor r g = rw (floor_round-group r (fresh g)) (inr (floor_round-le r g))

distribute-HasOneSink :
    (observed : String → Option ℕ) (total : ℕ) (gs : List GroupSpec)
    → total ≤ max_int32
    → HasOneSink
        (groups_of (distribute observed total gs).0)
        (slot_targets (distribute observed total gs).0)
distribute-HasOneSink observed total gs h = elim (distribute-phases observed total gs) [
  | inl (z, e) ↦ rw e (quiet-HasOneSink _ (floors-All (OfSlot IsQuiet) IsQuiet-floor total gs))
  | inr e ↦ rw e (
      overflow_loop_sink total (after_capacity observed total gs).1
        (after_capacity observed total gs).0 (after_capacity-le observed total gs h)
        (after_capacity-All observed total gs h (OfSlot IsQuiet) IsQuiet-floor
          (IsQuiet-target total) (IsQuiet-opportunistic observed)))
]

zero-HasOneSink : (gs : List GroupSpec) → HasOneSink gs (slot_targets (start gs))
zero-HasOneSink [] = tt
zero-HasOneSink (g ∷ gs) = (inr (Pointwise-start IsQuiet gs (zeros gs)), zero-HasOneSink gs)
  where
    zeros : (hs : List GroupSpec) → All (λ k. IsQuiet k 0) hs
    zeros [] = tt
    zeros (k ∷ hs) = (inr (omega arith), zeros hs)

HasOneSink-at :
    (gs : List GroupSpec) (ts : List ℕ) (i j : ℕ) (g k : GroupSpec) (t : ℕ)
    → HasOneSink gs ts
    → i < j
    → get_elem? gs i ≡ some g
    → get_elem? gs j ≡ some k
    → get_elem? ts j ≡ some t
    → is_bounded g.scaling ≡ false
    → IsQuiet k t
HasOneSink-at (g' ∷ gs) (t' ∷ ts) zero (suc j) g k t (inl b, _) l a c d u =
    absurd (let same : g' ≡ g = cc in cc)
HasOneSink-at (g' ∷ gs) (t' ∷ ts) zero (suc j) g k t (inr p, _) l a c d u =
    Pointwise-at IsQuiet gs ts j k t p c d
HasOneSink-at (g' ∷ gs) (t' ∷ ts) (suc i) (suc j) g k t (_, rest) l a c d u =
    HasOneSink-at gs ts i j g k t rest (omega arith) a c d u
HasOneSink-at (g' ∷ gs) (t' ∷ ts) zero zero g k t p l a c d u = absurd (omega arith)
HasOneSink-at (g' ∷ gs) (t' ∷ ts) (suc i) zero g k t p l a c d u = absurd (omega arith)
HasOneSink-at [] ts i j g k t p l a c d u = cc
HasOneSink-at (g' ∷ gs) [] i j g k t p l a c d u = cc

-- Of any total that an `int32` holds, an unbounded group that stands behind another unbounded one
-- never gets more than its floor: the first takes the whole overflow.
pub one_sink :
    (f : Rounding) (observed : String → Option ℕ) (total : ℕ) (gs : List GroupSpec) (i j : ℕ)
    (g k : GroupSpec) (t : ℕ)
    → total ≤ max_int32
    → i < j
    → get_elem? gs i ≡ some g
    → get_elem? gs j ≡ some k
    → get_elem? (compute_group_targets f total gs observed).targets j ≡ some t
    → is_bounded g.scaling ≡ false
    → is_bounded k.scaling ≡ false
    → t ≤ group_floor k.scaling
one_sink f observed total gs i j g k t h l a b c u v =
    elim (HasOneSink-at gs (compute_group_targets f total gs observed).targets i j g k t
      (compute_relates f observed total HasOneSink gs h tt (λ _. zero-HasOneSink gs)
        (distribute-HasOneSink observed total gs h))
      l a b c u) [ inl bounded ↦ absurd (cc) | inr le ↦ le ]
