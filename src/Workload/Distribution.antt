-- ===== src/Workload/Distribution.antt =====
-- internal/workload/algorithm.go: `ComputeGroupTargets`, phase by phase. The loops run over the
-- groups with their entries of `targets`.
pub mod Rounds
pub mod Account
pub mod Phases
pub mod Floors
pub mod Ceilings
pub mod Overflow
pub mod Sinks
pub mod Capacity
pub mod Degraded
use podpool_controller.Prelude.{
  ℕ, ◌+◌, ◌-◌, ◌*◌, ◌≡◌, min, Bool, true, false, not, ◌||◌, List, [], ◌∷◌, map, Option, none, some,
  String, if◌then◌else◌, ltb, ◌==◌, add_int32,
}
use podpool_controller.Api.{ScalingConstraints, GroupSpec}
use podpool_controller.Workload.Percent.{target_percent}
use podpool_controller.Workload.Scaling.{group_floor, group_target, is_opportunistic, group_ceiling}

-- A group with its target.
pub record Slot : Type 0 where
  pub group : GroupSpec
  pub target : ℕ

pub record DistributionResult : Type 0 where
  pub targets : List ℕ
  pub target_degraded : Bool
  pub unplaced : ℕ

-- What a round of a loop changes: the group's entry, and `remaining`.
abbrev pub Round : Type 0
Round = ℕ → Slot → Slot × ℕ

abbrev keep_slot : Slot → List Slot × ℕ → List Slot × ℕ
keep_slot s (rest, r) = (s ∷ rest, r)

-- A loop over all groups.
unfoldable pub each_slot : Round → ℕ → List Slot → List Slot × ℕ
each_slot round r [] = ([], r)
each_slot round r (s ∷ rest) = let (s', r') = round r s in keep_slot s' (each_slot round r' rest)

-- A loop that breaks once nothing remains.
unfoldable pub each_slot_while : Round → ℕ → List Slot → List Slot × ℕ
each_slot_while round r [] = ([], r)
each_slot_while round r (s ∷ rest) =
    let more = (let (s', r') = round r s in keep_slot s' (each_slot_while round r' rest)) in
    if r == 0 then (s ∷ rest, r) else more

-- Raise an entry towards `want`, by what remains at most.
unfoldable pub raise : ℕ → Round
raise want r s =
    let additional = want - s.target in
    let give = min additional r in
    if additional == 0 then (s, r) else (record s { target = add_int32 s.target give }, r - give)

-- Phase 1: the floors.
unfoldable pub floor_round : Round
floor_round r s =
    let floor = group_floor s.group.scaling in
    let t = min floor r in if ltb 0 floor then (record s { target = t }, r - t) else (s, r)

-- Phase 2: the percentages.
unfoldable pub target_round : ℕ → Round
target_round total r s = elim (group_target total s.group.scaling) [
  | none ↦ (s, r)
  | some target ↦ raise target r s
]

abbrev pub offered : ℕ → Option ℕ → ℕ
offered r none = r
offered r (some w) = w

-- Phase 3: opportunistic groups, up to the capacity that was observed; one that has none on record
-- is offered all that remains.
unfoldable pub opportunistic_round : (String → Option ℕ) → Round
opportunistic_round observed r s =
    let want = offered r (observed s.group.name) in
    if is_opportunistic s.group.scaling then raise want r s else (s, r)

-- Phase 4: the remainder, up to the ceilings.
unfoldable pub overflow_round : ℕ → Round
overflow_round total r s =
    if is_opportunistic s.group.scaling
    then (s, r)
    else elim (group_ceiling total s.group.scaling) [
      | none ↦ (record s { target = add_int32 s.target r }, 0)
      | some limit ↦ raise limit r s
    ]

-- How the floating-point comparison of a share with a percentage turns out where the exact values
-- are equal. Everywhere else it is exact: the values differ by more than the rounding error.
pub record Rounding : Type 0 where
  pub above : ℕ → ℕ → ℕ → Bool
  pub below : ℕ → ℕ → ℕ → Bool

-- target / total * 100 > pct + 0.5
unfoldable pub share_above : Rounding → ℕ → ℕ → ℕ → Bool
share_above f target total pct =
    if 200 * target == (2 * pct + 1) * total
    then f.above target total pct
    else ltb ((2 * pct + 1) * total) (200 * target)

-- target / total * 100 < pct - 0.5, at a positive `pct`
unfoldable pub share_below : Rounding → ℕ → ℕ → ℕ → Bool
share_below f target total pct =
    if 200 * target == (2 * pct - 1) * total
    then f.below target total pct
    else ltb (200 * target) ((2 * pct - 1) * total)

abbrev violates : Rounding → ℕ → ℕ → ℕ → Option ℕ → Bool
violates f target total pct none = share_above f target total pct
violates f target total pct (some _) = share_below f target total pct

unfoldable pub slot_degraded : Rounding → ℕ → Slot → Bool
unfolding share_above share_below
slot_degraded f total s = elim (target_percent s.group.scaling.target) [
  | none ↦ false
  | some pct ↦ violates f s.target total pct s.group.scaling.max
]

unfoldable pub any_degraded : Rounding → ℕ → List Slot → Bool
unfolding slot_degraded
any_degraded f total [] = false
any_degraded f total (s ∷ rest) = slot_degraded f total s || any_degraded f total rest

unfoldable pub check_target_degraded : Rounding → ℕ → List Slot → Bool
unfolding any_degraded
check_target_degraded f total slots = if total == 0 then false else any_degraded f total slots

abbrev pub start : List GroupSpec → List Slot
start = map (λ g. record { group = g; target = 0 })

abbrev pub slot_targets : List Slot → List ℕ
slot_targets = map (λ s. s.target)

-- Phases 2 to 4 on what phase 1 left.
unfoldable pub spread : (String → Option ℕ) → ℕ → List Slot × ℕ → List Slot × ℕ
unfolding each_slot_while target_round opportunistic_round overflow_round raise
spread observed total (slots1, r1) =
    let (slots2, r2) = each_slot_while (target_round total) r1 slots1 in
    let (slots3, r3) = each_slot_while (opportunistic_round observed) r2 slots2 in
    each_slot_while (overflow_round total) r3 slots3

abbrev result : Rounding → ℕ → List Slot × ℕ → DistributionResult
result f total (slots, r) = record {
  targets = slot_targets slots;
  target_degraded = check_target_degraded f total slots;
  unplaced = r;
}

-- What the phases end with: after phase 1 if nothing remains, else after phase 4.
unfoldable pub distribute : (String → Option ℕ) → ℕ → List GroupSpec → List Slot × ℕ
unfolding each_slot floor_round spread
distribute observed total groups =
    let (slots1, r1) = each_slot floor_round total (start groups) in
    if r1 == 0 then (slots1, r1) else spread observed total (slots1, r1)

unfoldable pub compute_group_targets :
    Rounding → ℕ → List GroupSpec → (String → Option ℕ) → DistributionResult
unfolding distribute check_target_degraded
compute_group_targets f total [] observed = record {
  targets = [];
  target_degraded = false;
  unplaced = 0;
}
compute_group_targets f total (g ∷ gs) observed =
    let placed = distribute observed total (g ∷ gs) in
    if total == 0
    then record { targets = slot_targets (start (g ∷ gs)); target_degraded = false; unplaced = 0 }
    else result f total placed
