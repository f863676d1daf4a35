-- ===== src/Workload/Tests.antt =====
-- Runs of the distribution and its theorems at concrete pools.
pub mod RenderTests
use podpool_controller.Prelude.{
  ℕ, ◌+◌, ◌*◌, ◌≤◌, ◌<◌, ◌≡◌, refl, max, List, [], ◌∷◌, true, false, Option, none, some, String,
  arith, str_eq, if◌then◌else◌, codes, sum, get_elem?, add_int32,
}
use podpool_controller.Api.{str_val, ScalingConstraints, GroupSpec}
use podpool_controller.Workload.Percent.{target_percent, percent_of, ceil_div64}
use podpool_controller.Workload.Percent.Laws.{percent_text, target_percent-text, share_rounding}
use podpool_controller.Workload.Scaling.{
  group_floor, group_target, is_opportunistic, group_ceiling, is_bounded,
}
use podpool_controller.Workload.Distribution.{
  Rounding, opportunistic_round, raise, compute_group_targets,
}
use podpool_controller.Workload.Distribution.Rounds.{LeAll}
use podpool_controller.Workload.Distribution.Account.{compute_conserves}
use podpool_controller.Workload.Distribution.Floors.{cascade, compute-cascade}
use podpool_controller.Workload.Distribution.Ceilings.{ceiling_honoured, capacity_honoured}
use podpool_controller.Workload.Distribution.Overflow.{IsFull, unplaced_once_capped}
use podpool_controller.Workload.Distribution.Sinks.{one_sink}
use podpool_controller.Workload.Distribution.Capacity.{
  target_or_zero, cold_start_offer, capacity_before_overflow,
}
use podpool_controller.Workload.Distribution.Degraded.{IsJudged, compute-IsJudged}

abbrev no_ties : Rounding
no_ties = record { above = λ t total p. false; below = λ t total p. false }

abbrev group : String → ScalingConstraints → GroupSpec
group name s = record { name = name; scaling = s; overrides = none }

abbrev capped : ℕ → ScalingConstraints
capped m = record { min = none; max = some m; target = none; opportunistic = none }

abbrev at_least : ℕ → ScalingConstraints
at_least m = record { min = some m; max = none; target = none; opportunistic = none }

abbrev spot : ScalingConstraints
spot = record { min = some 1; max = none; target = none; opportunistic = some true }

abbrev quarter : ScalingConstraints
quarter = record {
  min = none;
  max = none;
  target = some (str_val (codes "25%"));
  opportunistic = none;
}

abbrev half_pinned : ScalingConstraints
half_pinned = record {
  min = none;
  max = some 2;
  target = some (str_val (codes "50%"));
  opportunistic = none;
}

abbrev tiers : List GroupSpec
tiers =
    group "base" (capped 5)
    ∷ group "spot" spot
    ∷ group "share" quarter
    ∷ group "burst" (at_least 0)
    ∷ group "spare" (at_least 1)
    ∷ []

abbrev four_spots : String → Option ℕ
four_spots name = if str_eq name "spot" then some 4 else none

abbrev many_spots : String → Option ℕ
many_spots name = if str_eq name "spot" then some 30 else none

spread_of_tiers :
    (compute_group_targets no_ties 20 tiers four_spots).targets ≡ 5 ∷ 4 ∷ 5 ∷ 5 ∷ 1 ∷ []
unfolding compute_group_targets raise group_floor group_target target_percent percent_of ceil_div64
    is_opportunistic group_ceiling add_int32 is_bounded
spread_of_tiers = refl

cold_start :
    (compute_group_targets no_ties 20 tiers (λ name. none)).targets ≡ 1 ∷ 13 ∷ 5 ∷ 0 ∷ 1 ∷ []
unfolding compute_group_targets raise group_floor group_target target_percent percent_of ceil_div64
    is_opportunistic group_ceiling add_int32 is_bounded
cold_start = refl

-- A percentage that does not parse binds its group at zero.
misspelt : target_percent (some (str_val (codes "3O%"))) ≡ none
unfolding target_percent
misspelt = refl

without_sign : target_percent (some (str_val (codes "+30"))) ≡ some 30
unfolding target_percent
without_sign = refl

compute_conserves_example :
    sum (compute_group_targets no_ties 20 tiers four_spots).targets
      + (compute_group_targets no_ties 20 tiers four_spots).unplaced
    ≡ 20
compute_conserves_example =
    compute_conserves no_ties four_spots 20 (group "base" (capped 5)) _ (omega arith)

compute-cascade_example :
    LeAll (cascade 20 tiers) (compute_group_targets no_ties 20 tiers four_spots).targets
compute-cascade_example = compute-cascade no_ties four_spots 20 tiers (omega arith)

ceiling_honoured_example : 5 ≤ max (group_floor quarter) 5
unfolding compute_group_targets raise group_floor group_target target_percent percent_of ceil_div64
    is_opportunistic group_ceiling add_int32 is_bounded
ceiling_honoured_example =
    ceiling_honoured no_ties four_spots 20 tiers 2 (group "share" quarter) 5 5 (omega arith) refl
      refl refl refl

capacity_honoured_run : 4 ≤ max (group_floor spot) 4
unfolding compute_group_targets raise group_floor group_target target_percent percent_of ceil_div64
    is_opportunistic group_ceiling add_int32 is_bounded
capacity_honoured_run =
    capacity_honoured no_ties four_spots 20 tiers 1 (group "spot" spot) 4 4 (omega arith) refl refl
      refl refl refl

abbrev all_capped : List GroupSpec
all_capped = group "base" (capped 5) ∷ group "share" quarter ∷ []

unplaced_once_capped_example :
    (is_bounded (capped 5) ≡ true) × IsFull 20 (group "base" (capped 5)) 5
unfolding compute_group_targets raise group_floor group_target target_percent percent_of ceil_div64
    is_opportunistic group_ceiling add_int32 is_bounded
unplaced_once_capped_example =
    unplaced_once_capped no_ties four_spots 20 all_capped 0 (group "base" (capped 5)) 5
      (omega arith) (ground arith) refl refl

one_sink_example : 1 ≤ group_floor (at_least 1)
unfolding compute_group_targets raise group_floor group_target target_percent percent_of ceil_div64
    is_opportunistic group_ceiling add_int32 is_bounded
one_sink_example =
    one_sink no_ties four_spots 20 tiers 3 4 (group "burst" (at_least 0))
      (group "spare" (at_least 1)) 1 (omega arith) (omega arith) refl refl refl refl refl

capacity_before_overflow_example :
    0 ≤ max (group_floor (at_least 0)) (target_or_zero (group_target 20 (at_least 0)))
unfolding compute_group_targets raise group_floor group_target target_percent percent_of ceil_div64
    is_opportunistic group_ceiling add_int32 is_bounded
capacity_before_overflow_example =
    capacity_before_overflow no_ties many_spots 20 tiers 1 3 (group "spot" spot)
      (group "burst" (at_least 0)) 14 0 30 (omega arith) refl refl refl refl (omega arith) refl refl
      refl

abbrev pinned : List GroupSpec
pinned = group "half" half_pinned ∷ group "burst" (at_least 0) ∷ []

compute-IsJudged_example :
    IsJudged no_ties four_spots 20 pinned
      (compute_group_targets no_ties 20 pinned four_spots).targets
      true
unfolding compute_group_targets raise group_floor group_target target_percent percent_of ceil_div64
    is_opportunistic group_ceiling add_int32 is_bounded
compute-IsJudged_example = compute-IsJudged no_ties four_spots 20 pinned (omega arith)

target_percent-text_example : target_percent (some (str_val (percent_text 30))) ≡ some 30
target_percent-text_example = target_percent-text 30 (omega arith) (omega arith)

share_rounding_run :
    (100 * percent_of 7 25 ≤ 7 * 25)
    × (7 * 25 < 100 * percent_of 7 25 + 100)
    × (7 * 25 ≤ 100 * ceil_div64 (7 * 25) 100)
    × (100 * ceil_div64 (7 * 25) 100 < 7 * 25 + 100)
    × (ceil_div64 (7 * 25) 100 ≤ 7)
unfolding target_percent
share_rounding_run = share_rounding quarter.target 7 25 (omega arith) refl

cold_start_offer_run :
    ((opportunistic_round
        (λ name. none)
        18
        (record { group = group "spot" spot; target = 1 })).0.target
      ≡ 18)
    × ((opportunistic_round (λ name. none) 18 (record { group = group "spot" spot; target = 1 })).1
        ≡ 1)
unfolding is_opportunistic
cold_start_offer_run =
    cold_start_offer (λ name. none) 18 (record { group = group "spot" spot; target = 1 })
      (omega arith) refl refl
