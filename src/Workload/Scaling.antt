-- ===== src/Workload/Scaling.antt =====
-- internal/workload/algorithm.go: what one group's constraints say.
use podpool_controller.Prelude.{
  ℕ, ◌*◌, min, Bool, false, ◌||◌, Option, none, some, is_some, if◌then◌else◌,
}
use podpool_controller.Api.{ScalingConstraints}
use podpool_controller.Workload.Percent.{target_percent, percent_of, ceil_div64}

unfoldable pub group_floor : ScalingConstraints → ℕ
group_floor s = elim s.min [ some m ↦ m | none ↦ 0 ]

-- The rounding of a target: up and capped by `max` where there is one, down where the target is
-- itself the ceiling.
abbrev rounded_target : ℕ → ℕ → Option ℕ → ℕ
rounded_target total pct (some m) = min (ceil_div64 (total * pct) 100) m
rounded_target total pct none = percent_of total pct

-- The value and `ok` are an `Option`.
unfoldable pub group_target : ℕ → ScalingConstraints → Option ℕ
group_target total s = elim (target_percent s.target) [
  | none ↦ none
  | some pct ↦ some (rounded_target total pct s.max)
]

unfoldable pub is_opportunistic : ScalingConstraints → Bool
is_opportunistic s = elim s.opportunistic [ some b ↦ b | none ↦ false ]

unfoldable pub has_static_ceiling : ScalingConstraints → Bool
has_static_ceiling s = is_some s.max || is_some s.target

unfoldable pub is_bounded : ScalingConstraints → Bool
unfolding has_static_ceiling is_opportunistic
is_bounded s = has_static_ceiling s || is_opportunistic s

abbrev ceiling_of_target : ℕ → Option ℕ → ℕ
ceiling_of_target total none = 0
ceiling_of_target total (some pct) = percent_of total pct

abbrev ceiling_of : ℕ → ScalingConstraints → Option ℕ → ℕ
ceiling_of total s (some m) = m
ceiling_of total s none = ceiling_of_target total (target_percent s.target)

-- `none` is a group that is not bounded.
unfoldable pub group_ceiling : ℕ → ScalingConstraints → Option ℕ
unfolding has_static_ceiling
group_ceiling total s = if has_static_ceiling s then some (ceiling_of total s s.max) else none
