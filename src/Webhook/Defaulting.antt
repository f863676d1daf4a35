-- ===== src/Webhook/Defaulting.antt =====
-- internal/webhook/v1alpha1/podpool_webhook.go: the defaulting of a pool.
use podpool_controller.Prelude.{
  ℕ, not, ◌&&◌, Option, none, some, map, is_some, if◌then◌else◌, ◌≡◌, refl,
}
use podpool_controller.Workload.Scaling.{
  group_floor, group_target, group_ceiling, is_bounded, is_opportunistic, has_static_ceiling,
}
use podpool_controller.Api.{ScalingConstraints, GroupSpec, PodPoolSpec, PodPool}

-- A group without both bounds gets a floor of zero.
unfoldable pub default_scaling : ScalingConstraints → ScalingConstraints
default_scaling s =
    if not (is_some s.min) && not (is_some s.max) then record s { min = some 0 } else s

abbrev pub default_group : GroupSpec → GroupSpec
default_group g = record g { scaling = default_scaling g.scaling }

abbrev pub default_spec : PodPoolSpec → PodPoolSpec
default_spec spec = record spec { groups = map {A = GroupSpec} default_group spec.groups }

unfoldable pub default_pool : PodPool → PodPool
unfolding default_scaling
default_pool pool = record pool { spec = default_spec pool.spec }

-- Defaulting only makes a group's shape explicit: a second pass changes nothing, and a group is read
-- as before, its floor, its percentage target, its ceiling, whether it is bounded and whether it is
-- opportunistic, of any total.
pub default_scaling_keeps :
    (total : ℕ) (s : ScalingConstraints)
    → (default_scaling (default_scaling s) ≡ default_scaling s)
      × (group_floor (default_scaling s) ≡ group_floor s)
      × (group_target total (default_scaling s) ≡ group_target total s)
      × (group_ceiling total (default_scaling s) ≡ group_ceiling total s)
      × (is_bounded (default_scaling s) ≡ is_bounded s)
      × (is_opportunistic (default_scaling s) ≡ is_opportunistic s)
unfolding default_scaling group_floor group_target group_ceiling is_bounded is_opportunistic
    has_static_ceiling
default_scaling_keeps total s = over_bounds s.min s.max refl refl
  where
    over_bounds :
        (lo hi : Option ℕ)
        → s.min ≡ lo
        → s.max ≡ hi
        → (default_scaling (default_scaling s) ≡ default_scaling s)
          × (group_floor (default_scaling s) ≡ group_floor s)
          × (group_target total (default_scaling s) ≡ group_target total s)
          × (group_ceiling total (default_scaling s) ≡ group_ceiling total s)
          × (is_bounded (default_scaling s) ≡ is_bounded s)
          × (is_opportunistic (default_scaling s) ≡ is_opportunistic s)
    over_bounds none none a b = rw (a, b) (refl, refl, refl, refl, refl, refl)
    over_bounds (some n) hi a b = rw a (refl, refl, refl, refl, refl, refl)
    over_bounds none (some n) a b = rw (a, b) (refl, refl, refl, refl, refl, refl)
