-- ===== src/Webhook/Groups.antt =====
-- internal/webhook/v1alpha1/podpool_webhook.go: the rules on the scaling of one group, and those that
-- span the groups.
pub mod Laws
use podpool_controller.Prelude.{
  ℕ, suc, ◌+◌, Bool, true, false, not, ◌&&◌, ◌||◌, Option, none, some, List, [], ◌∷◌, ◌++◌, String,
  is_some, ltb, if◌then◌else◌, any, concat,
}
use podpool_controller.Api.{IntOrString, ScalingConstraints, GroupSpec}
use podpool_controller.Workload.Scaling.{is_bounded, is_opportunistic}
use podpool_controller.Webhook.Report.{
  Segment, child, index, key, ErrorKind, required, invalid, duplicate, forbidden, internal,
  FieldError, Texts,
}

abbrev or_unset {ℓ} : {A : Type ℓ} → (A → String) → Option A → String
or_unset text none = "unset"
or_unset text (some a) = text a

abbrev bool_text : Bool → String
bool_text true = "true"
bool_text false = "false"

-- `min` and `max` are both set and the wrong way round.
abbrev pub crossed : Option ℕ → Option ℕ → Bool
crossed (some lo) (some hi) = ltb hi lo
crossed _ _ = false

-- The path of a group, `groupsPath.Index(i)`.
abbrev pub at_group : List Segment → ℕ → List Segment
at_group path i = path ++ (index i ∷ [])

module _ (texts : Texts) where
  abbrev pub fmt_i32 : Option ℕ → String
  fmt_i32 = or_unset {A = ℕ} texts.decimal

  abbrev pub fmt_bool : Option Bool → String
  fmt_bool = or_unset {A = Bool} bool_text

  abbrev pub fmt_target : Option IntOrString → String
  fmt_target = or_unset {A = IntOrString} texts.target_text

  abbrev pub both_ceilings : List Segment → ScalingConstraints → FieldError
  both_ceilings path s = record {
    kind = invalid;
    path = path;
    value = concat (
        "min="
        ∷ fmt_i32 s.min
        ∷ " max="
        ∷ fmt_i32 s.max
        ∷ " target="
        ∷ fmt_target s.target
        ∷ " opportunistic="
        ∷ fmt_bool s.opportunistic
        ∷ []);
    detail = "opportunistic is itself the ceiling; it cannot be combined with max or target";
  }

  abbrev pub min_above_max : List Segment → ScalingConstraints → FieldError
  min_above_max path s = record {
    kind = invalid;
    path = path;
    value = concat ("min=" ∷ fmt_i32 s.min ∷ " max=" ∷ fmt_i32 s.max ∷ []);
    detail = "min must not exceed max";
  }

  unfoldable pub validate_scaling : List Segment → ScalingConstraints → List FieldError
  unfolding is_opportunistic
  validate_scaling path s =
      (if is_opportunistic s && (is_some s.max || is_some s.target)
        then both_ceilings path s ∷ []
        else [])
      ++ (if crossed s.min s.max then min_above_max path s ∷ [] else [])

  abbrev second_sink : List Segment → ℕ → GroupSpec → String × ℕ → FieldError
  second_sink path i g (sink, at) = record {
    kind = invalid;
    path = at_group path i ++ (child "scaling" ∷ []);
    value = g.name;
    detail = concat (
        "at most one group may be unbounded (no max, target, or opportunistic); group "
        ∷ texts.quote sink
        ∷ " at index "
        ∷ texts.decimal at
        ∷ " is already the overflow sink — cap this group with max or target, or remove it"
        ∷ []);
  }

  -- The loop, with the first unbounded group and its index once it has been met.
  unfoldable pub sink_errors :
      List Segment → ℕ → Option (String × ℕ) → List GroupSpec → List FieldError
  sink_errors path i first [] = []
  sink_errors path i none (g ∷ gs) =
      let bounded = sink_errors path (suc i) none gs in
      let unbounded = sink_errors path (suc i) (some (g.name, i)) gs in
      if is_bounded g.scaling then bounded else unbounded
  sink_errors path i (some sink) (g ∷ gs) =
      let rest = sink_errors path (suc i) (some sink) gs in
      if is_bounded g.scaling then rest else second_sink path i g sink ∷ rest

  unfoldable pub validate_overflow_sink : List Segment → List GroupSpec → List FieldError
  unfolding sink_errors
  validate_overflow_sink path groups = sink_errors path 0 none groups

  abbrev nothing_after : List Segment → ℕ → List GroupSpec → List FieldError
  nothing_after path i [] =
      record {
        kind = invalid;
        path = at_group path i ++ (child "scaling" ∷ child "opportunistic" ∷ []);
        value = "true";
        detail =
            "an opportunistic group must be followed by a group that can absorb what it cannot place";
      }
      ∷ []
  nothing_after path i (_ ∷ _) = []

  abbrev intercepts : List Segment → ℕ → GroupSpec → FieldError
  intercepts path j g = record {
    kind = invalid;
    path = at_group path j ++ (child "scaling" ∷ []);
    value = g.name;
    detail =
        "a group without max or target placed before an opportunistic group would absorb its displaced replicas; cap it or move it after";
  }

  -- The unbounded ones among the groups that stand before.
  unfoldable pub interceptors : List Segment → ℕ → List GroupSpec → List FieldError
  interceptors path j [] = []
  interceptors path j (g ∷ gs) =
      let rest = interceptors path (suc j) gs in
      if is_bounded g.scaling then rest else intercepts path j g ∷ rest

  unfoldable pub opportunistic_errors :
      List Segment → ℕ → List GroupSpec → List GroupSpec → List FieldError
  unfolding interceptors
  opportunistic_errors path i before [] = []
  opportunistic_errors path i before (g ∷ gs) =
      let rest = opportunistic_errors path (suc i) (before ++ (g ∷ [])) gs in
      if is_opportunistic g.scaling
      then nothing_after path i gs ++ (interceptors path 0 before ++ rest)
      else rest

  unfoldable pub validate_opportunistic : List Segment → List GroupSpec → List FieldError
  unfolding opportunistic_errors
  validate_opportunistic path groups =
      if any {A = GroupSpec} (λ g. is_opportunistic g.scaling) groups
      then opportunistic_errors path 0 [] groups
      else []
