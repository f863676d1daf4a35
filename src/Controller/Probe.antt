-- ===== src/Controller/Probe.antt =====
-- internal/controller/opportunistic.go: the probes of opportunistic groups. The mutex makes each
-- method one step on the map of records.
pub mod Laws
pub mod Growth
pub mod Forget
use podpool_controller.Prelude.{
  ℕ, ◌+◌, ◌-◌, ◌≡◌, Bool, true, false, not, ◌&&◌, ◌||◌, List, [], ◌∷◌, Option, none, some, String,
  str_eq, ltb, leb, ◌==◌, if◌then◌else◌, min, add_int32,
}
use Prim.Native.String
use text.Mathlib.Text.{starts_with}
use podpool_controller.Api.{GroupSpec, PodPoolSpec, PodPool}
use podpool_controller.Workload.Scaling.{is_opportunistic}
use podpool_controller.Controller.Timing.{
  has_elapsed, probe_verdict_timeout, max_unschedulable_probe, opportunistic_heartbeat,
}

pub record Observation : Type 0 where
  pub found : Bool
  pub foreign : Bool
  pub asked : ℕ
  pub ready : ℕ
  pub unschedulable : ℕ

-- The zero value of `opportunisticObservation`.
abbrev pub unobserved : Observation
unobserved = record { found = false; foreign = false; asked = 0; ready = 0; unschedulable = 0 }

pub record ProbeState : Type 0 where
  pub outstanding : Bool
  pub last_failed : ℕ
  pub started_at : ℕ

-- The zero value, which the map gives for a key that it lacks.
abbrev pub no_probe : ProbeState
no_probe = record { outstanding = false; last_failed = 0; started_at = 0 }

pub record ProbeDecision : Type 0 where
  pub target : ℕ
  pub issued : Bool
  pub await_verdict : Bool
  pub abandoned : Bool

-- The scheduler's answer, read into an outstanding record.
unfoldable pub read_verdict : Observation → ℕ → ProbeState → ProbeState
read_verdict obs now st =
    if st.outstanding && obs.found
    then if leb obs.asked obs.ready
      then record st { outstanding = false }
      else if ltb 0 obs.unschedulable
      then record st { outstanding = false; last_failed = now }
      else st
    else st

abbrev pub is_settled : Observation → ℕ → Bool
is_settled obs target = obs.found && obs.asked == target && leb obs.asked obs.ready

-- `decideProbe` on one record: the new record and the decision.
unfoldable pub probe_step : ℕ → ℕ → Observation → ℕ → ProbeState → ProbeState × ProbeDecision
unfolding read_verdict
probe_step heartbeat target obs now before =
    let st = read_verdict obs now before in
    if st.outstanding && has_elapsed now st.started_at probe_verdict_timeout
    then (
      record st { outstanding = false; last_failed = now },
      record { target = target; issued = false; await_verdict = false; abandoned = true },
    )
    else if st.outstanding
    then (
      st,
      if obs.found
          then record {
            target = add_int32 target 1;
            issued = false;
            await_verdict = true;
            abandoned = false;
          }
          else record { target = target; issued = false; await_verdict = false; abandoned = false },
    )
    else if is_settled obs target && has_elapsed now st.last_failed heartbeat
    then (
      record st { outstanding = true; started_at = now },
      record {
        target = add_int32 target 1;
        issued = true;
        await_verdict = true;
        abandoned = false;
      },
    )
    else (st, record { target = target; issued = false; await_verdict = false; abandoned = false })

-- The map from a key to a record.
abbrev pub Probes : Type 0
Probes = List (String × ProbeState)

unfoldable pub probe_at : String → Probes → ProbeState
probe_at k [] = no_probe
probe_at k ((j, st) ∷ m) = if str_eq j k then st else probe_at k m

unfoldable pub set_probe : String → ProbeState → Probes → Probes
set_probe k st [] = (k, st) ∷ []
set_probe k st ((j, old) ∷ m) = if str_eq j k then (j, st) ∷ m else (j, old) ∷ set_probe k st m

abbrev pub pool_prefix : String → String → String
pool_prefix namespace name = String.◌++◌ (String.◌++◌ (String.◌++◌ namespace "/") name) "/"

unfoldable pub probe_key : PodPool → String → String
probe_key pool group = String.◌++◌ (pool_prefix pool.namespace pool.name) group

unfoldable pub decide_probe :
    PodPool → String → ℕ → Observation → ℕ → Probes → Probes × ProbeDecision
unfolding probe_step set_probe probe_at probe_key opportunistic_heartbeat
decide_probe pool group target obs now probes =
    let key = probe_key pool group in
    let (st, d) =
      probe_step (opportunistic_heartbeat pool.spec) target obs now (probe_at key probes) in
    (set_probe key st probes, d)

unfoldable pub probe_outstanding : PodPool → String → Probes → Bool
unfolding probe_at probe_key
probe_outstanding pool group probes = (probe_at (probe_key pool group) probes).outstanding

-- One of the two loops of `forgetProbes`: every key under the pool's prefix goes.
unfoldable pub forget {ℓ} : {V : Type ℓ} → String → List (String × V) → List (String × V)
forget prefix [] = []
forget prefix ((k, v) ∷ m) =
    let rest = forget prefix m in if starts_with k prefix then rest else (k, v) ∷ rest

unfoldable pub forget_probes :
    String → String → Probes → List (String × Bool) → Probes × List (String × Bool)
unfolding forget
forget_probes namespace name probes out_of_range =
    let prefix = pool_prefix namespace name in (forget prefix probes, forget prefix out_of_range)

-- The capacity of one group. `none` is a group that is left out of the map: never sized.
unfoldable pub group_capacity : Bool → Observation → Option ℕ
group_capacity outstanding obs =
    if obs.foreign
    then some 0
    else if not obs.found
    then none
    else if outstanding && ltb obs.ready obs.asked && obs.unschedulable == 0
    then some (obs.asked - 1)
    else some (obs.asked - obs.unschedulable)

-- The observations of a pass: a map from group to observation.
abbrev pub Observations : Type 0
Observations = List (String × Observation)

unfoldable pub observation_of : String → Observations → Option Observation
observation_of k [] = none
observation_of k ((j, obs) ∷ m) = if str_eq j k then some obs else observation_of k m

unfoldable pub capacity_from : PodPool → Observations → Probes → String → Option ℕ
unfolding observation_of group_capacity probe_outstanding
capacity_from pool observed probes name = elim (observation_of name observed) [
  | none ↦ none
  | some obs ↦ group_capacity (probe_outstanding pool name probes) obs
]
