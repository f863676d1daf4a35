-- ===== src/Controller/Probing.antt =====
-- internal/controller/podpool_controller.go: applyProbes, which lays the probes on the targets.
pub mod Surplus
use podpool_controller.Prelude.{
  ℕ, Bool, true, false, ◌||◌, Option, none, some, List, [], ◌∷◌, ◌++◌, String, concat,
  if◌then◌else◌,
}
use podpool_controller.Api.{GroupSpec, PodPool}
use podpool_controller.Workload.Scaling.{is_opportunistic}
use podpool_controller.Controller.Probe.{
  Observation, unobserved, ProbeDecision, Probes, Observations, observation_of, decide_probe,
}
use podpool_controller.Controller.Events.{Event, warning, normal}

abbrev or_unobserved : Option Observation → Observation
or_unobserved none = unobserved
or_unobserved (some obs) = obs

abbrev probe_event : String → Event
probe_event group =
    normal "CapacityProbe" "ProbeCapacity"
      (concat ("Probing group " ∷ group ∷ " for one replica beyond its observed capacity" ∷ []))

abbrev timeout_event : String → Event
timeout_event group = warning "CapacityProbeTimeout" "ProbeCapacity" (
    concat (
      "Probe for group " ∷ group ∷ " got no scheduler verdict within 2m0s; treating it as refused"
      ∷ []))

abbrev pub decision_events : String → ProbeDecision → List Event
decision_events group d =
    (if d.issued then probe_event group ∷ [] else [])
    ++ (if d.abandoned then timeout_event group ∷ [] else [])

pub record ProbePass : Type 0 where
  pub probes : Probes
  pub events : List Event
  pub targets : List ℕ
  pub pending : Bool

abbrev pub kept : ℕ → ProbePass → ProbePass
kept target rest = record rest { targets = target ∷ rest.targets }

abbrev pub decided : String → ProbeDecision → ProbePass → ProbePass
decided group d rest = record {
  probes = rest.probes;
  events = decision_events group d ++ rest.events;
  targets = d.target ∷ rest.targets;
  pending = d.await_verdict || rest.pending;
}

-- The targets are as many as the groups.
unfoldable pub apply_probes :
    PodPool → List GroupSpec → List ℕ → Observations → ℕ → Probes → ProbePass
unfolding decide_probe observation_of
apply_probes pool (g ∷ groups) (target ∷ targets) observed now probes =
    let obs = or_unobserved (observation_of g.name observed) in
    let (next, d) = decide_probe pool g.name target obs now probes in
    if is_opportunistic g.scaling
    then decided g.name d (apply_probes pool groups targets observed now next)
    else kept target (apply_probes pool groups targets observed now probes)
apply_probes pool _ targets observed now probes = record {
  probes = probes;
  events = [];
  targets = targets;
  pending = false;
}
