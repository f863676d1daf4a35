-- ===== src/Controller/Observe.antt =====
-- internal/controller/opportunistic.go: the reads behind the capacity of the opportunistic groups; and, of
-- podpool_controller.go, the probes that are laid on the targets.
pub mod Noted
pub mod ColdStart
use podpool_controller.Prelude.{
  ℕ, suc, ◌+◌, ◌-◌, Bool, true, false, not, ◌&&◌, ◌||◌, Option, none, some, List, [], ◌∷◌, ◌++◌,
  String, str_eq, concat, ltb, if◌then◌else◌, min, any, put,
}
use podpool_controller.Json.{Fields}
use podpool_controller.Api.{
  ConditionStatus, true_status, false_status, unknown_status, GroupSpec, PodPool,
}
use podpool_controller.Workload.Object.{ObjectApi, Gvk}
use podpool_controller.Workload.Scaling.{is_opportunistic}
use podpool_controller.Workload.Render.{child_name, read_int32}
use podpool_controller.Controller.Timing.{max_unschedulable_probe}
use podpool_controller.Controller.Probe.{
  Observation, unobserved, ProbeDecision, Probes, Observations, observation_of, decide_probe,
}
use podpool_controller.Controller.Errors.{
  Error, wrapped, api_reason, is_missing, Result, failed, done,
}
use podpool_controller.Controller.Events.{Event, warning, normal}
use podpool_controller.Controller.Group.{Kube, Answer, unread, got, Server, is_controlled}

-- What is read of a pod: its conditions, as type, status and reason.
pub record PodCondition : Type 0 where
  pub kind : String
  pub status : ConditionStatus
  pub reason : String

abbrev Pod : Type 0
Pod = List PodCondition

abbrev is_false : ConditionStatus → Bool
is_false false_status = true
is_false _ = false

abbrev pub is_unschedulable : Pod → Bool
is_unschedulable pod =
    any {A = PodCondition}
      (λ c. str_eq c.kind "PodScheduled" && (is_false c.status && str_eq c.reason "Unschedulable"))
      pod

abbrev pub count_pods : List Pod → ℕ
count_pods [] = 0
count_pods (pod ∷ pods) =
    let rest = count_pods pods in if is_unschedulable pod then suc rest else rest

abbrev counted : Result (List Pod) → Result ℕ
counted (failed e) = failed e
counted (done pods) = done (count_pods pods)

-- An error of the count is logged, and the count stays 0.
abbrev pub with_unschedulable : Result ℕ → Observation → Observation
with_unschedulable (failed e) obs = obs
with_unschedulable (done n) obs = record obs { unschedulable = n }

-- `list_pending` is the uncached list of a group's pending pods, up to a limit.
module _ (list_pending : String → ℕ → Result (List Pod)) where
  unfoldable pub count_unschedulable : String → ℕ → Result ℕ
  count_unschedulable group limit = counted (list_pending group limit)

  unfoldable pub completed : String → Observation → Observation
  unfolding count_unschedulable
  completed group obs =
      if obs.found && ltb obs.ready obs.asked
      then with_unschedulable
          (count_unschedulable group (min (obs.asked - obs.ready) max_unschedulable_probe)) obs
      else obs

abbrev and_then : Result Observations → (Observations → Result Observations) → Result Observations
and_then (failed e) next = failed e
and_then (done out) next = next out

module _ (api : ObjectApi) (kube : Kube) where
  abbrev pub counts_of : PodPool → Fields → Observation
  counts_of pool child =
      if not (is_controlled api kube pool child)
      then record unobserved { foreign = true }
      else record unobserved {
        found = true;
        asked = (read_int32 api child ("spec" ∷ "replicas" ∷ [])).0;
        ready = (read_int32 api child ("status" ∷ "readyReplicas" ∷ [])).0;
      }

  abbrev pub uncached_counts : PodPool → Answer → Result Observation
  uncached_counts pool (unread e) = if is_missing (api_reason e) then done unobserved else failed e
  uncached_counts pool (got child) = done (counts_of pool child)

  module _ (server : Server) where
    abbrev pub cached_counts : PodPool → Gvk → String → Answer → Result Observation
    cached_counts pool gvk name (unread e) =
        if is_missing (api_reason e)
        then uncached_counts pool (server.get_uncached gvk name)
        else failed e
    cached_counts pool gvk name (got child) = done (counts_of pool child)

    unfoldable pub child_counts : PodPool → Gvk → String → Result Observation
    unfolding is_controlled read_int32
    child_counts pool gvk group =
        let name = child_name pool.name group in
        cached_counts pool gvk name (server.get_cached gvk name)

    module _ (list_pending : String → ℕ → Result (List Pod)) where
      abbrev noted : Observations → String → Result Observation → Result Observations
      noted out group (failed e) = failed (wrapped (concat ("reading group " ∷ group ∷ [])) e)
      noted out group (done obs) = done (put str_eq group (completed list_pending group obs) out)

      unfoldable pub observe_groups :
          PodPool → Gvk → List GroupSpec → Observations → Result Observations
      unfolding child_counts completed
      observe_groups pool gvk [] out = done out
      observe_groups pool gvk (g ∷ groups) out =
          if not (is_opportunistic g.scaling)
          then observe_groups pool gvk groups out
          else and_then (noted out g.name (child_counts pool gvk g.name))
              (observe_groups pool gvk groups)

      unfoldable pub observe_opportunistic : PodPool → Gvk → Result Observations
      unfolding observe_groups
      observe_opportunistic pool gvk = observe_groups pool gvk pool.spec.groups []
