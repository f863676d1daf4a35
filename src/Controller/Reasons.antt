-- ===== src/Controller/Reasons.antt =====
-- internal/controller/podpool_controller.go: the reason of each row of the status; and, of
-- internal/workload/render.go, TruncateRunes.
pub mod Laws
use Prim.Native.String.{◌++◌, len}
use podpool_controller.Prelude.{
  ℕ, Bool, true, false, not, ◌&&◌, Option, none, some, List, [], ◌∷◌, String, str_eq, concat, leb,
  ltb, ◌==◌, if◌then◌else◌, any, at,
}
use podpool_controller.Json.{Fields}
use podpool_controller.Api.{GroupStatus, PodPool}
use podpool_controller.Workload.Object.{ObjectApi, Gvk}
use podpool_controller.Workload.Render.{generation_current}
use podpool_controller.Workload.Render.Detail.{child_detail}
use podpool_controller.Controller.Conditions.{prefix, format_group_names}
use podpool_controller.Controller.Events.{Event, warning}
use podpool_controller.Controller.Group.{Kube, ChildObservation, Proven, readiness_proven}

abbrev pub max_group_message_len : ℕ
max_group_message_len = 512

-- A text is valid UTF-8; `range` over it goes from one character to the next.
unfoldable pub truncate_runes : String → ℕ → String
unfolding prefix
truncate_runes s max_len = if leb (len s) max_len then s else prefix max_len s

abbrev pub Children : Type 0
Children = List (String × Fields)

abbrev pub detail_of : Option (String × String) → String × String
detail_of none = ("", "")
detail_of (some detail) = detail

abbrev joined : String → String → String
joined reason message =
    if not (str_eq reason "") && not (str_eq message "")
    then concat (reason ∷ ": " ∷ message ∷ [])
    else if not (str_eq reason "")
    then reason
    else message

module _ (api : ObjectApi) (kube : Kube) where
  abbrev child_prefix : Option Fields → String
  child_prefix none = ""
  child_prefix (some child) =
      concat ((kube.gvk_of child).kind ∷ " " ∷ api.get_name child ∷ ": " ∷ [])

  unfoldable pub format_child_message : Option Fields → String × String → String
  unfolding truncate_runes
  format_child_message child (reason, message) =
      if str_eq reason "" && str_eq message ""
      then ""
      else truncate_runes (child_prefix child ++ joined reason message) max_group_message_len

  abbrev pub is_current : Option Fields → Bool
  is_current none = true
  is_current (some child) = generation_current api child

  abbrev detail : Option Fields → String × String
  detail none = ("", "")
  detail (some child) = detail_of (child_detail api child)

  unfoldable pub assign_reason : List String → Children → GroupStatus → GroupStatus
  unfolding format_child_message child_detail generation_current
  assign_reason stalled children gs =
      let child = at str_eq gs.name children in
      if not (str_eq gs.reason "")
      then gs
      else if any {A = String} (str_eq gs.name) stalled
      then record gs {
        ready = false;
        reason = "ProgressDeadlineExceeded";
        message = format_child_message child (detail child);
      }
      else if not (is_current child)
      then record gs { ready = false; reason = "WorkloadUpdating"; message = "" }
      else if ltb gs.ready_replicas gs.target_replicas
      then record gs {
        ready = false;
        reason = "ReplicasUpdating";
        message = format_child_message child (detail child);
      }
      else if gs.target_replicas == 0
      then record gs { ready = true; reason = "ScaledToZero" }
      else record gs { ready = true; reason = "AllReplicasReady" }

  unfoldable pub assign_group_reasons : List String → Children → List GroupStatus → List GroupStatus
  unfolding assign_reason
  assign_group_reasons stalled children [] = []
  assign_group_reasons stalled children (gs ∷ statuses) =
      assign_reason stalled children gs ∷ assign_group_reasons stalled children statuses

-- The observations of the groups that were reconciled.
abbrev pub Observed : Type 0
Observed = List (String × ChildObservation)

abbrev is_silent : Option ChildObservation → Bool
is_silent none = false
is_silent (some obs) = ltb 0 obs.replicas && not obs.ready_found

abbrev pub silent_groups : Observed → List String → List String
silent_groups observed [] = []
silent_groups observed (name ∷ names) =
    let rest = silent_groups observed names in
    if is_silent (at str_eq name observed) then name ∷ rest else rest

abbrev is_nonempty : List String → Bool
is_nonempty [] = false
is_nonempty (name ∷ names) = true

unfoldable pub diagnose_status_missing :
    (ℕ → String) → Gvk → Proven → List String → Observed → List Event
unfolding readiness_proven format_group_names
diagnose_status_missing decimal gvk proven stalled observed =
    let silent = silent_groups observed stalled in
    if readiness_proven gvk proven
    then []
    else if is_nonempty silent
    then warning "StatusMissing" "ChildStatus" (
        concat (
          gvk.kind
          ∷ " has published no status.readyReplicas for group(s) "
          ∷ format_group_names decimal silent
          ∷ " in the whole deadline window; either the kind does not publish readiness or no "
          ∷ "replica has ever become ready, and the pool cannot tell these apart, so it reports 0 ready"
          ∷ []))
      ∷ []
    else []
