-- ===== src/Controller/Group.antt =====
-- internal/controller/podpool_controller.go: the reconciliation of one group, from the rendered child to
-- the row of the status. What the server answers is a parameter; what is asked of it is a log.
pub mod Guard
pub mod Refusal
pub mod Row
use podpool_controller.Prelude.{
  ℕ, Bool, true, false, not, ◌||◌, Option, none, some, List, [], ◌∷◌, ◌++◌, map, String, str_eq,
  concat, if◌then◌else◌, at, put,
}
use podpool_controller.Json.{Fields}
use podpool_controller.Api.{GroupSpec, GroupStatus, WorkloadReference, PodPool}
use podpool_controller.Workload.Object.{ObjectApi, OwnerReference, Gvk}
use podpool_controller.Workload.Render.{child_name, read_int32_checked}
use podpool_controller.Workload.Render.Child.{build_child_workload}
use podpool_controller.Controller.Errors.{
  Error, leaf, not_owned, wrapped, terminal, api_reason, is_missing, is_terminal_api_error, Result,
  failed, done,
}
use podpool_controller.Controller.Events.{Event, normal, Marks, is_marked, report_out_of_range}
use podpool_controller.Controller.Sweep.{Action, same_kind}

-- More of apimachinery's accessors: `metav1.GetControllerOf`, the kind of an object, `SetResourceVersion`
-- with an empty version, and the text of a group and version. `build_error` is the text of a
-- rendering's error.
pub record Kube : Type 0 where
  pub controller_of : Fields → Option OwnerReference
  pub gvk_of : Fields → Gvk
  pub clear_resource_version : Fields → Fields
  pub group_version_text : Gvk → String
  pub build_error : GroupSpec → String

pub data Answer : Type 0 where
  unread : Error → Answer
  got : Fields → Answer

-- Reads of a name in the pool's namespace, from the cache and from the API server, and the server-side
-- apply, which forces the ownership of the fields.
pub record Server : Type 0 where
  pub get_cached : Gvk → String → Answer
  pub get_uncached : Gvk → String → Answer
  pub apply : Fields → Option Error

-- What a pass does to the world, in order.
pub data Effect : Type 0 where
  asked_apply : Fields → Effect
  swept : Action → Effect
  published : Event → Effect

pub record ChildObservation : Type 0 where
  pub replicas : ℕ
  pub ready : ℕ
  pub updated : ℕ
  pub created : Bool
  pub ready_found : Bool
  pub out_of_range : Bool
  pub child : Option Fields

abbrev pub just_created : ChildObservation
just_created = record {
  replicas = 0;
  ready = 0;
  updated = 0;
  created = true;
  ready_found = false;
  out_of_range = false;
  child = none;
}

abbrev pub owned_by : String → Option OwnerReference → Bool
owned_by uid none = false
owned_by uid (some owner) = str_eq owner.uid uid

abbrev pub owner_text : Option OwnerReference → Option (String × String)
owner_text none = none
owner_text (some owner) = some (owner.kind, owner.name)

abbrev pub events_of : List Event → List Effect
events_of events = map published events

module _ (api : ObjectApi) where
  unfoldable pub observe_child : Fields → ChildObservation
  unfolding read_int32_checked
  observe_child object =
      let replicas = read_int32_checked api object ("status" ∷ "replicas" ∷ []) in
      let ready = read_int32_checked api object ("status" ∷ "readyReplicas" ∷ []) in
      let updated = read_int32_checked api object ("status" ∷ "updatedReplicas" ∷ []) in
      record {
        replicas = replicas.0;
        ready = ready.0;
        updated = updated.0;
        created = false;
        ready_found = ready.1;
        out_of_range = replicas.2 || (ready.2 || updated.2);
        child = some object;
      }

  module _ (kube : Kube) where
    unfoldable pub is_controlled : PodPool → Fields → Bool
    is_controlled pool object =
        if str_eq pool.uid "" then false else owned_by pool.uid (kube.controller_of object)

    abbrev pub refusal : Fields → Error
    refusal object =
        not_owned (kube.gvk_of object).kind (api.get_name object)
          (owner_text (kube.controller_of object))

    module _ (server : Server) where
      abbrev applied : ChildObservation → Option Error → Result ChildObservation
      applied obs none = done obs
      applied obs (some e) = failed e

      unfoldable pub apply_child : Fields → ChildObservation → List Effect × Result ChildObservation
      apply_child desired obs =
          let cleared = kube.clear_resource_version desired in
          (asked_apply cleared ∷ [], applied obs (server.apply cleared))

      -- The second read, after the cache said that there is no such object.
      abbrev pub confirmed : PodPool → Fields → Answer → List Effect × Result ChildObservation
      confirmed pool desired (got object) =
          if not (is_controlled pool object)
          then ([], failed (refusal object))
          else if str_eq (api.get_name object) ""
          then apply_child desired just_created
          else apply_child desired (observe_child object)
      confirmed pool desired (unread e) =
          if not (is_missing (api_reason e))
          then ([], failed e)
          else apply_child desired just_created

      abbrev pub cached : PodPool → Fields → Answer → List Effect × Result ChildObservation
      cached pool desired (got object) =
          if not (is_controlled pool object)
          then ([], failed (refusal object))
          else apply_child desired (observe_child object)
      cached pool desired (unread e) =
          if is_missing (api_reason e)
          then confirmed pool desired
              (server.get_uncached (kube.gvk_of desired) (api.get_name desired))
          else ([], failed e)

      unfoldable pub reconcile_workload : PodPool → Fields → List Effect × Result ChildObservation
      unfolding is_controlled observe_child apply_child
      reconcile_workload pool desired =
          cached pool desired (server.get_cached (kube.gvk_of desired) (api.get_name desired))

-- The kinds that have ever published a ready count, over the life of the process.
abbrev pub Proven : Type 0
Proven = List (Gvk × Bool)

unfoldable pub mark_readiness_published : Gvk → Proven → Proven
mark_readiness_published gvk proven = put same_kind gvk true proven

unfoldable pub readiness_proven : Gvk → Proven → Bool
readiness_proven gvk proven = is_marked (at same_kind gvk proven)

-- What the reconciliation of a group leaves behind: the marks of the children that are out of range, the
-- kinds whose readiness is proven, what was asked for, and the row with what was observed.
pub record GroupPass : Type 0 where
  pub marks : Marks
  pub proven : Proven
  pub log : List Effect
  pub result : Result (GroupStatus × ChildObservation)

module _ (api : ObjectApi) (kube : Kube) where
  unfoldable pub group_row : PodPool → Gvk → GroupSpec → ChildObservation → GroupStatus
  group_row pool gvk group obs = record {
    name = group.name;
    ready = false;
    reason = "";
    message = "";
    replicas = obs.replicas;
    target_replicas = 0;
    ready_replicas = obs.ready;
    updated_replicas = obs.updated;
    share_percent = 0;
    last_progress_time = none;
    workload_ref = some record {
      api_version = kube.group_version_text gvk;
      kind = gvk.kind;
      name = child_name pool.name group.name;
    };
  }

  abbrev pub created_event : Gvk → String → ChildObservation → List Event
  created_event gvk name obs =
      if obs.created
      then normal "ChildCreated" "CreateWorkload" (concat ("Created " ∷ gvk.kind ∷ " " ∷ name ∷ []))
        ∷ []
      else []

  abbrev pub workload_error : Error → Error
  workload_error e =
      if is_terminal_api_error e
      then terminal (wrapped "reconciling workload" e)
      else wrapped "reconciling workload" e

  abbrev pub observed_group :
      PodPool
      → Gvk
      → GroupSpec
      → String
      → Marks
      → Proven
      → List Effect × Result ChildObservation
      → GroupPass
  observed_group pool gvk group name marks proven (log, failed e) = record {
    marks = marks;
    proven = proven;
    log = log;
    result = failed (workload_error e);
  }
  observed_group pool gvk group name marks proven (log, done obs) =
      let (next, events) =
        report_out_of_range pool group.name gvk.kind name obs.out_of_range marks in
      record {
        marks = next;
        proven = if obs.ready_found then mark_readiness_published gvk proven else proven;
        log = log ++ events_of (created_event gvk name obs ++ events);
        result = done (group_row pool gvk group obs, obs);
      }

  module _ (server : Server) where
    abbrev pub rendered : PodPool → Gvk → GroupSpec → Marks → Proven → Option Fields → GroupPass
    rendered pool gvk group marks proven none = record {
      marks = marks;
      proven = proven;
      log = [];
      result = failed (terminal (wrapped "building workload" (leaf (kube.build_error group))));
    }
    rendered pool gvk group marks proven (some desired) =
        observed_group pool gvk group (api.get_name desired) marks proven
          (reconcile_workload api kube server pool desired)

    unfoldable pub reconcile_group :
        PodPool → Fields → Gvk → GroupSpec → ℕ → Marks → Proven → GroupPass
    unfolding build_child_workload reconcile_workload report_out_of_range group_row
        mark_readiness_published is_terminal_api_error
    reconcile_group pool template gvk group target marks proven =
        rendered pool gvk group marks proven (build_child_workload api template group pool target)
