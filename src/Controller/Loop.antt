-- ===== src/Controller/Loop.antt =====
-- internal/controller/podpool_controller.go: the loop of Reconcile over the groups of the spec.
pub mod Accounts
use podpool_controller.Prelude.{
  ℕ, Bool, true, false, Option, none, some, List, [], ◌∷◌, ◌++◌, String, str_eq, concat,
  if◌then◌else◌, put,
}
use podpool_controller.Json.{Fields}
use podpool_controller.Api.{GroupSpec, GroupStatus, PodPool}
use podpool_controller.Workload.Object.{ObjectApi, Gvk}
use podpool_controller.Controller.Progress.{find_group_status}
use podpool_controller.Controller.Errors.{
  Error, wrapped, PendingEvent, classify_group_error, Result, failed, done,
}
use podpool_controller.Controller.Events.{Marks}
use podpool_controller.Controller.Group.{
  Kube, Server, Effect, ChildObservation, Proven, GroupPass, reconcile_group,
}
use podpool_controller.Controller.Reasons.{Children, Observed}

-- What the loop collects, each list in the order of the groups.
pub record Collected : Type 0 where
  pub marks : Marks
  pub proven : Proven
  pub log : List Effect
  pub errors : List Error
  pub failed_groups : List String
  pub terminal_groups : List String
  pub not_owned_groups : List String
  pub pending_events : List PendingEvent
  pub reconciled : List String
  pub children : Children
  pub observed : Observed
  pub rows : List GroupStatus

abbrev pub nothing_collected : Marks → Proven → Collected
nothing_collected marks proven = record {
  marks = marks;
  proven = proven;
  log = [];
  errors = [];
  failed_groups = [];
  terminal_groups = [];
  not_owned_groups = [];
  pending_events = [];
  reconciled = [];
  children = [];
  observed = [];
  rows = [];
}

-- The row of a group that failed: the previous one, or a blank one with the target.
abbrev pub carried : String → String → ℕ → Option GroupStatus → GroupStatus
carried name reason target (some previous) = record previous {
  ready = false;
  reason = reason;
  message = "";
}
carried name reason target none = record {
  name = name;
  ready = false;
  reason = reason;
  message = "";
  replicas = 0;
  target_replicas = target;
  ready_replicas = 0;
  updated_replicas = 0;
  share_percent = 0;
  last_progress_time = none;
  workload_ref = none;
}

abbrev pub add_if : Bool → String → List String → List String
add_if b name names = if b then names ++ name ∷ [] else names

abbrev with_child : String → Option Fields → Children → Children
with_child name none children = children
with_child name (some child) children = put str_eq name child children

-- What one turn of the loop adds.
abbrev pub collect :
    List GroupStatus
    → GroupSpec
    → ℕ
    → Collected
    → Marks
    → Proven
    → List Effect
    → Result (GroupStatus × ChildObservation)
    → Collected
collect previous group target c marks proven log (failed e) =
    let (is_final, event) = classify_group_error group.name e in
    record c {
      marks = marks;
      proven = proven;
      log = c.log ++ log;
      errors = c.errors ++ wrapped (concat ("group " ∷ group.name ∷ [])) e ∷ [];
      failed_groups = c.failed_groups ++ group.name ∷ [];
      terminal_groups = add_if is_final group.name c.terminal_groups;
      not_owned_groups =
          add_if (str_eq event.reason "WorkloadNotOwned") group.name c.not_owned_groups;
      pending_events = c.pending_events ++ event ∷ [];
      rows =
          c.rows
          ++ carried group.name event.reason target (find_group_status previous group.name) ∷ [];
    }
collect previous group target c marks proven log (done (row, obs)) = record c {
  marks = marks;
  proven = proven;
  log = c.log ++ log;
  reconciled = c.reconciled ++ group.name ∷ [];
  observed = put str_eq group.name obs c.observed;
  children = with_child group.name obs.child c.children;
  rows = c.rows ++ (record row { target_replicas = target }) ∷ [];
}

module _ (api : ObjectApi) (kube : Kube) (server : Server) where
  abbrev pub turn :
      PodPool → List GroupStatus → Fields → Gvk → GroupSpec → ℕ → Collected → Collected
  turn pool previous template gvk group target c =
      let pass = reconcile_group api kube server pool template gvk group target c.marks c.proven in
      collect previous group target c pass.marks pass.proven pass.log pass.result

  -- The targets are as many as the groups.
  unfoldable pub reconcile_groups :
      PodPool → List GroupStatus → Fields → Gvk → List GroupSpec → List ℕ → Collected → Collected
  unfolding reconcile_group classify_group_error find_group_status
  reconcile_groups pool previous template gvk (group ∷ groups) (target ∷ targets) c =
      reconcile_groups pool previous template gvk groups targets
        (turn pool previous template gvk group target c)
  reconcile_groups pool previous template gvk _ _ c = c
