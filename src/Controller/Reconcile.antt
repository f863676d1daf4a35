-- ===== src/Controller/Reconcile.antt =====
-- internal/controller/podpool_controller.go: Reconcile, one pass over a pool, with the deferred part that
-- every exit runs. What the outside answers in a pass is a record; what the reconciler keeps between
-- passes is another.
pub mod Body
pub mod Run
pub mod Writes
pub mod Gate
pub mod Rows
pub mod Requeue
pub mod Exits
pub mod Due
pub mod OneCall
pub mod Life
pub mod Observed
use podpool_controller.Prelude.{
  ℕ, Bool, true, false, not, ◌&&◌, Option, none, some, List, [], ◌∷◌, ◌++◌, map, String, str_eq,
  concat, ◌==◌, if◌then◌else◌, any, length, to_int32,
}
use podpool_controller.Json.{Fields}
use podpool_controller.Api.{Condition, GroupStatus, PodPoolStatus, PodPool}
use podpool_controller.Workload.Object.{ObjectApi, Gvk}
use podpool_controller.Workload.Render.{extract_gvk, parse_template, label_pool}
use podpool_controller.Workload.Distribution.{Rounding, DistributionResult, compute_group_targets}
use podpool_controller.Controller.Timing.{requeue_after, probe_verdict_requeue}
use podpool_controller.Controller.Probe.{Probes, Observations, capacity_from, forget_probes}
use podpool_controller.Controller.Progress.{
  stamp_all_progress, evaluate_stalled, deadline_aware_requeue, GroupTotals, summarise_groups,
}
use podpool_controller.Controller.Conditions.{ConditionInputs, set_conditions, format_group_names}
use podpool_controller.Controller.Errors.{
  Error, leaf, wrapped, api_reason, is_missing, Result, failed, done,
}
use podpool_controller.Controller.Events.{
  Event, warning, normal, Marks, condition_tuple_changed, ready_reason_is, announce_resume,
  is_paused, annotation_paused, flush_group_events,
}
use podpool_controller.Controller.Sweep.{Cluster, Action, sweep_all_orphans}
use podpool_controller.Controller.Group.{
  Kube, Server, Effect, swept, published, events_of, Proven, ChildObservation,
}
use podpool_controller.Controller.Watch.{
  InformerAnswer, Watches, WatchCall, SetUp, proceed, come_back, give_up, WatchPass, no_inputs,
  set_up_watch,
}
use podpool_controller.Controller.Observe.{PodCondition, observe_opportunistic}
use podpool_controller.Controller.Probing.{ProbePass, apply_probes}
use podpool_controller.Controller.Reasons.{assign_group_reasons, diagnose_status_missing}
use podpool_controller.Controller.Loop.{Collected, nothing_collected, reconcile_groups}
use podpool_controller.Controller.Metrics.{
  Gauges, record_pool_metrics_from_status, delete_pool_metrics, delete_stale_group_metrics,
  delete_stale_condition_metrics, status_names,
}

pub data PoolAnswer : Type 0 where
  pool_unread : Error → PoolAnswer
  pool_read : PodPool → PoolAnswer

-- What the other libraries compute, the same in every pass.
pub record Libraries : Type 0 where
  pub api : ObjectApi
  pub kube : Kube
  pub decimal : ℕ → String
  pub gvk_text : Gvk → String
  pub gvk_error : String
  pub selector_text : String → String → String
  pub set_condition : Condition → List Condition → List Condition
  pub find_condition : List Condition → String → Option Condition
  pub same_status : PodPoolStatus → PodPoolStatus → Bool
  pub rounding : Rounding
  pub rounds_down : ℕ → ℕ → Bool

-- What the outside answers in one pass, in the order in which it is asked; `jitter` is the outcome of
-- `wait.Jitter`, and the clock is read at the watch and after the observation.
pub record Answers : Type 0 where
  pub pool : PoolAnswer
  pub has_controller : Bool
  pub informer : Gvk → InformerAnswer
  pub watch : Gvk → ℕ → Option Error
  pub watch_time : ℕ
  pub observing : Server
  pub list_pending : String → ℕ → Result (List (List PodCondition))
  pub now : ℕ
  pub applying : Server
  pub cluster : Cluster
  pub patch : PodPoolStatus → Option Error
  pub jitter : ℕ → ℕ

pub record Memory : Type 0 where
  pub probes : Probes
  pub out_of_range : Marks
  pub proven : Proven
  pub watches : Watches
  pub gauges : Gauges

-- What a pass leaves: the memory, what it did in order, the calls for the watch, the status that it
-- asked to write, the wait that it returns (0 for none), and the errors that it returns.
pub record Pass : Type 0 where
  pub memory : Memory
  pub log : List Effect
  pub calls : List WatchCall
  pub patched : Option PodPoolStatus
  pub requeue_after : ℕ
  pub errors : List Error

-- An exit of the body: what the deferred part needs of it.
pub record Exit : Type 0 where
  pub memory : Memory
  pub log : List Effect
  pub calls : List WatchCall
  pub pool : PodPool
  pub requeue_after : ℕ
  pub errors : List Error
