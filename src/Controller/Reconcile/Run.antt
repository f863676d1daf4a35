-- ===== src/Controller/Reconcile/Run.antt =====
-- internal/controller/podpool_controller.go: Reconcile as a whole.
use podpool_controller.Prelude.{
  ℕ, Bool, Option, none, some, List, [], ◌∷◌, ◌++◌, map, String, if◌then◌else◌,
}
use podpool_controller.Json.{Fields}
use podpool_controller.Api.{PodPoolStatus, PodPool}
use podpool_controller.Workload.Object.{Gvk}
use podpool_controller.Workload.Render.{extract_gvk, parse_template, label_pool}
use podpool_controller.Workload.Distribution.{DistributionResult, compute_group_targets}
use podpool_controller.Controller.Probe.{Observations, capacity_from, forget_probes}
use podpool_controller.Controller.Progress.{deadline_aware_requeue}
use podpool_controller.Controller.Conditions.{set_conditions}
use podpool_controller.Controller.Errors.{
  Error, leaf, wrapped, api_reason, is_missing, Result, failed, done,
}
use podpool_controller.Controller.Events.{
  ready_reason_is, announce_resume, is_paused, flush_group_events,
}
use podpool_controller.Controller.Sweep.{sweep_all_orphans}
use podpool_controller.Controller.Group.{swept, events_of}
use podpool_controller.Controller.Watch.{
  WatchCall, SetUp, proceed, come_back, give_up, WatchPass, set_up_watch,
}
use podpool_controller.Controller.Observe.{observe_opportunistic}
use podpool_controller.Controller.Probing.{ProbePass, apply_probes}
use podpool_controller.Controller.Loop.{Collected, nothing_collected, reconcile_groups}
use podpool_controller.Controller.Metrics.{
  record_pool_metrics_from_status, delete_pool_metrics, delete_stale_group_metrics,
  delete_stale_condition_metrics, status_names,
}
use podpool_controller.Controller.Reconcile.{
  PoolAnswer, pool_unread, pool_read, Libraries, Answers, Memory, Pass, Exit,
}
use podpool_controller.Controller.Reconcile.Body.{
  with_status, ending, told, resumed, paused_exit, invalid_exit, stalled_events, final_rows, filled,
  inputs_of,
}

module _ (libs : Libraries) (ans : Answers) where
  -- The distribution of the pass, and the probes that are laid on it.
  unfoldable pub placed : Memory → PodPool → Observations → DistributionResult
  unfolding compute_group_targets capacity_from
  placed mem pool observed =
      compute_group_targets libs.rounding pool.spec.replicas pool.spec.groups
        (capacity_from pool observed mem.probes)

  unfoldable pub probed : Memory → PodPool → Observations → ProbePass
  unfolding placed apply_probes
  probed mem pool observed =
      apply_probes pool pool.spec.groups (placed mem pool observed).targets observed ans.now
        mem.probes

  unfoldable pub looped : Memory → PodPool → PodPool → Gvk → Fields → Observations → Collected
  unfolding probed reconcile_groups
  looped mem before pool gvk template observed =
      reconcile_groups libs.api libs.kube ans.applying pool before.status.groups template gvk
        pool.spec.groups (probed mem pool observed).targets
        (nothing_collected mem.out_of_range mem.proven)

  unfoldable pub full_exit : Memory → PodPool → PodPool → Bool → Gvk → Fields → Observations → Exit
  unfolding looped sweep_all_orphans final_rows set_conditions announce_resume flush_group_events
      delete_stale_group_metrics ending deadline_aware_requeue
  full_exit mem before pool was_paused gvk template observed =
      let probing = probed mem pool observed in
      let c = looped mem before pool gvk template observed in
      let (actions, sweep_errors) =
        sweep_all_orphans ans.cluster before.status.groups pool gvk c.reconciled in
      let (stalled, rows, totals) = final_rows libs ans before pool c in
      let result = placed mem pool observed in
      let counted = filled libs ans pool result rows totals in
      let shown = told libs ans counted (inputs_of libs ans counted result c stalled) in
      let (wait, errors) =
        ending (c.errors ++ map leaf sweep_errors) c.terminal_groups probing.pending
          (deadline_aware_requeue ans.jitter pool.spec rows ans.now) in
      record {
        memory = record {
          probes = probing.probes;
          out_of_range = c.marks;
          proven = c.proven;
          watches = mem.watches;
          gauges =
              delete_stale_group_metrics pool.namespace pool.name (status_names rows)
                (status_names before.status.groups) mem.gauges;
        };
        log =
            events_of probing.events
            ++ (c.log
                ++ (map swept actions
                    ++ events_of (
                        stalled_events libs ans before gvk c stalled
                        ++ (resumed libs ans shown before was_paused
                            ++ flush_group_events before.status.groups c.pending_events))));
        calls = [];
        pool = shown;
        requeue_after = wait;
        errors = errors;
      }

  abbrev stopped : Memory → PodPool → ℕ → List Error → Exit
  stopped mem pool wait errors = record {
    memory = mem;
    log = [];
    calls = [];
    pool = pool;
    requeue_after = wait;
    errors = errors;
  }

  abbrev pub observed_exit :
      Memory → PodPool → PodPool → Bool → Gvk → Fields → Result Observations → Exit
  observed_exit mem before pool was_paused gvk template (failed e) =
      stopped mem pool 0 (wrapped "observing opportunistic capacity" e ∷ [])
  observed_exit mem before pool was_paused gvk template (done observed) =
      full_exit mem before pool was_paused gvk template observed

  abbrev with_calls : List WatchCall → Exit → Exit
  with_calls calls x = record x { calls = calls ++ x.calls }

  abbrev pub watched_exit : Memory → PodPool → Bool → Gvk → Fields → WatchPass → SetUp → Exit
  watched_exit mem before was_paused gvk template w proceed =
      let kept : Memory = record mem { watches = w.watches } in
      with_calls w.calls (
        observed_exit kept before w.pool was_paused gvk template
          (observe_opportunistic libs.api libs.kube ans.observing ans.list_pending w.pool gvk))
  watched_exit mem before was_paused gvk template w (come_back wait) =
      let kept : Memory = record mem { watches = w.watches } in
      with_calls w.calls (stopped kept w.pool wait [])
  watched_exit mem before was_paused gvk template w (give_up e) =
      let kept : Memory = record mem { watches = w.watches } in
      record (with_calls w.calls (stopped kept w.pool 0 (e ∷ []))) { log = events_of w.events }

  abbrev pub parsed_exit : Memory → PodPool → PodPool → Bool → Gvk → Option Fields → Exit
  parsed_exit mem before pool was_paused gvk none =
      stopped mem pool 0 (wrapped "parsing workload template" (leaf libs.gvk_error) ∷ [])
  parsed_exit mem before pool was_paused gvk (some template) =
      let w =
        set_up_watch libs.decimal libs.set_condition libs.find_condition libs.gvk_text ans.watch
          ans.has_controller pool gvk before was_paused (ans.informer gvk) ans.watch_time
          mem.watches in
      watched_exit mem before was_paused gvk template w w.next

  abbrev pub addressed_exit : Memory → PodPool → PodPool → Bool → Option Gvk → Exit
  addressed_exit mem before pool was_paused none = invalid_exit libs ans mem before pool was_paused
  addressed_exit mem before pool was_paused (some gvk) =
      parsed_exit mem before pool was_paused gvk
        (parse_template libs.api pool.spec.workload_template)

  -- The selector stands in the status before any exit.
  abbrev pub selected : PodPool → PodPool
  selected pool =
      with_status pool (record pool.status { selector = libs.selector_text label_pool pool.name })

  unfoldable pub body : Memory → PodPool → Exit
  unfolding is_paused paused_exit ready_reason_is extract_gvk parse_template invalid_exit
      set_up_watch observe_opportunistic full_exit
  body mem before =
      let pool = selected before in
      if is_paused pool
      then paused_exit libs ans mem before pool
      else addressed_exit mem before pool
          (ready_reason_is libs.find_condition before.status.conditions "Paused")
          (extract_gvk libs.api pool.spec.workload_template)

  abbrev patch_error : Option Error → List Error
  patch_error none = []
  patch_error (some e) = if is_missing (api_reason e) then [] else e ∷ []

  -- The status write, when there is something to write, and its error.
  unfoldable pub patch_status : PodPool → PodPool → Option PodPoolStatus × List Error
  patch_status before after =
      if libs.same_status before.status after.status
      then (none, [])
      else (some after.status, patch_error (ans.patch after.status))

  unfoldable pub deferred : PodPool → Exit → Pass
  unfolding delete_stale_condition_metrics record_pool_metrics_from_status patch_status
  deferred before x =
      let (patched, errors) = patch_status before x.pool in
      record {
        memory = record x.memory {
          gauges = record_pool_metrics_from_status x.pool (
              delete_stale_condition_metrics x.pool.namespace x.pool.name x.pool.status.conditions
                before.status.conditions x.memory.gauges);
        };
        log = x.log;
        calls = x.calls;
        patched = patched;
        requeue_after = x.requeue_after;
        errors = x.errors ++ errors;
      }

  abbrev pub untouched : Memory → List Error → Pass
  untouched mem errors = record {
    memory = mem;
    log = [];
    calls = [];
    patched = none;
    requeue_after = 0;
    errors = errors;
  }

  abbrev pub gone : String → String → Memory → Memory
  gone namespace name mem =
      let (probes, out_of_range) = forget_probes namespace name mem.probes mem.out_of_range in
      record mem {
        probes = probes;
        out_of_range = out_of_range;
        gauges = delete_pool_metrics namespace name mem.gauges;
      }

  abbrev pub answered : String → String → Memory → PoolAnswer → Pass
  answered namespace name mem (pool_unread e) =
      if is_missing (api_reason e)
      then untouched (gone namespace name mem) []
      else untouched mem (e ∷ [])
  answered namespace name mem (pool_read pool) =
      if pool.is_deleting then untouched mem [] else deferred pool (body mem pool)

  unfoldable pub reconcile : String → String → Memory → Pass
  unfolding body deferred delete_pool_metrics forget_probes
  reconcile namespace name mem = answered namespace name mem ans.pool
