-- ===== src/Controller/Reconcile/Body.antt =====
-- internal/controller/podpool_controller.go: Reconcile, from the read of the pool to the deferred writes.
use podpool_controller.Prelude.{
  ℕ, Bool, true, false, not, ◌&&◌, Option, none, some, List, [], ◌∷◌, ◌++◌, String, str_eq, concat,
  ◌==◌, if◌then◌else◌, any, length, to_int32,
}
use podpool_controller.Api.{Condition, GroupStatus, PodPoolStatus, PodPool}
use podpool_controller.Workload.Object.{Gvk}
use podpool_controller.Workload.Distribution.{DistributionResult}
use podpool_controller.Controller.Timing.{requeue_after, probe_verdict_requeue}
use podpool_controller.Controller.Progress.{
  stamp_all_progress, evaluate_stalled, GroupTotals, summarise_groups,
}
use podpool_controller.Controller.Conditions.{ConditionInputs, set_conditions, format_group_names}
use podpool_controller.Controller.Errors.{Error}
use podpool_controller.Controller.Events.{
  Event, warning, normal, condition_tuple_changed, announce_resume, annotation_paused,
}
use podpool_controller.Controller.Group.{events_of}
use podpool_controller.Controller.Watch.{no_inputs}
use podpool_controller.Controller.Reasons.{assign_group_reasons, diagnose_status_missing}
use podpool_controller.Controller.Loop.{Collected}
use podpool_controller.Controller.Reconcile.{Libraries, Answers, Memory, Exit}

abbrev pub with_status : PodPool → PodPoolStatus → PodPool
with_status pool status = record pool { status = status }

abbrev pub is_empty : List Error → Bool
is_empty [] = true
is_empty (e ∷ errors) = false

-- How the body ends, once the groups are done: the wait, and the errors.
unfoldable pub ending : List Error → List String → Bool → ℕ → ℕ × List Error
ending errors terminal_groups probe_pending wait =
    if not (is_empty errors) && not (length errors == length terminal_groups)
    then (0, errors)
    else if probe_pending
    then (probe_verdict_requeue, [])
    else (wait, [])

module _ (libs : Libraries) (ans : Answers) where
  abbrev pub told : PodPool → ConditionInputs → PodPool
  told pool i = set_conditions libs.decimal libs.set_condition pool i

  abbrev pub changed : PodPool → PodPool → String → Bool
  changed before pool kind =
      condition_tuple_changed libs.find_condition before.status.conditions pool.status.conditions
        kind

  abbrev pub resumed : PodPool → PodPool → Bool → List Event
  resumed pool before was_paused = announce_resume libs.find_condition pool before was_paused

  unfoldable pub paused_exit : Memory → PodPool → PodPool → Exit
  unfolding set_conditions condition_tuple_changed
  paused_exit mem before pool =
      let shown = told pool (record no_inputs { paused = true }) in
      record {
        memory = mem;
        log = events_of (
            if changed before shown "Ready"
            then normal "Paused" "PauseReconciliation"
                (concat ("Reconciliation paused via " ∷ annotation_paused ∷ " annotation" ∷ []))
              ∷ []
            else []);
        calls = [];
        pool = shown;
        requeue_after = 0;
        errors = [];
      }

  unfoldable pub invalid_exit : Memory → PodPool → PodPool → Bool → Exit
  unfolding set_conditions condition_tuple_changed announce_resume requeue_after
  invalid_exit mem before pool was_paused =
      let shown =
        told pool (record no_inputs { desired = pool.spec.replicas; pool_invalid = true }) in
      record {
        memory = mem;
        log = events_of (
            resumed shown before was_paused
            ++ (if changed before shown "GroupsReady"
                then warning "WorkloadTemplateInvalid" "ParseWorkloadTemplate"
                    (concat ("workloadTemplate has an invalid GVK: " ∷ libs.gvk_error ∷ []))
                  ∷ []
                else []));
        calls = [];
        pool = shown;
        requeue_after = requeue_after ans.jitter pool.spec;
        errors = [];
      }

  abbrev was_stalled : Option Condition → Bool
  was_stalled none = false
  was_stalled (some c) = str_eq c.reason "ProgressDeadlineExceeded"

  abbrev is_any : List String → Bool
  is_any [] = false
  is_any (name ∷ names) = true

  abbrev pub stalled_events : PodPool → Gvk → Collected → List String → List Event
  stalled_events before gvk c stalled =
      if is_any stalled
        && not (was_stalled (libs.find_condition before.status.conditions "Progressing"))
      then warning "ProgressDeadlineExceeded" "ProgressDeadline" (
          concat (
            "Group(s) "
            ∷ format_group_names libs.decimal stalled
            ∷ " exceeded progress deadline"
            ∷ []))
        ∷ diagnose_status_missing libs.decimal gvk c.proven stalled c.observed
      else []

  -- The rows, once every group had its turn: stamped, judged and summed up.
  unfoldable pub final_rows :
      PodPool → PodPool → Collected → List String × List GroupStatus × GroupTotals
  unfolding stamp_all_progress evaluate_stalled assign_group_reasons summarise_groups
  final_rows before pool c =
      let stamped =
        stamp_all_progress before.status.groups before.status.observed_generation
          (λ name. any {A = String} (str_eq name) c.reconciled) pool.generation ans.now c.rows in
      let stalled = evaluate_stalled pool.spec stamped ans.now in
      let (rows, totals) =
        summarise_groups libs.rounds_down
          (assign_group_reasons libs.api libs.kube stalled c.children stamped) in
      (stalled, rows, totals)

  abbrev pub filled : PodPool → DistributionResult → List GroupStatus → GroupTotals → PodPool
  filled pool result rows totals = with_status pool (record pool.status {
    replicas = totals.replicas;
    ready_replicas = totals.ready;
    updated_replicas = totals.updated;
    unplaced_replicas = result.unplaced;
    group_count = to_int32 (length pool.spec.groups);
    groups = rows;
  })

  abbrev pub inputs_of : PodPool → DistributionResult → Collected → List String → ConditionInputs
  inputs_of pool result c stalled = record no_inputs {
    target_degraded = result.target_degraded;
    unplaced = result.unplaced;
    ready = pool.status.ready_replicas;
    desired = pool.spec.replicas;
    failed_groups = c.failed_groups;
    terminal_groups = c.terminal_groups;
    stalled_groups = stalled;
    not_owned_groups = c.not_owned_groups;
  }
