-- ===== src/Controller/Tests/ReconcileTests.antt =====
-- Runs of whole passes at a concrete pool and server.
use podpool_controller.Prelude.{
  get_elem?, add_int32, ◌+◌, ◌-◌, ◌≡◌, ◌↔◌, ◌≤◌, ◌∷◌, refl, Bool, if◌then◌else◌, Option, none, some,
  [], true, false, All, ◌⊎◌, arith,
}
use podpool_controller.Json.{lookup, insert, delete}
use podpool_controller.Workload.Object.Plain.{plain}
use podpool_controller.Workload.Object.Plain.Laws.{plain_laws}
use podpool_controller.Workload.Merge.{strip_pasted_metadata}
use podpool_controller.Workload.Percent.{target_percent}
use podpool_controller.Workload.Scaling.{group_ceiling, group_floor, group_target, is_opportunistic}
use podpool_controller.Workload.Tests.RenderTests.{plain_api, parse_apps, template_map, web_pool}
use podpool_controller.Controller.Errors.{Error, leaf, done}
use podpool_controller.Controller.Events.{is_paused}
use podpool_controller.Controller.Sweep.{same_kind, group_names, sweep_all_orphans}
use podpool_controller.Controller.Watch.{InformerAnswer, no_informer, informer}
use podpool_controller.Controller.Watch.Instances.{handlers_of}
use podpool_controller.Controller.Watch.Reach.{World}
use podpool_controller.Controller.Reconcile.Life.{Serves, after_pass, born, begun}
use podpool_controller.Controller.Reconcile.Observed.{pass, IsBornObserved, Life-IsBornObserved}
use podpool_controller.Workload.Object.{Gvk}
use podpool_controller.Api.{GroupStatus}
use podpool_controller.Controller.Timing.{progress_deadline, has_progress_deadline}
use podpool_controller.Controller.Reconcile.Due.{full, IsDue, full_exit-IsDue}
use podpool_controller.Controller.Metrics.{status_names}
use podpool_controller.Controller.Loop.Accounts.{is_final}
use podpool_controller.Controller.Reconcile.{pool_read, Libraries, Answers, Memory, Exit}
use podpool_controller.Controller.Reconcile.Run.{probed, looped, full_exit, body, reconcile}
use podpool_controller.Controller.Reconcile.Gate.{IsGated, reconcile-IsGated}
use podpool_controller.Controller.Reconcile.Requeue.{full_exit_retried}
use podpool_controller.Controller.Reconcile.Rows.{full_exit-names}
use podpool_controller.Controller.Reconcile.Exits.{IsLive, body-IsLive}
use podpool_controller.Controller.Tests.ConditionTests.{set_status_condition, find_status_condition}
use podpool_controller.Controller.Tests.SweepTests.{deployments, shop}
use podpool_controller.Controller.Tests.GroupTests.{
  plain_kube, plain_kube_laws, bare_server, rejection,
}

abbrev libs : Libraries
libs = record {
  api = plain_api;
  kube = plain_kube;
  decimal = λ n. "n";
  gvk_text = λ g. g.kind;
  gvk_error = "bad GVK";
  selector_text = λ key v. v;
  set_condition = set_status_condition;
  find_condition = λ conditions kind. find_status_condition kind conditions;
  same_status = λ a b. false;
  rounding = record { above = λ a b c. false; below = λ a b c. false };
  rounds_down = λ a b. false;
}

-- A live informer, no child yet, and an apply that is accepted or refused.
abbrev answers : Option Error → Answers
answers apply = record {
  pool = pool_read web_pool;
  has_controller = true;
  informer = λ g. informer 0 false true;
  watch = λ g i. none;
  watch_time = 1;
  observing = bare_server none;
  list_pending = λ group limit. done [];
  now = 2;
  applying = bare_server apply;
  cluster = shop;
  patch = λ s. none;
  jitter = λ d. d;
}

abbrev blank : Memory
blank = record {
  probes = [];
  out_of_range = [];
  proven = [];
  watches = record { states = []; pending_since = []; failure_emitted = [] };
  gauges = [];
}

reconcile-IsGated_example :
    IsGated libs
      (answers none)
      (plain_laws parse_apps)
      plain_kube_laws
      "shop"
      "web"
      blank
      (pool_read web_pool)
      (reconcile libs (answers none) "shop" "web" blank)
reconcile-IsGated_example =
    reconcile-IsGated libs (answers none) (plain_laws parse_apps) plain_kube_laws "shop" "web" blank

abbrev rejected : Exit
rejected =
    full_exit libs (answers (some rejection)) blank web_pool web_pool false deployments template_map
      []

full_exit_retried_example : (rejected.errors ≡ []) ↔ (
    All
      (λ e. is_final e ≡ true)
      (looped libs
        (answers (some rejection))
        blank
        web_pool
        web_pool
        deployments
        template_map
        []).errors
    × ((sweep_all_orphans shop web_pool.status.groups web_pool deployments
          (looped libs
            (answers (some rejection))
            blank
            web_pool
            web_pool
            deployments
            template_map
            []).reconciled).1
        ≡ []))
full_exit_retried_example =
    full_exit_retried libs (answers (some rejection)) blank web_pool web_pool false deployments
      template_map []

full_exit-names_example :
    status_names rejected.pool.status.groups ≡ group_names web_pool.spec.groups
full_exit-names_example =
    full_exit-names libs (answers (some rejection)) blank web_pool web_pool false deployments
      template_map [] (omega arith)

body-IsLive_example :
    ((is_paused web_pool ≡ true) ⊎ IsLive (body libs (answers none) blank web_pool))
    × ((body libs (answers none) blank web_pool).pool.status.selector ≡ "web")
body-IsLive_example = body-IsLive libs (answers none) blank web_pool (λ d. omega arith)

rejected_lem : rejected.errors ≡ []
unfolding full_exit group_floor group_target target_percent is_opportunistic plain lookup
    strip_pasted_metadata delete insert
rejected_lem = refl

-- The process has begun, and the cache has an instance for Deployments.
abbrev started : World
started = record {
  current = (deployments, 0) ∷ [];
  next = 1;
  handlers = [];
  watches = record { states = []; pending_since = []; failure_emitted = [] };
}

abbrev only_deployments : Gvk → InformerAnswer
only_deployments g =
    if same_kind g deployments then informer 0 false true else no_informer (leaf "no such kind")

by_kind-Serves :
    (g : Gvk) (b : Bool)
    → same_kind g deployments ≡ b
    → Serves started g (if b then informer 0 false true else no_informer (leaf "no such kind"))
by_kind-Serves g true here = rw (here) refl
by_kind-Serves g false other = tt

only_deployments-Serves : (g : Gvk) → Serves started g (only_deployments g)
only_deployments-Serves g = by_kind-Serves g (same_kind g deployments) refl

abbrev first_answers : Answers
first_answers = record (answers none) { informer = only_deployments }

Life-IsBornObserved_example :
    (handlers_of deployments 0
        (after_pass libs first_answers
          (pass libs first_answers "shop" "web" blank)
          started).handlers
      ≤ 1)
    × IsBornObserved libs first_answers "shop" "web" blank
        (plain_laws parse_apps)
        plain_kube_laws
        started
        (after_pass libs first_answers (pass libs first_answers "shop" "web" blank) started)
Life-IsBornObserved_example =
    Life-IsBornObserved libs first_answers "shop" "web" blank (plain_laws parse_apps)
      plain_kube_laws started (begun born deployments) refl refl only_deployments-Serves deployments
      0

-- The first pass creates the child, which has no replicas yet.
abbrev accepted : Exit
accepted = full libs (answers none) blank web_pool web_pool false deployments template_map []

abbrev first_row : GroupStatus
first_row = record {
  name = "base";
  ready = false;
  reason = "ReplicasUpdating";
  message = "";
  replicas = 0;
  target_replicas = 3;
  ready_replicas = 0;
  updated_replicas = 0;
  share_percent = 0;
  last_progress_time = some 2;
  workload_ref = some record { api_version = "apps/v1"; kind = "Deployment"; name = "web-base" };
}

accepted_lem : (accepted.errors ≡ []) × (get_elem? accepted.pool.status.groups 0 ≡ some first_row)
unfolding full_exit group_floor group_target target_percent is_opportunistic plain lookup
    strip_pasted_metadata delete insert group_ceiling add_int32
accepted_lem = (refl, refl)

full_exit-IsDue_example :
    IsDue
      (probed libs (answers none) blank web_pool []).pending
      (2 + progress_deadline web_pool.spec - 2)
      accepted.requeue_after
unfolding has_progress_deadline progress_deadline
full_exit-IsDue_example =
    full_exit-IsDue libs (answers none) blank web_pool web_pool false deployments template_map [] 0
      2 first_row accepted_lem.0 refl accepted_lem.1 (omega arith) refl (omega arith)
