-- ===== src/Controller/Tests/ProbeTests.antt =====
-- The probe theorems at concrete groups.
use podpool_controller.Prelude.{
  ◌+◌, ◌≤◌, ◌<◌, ◌≡◌, refl, ◌⊎◌, true, false, List, [], ◌∷◌, none, some, arith, add_int32,
}
use podpool_controller.Json.{empty}
use podpool_controller.Api.{PodPool}
use podpool_controller.Controller.Timing.{probe_verdict_timeout}
use podpool_controller.Controller.Probe.{
  Probes, Observation, ProbeState, no_probe, probe_step, group_capacity, probe_at, probe_key,
  forget_probes, decide_probe,
}
use podpool_controller.Controller.Probe.Laws.{
  probe_adds_one, probe_issued, probe_expires, unjudged_probe_capacity,
}
use podpool_controller.Controller.Probe.Growth.{Pass}
use podpool_controller.Controller.Probe.Forget.{IsForgotten, forget_probes_lem, decide_probe-frame}

abbrev standing : Observation
standing = record { found = true; foreign = false; asked = 4; ready = 4; unschedulable = 0 }

abbrev refused : Observation
refused = record { found = true; foreign = false; asked = 5; ready = 4; unschedulable = 1 }

abbrev waiting : Observation
waiting = record { found = true; foreign = false; asked = 5; ready = 4; unschedulable = 0 }

abbrev asking : ProbeState
asking = record { outstanding = true; last_failed = 0; started_at = 1000 }

first_probe : (probe_step 300 4 standing 1000 no_probe).1.issued ≡ true
unfolding probe_step
first_probe = refl

probe_refused : (probe_step 300 4 refused 2000 asking).0.last_failed ≡ 2000
unfolding probe_step
probe_refused = refl

abbrev batch : PodPool
batch = record {
  name = "batch";
  generate_name = "";
  namespace = "prod";
  uid = "u1";
  generation = 1;
  is_deleting = false;
  annotations = [];
  spec = record {
    replicas = 20;
    workload_template = empty;
    groups = [];
    opportunistic_heartbeat_seconds = none;
    progress_deadline_seconds = none;
  };
  status = record {
    conditions = [];
    observed_generation = 0;
    replicas = 0;
    ready_replicas = 0;
    updated_replicas = 0;
    unplaced_replicas = 0;
    selector = "";
    group_count = 0;
    groups = [];
  };
}

probe_adds_one_run :
    (((probe_step 300 4 standing 1000 no_probe).1.target ≡ 4)
      × ((probe_step 300 4 standing 1000 no_probe).1.await_verdict ≡ false))
    ⊎ (((probe_step 300 4 standing 1000 no_probe).1.target ≡ 5)
        × ((probe_step 300 4 standing 1000 no_probe).1.await_verdict ≡ true)
        × (standing.found ≡ true))
unfolding add_int32
probe_adds_one_run = probe_adds_one 300 4 standing 1000 no_probe

probe_issued_run :
    (standing.found ≡ true)
    × (standing.asked ≡ 4)
    × (standing.asked ≤ standing.ready)
    × (0 + 300 ≤ 1000)
    × ((probe_step 300 4 standing 1000 no_probe).0
        ≡ record { outstanding = true; last_failed = 0; started_at = 1000 })
unfolding probe_step
probe_issued_run = probe_issued 300 4 standing 1000 no_probe refl

probe_expires_run :
    1000 < (probe_step 300 4 standing 1000 no_probe).0.started_at + probe_verdict_timeout
unfolding probe_step
probe_expires_run = probe_expires 300 4 standing 1000 no_probe refl

unjudged_probe_capacity_run : group_capacity true waiting ≡ some 4
unjudged_probe_capacity_run = unjudged_probe_capacity waiting 4 refl refl refl (omega arith) refl

abbrev calm : ProbeState
calm = record { outstanding = false; last_failed = 2000; started_at = 1000 }

abbrev two_passes : List Pass
two_passes =
    record { target = 4; obs = standing; now = 2100 }
    ∷ record { target = 4; obs = standing; now = 2299 }
    ∷ []

abbrev two_pools : Probes
two_pools = ("prod/batch/spot", asking) ∷ ("prod/web/spot", asking) ∷ []

forget_probes_lem_example :
    IsForgotten "prod/batch/" "prod/web/spot" two_pools
      (forget_probes "prod" "batch" two_pools []).0
    × IsForgotten "prod/batch/" "prod/web/spot" [] (forget_probes "prod" "batch" two_pools []).1
forget_probes_lem_example = forget_probes_lem "prod" "batch" "prod/web/spot" two_pools [] refl

decide_probe-frame_run :
    probe_at "prod/web/spot" (decide_probe batch "spot" 4 standing 1000 []).0 ≡ no_probe
unfolding probe_at probe_key
decide_probe-frame_run = decide_probe-frame batch "spot" 4 standing 1000 [] "prod/web/spot"
