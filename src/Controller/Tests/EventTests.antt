-- ===== src/Controller/Tests/EventTests.antt =====
-- Runs of the events, the reads and the probes of a pass at concrete inputs.
use podpool_controller.Prelude.{
  ◌≡◌, ◌≤◌, refl, none, some, List, [], ◌∷◌, String, str_eq, true, false, Bool, not, ◌&&◌, ℕ, ◌+◌,
  All, length, sum, arith, ◌⊎◌, add_int32,
}
use podpool_controller.Api.{GroupSpec, GroupStatus, PodPool}
use podpool_controller.Workload.Scaling.{is_opportunistic}
use podpool_controller.Workload.Tests.RenderTests.{plain_api, web_pool, quiet_group}
use podpool_controller.Controller.Errors.{
  Error, not_owned, is_not_owned, is_terminal, Result, done, classify_group_error,
}
use podpool_controller.Controller.Errors.Laws.{wrap_all, classify_group_error_lem}
use podpool_controller.Controller.Events.{parse_bool}
use podpool_controller.Controller.Events.Laws.{reports, rises, marked, length-reports}
use podpool_controller.Controller.Probe.{unobserved, Observations}
use podpool_controller.Controller.Observe.{observe_opportunistic, PodCondition}
use podpool_controller.Controller.Observe.Noted.{AllNoted}
use podpool_controller.Controller.Observe.ColdStart.{IsTold, observe_opportunistic-AllTold}
use podpool_controller.Controller.Probing.{apply_probes, ProbePass}
use podpool_controller.Controller.Probing.Surplus.{opportunistic_groups, apply_probes_surplus}
use podpool_controller.Controller.Reasons.{assign_reason}
use podpool_controller.Controller.Reasons.Laws.{IsJudged, assign_reason-IsJudged}
use podpool_controller.Controller.Tests.GroupTests.{plain_kube, bare_server}
use podpool_controller.Controller.Tests.SweepTests.{deployments}

-- A conflict over the child, wrapped as it goes up.
abbrev conflict : Error
conflict = not_owned "Deployment" "web-base" none

abbrev on_the_way : List String
on_the_way = "reconciling workload" ∷ []

classify_group_error_lem_example :
    ((classify_group_error "base" (wrap_all on_the_way conflict)).0
      ≡ str_eq
          (classify_group_error "base" (wrap_all on_the_way conflict)).1.reason
          "GroupSpecInvalid")
    × (is_not_owned conflict
        ≡ str_eq
            (classify_group_error "base" (wrap_all on_the_way conflict)).1.reason
            "WorkloadNotOwned")
    × ((classify_group_error "base" (wrap_all on_the_way conflict)).0
        ≡ (not (is_not_owned conflict) && is_terminal conflict))
    × ((classify_group_error "base" (wrap_all on_the_way conflict)).1.group ≡ "base")
classify_group_error_lem_example = classify_group_error_lem "base" on_the_way conflict

-- Two stretches of passes out of range.
abbrev flags : List Bool
flags = true ∷ true ∷ false ∷ true ∷ []

flags_lem : rises false flags ≡ 2
unfolding rises
flags_lem = refl

length-reports_example :
    length (reports web_pool "base" "Deployment" "web-base" flags [])
    ≡ rises (marked web_pool "base" []) flags
length-reports_example = length-reports web_pool "base" "Deployment" "web-base" flags []

on_lem : (parse_bool "T" ≡ some true) × (parse_bool "yes" ≡ none)
unfolding parse_bool
on_lem = (refl, refl)

abbrev pub spot_group : GroupSpec
spot_group = record quiet_group {
  name = "spot";
  scaling = record { min = none; max = none; target = none; opportunistic = some true };
}

abbrev spot_pool : PodPool
spot_pool = record web_pool {
  spec = record web_pool.spec { groups = quiet_group ∷ spot_group ∷ [] };
}

abbrev no_pods : String → ℕ → Result (List (List PodCondition))
no_pods group limit = done []

cold_lem :
    observe_opportunistic plain_api plain_kube (bare_server none) no_pods spot_pool deployments
    ≡ done (("spot", unobserved) ∷ [])
unfolding observe_opportunistic is_opportunistic
cold_lem = refl

observe_opportunistic-AllTold_example :
    All
      (IsTold plain_api plain_kube (bare_server none) spot_pool deployments)
      (("spot", unobserved) ∷ [])
    × AllNoted spot_pool.spec.groups (("spot", unobserved) ∷ [])
observe_opportunistic-AllTold_example =
    observe_opportunistic-AllTold plain_api plain_kube (bare_server none) spot_pool deployments
      no_pods (("spot", unobserved) ∷ []) cold_lem

-- The opportunistic group stands at its target of 2.
abbrev settled : Observations
settled = ("spot", record unobserved { found = true; asked = 2; ready = 2 }) ∷ []

abbrev two_targets : List ℕ
two_targets = 1 ∷ 2 ∷ []

abbrev probing : ProbePass
probing = apply_probes spot_pool spot_pool.spec.groups two_targets settled 900000000000 []

probing_lem : (probing.targets ≡ 1 ∷ 3 ∷ []) × (probing.pending ≡ true)
unfolding apply_probes is_opportunistic add_int32
probing_lem = (refl, refl)

apply_probes_surplus_example :
    (sum two_targets ≤ sum probing.targets)
    × (sum probing.targets ≤ sum two_targets + opportunistic_groups spot_pool.spec.groups)
    × ((probing.pending ≡ true) ⊎ (probing.targets ≡ two_targets))
apply_probes_surplus_example =
    apply_probes_surplus spot_pool spot_pool.spec.groups two_targets settled 900000000000 [] refl
      (omega arith, (omega arith, tt))

abbrev pub fresh_row : GroupStatus
fresh_row = record {
  name = "base";
  ready = false;
  reason = "";
  message = "";
  replicas = 3;
  target_replicas = 3;
  ready_replicas = 3;
  updated_replicas = 3;
  share_percent = 0;
  last_progress_time = none;
  workload_ref = none;
}

fresh_row_lem : (assign_reason plain_api plain_kube [] [] fresh_row).reason ≡ "AllReplicasReady"
unfolding assign_reason
fresh_row_lem = refl

assign_reason-IsJudged_example :
    IsJudged plain_api plain_kube [] [] fresh_row
      (assign_reason plain_api plain_kube [] [] fresh_row)
assign_reason-IsJudged_example = assign_reason-IsJudged plain_api plain_kube [] [] fresh_row refl
