-- ===== src/Controller/Tests/MetricsTests.antt =====
-- Runs of the metrics at a concrete pool.
use podpool_controller.Prelude.{◌≡◌, refl, none, some, [], ◌∷◌, at, not, ◌&&◌, if◌then◌else◌}
use podpool_controller.Api.{true_status, Condition, PodPool}
use podpool_controller.Workload.Tests.RenderTests.{web_pool}
use podpool_controller.Controller.Metrics.{
  spec_replicas, status_replicas, status_ready_replicas, unplaced_replicas, group_replicas,
  status_condition, Series, same_series, Gauges, series, has_kind, record_pool_metrics_from_status,
  delete_pool_metrics, delete_stale_group_metrics, delete_stale_condition_metrics,
}
use podpool_controller.Controller.Metrics.Deletion.{delete_pool_metrics_lem}
use podpool_controller.Controller.Metrics.Publication.{
  value, IsRow, IsOneHot, record_pool_metrics_from_status_lem,
}
use podpool_controller.Controller.Metrics.Stale.{counts, is_gone, delete_stale_lem}
use podpool_controller.Controller.Tests.EventTests.{fresh_row}

abbrev ready : Condition
ready = record {
  kind = "Ready";
  status = true_status;
  reason = "PoolReady";
  message = "";
  observed_generation = 1;
}

abbrev served_pool : PodPool
served_pool = record web_pool {
  status = record web_pool.status { groups = fresh_row ∷ []; conditions = ready ∷ [] };
}

abbrev published : Gauges
published = record_pool_metrics_from_status served_pool []

published_lem : value "shop" "web" status_condition ("Ready" ∷ "true" ∷ []) published ≡ some 1
unfolding record_pool_metrics_from_status
published_lem = refl

record_pool_metrics_from_status_lem_example :
    ((value "shop" "web" spec_replicas [] published ≡ some 3)
      × (value "shop" "web" status_replicas [] published ≡ some 0)
      × (value "shop" "web" status_ready_replicas [] published ≡ some 0)
      × (value "shop" "web" unplaced_replicas [] published ≡ some 0))
    × IsRow "shop" "web" fresh_row published
    × IsOneHot "shop" "web" ready published
record_pool_metrics_from_status_lem_example =
    record_pool_metrics_from_status_lem served_pool [] [] fresh_row [] [] ready [] refl refl refl
      refl

abbrev other_pool : Series
other_pool = record { gauge = spec_replicas; namespace = "shop"; name = "api"; labels = [] }

abbrev two_pools : Gauges
two_pools = (series "shop" "web" group_replicas ("base" ∷ []), 3) ∷ (other_pool, 7) ∷ []

delete_pool_metrics_lem_example :
    (at same_series
        (series "shop" "web" group_replicas ("base" ∷ []))
        (delete_pool_metrics "shop" "web" two_pools)
      ≡ none)
    × (at same_series other_pool (delete_pool_metrics "shop" "web" two_pools)
        ≡ at same_series other_pool two_pools)
delete_pool_metrics_lem_example =
    delete_pool_metrics_lem "shop" "web" group_replicas ("base" ∷ []) two_pools other_pool tt refl

delete_stale_lem_example :
    (value "shop" "web" group_replicas
        ("base" ∷ [])
        (delete_stale_group_metrics "shop" "web" ("spot" ∷ []) ("base" ∷ "spot" ∷ []) two_pools)
      ≡ (if is_gone "base" ("spot" ∷ []) ("base" ∷ "spot" ∷ [])
          then none
          else value "shop" "web" group_replicas ("base" ∷ []) two_pools))
    × (value "shop" "web" status_condition
          ("Ready" ∷ "true" ∷ [])
          (delete_stale_condition_metrics "shop" "web" [] (ready ∷ []) two_pools)
        ≡ (if has_kind "Ready" (ready ∷ []) && not (has_kind "Ready" [])
            then none
            else value "shop" "web" status_condition ("Ready" ∷ "true" ∷ []) two_pools))
delete_stale_lem_example =
    delete_stale_lem "shop" "web" group_replicas counts "base" "Ready" "true" ("spot" ∷ [])
      ("base" ∷ "spot" ∷ []) [] (ready ∷ []) two_pools
