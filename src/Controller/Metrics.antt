-- ===== src/Controller/Metrics.antt =====
-- internal/controller/metrics.go: the gauges of the pools, as one table of series. A gauge holds a
-- whole number: the counts, seconds, and 0 or 1.
pub mod Deletion
pub mod Publication
pub mod Stale
use podpool_controller.Prelude.{
  ℕ, ◌-◌, ◌/◌, Bool, true, false, not, ◌&&◌, ◌||◌, Option, none, some, List, [], ◌∷◌, String,
  str_eq, ltb, ◌==◌, if◌then◌else◌, at, put, remove, any,
}
use podpool_controller.Api.{
  ConditionStatus, true_status, false_status, unknown_status, Condition, GroupStatus, PodPool,
}
use podpool_controller.Controller.Timing.{second}

pub data Gauge : Type 0 where
  spec_replicas status_replicas status_ready_replicas unplaced_replicas : Gauge
  group_replicas group_ready_replicas group_share_percent group_last_progress : Gauge
  status_condition : Gauge

abbrev pub gauge_code : Gauge → ℕ
gauge_code spec_replicas = 0
gauge_code status_replicas = 1
gauge_code status_ready_replicas = 2
gauge_code unplaced_replicas = 3
gauge_code group_replicas = 4
gauge_code group_ready_replicas = 5
gauge_code group_share_percent = 6
gauge_code group_last_progress = 7
gauge_code status_condition = 8

-- A series of a gauge: the labels that every gauge has, and the others in their order.
pub record Series : Type 0 where
  pub gauge : Gauge
  pub namespace : String
  pub name : String
  pub labels : List String

abbrev pub same_labels : List String → List String → Bool
same_labels [] [] = true
same_labels (a ∷ more) (b ∷ others) = let rest = same_labels more others in str_eq a b && rest
same_labels _ _ = false

abbrev pub same_gauge : Gauge → Gauge → Bool
same_gauge a b = gauge_code a == gauge_code b

abbrev pub same_series : Series → Series → Bool
same_series a b =
    same_gauge a.gauge b.gauge
    && (str_eq a.namespace b.namespace && (str_eq a.name b.name && same_labels a.labels b.labels))

abbrev pub Gauges : Type 0
Gauges = List (Series × ℕ)

abbrev starts : List String → List String → Bool
starts [] labels = true
starts (a ∷ more) [] = false
starts (a ∷ more) (b ∷ others) = let rest = starts more others in str_eq b a && rest

abbrev is_lower_status : ConditionStatus → String → Bool
is_lower_status true_status s = str_eq s "true"
is_lower_status false_status s = str_eq s "false"
is_lower_status unknown_status s = str_eq s "unknown"

abbrev pub one_hot : ConditionStatus → String → ℕ
one_hot status s = if is_lower_status status s then 1 else 0

-- Seconds since 1970. Before that the code has a negative number, which it treats like 0.
abbrev pub unix : Option ℕ → ℕ
unix none = 0
unix (some t) = t / second - 62135596800

abbrev pub has_kind : String → List Condition → Bool
has_kind kind [] = false
has_kind kind (c ∷ conditions) = str_eq kind c.kind || has_kind kind conditions

module _ (namespace name : String) where
  abbrev pub series : Gauge → List String → Series
  series gauge labels = record {
    gauge = gauge;
    namespace = namespace;
    name = name;
    labels = labels;
  }

  -- `WithLabelValues(...).Set(v)` and `DeleteLabelValues(...)`.
  abbrev pub set_gauge : Gauge → List String → ℕ → Gauges → Gauges
  set_gauge gauge labels v m = put same_series (series gauge labels) v m

  abbrev pub delete_labels : Gauge → List String → Gauges → Gauges
  delete_labels gauge labels m = remove same_series (series gauge labels) m

  -- `DeletePartialMatch` by the pool's labels and the first of the others.
  abbrev pub matches : Gauge → List String → Series → Bool
  matches gauge labels s =
      same_gauge gauge s.gauge
      && (str_eq namespace s.namespace && (str_eq name s.name && starts labels s.labels))

  abbrev pub delete_partial_match : Gauge → List String → Gauges → Gauges
  delete_partial_match gauge labels [] = []
  delete_partial_match gauge labels ((s, v) ∷ m) =
      let rest = delete_partial_match gauge labels m in
      if matches gauge labels s then rest else (s, v) ∷ rest

  abbrev pub record_condition : Condition → Gauges → Gauges
  record_condition c m =
      set_gauge status_condition (c.kind ∷ "unknown" ∷ []) (one_hot c.status "unknown") (
        set_gauge status_condition (c.kind ∷ "false" ∷ []) (one_hot c.status "false")
          (set_gauge status_condition (c.kind ∷ "true" ∷ []) (one_hot c.status "true") m))

  unfoldable pub record_condition_metrics : List Condition → Gauges → Gauges
  record_condition_metrics [] m = m
  record_condition_metrics (c ∷ conditions) m =
      record_condition_metrics conditions (record_condition c m)

  -- What is published of one group: `groupMetricsFrom` and the body of the loop over it.
  abbrev pub record_group : GroupStatus → Gauges → Gauges
  record_group g m =
      let counted = set_gauge group_share_percent (g.name ∷ []) g.share_percent (
        set_gauge group_ready_replicas (g.name ∷ []) g.ready_replicas
          (set_gauge group_replicas (g.name ∷ []) g.replicas m)) in
      let since = unix g.last_progress_time in
      if ltb 0 since
      then set_gauge group_last_progress (g.name ∷ []) since counted
      else delete_labels group_last_progress (g.name ∷ []) counted

  unfoldable pub record_group_metrics : List GroupStatus → Gauges → Gauges
  record_group_metrics [] m = m
  record_group_metrics (g ∷ groups) m = record_group_metrics groups (record_group g m)

  unfoldable pub record_pool_metrics :
      ℕ → ℕ → ℕ → ℕ → List GroupStatus → List Condition → Gauges → Gauges
  unfolding record_group_metrics record_condition_metrics
  record_pool_metrics spec replicas ready unplaced groups conditions m =
      record_condition_metrics conditions (
        record_group_metrics groups (
          set_gauge unplaced_replicas [] unplaced (
            set_gauge status_ready_replicas [] ready
              (set_gauge status_replicas [] replicas (set_gauge spec_replicas [] spec m)))))

  unfoldable pub delete_pool_metrics : Gauges → Gauges
  delete_pool_metrics m = delete_partial_match status_condition [] (
      delete_partial_match group_last_progress [] (
        delete_partial_match group_share_percent [] (
          delete_partial_match group_ready_replicas [] (
            delete_partial_match group_replicas [] (
              delete_labels unplaced_replicas [] (
                delete_labels status_ready_replicas []
                  (delete_labels status_replicas [] (delete_labels spec_replicas [] m))))))))

  abbrev pub delete_group : String → Gauges → Gauges
  delete_group n m = delete_labels group_last_progress (n ∷ []) (
      delete_labels group_share_percent (n ∷ [])
        (delete_labels group_ready_replicas (n ∷ []) (delete_labels group_replicas (n ∷ []) m)))

  unfoldable pub delete_stale_group_metrics : List String → List String → Gauges → Gauges
  delete_stale_group_metrics current [] m = m
  delete_stale_group_metrics current (n ∷ previous) m =
      delete_stale_group_metrics current previous
        (if any {A = String} (str_eq n) current then m else delete_group n m)

  unfoldable pub delete_stale_condition_metrics : List Condition → List Condition → Gauges → Gauges
  delete_stale_condition_metrics current [] m = m
  delete_stale_condition_metrics current (c ∷ previous) m =
      delete_stale_condition_metrics current previous (
        if has_kind c.kind current
        then m
        else delete_partial_match status_condition (c.kind ∷ []) m)

unfoldable pub record_pool_metrics_from_status : PodPool → Gauges → Gauges
unfolding record_pool_metrics
record_pool_metrics_from_status pool m =
    record_pool_metrics pool.namespace pool.name pool.spec.replicas pool.status.replicas
      pool.status.ready_replicas pool.status.unplaced_replicas pool.status.groups
      pool.status.conditions m

abbrev pub status_names : List GroupStatus → List String
status_names [] = []
status_names (g ∷ groups) = g.name ∷ status_names groups
