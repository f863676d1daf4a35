-- ===== src/Controller/Metrics/Publication.antt =====
-- internal/controller/metrics.go: what the gauges say of a pool after its status was published.
use podpool_controller.Prelude.{
  ℕ, Bool, true, false, ◌&&◌, ◌||◌, Option, none, some, List, [], ◌∷◌, ◌++◌, String, str_eq,
  str_eq_refl, ◌≡◌, refl, ◌∙◌, inl, inr, Bool-cases, if◌then◌else◌, at, put, at-put, at-put_other,
  any, ltb,
}
use podpool_controller.Api.{Condition, GroupStatus, PodPool}
use podpool_controller.Controller.Metrics.{
  Gauge, spec_replicas, status_replicas, status_ready_replicas, unplaced_replicas, group_replicas,
  group_ready_replicas, group_share_percent, group_last_progress, status_condition, Series,
  same_gauge, same_series, Gauges, series, unix, one_hot, has_kind, record_condition,
  record_condition_metrics, record_group, record_group_metrics, record_pool_metrics,
  record_pool_metrics_from_status, status_names,
}
use podpool_controller.Controller.Metrics.Deletion.{same_series_iff, at-delete_labels}

-- What a gauge holds after a write.
pub at-set_gauge :
    (s k : Series) (v : ℕ) (m : Gauges)
    → at same_series s (put same_series k v m)
      ≡ (if same_series s k then some v else at same_series s m)
at-set_gauge s k v m = elim (Bool-cases (same_series s k)) [
  | inl hit ↦ rw (hit, (same_series_iff s k).0 hit) (at-put same_series same_series_iff k v m)
  | inr miss ↦ rw (miss) (at-put_other same_series same_series_iff s k v m miss)
]

and_false : (b : Bool) → (b && false) ≡ false
and_false true = refl
and_false false = refl

or_false : (a b : Bool) → (a || b) ≡ false → (a ≡ false) × (b ≡ false)
or_false true b h = absurd (cc)
or_false false b h = (refl, h)

ruleset writes = (at-set_gauge, at-delete_labels, str_eq_refl)

module _ (namespace name : String) where
  abbrev pub value : Gauge → List String → Gauges → Option ℕ
  value gauge labels m = at same_series (series namespace name gauge labels) m

  abbrev pub progress : GroupStatus → Option ℕ
  progress g = let since = unix g.last_progress_time in if ltb 0 since then some since else none

  -- The four series of a group say what its row says, and the time of a group at its target is absent.
  abbrev pub IsRow : GroupStatus → Gauges → Type 0
  IsRow g m =
      (value group_replicas (g.name ∷ []) m ≡ some g.replicas)
      × (value group_ready_replicas (g.name ∷ []) m ≡ some g.ready_replicas)
      × (value group_share_percent (g.name ∷ []) m ≡ some g.share_percent)
      × (value group_last_progress (g.name ∷ []) m ≡ progress g)

  record_group-IsRow : (g : GroupStatus) (m : Gauges) → IsRow g (record_group namespace name g m)
  record_group-IsRow g m = elim (Bool-cases (ltb 0 (unix g.last_progress_time))) [
    | inl short ↦
        rw (short) (simp (writes) refl, simp (writes) refl, simp (writes) refl, simp (writes) refl)
    | inr at_target ↦
        rw (at_target)
          (simp (writes) refl, simp (writes) refl, simp (writes) refl, simp (writes) refl)
  ]

  record_group-kept :
      (g h : GroupStatus) (m : Gauges)
      → str_eq g.name h.name ≡ false
      → IsRow g m
      → IsRow g (record_group namespace name h m)
  record_group-kept g h m off (a, b, c, d) = elim (Bool-cases (ltb 0 (unix h.last_progress_time))) [
    | inl short ↦
        rw (short)
          (simp (writes, off) a, simp (writes, off) b, simp (writes, off) c, simp (writes, off) d)
    | inr at_target ↦
        rw (at_target)
          (simp (writes, off) a, simp (writes, off) b, simp (writes, off) c, simp (writes, off) d)
  ]

  groups-kept :
      (g : GroupStatus) (later : List GroupStatus) (m : Gauges)
      → any {A = String} (str_eq g.name) (status_names later) ≡ false
      → IsRow g m
      → IsRow g (record_group_metrics namespace name later m)
  unfolding record_group_metrics
  groups-kept g [] m off row = row
  groups-kept g (h ∷ later) m off row =
      let (first, rest) =
        or_false (str_eq g.name h.name) (any {A = String} (str_eq g.name) (status_names later))
          off in
      groups-kept g later (record_group namespace name h m) rest (record_group-kept g h m first row)

  groups-IsRow :
      (earlier : List GroupStatus) (g : GroupStatus) (later : List GroupStatus) (m : Gauges)
      → any {A = String} (str_eq g.name) (status_names later) ≡ false
      → IsRow g (record_group_metrics namespace name (earlier ++ g ∷ later) m)
  unfolding record_group_metrics
  groups-IsRow [] g later m off =
      groups-kept g later (record_group namespace name g m) off (record_group-IsRow g m)
  groups-IsRow (h ∷ earlier) g later m off =
      groups-IsRow earlier g later (record_group namespace name h m) off

  -- Of a type of condition, the series of its status is 1 and the two others are 0.
  abbrev pub IsOneHot : Condition → Gauges → Type 0
  IsOneHot c m =
      (value status_condition (c.kind ∷ "true" ∷ []) m ≡ some (one_hot c.status "true"))
      × (value status_condition (c.kind ∷ "false" ∷ []) m ≡ some (one_hot c.status "false"))
      × (value status_condition (c.kind ∷ "unknown" ∷ []) m ≡ some (one_hot c.status "unknown"))

  record_condition-IsOneHot :
      (c : Condition) (m : Gauges) → IsOneHot c (record_condition namespace name c m)
  record_condition-IsOneHot c m = (simp (writes) refl, simp (writes) refl, simp (writes) refl)

  record_condition-kept :
      (c d : Condition) (m : Gauges)
      → str_eq c.kind d.kind ≡ false
      → IsOneHot c m
      → IsOneHot c (record_condition namespace name d m)
  record_condition-kept c d m off (a, b, e) =
      (simp (writes, off) a, simp (writes, off) b, simp (writes, off) e)

  conditions-kept :
      (c : Condition) (later : List Condition) (m : Gauges)
      → has_kind c.kind later ≡ false
      → IsOneHot c m
      → IsOneHot c (record_condition_metrics namespace name later m)
  unfolding record_condition_metrics
  conditions-kept c [] m off hot = hot
  conditions-kept c (d ∷ later) m off hot =
      let (first, rest) = or_false (str_eq c.kind d.kind) (has_kind c.kind later) off in
      conditions-kept c later (record_condition namespace name d m) rest
        (record_condition-kept c d m first hot)

  conditions-IsOneHot :
      (earlier : List Condition) (c : Condition) (later : List Condition) (m : Gauges)
      → has_kind c.kind later ≡ false
      → IsOneHot c (record_condition_metrics namespace name (earlier ++ c ∷ later) m)
  unfolding record_condition_metrics
  conditions-IsOneHot [] c later m off =
      conditions-kept c later (record_condition namespace name c m) off
        (record_condition-IsOneHot c m)
  conditions-IsOneHot (d ∷ earlier) c later m off =
      conditions-IsOneHot earlier c later (record_condition namespace name d m) off

  module _ (gauge : Gauge) (labels : List String)
      (not_condition : same_gauge gauge status_condition ≡ false) where
    past-conditions :
        (conditions : List Condition) (m : Gauges)
        → value gauge labels (record_condition_metrics namespace name conditions m)
          ≡ value gauge labels m
    unfolding record_condition_metrics
    past-conditions [] m = refl
    past-conditions (c ∷ conditions) m =
        past-conditions conditions (record_condition namespace name c m)
        ∙ simp (writes, not_condition) refl

  -- The pool's own series have no label in the place of a group's name.
  past-groups :
      (gauge : Gauge) (groups : List GroupStatus) (m : Gauges)
      → value gauge [] (record_group_metrics namespace name groups m) ≡ value gauge [] m
  unfolding record_group_metrics
  past-groups gauge [] m = refl
  past-groups gauge (g ∷ groups) m =
      past-groups gauge groups (record_group namespace name g m)
      ∙ elim (Bool-cases (ltb 0 (unix g.last_progress_time))) [
        | inl short ↦ rw (short) (simp (writes, and_false) refl)
        | inr at_target ↦ rw (at_target) (simp (writes, and_false) refl)
      ]

  module _ (spec replicas ready unplaced : ℕ) (groups : List GroupStatus)
      (conditions : List Condition) (m : Gauges) where
    abbrev recorded : Gauges
    recorded = record_pool_metrics namespace name spec replicas ready unplaced groups conditions m

    totals_recorded :
        (value spec_replicas [] recorded ≡ some spec)
        × (value status_replicas [] recorded ≡ some replicas)
        × (value status_ready_replicas [] recorded ≡ some ready)
        × (value unplaced_replicas [] recorded ≡ some unplaced)
    unfolding record_pool_metrics
    totals_recorded = (
      past-conditions spec_replicas [] refl conditions _
          ∙ (past-groups spec_replicas groups _ ∙ simp (writes) refl),
      past-conditions status_replicas [] refl conditions _
          ∙ (past-groups status_replicas groups _ ∙ simp (writes) refl),
      past-conditions status_ready_replicas [] refl conditions _
          ∙ (past-groups status_ready_replicas groups _ ∙ simp (writes) refl),
      past-conditions unplaced_replicas [] refl conditions _
          ∙ (past-groups unplaced_replicas groups _ ∙ simp (writes) refl),
    )

    IsRow-recorded :
        (earlier : List GroupStatus) (g : GroupStatus) (later : List GroupStatus)
        → groups ≡ earlier ++ g ∷ later
        → any {A = String} (str_eq g.name) (status_names later) ≡ false
        → IsRow g recorded
    unfolding record_pool_metrics
    IsRow-recorded earlier g later split last =
        let (a, b, c, d) = groups-IsRow earlier g later _ last in
        rw (split) (
          past-conditions group_replicas (g.name ∷ []) refl conditions _ ∙ a,
          past-conditions group_ready_replicas (g.name ∷ []) refl conditions _ ∙ b,
          past-conditions group_share_percent (g.name ∷ []) refl conditions _ ∙ c,
          past-conditions group_last_progress (g.name ∷ []) refl conditions _ ∙ d,
        )

    condition_recorded :
        (earlier : List Condition) (c : Condition) (later : List Condition)
        → conditions ≡ earlier ++ c ∷ later
        → has_kind c.kind later ≡ false
        → IsOneHot c recorded
    unfolding record_pool_metrics
    condition_recorded earlier c later split last =
        rw (split) (conditions-IsOneHot earlier c later _ last)

-- The gauges agree with the status that a pass publishes: the pool's own say its totals, those of a
-- group say its row, and of a condition's three series the one of its status is 1 and the others are
-- 0, whatever they said before; where a name stands twice in a list, its last row counts.
pub record_pool_metrics_from_status_lem :
    (pool : PodPool) (m : Gauges) (earlier : List GroupStatus) (g : GroupStatus)
    (later : List GroupStatus) (before : List Condition) (c : Condition) (after : List Condition)
    → pool.status.groups ≡ earlier ++ g ∷ later
    → any {A = String} (str_eq g.name) (status_names later) ≡ false
    → pool.status.conditions ≡ before ++ c ∷ after
    → has_kind c.kind after ≡ false
    → (let said = value pool.namespace pool.name in
        let published = record_pool_metrics_from_status pool m in
        ((said spec_replicas [] published ≡ some pool.spec.replicas)
          × (said status_replicas [] published ≡ some pool.status.replicas)
          × (said status_ready_replicas [] published ≡ some pool.status.ready_replicas)
          × (said unplaced_replicas [] published ≡ some pool.status.unplaced_replicas))
        × IsRow pool.namespace pool.name g published
        × IsOneHot pool.namespace pool.name c published)
unfolding record_pool_metrics_from_status
record_pool_metrics_from_status_lem pool m earlier g later before c after gs last_g cs last_c =
    let st = pool.status in
    (
      totals_recorded pool.namespace pool.name pool.spec.replicas st.replicas st.ready_replicas
          st.unplaced_replicas st.groups st.conditions m,
      IsRow-recorded pool.namespace pool.name pool.spec.replicas st.replicas st.ready_replicas
          st.unplaced_replicas st.groups st.conditions m earlier g later gs last_g,
      condition_recorded pool.namespace pool.name pool.spec.replicas st.replicas st.ready_replicas
          st.unplaced_replicas st.groups st.conditions m before c after cs last_c,
    )
