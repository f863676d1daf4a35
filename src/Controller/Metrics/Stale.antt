-- ===== src/Controller/Metrics/Stale.antt =====
-- internal/controller/metrics.go: the series of groups and of condition types that are gone.
use podpool_controller.Prelude.{
  ℕ, Bool, true, false, not, ◌&&◌, ◌||◌, Option, none, List, [], ◌∷◌, String, str_eq, str_eq_iff,
  str_eq_refl, ◌≡◌, refl, sym, ap, subst, ◌∙◌, inl, inr, Bool-cases, if◌then◌else◌, any,
}
use podpool_controller.Api.{Condition}
use podpool_controller.Controller.Metrics.{
  Gauge, group_replicas, group_ready_replicas, group_share_percent, group_last_progress,
  status_condition, Gauges, has_kind, delete_group, delete_partial_match,
  delete_stale_group_metrics, delete_stale_condition_metrics,
}
use podpool_controller.Controller.Metrics.Deletion.{at-delete_labels, at-delete_partial_match}
use podpool_controller.Controller.Metrics.Publication.{value}

-- The gauges that have a series for each group.
pub data IsGroupGauge : Gauge → Type 0 where
  counts : IsGroupGauge group_replicas
  ready_counts : IsGroupGauge group_ready_replicas
  shares : IsGroupGauge group_share_percent
  times : IsGroupGauge group_last_progress

abbrev pub is_gone : String → List String → List String → Bool
is_gone n current previous =
    any {A = String} (str_eq n) previous && not (any {A = String} (str_eq n) current)

gone_or_kept :
    (more now : Bool) (old new : Option ℕ)
    → new ≡ (if now then old else none)
    → (if more && not now then none else new) ≡ (if not now then none else old)
gone_or_kept true true old new h = h
gone_or_kept true false old new h = refl
gone_or_kept false true old new h = h
gone_or_kept false false old new h = h

-- One name more in the list of the previous pass: `hit` says that it is the name that is asked for.
one_more :
    (hit more now now_other : Bool) (old new : Option ℕ)
    → (hit ≡ true → now ≡ now_other)
    → new ≡ (if now_other then old else if hit then none else old)
    → (if more && not now then none else new) ≡ (if (hit || more) && not now then none else old)
one_more true more now now_other old new same stepped =
    let stepped_now = subst (λ b. new ≡ (if b then old else none)) (sym (same refl)) stepped in
    gone_or_kept more now old new stepped_now
one_more false more now true old new same stepped = rw (stepped) refl
one_more false more now false old new same stepped = rw (stepped) refl

module _ (namespace name : String) where
  ruleset removals = (at-delete_labels, at-delete_partial_match, str_eq_refl)

  value-delete_group :
      (gauge : Gauge)
      → IsGroupGauge gauge
      → (n p : String) (m : Gauges)
      → value namespace name gauge (n ∷ []) (delete_group namespace name p m)
        ≡ (if str_eq n p then none else value namespace name gauge (n ∷ []) m)
  value-delete_group gauge counts n p m = elim (Bool-cases (str_eq n p)) [
    | inl hit ↦ simp (removals, hit) refl
    | inr miss ↦ simp (removals, miss) refl
  ]
  value-delete_group gauge ready_counts n p m = elim (Bool-cases (str_eq n p)) [
    | inl hit ↦ simp (removals, hit) refl
    | inr miss ↦ simp (removals, miss) refl
  ]
  value-delete_group gauge shares n p m = elim (Bool-cases (str_eq n p)) [
    | inl hit ↦ simp (removals, hit) refl
    | inr miss ↦ simp (removals, miss) refl
  ]
  value-delete_group gauge times n p m = elim (Bool-cases (str_eq n p)) [
    | inl hit ↦ simp (removals, hit) refl
    | inr miss ↦ simp (removals, miss) refl
  ]

  stepped :
      (gauge : Gauge)
      → IsGroupGauge gauge
      → (n p : String) (m : Gauges) (now : Bool)
      → value namespace name gauge (n ∷ []) (if now then m else delete_group namespace name p m) ≡ (
          if now
          then value namespace name gauge (n ∷ []) m
          else if str_eq n p
          then none
          else value namespace name gauge (n ∷ []) m)
  stepped gauge kind n p m true = refl
  stepped gauge kind n p m false = value-delete_group gauge kind n p m

  groups-stale :
      (gauge : Gauge)
      → IsGroupGauge gauge
      → (n : String) (current previous : List String) (m : Gauges)
      → value namespace name gauge
          (n ∷ [])
          (delete_stale_group_metrics namespace name current previous m)
        ≡ (if is_gone n current previous then none else value namespace name gauge (n ∷ []) m)
  unfolding delete_stale_group_metrics
  groups-stale gauge kind n current [] m = refl
  groups-stale gauge kind n current (p ∷ previous) m =
      let next : Gauges =
        if any {A = String} (str_eq p) current then m else delete_group namespace name p m in
      groups-stale gauge kind n current previous next
      ∙ one_more (str_eq n p) (any {A = String} (str_eq n) previous)
          (any {A = String} (str_eq n) current) (any {A = String} (str_eq p) current)
          (value namespace name gauge (n ∷ []) m) (value namespace name gauge (n ∷ []) next)
          (λ hit. ap (λ x. any {A = String} (str_eq x) current) ((str_eq_iff n p).0 hit))
          (stepped gauge kind n p m (any {A = String} (str_eq p) current))

  condition_stepped :
      (kind s p : String) (m : Gauges) (now : Bool)
      → value namespace name status_condition
          (kind ∷ s ∷ [])
          (if now then m else delete_partial_match namespace name status_condition (p ∷ []) m)
        ≡ (if now
            then value namespace name status_condition (kind ∷ s ∷ []) m
            else if str_eq kind p
            then none
            else value namespace name status_condition (kind ∷ s ∷ []) m)
  condition_stepped kind s p m true = refl
  condition_stepped kind s p m false = elim (Bool-cases (str_eq kind p)) [
    | inl hit ↦ simp (removals, hit) refl
    | inr miss ↦ simp (removals, miss) refl
  ]

  conditions-stale :
      (kind s : String) (current previous : List Condition) (m : Gauges)
      → value namespace name status_condition
          (kind ∷ s ∷ [])
          (delete_stale_condition_metrics namespace name current previous m)
        ≡ (if has_kind kind previous && not (has_kind kind current)
            then none
            else value namespace name status_condition (kind ∷ s ∷ []) m)
  unfolding delete_stale_condition_metrics
  conditions-stale kind s current [] m = refl
  conditions-stale kind s current (p ∷ previous) m =
      let next : Gauges =
        if has_kind p.kind current
        then m
        else delete_partial_match namespace name status_condition (p.kind ∷ []) m in
      conditions-stale kind s current previous next
      ∙ one_more (str_eq kind p.kind) (has_kind kind previous) (has_kind kind current)
          (has_kind p.kind current) (value namespace name status_condition (kind ∷ s ∷ []) m)
          (value namespace name status_condition (kind ∷ s ∷ []) next)
          (λ hit. ap (λ x. has_kind x current) ((str_eq_iff kind p.kind).0 hit))
          (condition_stepped kind s p.kind m (has_kind p.kind current))

  -- No series outlives what it stands for, and none goes early: after the deletions of a pass a series of
  -- a group, or of a type of condition, is gone if the previous status had that name and the new one
  -- has not, and holds what it held otherwise.
  pub delete_stale_lem :
      (gauge : Gauge)
      → IsGroupGauge gauge
      → (n kind s : String) (groups groups_before : List String)
        (conditions conditions_before : List Condition) (m : Gauges)
      → (value namespace name gauge
            (n ∷ [])
            (delete_stale_group_metrics namespace name groups groups_before m)
          ≡ (if is_gone n groups groups_before
              then none
              else value namespace name gauge (n ∷ []) m))
        × (value namespace name status_condition
              (kind ∷ s ∷ [])
              (delete_stale_condition_metrics namespace name conditions conditions_before m)
            ≡ (if has_kind kind conditions_before && not (has_kind kind conditions)
                then none
                else value namespace name status_condition (kind ∷ s ∷ []) m))
  delete_stale_lem gauge at_group n kind s groups groups_before conditions conditions_before m = (
    groups-stale gauge at_group n groups groups_before m,
    conditions-stale kind s conditions conditions_before m,
  )
