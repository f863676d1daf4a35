-- ===== src/Controller/Metrics/Deletion.antt =====
-- internal/controller/metrics.go: what a deletion takes along and what it leaves.
use podpool_controller.Prelude.{
  ℕ, Bool, true, false, ◌&&◌, none, List, [], ◌∷◌, String, str_eq, str_eq_iff, str_eq_refl, ◌==◌,
  ◌≡◌, refl, sym, ap, subst, ◌∙◌, ◌↔◌, inl, inr, Bool-cases, if◌then◌else◌, at, remove, at-remove,
  at-remove_other, arith,
}
use podpool_controller.Controller.Metrics.{
  Gauge, spec_replicas, status_replicas, status_ready_replicas, unplaced_replicas, group_replicas,
  group_ready_replicas, group_share_percent, group_last_progress, status_condition, gauge_code,
  Series, same_labels, same_gauge, same_series, Gauges, series, delete_labels, matches,
  delete_partial_match, delete_pool_metrics,
}

gauge_of : ℕ → Gauge
gauge_of n =
    if n == 0
    then spec_replicas
    else if n == 1
    then status_replicas
    else if n == 2
    then status_ready_replicas
    else if n == 3
    then unplaced_replicas
    else if n == 4
    then group_replicas
    else if n == 5
    then group_ready_replicas
    else if n == 6
    then group_share_percent
    else if n == 7
    then group_last_progress
    else status_condition

gauge_of-code : (g : Gauge) → gauge_of (gauge_code g) ≡ g
unfolding gauge_of
gauge_of-code spec_replicas = refl
gauge_of-code status_replicas = refl
gauge_of-code status_ready_replicas = refl
gauge_of-code unplaced_replicas = refl
gauge_of-code group_replicas = refl
gauge_of-code group_ready_replicas = refl
gauge_of-code group_share_percent = refl
gauge_of-code group_last_progress = refl
gauge_of-code status_condition = refl

same_gauge_iff : (a b : Gauge) → (same_gauge a b ≡ true) ↔ (a ≡ b)
same_gauge_iff a b = (
  λ h.
      let e : gauge_code a ≡ gauge_code b = ground arith in
      sym (gauge_of-code a) ∙ (ap gauge_of e ∙ gauge_of-code b),
  λ h. let e = ap gauge_code h in ground arith,
)

pub and_iff : (a b : Bool) → ((a && b) ≡ true) ↔ ((a ≡ true) × (b ≡ true))
and_iff true b = (λ h. (refl, h), λ h. h.1)
and_iff false b = (λ h. absurd (cc), λ h. absurd (cc))

same_labels_iff : (a b : List String) → (same_labels a b ≡ true) ↔ (a ≡ b)
same_labels_iff [] [] = (λ h. refl, λ h. refl)
same_labels_iff [] (b ∷ others) = (λ h. absurd (cc), λ h. absurd (cc))
same_labels_iff (a ∷ more) [] = (λ h. absurd (cc), λ h. absurd (cc))
same_labels_iff (a ∷ more) (b ∷ others) = (
  λ h.
      let (first, rest) = (and_iff (str_eq a b) (same_labels more others)).0 h in
      let e = (str_eq_iff a b).0 first in let es = (same_labels_iff more others).0 rest in cc,
  λ h.
      let e : a ≡ b = cc in
      let es : more ≡ others = cc in
      (and_iff (str_eq a b) (same_labels more others)).1
        ((str_eq_iff a b).1 e, (same_labels_iff more others).1 es),
)

pub same_series_iff : (a b : Series) → (same_series a b ≡ true) ↔ (a ≡ b)
same_series_iff a b = (
  λ h.
      let (g, r) = (and_iff (same_gauge a.gauge b.gauge) _).0 h in
      let (n, q) = (and_iff (str_eq a.namespace b.namespace) _).0 r in
      let (m, l) = (and_iff (str_eq a.name b.name) _).0 q in
      let eg = (same_gauge_iff a.gauge b.gauge).0 g in
      let en = (str_eq_iff a.namespace b.namespace).0 n in
      let em = (str_eq_iff a.name b.name).0 m in
      let el = (same_labels_iff a.labels b.labels).0 l in cc,
  λ h.
      subst (λ x. same_series a x ≡ true) h
        ((and_iff (same_gauge a.gauge a.gauge) _).1 (
          (same_gauge_iff a.gauge a.gauge).1 refl,
          (and_iff (str_eq a.namespace a.namespace) _).1 (
            str_eq_refl a.namespace,
            (and_iff (str_eq a.name a.name) _).1
                (str_eq_refl a.name, (same_labels_iff a.labels a.labels).1 refl),
          ),
        )),
)

pub at-delete_labels :
    (s k : Series) (m : Gauges)
    → at same_series s (remove same_series k m)
      ≡ (if same_series s k then none else at same_series s m)
at-delete_labels s k m = elim (Bool-cases (same_series s k)) [
  | inl hit ↦ rw (hit, (same_series_iff s k).0 hit) (at-remove same_series same_series_iff k m)
  | inr miss ↦ rw (miss) (at-remove_other same_series same_series_iff s k m miss)
]

module _ (namespace name : String) where
  pub at-delete_partial_match :
      (gauge : Gauge) (labels : List String) (s : Series) (m : Gauges)
      → at same_series s (delete_partial_match namespace name gauge labels m)
        ≡ (if matches namespace name gauge labels s then none else at same_series s m)
  at-delete_partial_match gauge labels s [] = ground arith
  at-delete_partial_match gauge labels s ((k, v) ∷ m) =
      let rest = at-delete_partial_match gauge labels s m in
      let Hit : Series → Bool → Type 0 = λ x b. matches namespace name gauge labels x ≡ b in
      elim (Bool-cases (same_series s k)) [
        | inl same ↦
            let e = (same_series_iff s k).0 same in
            elim (Bool-cases (matches namespace name gauge labels k)) [
              | inl hit ↦
                  let too = subst (λ x. Hit x true) (sym e) hit in
                  rw (hit, too) (rest ∙ rw (too) refl)
              | inr miss ↦
                  let too = subst (λ x. Hit x false) (sym e) miss in rw (miss, too, same) refl
            ]
        | inr other ↦ elim (Bool-cases (matches namespace name gauge labels k)) [
          | inl hit ↦ rw (hit, other) rest
          | inr miss ↦ rw (miss, other) rest
        ]
      ]

  -- A gauge of the pool itself has no further label.
  abbrev pub IsShaped : Gauge → List String → Type 0
  IsShaped spec_replicas labels = labels ≡ []
  IsShaped status_replicas labels = labels ≡ []
  IsShaped status_ready_replicas labels = labels ≡ []
  IsShaped unplaced_replicas labels = labels ≡ []
  IsShaped _ labels = Unit

  ruleset deletions = (at-delete_labels, at-delete_partial_match, str_eq_refl)

  none_left :
      (gauge : Gauge) (labels : List String) (m : Gauges)
      → IsShaped gauge labels
      → at same_series (series namespace name gauge labels) (delete_pool_metrics namespace name m)
        ≡ none
  unfolding delete_pool_metrics
  none_left spec_replicas labels m h = rw (h) (simp (deletions) refl)
  none_left status_replicas labels m h = rw (h) (simp (deletions) refl)
  none_left status_ready_replicas labels m h = rw (h) (simp (deletions) refl)
  none_left unplaced_replicas labels m h = rw (h) (simp (deletions) refl)
  none_left group_replicas labels m h = simp (deletions) refl
  none_left group_ready_replicas labels m h = simp (deletions) refl
  none_left group_share_percent labels m h = simp (deletions) refl
  none_left group_last_progress labels m h = simp (deletions) refl
  none_left status_condition labels m h = simp (deletions) refl

  abbrev is_pools : Series → Bool
  is_pools s = str_eq namespace s.namespace && str_eq name s.name

  others_unmatched :
      (gauge : Gauge) (labels : List String) (s : Series)
      → is_pools s ≡ false
      → (matches namespace name gauge labels s ≡ false)
        × (same_series s (series namespace name gauge labels) ≡ false)
  others_unmatched gauge labels s h = (
    elim (Bool-cases (matches namespace name gauge labels s)) [
      | inl hit ↦
          let (_, r) = (and_iff (same_gauge gauge s.gauge) _).0 hit in
          let (n, q) = (and_iff (str_eq namespace s.namespace) _).0 r in
          let (m, _) = (and_iff (str_eq name s.name) _).0 q in
          let both = (and_iff (str_eq namespace s.namespace) (str_eq name s.name)).1 (n, m) in
          absurd (cc)
      | inr miss ↦ miss
    ],
    elim (Bool-cases (same_series s (series namespace name gauge labels))) [
      | inl hit ↦
          let e = (same_series_iff s (series namespace name gauge labels)).0 hit in
          let own = subst (λ x. is_pools x ≡ false) e h in
          let both =
            (and_iff (str_eq namespace namespace) (str_eq name name)).1
              (str_eq_refl namespace, str_eq_refl name) in
          absurd (cc)
      | inr miss ↦ miss
    ],
  )

  module _ (s : Series) (other : is_pools s ≡ false) where
    kept-delete_partial_match :
        (gauge : Gauge) (labels : List String) (m : Gauges)
        → at same_series s (delete_partial_match namespace name gauge labels m) ≡ at same_series s m
    kept-delete_partial_match gauge labels m =
        at-delete_partial_match gauge labels s m
        ∙ rw ((others_unmatched gauge labels s other).0) refl

    kept-delete_labels :
        (gauge : Gauge) (labels : List String) (m : Gauges)
        → at same_series s (delete_labels namespace name gauge labels m) ≡ at same_series s m
    kept-delete_labels gauge labels m =
        at-delete_labels s (series namespace name gauge labels) m
        ∙ rw ((others_unmatched gauge labels s other).1) refl

    others_kept :
        (m : Gauges) → at same_series s (delete_pool_metrics namespace name m) ≡ at same_series s m
    unfolding delete_pool_metrics
    others_kept m = simp (kept-delete_partial_match, kept-delete_labels) refl

  -- A deleted pool takes its own series along and nobody else's: none of its gauges has a value left for
  -- any labels that the gauge can have, and a series of another pool keeps its value.
  pub delete_pool_metrics_lem :
      (gauge : Gauge) (labels : List String) (m : Gauges) (s : Series)
      → IsShaped gauge labels
      → is_pools s ≡ false
      → (at same_series (series namespace name gauge labels) (delete_pool_metrics namespace name m)
          ≡ none)
        × (at same_series s (delete_pool_metrics namespace name m) ≡ at same_series s m)
  delete_pool_metrics_lem gauge labels m s h other =
      (none_left gauge labels m h, others_kept s other m)
