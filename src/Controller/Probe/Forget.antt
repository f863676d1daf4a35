-- ===== src/Controller/Probe/Forget.antt =====
-- internal/controller/opportunistic.go: the map of probe records, and what a deleted pool takes
-- with it.
use podpool_controller.Prelude.{
  ℕ, ◌≡◌, refl, ap, subst, All, at, Bool, false, Bool-cases, inl, inr, List, [], ◌∷◌, String, arith,
  str_eq, str_eq_iff, if◌then◌else◌,
}
use Prim.Native.String
use text.Mathlib.Text.{starts_with}
use text.Mathlib.TextPositions.{starts_with-append}
use podpool_controller.Api.{PodPool}
use podpool_controller.Controller.Probe.{
  ProbeState, Observation, no_probe, Probes, probe_at, set_probe, pool_prefix, probe_key,
  decide_probe, probe_outstanding, forget, forget_probes, probe_step,
}
use podpool_controller.Controller.Timing.{opportunistic_heartbeat}

pub probe_at-set_probe :
    (k j : String) (st : ProbeState) (m : Probes)
    → probe_at j (set_probe k st m) ≡ (if str_eq k j then st else probe_at j m)
unfolding probe_at set_probe
probe_at-set_probe k j st [] = refl
probe_at-set_probe k j st ((i, w) ∷ m) =
    ground (arith, str_eq_iff k j, str_eq_iff i k, str_eq_iff i j, probe_at-set_probe k j st m)

pub probe_at-forget :
    (prefix k : String) (m : Probes)
    → probe_at k (forget prefix m) ≡ (if starts_with k prefix then no_probe else probe_at k m)
unfolding probe_at forget
probe_at-forget prefix k [] = elim (Bool-cases (starts_with k prefix)) [
  | inl e ↦ rw e
  | inr e ↦ rw e
]
probe_at-forget prefix k ((j, w) ∷ m) = elim (Bool-cases (str_eq j k)) [
  | inl e ↦
      let same : j ≡ k = (str_eq_iff j k).0 e in
      rw same (ground (arith, probe_at-forget prefix k m, e, (str_eq_iff k k).1 refl))
  | inr e ↦ ground (arith, probe_at-forget prefix k m, e)
]

-- A call for one group of a pool leaves the record of every other key as it was, and its own is the
-- outcome of the step.
pub decide_probe-frame :
    (pool : PodPool) (group : String) (target : ℕ) (obs : Observation) (now : ℕ) (probes : Probes)
    (k : String)
    → probe_at k (decide_probe pool group target obs now probes).0 ≡ (
        if str_eq (probe_key pool group) k
        then (probe_step
            (opportunistic_heartbeat pool.spec)
            target
            obs
            now
            (probe_at (probe_key pool group) probes)).0
        else probe_at k probes)
unfolding decide_probe
decide_probe-frame pool group target obs now probes k = probe_at-set_probe _ k _ probes

module _ {ℓ} {V : Type ℓ} where
  abbrev pub IsOutside : String → String × V → Type 0
  IsOutside prefix (k, v) = starts_with k prefix ≡ false

  -- Nothing under the prefix is left, and a key outside it keeps what it had.
  abbrev pub IsForgotten : String → String → List (String × V) → List (String × V) → Type ℓ
  IsForgotten prefix k before after =
      All (IsOutside prefix) after × (at str_eq k after ≡ at str_eq k before)

  forget-AllOutside :
      (prefix : String) (m : List (String × V)) → All (IsOutside prefix) (forget prefix m)
  unfolding forget
  forget-AllOutside prefix [] = tt
  forget-AllOutside prefix ((k, v) ∷ m) = elim (Bool-cases (starts_with k prefix)) [
    | inl under ↦ rw (under) (forget-AllOutside prefix m)
    | inr outside ↦ rw (outside) (outside, forget-AllOutside prefix m)
  ]

  at-forget :
      (prefix k : String) (m : List (String × V))
      → starts_with k prefix ≡ false
      → at str_eq k (forget prefix m) ≡ at str_eq k m
  unfolding forget
  at-forget prefix k [] off = refl
  at-forget prefix k ((j, v) ∷ m) off = elim (Bool-cases (str_eq k j)) [
    | inl same ↦
        let kept : starts_with j prefix ≡ false =
          subst (λ x. starts_with x prefix ≡ false) ((str_eq_iff k j).0 same) off in
        rw (kept, same) refl
    | inr other ↦ elim (Bool-cases (starts_with j prefix)) [
      | inl under ↦ rw (under, other) (at-forget prefix k m off)
      | inr outside ↦ rw (outside, other) (at-forget prefix k m off)
    ]
  ]

  forget-IsForgotten :
      (prefix k : String) (m : List (String × V))
      → starts_with k prefix ≡ false
      → IsForgotten prefix k m (forget prefix m)
  forget-IsForgotten prefix k m off = (forget-AllOutside prefix m, at-forget prefix k m off)

-- A deleted pool takes all its probe records and out-of-range marks along and no other: no key under
-- its prefix is left in either map, and a key outside the prefix keeps its record and its mark.
pub forget_probes_lem :
    (namespace name k : String) (probes : Probes) (out_of_range : List (String × Bool))
    → starts_with k (pool_prefix namespace name) ≡ false
    → IsForgotten
        (pool_prefix namespace name)
        k
        probes
        (forget_probes namespace name probes out_of_range).0
      × IsForgotten
          (pool_prefix namespace name)
          k
          out_of_range
          (forget_probes namespace name probes out_of_range).1
unfolding forget_probes
forget_probes_lem namespace name k probes out_of_range off =
    let prefix = pool_prefix namespace name in
    (forget-IsForgotten prefix k probes off, forget-IsForgotten prefix k out_of_range off)

-- None of the groups of a deleted pool has a probe outstanding.
forgotten_quiet :
    (pool : PodPool) (group : String) (probes : Probes) (out_of_range : List (String × Bool))
    → probe_outstanding pool group (forget_probes pool.namespace pool.name probes out_of_range).0
      ≡ false
unfolding forget_probes probe_outstanding probe_key
forgotten_quiet pool group probes out_of_range =
    let prefix = pool_prefix pool.namespace pool.name in
    let key = String.◌++◌ prefix group in
    let gone : probe_at key (forget prefix probes) ≡ no_probe =
      rw (probe_at-forget prefix key probes, starts_with-append prefix group) in
    ap (λ st. st.outstanding) gone
