-- ===== src/Controller/Probing/Surplus.antt =====
-- internal/controller/podpool_controller.go: what the probes add to the targets.
use podpool_controller.Prelude.{
  ℕ, suc, ◌+◌, ◌≤◌, Bool, true, false, List, [], ◌∷◌, ◌≡◌, refl, ◌⊎◌, inl, inr, length, sum,
  Bool-cases, if◌then◌else◌, add_int32, add_int32_small, max_int32, arith, All,
}
use podpool_controller.Api.{GroupSpec, PodPool}
use podpool_controller.Workload.Scaling.{is_opportunistic}
use podpool_controller.Controller.Timing.{opportunistic_heartbeat}
use podpool_controller.Controller.Probe.{
  Observation, ProbeDecision, Probes, Observations, observation_of, decide_probe, probe_at,
  set_probe, probe_key, probe_step,
}
use podpool_controller.Controller.Probe.Laws.{probe_adds_one}
use podpool_controller.Controller.Probing.{ProbePass, decided, apply_probes, or_unobserved}

-- Targets that are laid over those of the distribution: each is kept, or is one more, for an
-- opportunistic group, while its verdict is awaited.
pub data Laid : List GroupSpec → List ℕ → List ℕ → Bool → Type 0 where
  nothing : Laid [] [] [] false
  keep :
      {g : GroupSpec} {groups : List GroupSpec} {t : ℕ} {targets laid : List ℕ} {pending : Bool}
      → Laid groups targets laid pending
      → Laid (g ∷ groups) (t ∷ targets) (t ∷ laid) pending
  raise :
      {g : GroupSpec} {groups : List GroupSpec} {t : ℕ} {targets laid : List ℕ} {pending : Bool}
      → is_opportunistic g.scaling ≡ true
      → Laid groups targets laid pending
      → Laid (g ∷ groups) (t ∷ targets) (add_int32 t 1 ∷ laid) true

decided-Laid :
    (g : GroupSpec) (groups : List GroupSpec) (t : ℕ) (targets : List ℕ) (obs : Observation)
    (d : ProbeDecision) (rest : ProbePass)
    → is_opportunistic g.scaling ≡ true
    → ((d.target ≡ t) × (d.await_verdict ≡ false))
      ⊎ ((d.target ≡ add_int32 t 1) × (d.await_verdict ≡ true) × (obs.found ≡ true))
    → Laid groups targets rest.targets rest.pending
    → Laid
        (g ∷ groups)
        (t ∷ targets)
        (decided g.name d rest).targets
        (decided g.name d rest).pending
decided-Laid g groups t targets obs d rest grows (inl (same, quiet)) laid =
    rw (same, quiet) (keep laid)
decided-Laid g groups t targets obs d rest grows (inr (more, awaits, found)) laid =
    rw (more, awaits) (raise grows laid)

pub apply_probes-Laid :
    (pool : PodPool) (groups : List GroupSpec) (targets : List ℕ) (observed : Observations)
    (now : ℕ) (probes : Probes)
    → length targets ≡ length groups
    → (let pass = apply_probes pool groups targets observed now probes in
        Laid groups targets pass.targets pass.pending)
unfolding apply_probes decide_probe
apply_probes-Laid pool [] [] observed now probes h = nothing
apply_probes-Laid pool [] (t ∷ targets) observed now probes h = absurd (omega (arith, h))
apply_probes-Laid pool (g ∷ groups) [] observed now probes h = absurd (omega (arith, h))
apply_probes-Laid pool (g ∷ groups) (t ∷ targets) observed now probes h =
    elim (Bool-cases (is_opportunistic g.scaling)) [
      | inl grows ↦ rw (grows) (
          let obs = or_unobserved (observation_of g.name observed) in
          let heartbeat = opportunistic_heartbeat pool.spec in
          let st = probe_at (probe_key pool g.name) probes in
          let next =
            set_probe (probe_key pool g.name) (probe_step heartbeat t obs now st).0 probes in
          decided-Laid g groups t targets obs (probe_step heartbeat t obs now st).1
            (apply_probes pool groups targets observed now next) grows
            (probe_adds_one heartbeat t obs now st)
            (apply_probes-Laid pool groups targets observed now next (omega (arith, h))))
      | inr fixed ↦
          rw (fixed)
            (keep (apply_probes-Laid pool groups targets observed now probes (omega (arith, h))))
    ]

laid-kept :
    {groups : List GroupSpec} {targets laid : List ℕ} {pending : Bool}
    → Laid groups targets laid pending
    → pending ≡ false
    → laid ≡ targets
laid-kept nothing h = refl
laid-kept (keep rest) h = rw (laid-kept rest h) refl
laid-kept (raise grows rest) h = absurd (cc)

-- How many of the groups may grow.
unfoldable pub opportunistic_groups : List GroupSpec → ℕ
opportunistic_groups [] = 0
opportunistic_groups (g ∷ groups) =
    let rest = opportunistic_groups groups in if is_opportunistic g.scaling then suc rest else rest

laid-bounded :
    {groups : List GroupSpec} {targets laid : List ℕ} {pending : Bool}
    → Laid groups targets laid pending
    → All (λ t. suc t ≤ max_int32) targets
    → (sum targets ≤ sum laid) × (sum laid ≤ sum targets + opportunistic_groups groups)
unfolding opportunistic_groups
laid-bounded nothing small = (omega arith, omega arith)
laid-bounded (keep {g} {groups} {t} {targets} {laid} rest) (first, small) =
    let (low, high) = laid-bounded rest small in
    elim (Bool-cases (is_opportunistic g.scaling)) [
      | inl grows ↦ rw (grows) (omega (arith, low), omega (arith, high))
      | inr fixed ↦ rw (fixed) (omega (arith, low), omega (arith, high))
    ]
laid-bounded (raise {g} {groups} {t} {targets} {laid} grows rest) (first, small) =
    let (low, high) = laid-bounded rest small in
    let one_more = add_int32_small t 1 (omega (arith, first)) in
    rw (grows, one_more) (omega (arith, low), omega (arith, high))

-- The probes ride on top of the distribution: the targets that are applied add up to at least its own,
-- and to at most one more for each opportunistic group; and while no verdict is awaited they are its
-- own. The distribution's targets are as many as the groups and below the largest int32.
pub apply_probes_surplus :
    (pool : PodPool) (groups : List GroupSpec) (targets : List ℕ) (observed : Observations)
    (now : ℕ) (probes : Probes)
    → length targets ≡ length groups
    → All (λ t. suc t ≤ max_int32) targets
    → (let pass = apply_probes pool groups targets observed now probes in
        (sum targets ≤ sum pass.targets)
        × (sum pass.targets ≤ sum targets + opportunistic_groups groups)
        × ((pass.pending ≡ true) ⊎ (pass.targets ≡ targets)))
apply_probes_surplus pool groups targets observed now probes h small =
    let laid = apply_probes-Laid pool groups targets observed now probes h in
    let (low, high) = laid-bounded laid small in
    (
      low,
      high,
      elim (Bool-cases (apply_probes pool groups targets observed now probes).pending) [
        | inl awaits ↦ inl awaits
        | inr quiet ↦ inr (laid-kept laid quiet)
      ],
    )

-- As many targets are applied as there are groups.
pub laid-length :
    {groups : List GroupSpec} {targets laid : List ℕ} {pending : Bool}
    → Laid groups targets laid pending
    → length laid ≡ length groups
laid-length nothing = refl
laid-length (keep rest) = omega (arith, laid-length rest)
laid-length (raise grows rest) = omega (arith, laid-length rest)
