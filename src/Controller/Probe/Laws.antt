-- ===== src/Controller/Probe/Laws.antt =====
-- internal/controller/opportunistic.go: one call of `decideProbe`, and the capacity that an
-- observation stands for.
use podpool_controller.Prelude.{
  ℕ, ◌+◌, ◌-◌, ◌≤◌, ◌<◌, ◌≡◌, ◌⊎◌, ◌↔◌, Bool, true, false, none, some, arith, add_int32,
}
use podpool_controller.Controller.Timing.{probe_verdict_timeout}
use podpool_controller.Controller.Probe.{Observation, ProbeState, probe_step, group_capacity}

module _ (heartbeat target : ℕ) (obs : Observation) (now : ℕ) (st : ProbeState) where
  -- The decision adds one replica to the distribution's answer or none. It adds one exactly when it
  -- asks to look again soon, and then the child was read.
  pub probe_adds_one :
      (((probe_step heartbeat target obs now st).1.target ≡ target)
        × ((probe_step heartbeat target obs now st).1.await_verdict ≡ false))
      ⊎ (((probe_step heartbeat target obs now st).1.target ≡ add_int32 target 1)
          × ((probe_step heartbeat target obs now st).1.await_verdict ≡ true)
          × (obs.found ≡ true))
  unfolding probe_step
  probe_adds_one = ground arith

  -- A probe is issued only for a group that stands where it was told to, none of whose replicas is
  -- missing, once the heartbeat has passed since the last refusal; the record then says that it is
  -- outstanding since now.
  pub probe_issued :
      (probe_step heartbeat target obs now st).1.issued ≡ true
      → (obs.found ≡ true)
        × (obs.asked ≡ target)
        × (obs.asked ≤ obs.ready)
        × (st.last_failed + heartbeat ≤ now)
        × ((probe_step heartbeat target obs now st).0
            ≡ record { outstanding = true; last_failed = st.last_failed; started_at = now })
  unfolding probe_step
  probe_issued e = ground arith

  -- No probe stays outstanding past its time: what is outstanding after a call was started less
  -- than two minutes ago.
  pub probe_expires :
      (probe_step heartbeat target obs now st).0.outstanding ≡ true
      → now < (probe_step heartbeat target obs now st).0.started_at + probe_verdict_timeout
  unfolding probe_step
  probe_expires e = ground arith

  -- A call settles nothing in secret: the record is closed only by an answer or by the timeout, and
  -- what is refused or times out is stamped with the time of the call.
  pub probe_closed :
      st.outstanding ≡ true
      → (probe_step heartbeat target obs now st).0.outstanding ≡ false
      → ((obs.found ≡ true) × (obs.asked ≤ obs.ready))
        ⊎ ((probe_step heartbeat target obs now st).0.last_failed ≡ now)
  unfolding probe_step
  probe_closed e d = ground arith

-- A group is left out of the capacity map exactly when it has no child: neither one that the pool
-- owns nor another's object of its name.
pub capacity-none_iff :
    (outstanding : Bool) (obs : Observation)
    → (group_capacity outstanding obs ≡ none) ↔ ((obs.foreign ≡ false) × (obs.found ≡ false))
unfolding group_capacity
capacity-none_iff outstanding obs = ground arith

-- An unjudged probe is no capacity. While the extra replica that a probe asked for is neither ready
-- nor refused, the group counts for what it had before the probe.
pub unjudged_probe_capacity :
    (obs : Observation) (before : ℕ)
    → obs.found ≡ true
    → obs.foreign ≡ false
    → obs.asked ≡ before + 1
    → obs.ready ≤ before
    → obs.unschedulable ≡ 0
    → group_capacity true obs ≡ some before
unfolding group_capacity
unjudged_probe_capacity obs before f g a r u = ground arith

-- The capacity never passes what was asked for, and what the scheduler refused is taken off it.
pub capacity-le :
    (outstanding : Bool) (obs : Observation) (c : ℕ)
    → group_capacity outstanding obs ≡ some c
    → (c ≤ obs.asked - obs.unschedulable)
unfolding group_capacity
capacity-le outstanding obs c e = ground arith
