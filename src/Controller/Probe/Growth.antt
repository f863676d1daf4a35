-- ===== src/Controller/Probe/Growth.antt =====
-- internal/controller/opportunistic.go: a group's probes over many passes.
use podpool_controller.Prelude.{ℕ, ◌≡◌, true, false, List, [], ◌∷◌}
use podpool_controller.Controller.Probe.{Observation, ProbeState, ProbeDecision, probe_step}

-- What one pass reads of a group, and when.
pub record Pass : Type 0 where
  pub target : ℕ
  pub obs : Observation
  pub now : ℕ

-- The decisions of successive passes.
pub probe_run : ℕ → ProbeState → List Pass → List ProbeDecision
probe_run heartbeat st [] = []
probe_run heartbeat st (p ∷ ps) =
    let (st', d) = probe_step heartbeat p.target p.obs p.now st in d ∷ probe_run heartbeat st' ps

-- The decision asks for no more than the distribution did.
abbrev pub IsPlain : ProbeDecision → Type 0
IsPlain d = (d.issued ≡ false) × (d.await_verdict ≡ false)

-- One decision for each pass, with the target that the pass came with.
abbrev pub ArePlain : List Pass → List ProbeDecision → Type 0
ArePlain [] [] = Unit
ArePlain [] (d ∷ ds) = true ≡ false
ArePlain (p ∷ ps) [] = true ≡ false
ArePlain (p ∷ ps) (d ∷ ds) = (d.target ≡ p.target) × IsPlain d × ArePlain ps ds
