-- ===== src/Webhook/Groups/Laws.antt =====
-- internal/webhook/v1alpha1/podpool_webhook.go: how many groups the rule on overflow sinks rejects, and
-- what holds of groups that are admitted.
use podpool_controller.Prelude.{
  ℕ, suc, ◌-◌, ◌≡◌, refl, none, some, List, [], ◌∷◌, String, if◌then◌else◌, length, arith,
  Bool-cases, inl, inr, ap,
}
use podpool_controller.Api.{GroupSpec}
use podpool_controller.Workload.Scaling.{is_bounded}
use podpool_controller.Webhook.Report.{Segment, Texts}
use podpool_controller.Webhook.Groups.{sink_errors, validate_overflow_sink}

-- How many groups are unbounded.
unfoldable pub sinks : List GroupSpec → ℕ
sinks [] = 0
sinks (g ∷ gs) = let rest = sinks gs in if is_bounded g.scaling then rest else suc rest

module _ (texts : Texts) (path : List Segment) where
  length-sink_errors-some :
      (i : ℕ) (sink : String × ℕ) (gs : List GroupSpec)
      → length (sink_errors texts path i (some sink) gs) ≡ sinks gs
  unfolding sink_errors sinks
  length-sink_errors-some i sink [] = refl
  length-sink_errors-some i sink (g ∷ gs) = elim (Bool-cases (is_bounded g.scaling)) [
    | inl e ↦ rw e (length-sink_errors-some (suc i) sink gs)
    | inr e ↦ rw e (ap suc (length-sink_errors-some (suc i) sink gs))
  ]

  length-sink_errors-none :
      (i : ℕ) (gs : List GroupSpec) → length (sink_errors texts path i none gs) ≡ sinks gs - 1
  unfolding sink_errors sinks
  length-sink_errors-none i [] = refl
  length-sink_errors-none i (g ∷ gs) = elim (Bool-cases (is_bounded g.scaling)) [
    | inl e ↦ rw e (length-sink_errors-none (suc i) gs)
    | inr e ↦ rw e (omega (arith, length-sink_errors-some (suc i) (g.name, i) gs))
  ]

-- The rule on overflow sinks rejects each unbounded group but one, whatever their order: there are as
-- many errors as unbounded groups beyond the first, so none exactly if at most one group is unbounded.
pub length-validate_overflow_sink :
    (texts : Texts) (path : List Segment) (gs : List GroupSpec)
    → length (validate_overflow_sink texts path gs) ≡ sinks gs - 1
unfolding validate_overflow_sink
length-validate_overflow_sink texts path gs = length-sink_errors-none texts path 0 gs
