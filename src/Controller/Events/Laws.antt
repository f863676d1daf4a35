-- ===== src/Controller/Events/Laws.antt =====
-- internal/controller/podpool_controller.go: an event is published when something changes, once.
use podpool_controller.Prelude.{
  ℕ, suc, Bool, true, not, ◌&&◌, List, [], ◌∷◌, ◌++◌, length-append, String, ◌≡◌, refl, str_eq,
  str_eq_iff, length, at, at-put, at-remove, if◌then◌else◌, arith, inl, inr, Bool-cases,
}
use podpool_controller.Api.{PodPool}
use podpool_controller.Controller.Probe.{probe_key}
use podpool_controller.Controller.Events.{Event, Marks, is_marked, report_out_of_range}

-- The reports of one group over successive passes: whether the child was out of range in each.
unfoldable pub reports : PodPool → String → String → String → List Bool → Marks → List Event
unfolding report_out_of_range
reports pool group kind child [] marks = []
reports pool group kind child (b ∷ more) marks =
    let (next, events) = report_out_of_range pool group kind child b marks in
    events ++ reports pool group kind child more next

-- How often a flag goes up.
unfoldable pub rises : Bool → List Bool → ℕ
rises before [] = 0
rises before (b ∷ more) = let rest = rises b more in if b && not before then suc rest else rest

abbrev pub marked : PodPool → String → Marks → Bool
marked pool group marks = is_marked (at str_eq (probe_key pool group) marks)

report_step :
    (pool : PodPool) (group kind child : String) (b : Bool) (marks : Marks)
    → let (next, events) = report_out_of_range pool group kind child b marks in
      (marked pool group next ≡ b)
      × (length events ≡ (if b && not (marked pool group marks) then 1 else 0))
unfolding report_out_of_range
report_step pool group kind child b marks = elim (Bool-cases b) [
  | inl out ↦ elim (Bool-cases (marked pool group marks)) [
    | inl known ↦ rw (out, known) (known, refl)
    | inr fresh ↦
        rw (out, fresh) (rw (at-put str_eq str_eq_iff (probe_key pool group) true marks) refl, refl)
  ]
  | inr fits ↦ rw (fits) (rw (at-remove str_eq str_eq_iff (probe_key pool group) marks) refl, refl)
]

-- A child whose counts are out of range is reported once for each stretch of passes in which they stay
-- so: over any passes, as many events as there are passes that follow one in which they fitted.
pub length-reports :
    (pool : PodPool) (group kind child : String) (flags : List Bool) (marks : Marks)
    → length (reports pool group kind child flags marks) ≡ rises (marked pool group marks) flags
unfolding reports rises
length-reports pool group kind child [] marks = refl
length-reports pool group kind child (b ∷ more) marks =
    let (next, events) = report_out_of_range pool group kind child b marks in
    let (after, count) = report_step pool group kind child b marks in
    rw
      (
        length-append events (reports pool group kind child more next),
        count,
        length-reports pool group kind child more next,
        after,
      )
      (ground arith)
