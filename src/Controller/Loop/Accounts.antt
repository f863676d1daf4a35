-- ===== src/Controller/Loop/Accounts.antt =====
-- internal/controller/podpool_controller.go: what the loop over the groups collects.
use podpool_controller.Prelude.{
  ℕ, suc, ◌+◌, ◌≤◌, Bool, true, false, not, ◌&&◌, List, [], ◌∷◌, ◌++◌, String, str_eq, str_eq_iff,
  ◌≡◌, refl, sym, ap, ◌∙◌, inl, inr, length, length-append, Bool-cases, Option-cases, if◌then◌else◌,
  All, arith,
}
use podpool_controller.Json.{Fields}
use podpool_controller.Api.{GroupSpec, GroupStatus, PodPool}
use podpool_controller.Workload.Object.{ObjectApi, Gvk}
use podpool_controller.Workload.Render.Child.{build_child_workload}
use podpool_controller.Controller.Progress.{find_group_status}
use podpool_controller.Controller.Errors.{
  Error, wrapped, is_terminal, is_not_owned, classify_group_error, Result, failed, done,
}
use podpool_controller.Controller.Errors.Laws.{class_of_error}
use podpool_controller.Controller.Events.{Marks}
use podpool_controller.Controller.Sweep.{group_names}
use podpool_controller.Controller.Metrics.{status_names}
use podpool_controller.Controller.Group.{
  Kube, Server, Effect, ChildObservation, Proven, group_row, observed_group, reconcile_workload,
  reconcile_group,
}
use podpool_controller.Controller.Loop.{Collected, carried, add_if, collect, turn, reconcile_groups}

-- An error that no retry mends: of a group's spec, and no conflict over its child.
abbrev pub is_final : Error → Bool
is_final e = not (is_not_owned e) && is_terminal e

unfoldable pub finals : List Error → ℕ
finals [] = 0
finals (e ∷ errors) = let rest = finals errors in if is_final e then suc rest else rest

finals-append : (a b : List Error) → finals (a ++ b) ≡ finals a + finals b
unfolding finals
finals-append [] b = omega arith
finals-append (e ∷ a) b = elim (Bool-cases (is_final e)) [
  | inl final ↦ rw (final) (omega (arith, finals-append a b))
  | inr retried ↦ rw (retried) (finals-append a b)
]

pub finals_small : (errors : List Error) → finals errors ≤ length errors
unfolding finals
finals_small [] = omega arith
finals_small (e ∷ errors) = ground (arith, finals_small errors)

pub finals-All :
    (errors : List Error) → finals errors ≡ length errors → All (λ e. is_final e ≡ true) errors
unfolding finals
finals-All [] h = tt
finals-All (e ∷ errors) h = elim (Bool-cases (is_final e)) [
  | inl final ↦ (final, finals-All errors (ground arith))
  | inr retried ↦ absurd (ground (arith, finals_small errors))
]

pub All-finals :
    (errors : List Error) → All (λ e. is_final e ≡ true) errors → finals errors ≡ length errors
unfolding finals
All-finals [] h = refl
All-finals (e ∷ errors) (final, rest) = rw (final) (omega (arith, All-finals errors rest))

status_names-append :
    (a : List GroupStatus) (row : GroupStatus)
    → status_names (a ++ row ∷ []) ≡ status_names a ++ row.name ∷ []
status_names-append [] row = refl
status_names-append (g ∷ a) row = ap (◌∷◌ g.name) (status_names-append a row)

append-empty : (a : List String) → a ++ [] ≡ a
append-empty [] = refl
append-empty (s ∷ a) = ap (◌∷◌ s) (append-empty a)

append_assoc : (a : List String) (s : String) (b : List String) → (a ++ s ∷ []) ++ b ≡ a ++ s ∷ b
append_assoc [] s b = refl
append_assoc (t ∷ a) s b = ap (◌∷◌ t) (append_assoc a s b)

carried-name :
    (previous : List GroupStatus) (name reason : String) (target : ℕ)
    → (carried name reason target (find_group_status previous name)).name ≡ name
unfolding find_group_status
carried-name [] name reason target = refl
carried-name (g ∷ previous) name reason target = elim (Bool-cases (str_eq g.name name)) [
  | inl same ↦ rw (same) ((str_eq_iff g.name name).0 same)
  | inr other ↦ rw (other) (carried-name previous name reason target)
]

-- As many groups are listed as terminal as there are errors that no retry mends.
abbrev pub IsBalanced : Collected → Type 0
IsBalanced c = length c.terminal_groups ≡ finals c.errors

length-add_if :
    (b : Bool) (name : String) (names : List String)
    → length (add_if b name names) ≡ length names + (if b then 1 else 0)
length-add_if true name names = length-append names (name ∷ [])
length-add_if false name names = omega arith

finals_one :
    (what : String) (e : Error) → finals (wrapped what e ∷ []) ≡ (if is_final e then 1 else 0)
unfolding finals is_terminal
finals_one what e = refl

abbrev IsNamed : GroupSpec → Result (GroupStatus × ChildObservation) → Type 0
IsNamed g (failed e) = Unit
IsNamed g (done (row, obs)) = row.name ≡ g.name

module _ (previous : List GroupStatus) (g : GroupSpec) (t : ℕ) (c : Collected) (marks : Marks)
    (proven : Proven) (log : List Effect) where
  collect-IsBalanced :
      (r : Result (GroupStatus × ChildObservation))
      → IsBalanced c
      → IsBalanced (collect previous g t c marks proven log r)
  collect-IsBalanced (failed e) balanced =
      let (_, _, both, _) = class_of_error g.name e in
      let is_last = (classify_group_error g.name e).0 in
      rw
        (
          length-add_if is_last g.name c.terminal_groups,
          both,
          finals-append c.errors (wrapped _ e ∷ []),
          finals_one _ e,
          balanced,
        )
        refl
  collect-IsBalanced (done (row, obs)) balanced = balanced

  collect-names :
      (r : Result (GroupStatus × ChildObservation))
      → IsNamed g r
      → status_names (collect previous g t c marks proven log r).rows
        ≡ status_names c.rows ++ g.name ∷ []
  collect-names (failed e) named =
      let reason = (classify_group_error g.name e).1.reason in
      status_names-append c.rows (carried g.name reason t (find_group_status previous g.name))
      ∙ ap (λ s. status_names c.rows ++ s ∷ []) (carried-name previous g.name reason t)
  collect-names (done (row, obs)) named =
      status_names-append c.rows (record row { target_replicas = t })
      ∙ ap (λ s. status_names c.rows ++ s ∷ []) named

module _ (api : ObjectApi) (kube : Kube) (server : Server) (pool : PodPool) where
  observed-IsNamed :
      (gvk : Gvk) (g : GroupSpec) (name : String) (marks : Marks) (proven : Proven)
      (outcome : List Effect × Result ChildObservation)
      → IsNamed g (observed_group api kube pool gvk g name marks proven outcome).result
  unfolding group_row
  observed-IsNamed gvk g name marks proven (log, failed e) = tt
  observed-IsNamed gvk g name marks proven (log, done obs) = refl

  reconcile_group-IsNamed :
      (template : Fields) (gvk : Gvk) (g : GroupSpec) (t : ℕ) (marks : Marks) (proven : Proven)
      → IsNamed g (reconcile_group api kube server pool template gvk g t marks proven).result
  unfolding reconcile_group
  reconcile_group-IsNamed template gvk g t marks proven =
      elim (Option-cases (build_child_workload api template g pool t)) [
        | inl unbuilt ↦ rw (unbuilt) tt
        | inr (desired, built) ↦ rw (built) (
            observed-IsNamed gvk g (api.get_name desired) marks proven
              (reconcile_workload api kube server pool desired))
      ]

  pub reconcile_groups-IsBalanced :
      (previous : List GroupStatus) (template : Fields) (gvk : Gvk) (groups : List GroupSpec)
      (targets : List ℕ) (c : Collected)
      → IsBalanced c
      → IsBalanced (reconcile_groups api kube server pool previous template gvk groups targets c)
  unfolding reconcile_groups
  reconcile_groups-IsBalanced previous template gvk [] targets c balanced = balanced
  reconcile_groups-IsBalanced previous template gvk (g ∷ groups) [] c balanced = balanced
  reconcile_groups-IsBalanced previous template gvk (g ∷ groups) (t ∷ targets) c balanced =
      let pass = reconcile_group api kube server pool template gvk g t c.marks c.proven in
      reconcile_groups-IsBalanced previous template gvk groups targets
        (turn api kube server pool previous template gvk g t c)
        (collect-IsBalanced previous g t c pass.marks pass.proven pass.log pass.result balanced)

  pub reconcile_groups-names :
      (previous : List GroupStatus) (template : Fields) (gvk : Gvk) (groups : List GroupSpec)
      (targets : List ℕ) (c : Collected)
      → length targets ≡ length groups
      → status_names
          (reconcile_groups api kube server pool previous template gvk groups targets c).rows
        ≡ status_names c.rows ++ group_names groups
  unfolding reconcile_groups
  reconcile_groups-names previous template gvk [] targets c h = sym (append-empty _)
  reconcile_groups-names previous template gvk (g ∷ groups) [] c h = absurd (omega (arith, h))
  reconcile_groups-names previous template gvk (g ∷ groups) (t ∷ targets) c h =
      let pass = reconcile_group api kube server pool template gvk g t c.marks c.proven in
      reconcile_groups-names previous template gvk groups targets
        (turn api kube server pool previous template gvk g t c) (omega (arith, h))
      ∙ (ap (λ names. names ++ group_names groups)
            (collect-names previous g t c pass.marks pass.proven pass.log pass.result
              (reconcile_group-IsNamed template gvk g t c.marks c.proven))
          ∙ append_assoc (status_names c.rows) g.name (group_names groups))
