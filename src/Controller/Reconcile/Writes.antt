-- ===== src/Controller/Reconcile/Writes.antt =====
-- internal/controller/podpool_controller.go: what a pass that reaches the groups does to the cluster.
use podpool_controller.Prelude.{ℕ, Bool, List, [], ◌∷◌, ◌++◌, map, ◌≡◌, refl, All}
use podpool_controller.Json.{Fields}
use podpool_controller.Api.{GroupSpec, GroupStatus, PodPool}
use podpool_controller.Workload.Object.{ObjectApi, Gvk}
use podpool_controller.Workload.Object.Laws.{ObjectLaws}
use podpool_controller.Controller.Errors.{Result, failed, done}
use podpool_controller.Controller.Events.{Event, Marks}
use podpool_controller.Controller.Probe.{Observations}
use podpool_controller.Controller.Sweep.{Action}
use podpool_controller.Controller.Sweep.Warrant.{
  IsWarranted, All-append, All-implied, sweep_all_orphans-AllWarranted,
}
use podpool_controller.Controller.Group.{
  Kube, Server, Effect, asked_apply, swept, published, events_of, ChildObservation, Proven,
  reconcile_group,
}
use podpool_controller.Controller.Group.Row.{KubeLaws, IsGuarded, reconcile_group-AllGuarded}
use podpool_controller.Controller.Loop.{
  Collected, nothing_collected, collect, turn, reconcile_groups,
}
use podpool_controller.Controller.Reconcile.{Libraries, Answers, Memory}
use podpool_controller.Controller.Reconcile.Run.{probed, looped, full_exit}

-- A group of a list and the target that stands at its place in another.
pub data IsAssigned (g : GroupSpec) (t : ℕ) : List GroupSpec → List ℕ → Type 0 where
  here : {groups : List GroupSpec} {targets : List ℕ} → IsAssigned g t (g ∷ groups) (t ∷ targets)
  there :
      {h : GroupSpec} {u : ℕ} {groups : List GroupSpec} {targets : List ℕ}
      → IsAssigned g t groups targets
      → IsAssigned g t (h ∷ groups) (u ∷ targets)

module _ (api : ObjectApi) (kube : Kube) (server : Server) (laws : ObjectLaws api)
    (kube_laws : KubeLaws api kube) (pool : PodPool) (spec_groups : List GroupSpec)
    (spec_targets : List ℕ) where
  -- An apply is for a group of the spec, with the target of the pass, and is guarded.
  abbrev pub IsForGroup : Effect → Type 0
  IsForGroup e =
      (g : GroupSpec) × ((t : ℕ) × IsAssigned g t spec_groups spec_targets
        × IsGuarded api kube pool server g t e)

  collect-log :
      (previous : List GroupStatus) (g : GroupSpec) (t : ℕ) (c : Collected) (marks : Marks)
      (proven : Proven) (log : List Effect) (r : Result (GroupStatus × ChildObservation))
      → (collect previous g t c marks proven log r).log ≡ c.log ++ log
  collect-log previous g t c marks proven log (failed e) = refl
  collect-log previous g t c marks proven log (done (row, obs)) = refl

  loop-AllForGroup :
      (previous : List GroupStatus) (template : Fields) (gvk : Gvk) (groups : List GroupSpec)
      (targets : List ℕ) (c : Collected)
      → ((g : GroupSpec) (t : ℕ)
          → IsAssigned g t groups targets
          → IsAssigned g t spec_groups spec_targets)
      → All IsForGroup c.log
      → All IsForGroup
          (reconcile_groups api kube server pool previous template gvk groups targets c).log
  unfolding reconcile_groups
  loop-AllForGroup previous template gvk [] targets c inside all = all
  loop-AllForGroup previous template gvk (g ∷ groups) [] c inside all = all
  loop-AllForGroup previous template gvk (g ∷ groups) (t ∷ targets) c inside all =
      let pass = reconcile_group api kube server pool template gvk g t c.marks c.proven in
      loop-AllForGroup previous template gvk groups targets
        (turn api kube server pool previous template gvk g t c) (λ h u at. inside h u (there at))
        (rw (collect-log previous g t c pass.marks pass.proven pass.log pass.result) (
          All-append IsForGroup c.log pass.log all (
            All-implied (IsGuarded api kube pool server g t) IsForGroup
              (λ e guarded. (g, (t, inside g t here, guarded))) pass.log
              (reconcile_group-AllGuarded api kube pool server laws kube_laws template gvk g t
                c.marks c.proven))))

module _ (libs : Libraries) (ans : Answers) (laws : ObjectLaws libs.api)
    (kube_laws : KubeLaws libs.api libs.kube) (mem : Memory) (before pool : PodPool)
    (was_paused : Bool) (gvk : Gvk) (template : Fields) (observed : Observations) where
  abbrev the_loop : Collected
  the_loop = looped libs ans mem before pool gvk template observed

  -- What a write has to be: an apply, the guarded child of a group with its target of this pass; a
  -- deletion, one that the sweep may ask for.
  abbrev pub IsLawful : Effect → Type 0
  IsLawful (asked_apply d) =
      IsForGroup libs.api libs.kube ans.applying laws kube_laws pool pool.spec.groups
        (probed libs ans mem pool observed).targets (asked_apply d)
  IsLawful (swept a) = IsWarranted ans.cluster pool gvk the_loop.reconciled a
  IsLawful (published e) = Unit

  events-IsLawful : (events : List Event) → All IsLawful (events_of events)
  events-IsLawful [] = tt
  events-IsLawful (e ∷ events) = (tt, events-IsLawful events)

  swept-IsLawful :
      (actions : List Action)
      → All (IsWarranted ans.cluster pool gvk the_loop.reconciled) actions
      → All IsLawful (map swept actions)
  swept-IsLawful [] all = tt
  swept-IsLawful (a ∷ actions) (first, rest) = (first, swept-IsLawful actions rest)

  IsLawful-of :
      (e : Effect)
      → IsForGroup libs.api libs.kube ans.applying laws kube_laws pool pool.spec.groups
          (probed libs ans mem pool observed).targets
          e
      → IsLawful e
  IsLawful-of (asked_apply d) for_group = for_group
  IsLawful-of (swept a) (g, (t, at, never)) = absurd (cc)
  IsLawful-of (published e) for_group = tt

  loop-AllLawful : All IsLawful the_loop.log
  unfolding looped
  loop-AllLawful = All-implied _ IsLawful IsLawful-of the_loop.log (
      loop-AllForGroup libs.api libs.kube ans.applying laws kube_laws pool pool.spec.groups
        (probed libs ans mem pool observed).targets before.status.groups template gvk
        pool.spec.groups (probed libs ans mem pool observed).targets
        (nothing_collected mem.out_of_range mem.proven) (λ g t at. at) tt)

  -- A pass that reaches the groups writes nothing else than that, in whatever state it finds them.
  pub full_exit-AllLawful :
      All IsLawful (full_exit libs ans mem before pool was_paused gvk template observed).log
  unfolding full_exit
  full_exit-AllLawful = All-append IsLawful (events_of _) _ (events-IsLawful _) (
      All-append IsLawful the_loop.log _ loop-AllLawful (
        All-append IsLawful (map swept _) _
          (swept-IsLawful _ (
            sweep_all_orphans-AllWarranted ans.cluster before.status.groups pool gvk
              the_loop.reconciled))
          (events-IsLawful _)))
