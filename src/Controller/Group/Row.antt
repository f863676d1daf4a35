-- ===== src/Controller/Group/Row.antt =====
-- internal/controller/podpool_controller.go: what the reconciliation of a group writes, and what is left
-- of one that fails.
use podpool_controller.Prelude.{
  ℕ, true, false, Option, none, some, List, [], ◌∷◌, ◌++◌, String, ◌≡◌, refl, sym, subst, ◌∙◌, ◌⊎◌,
  inl, inr, All, Option-cases, pos,
}
use podpool_controller.Json.{Fields, num}
use podpool_controller.Api.{GroupSpec, PodPool}
use podpool_controller.Workload.Object.{ObjectApi, Gvk}
use podpool_controller.Workload.Object.Laws.{ObjectLaws}
use podpool_controller.Workload.Render.{child_name}
use podpool_controller.Workload.Render.Child.{build_child_workload, owner_of}
use podpool_controller.Workload.Render.Ownership.{build_child_workload-IsOwned}
use podpool_controller.Controller.Errors.{Error, leaf, wrapped, terminal, Result, failed, done}
use podpool_controller.Controller.Errors.Laws.{failed-injective}
use podpool_controller.Controller.Events.{Event, Marks}
use podpool_controller.Controller.Group.{
  Kube, Server, Effect, asked_apply, swept, published, ChildObservation, events_of,
  reconcile_workload, Proven, GroupPass, workload_error, observed_group, rendered, reconcile_group,
}
use podpool_controller.Controller.Group.Refusal.{IsAccounted, reconcile_workload-IsAccounted}
use podpool_controller.Controller.Group.Guard.{IsSafe, IsSettled, reconcile_workload-IsSettled}

-- What `SetResourceVersion` leaves as it is.
pub record KubeLaws (api : ObjectApi) (kube : Kube) : Type 0 where
  pub keeps_name : (d : Fields) → api.get_name (kube.clear_resource_version d) ≡ api.get_name d
  pub keeps_gvk : (d : Fields) → kube.gvk_of (kube.clear_resource_version d) ≡ kube.gvk_of d
  pub keeps_owners :
      (d : Fields)
      → api.get_owner_references (kube.clear_resource_version d) ≡ api.get_owner_references d
  pub keeps_spec :
      (d : Fields) (path : List String)
      → api.nested_field ("spec" ∷ path) (kube.clear_resource_version d)
        ≡ api.nested_field ("spec" ∷ path) d

module _ (api : ObjectApi) (kube : Kube) (pool : PodPool) (server : Server) where
  -- An apply writes the child of the group: its name, the pool as its one owner and the replicas that
  -- it was given, over nothing that is not the pool's. A group deletes nothing.
  abbrev pub IsGuarded : GroupSpec → ℕ → Effect → Type 0
  IsGuarded group target (asked_apply d) =
      (api.get_name d ≡ child_name pool.name group.name)
      × (api.get_owner_references d ≡ owner_of pool ∷ [])
      × (api.nested_field ("spec" ∷ "replicas" ∷ []) d ≡ some (num (pos target)))
      × IsSafe api kube pool server (kube.gvk_of d) (child_name pool.name group.name)
  IsGuarded group target (swept a) = true ≡ false
  IsGuarded group target (published e) = Unit

  events-IsGuarded :
      (group : GroupSpec) (target : ℕ) (events : List Event)
      → All (IsGuarded group target) (events_of events)
  events-IsGuarded group target [] = tt
  events-IsGuarded group target (e ∷ events) = (tt, events-IsGuarded group target events)

  module _ (laws : ObjectLaws api) (kube_laws : KubeLaws api kube) where
    one-IsGuarded :
        (group : GroupSpec) (target : ℕ) (template desired : Fields)
        → build_child_workload api template group pool target ≡ some desired
        → IsSafe api kube pool server (kube.gvk_of desired) (api.get_name desired)
        → IsGuarded group target (asked_apply (kube.clear_resource_version desired))
    one-IsGuarded group target template desired built safe =
        let (name, owners, replicas, _, _) =
          build_child_workload-IsOwned api laws pool group template desired target built in
        (
          kube_laws.keeps_name desired ∙ name,
          kube_laws.keeps_owners desired ∙ owners,
          kube_laws.keeps_spec desired ("replicas" ∷ []) ∙ replicas,
          rw (kube_laws.keeps_gvk desired)
              (subst (IsSafe api kube pool server (kube.gvk_of desired)) name safe),
        )

    settled-IsGuarded :
        (group : GroupSpec) (target : ℕ) (template desired : Fields) (log : List Effect)
        (r : Result ChildObservation)
        → build_child_workload api template group pool target ≡ some desired
        → IsSettled api kube pool server desired (log, r)
        → All (IsGuarded group target) log
    settled-IsGuarded group target template desired log r built (inl (quiet, _)) = rw (quiet) tt
    settled-IsGuarded group target template desired log r built (inr (asked, safe, _)) =
        rw (asked) (one-IsGuarded group target template desired built safe, tt)

    append-IsGuarded :
        (group : GroupSpec) (target : ℕ) (log more : List Effect)
        → All (IsGuarded group target) log
        → All (IsGuarded group target) more
        → All (IsGuarded group target) (log ++ more)
    append-IsGuarded group target [] more here there = there
    append-IsGuarded group target (e ∷ log) more (first, here) there =
        (first, append-IsGuarded group target log more here there)

    rendered-AllGuarded :
        (gvk : Gvk) (group : GroupSpec) (target : ℕ) (template desired : Fields) (marks : Marks)
        (proven : Proven) (outcome : List Effect × Result ChildObservation)
        → build_child_workload api template group pool target ≡ some desired
        → IsSettled api kube pool server desired outcome
        → All
            (IsGuarded group target)
            (observed_group api kube pool gvk group (api.get_name desired) marks proven outcome).log
    rendered-AllGuarded gvk group target template desired marks proven (log, failed e) built at =
        settled-IsGuarded group target template desired log (failed e) built at
    rendered-AllGuarded gvk group target template desired marks proven (log, done obs) built at =
        append-IsGuarded group target log _
          (settled-IsGuarded group target template desired log (done obs) built at)
          (events-IsGuarded group target _)

    -- What a pass writes for a group is the group's own child and over nothing of another's: over
    -- accessors that read back what was set, every apply that it asks for has the child's name, the pool
    -- as its one owner and the target as its replicas, and before it the server has shown an object of
    -- that name that the pool controls, or has said, past the cache, that there is none.
    pub reconcile_group-AllGuarded :
        (template : Fields) (gvk : Gvk) (group : GroupSpec) (target : ℕ) (marks : Marks)
        (proven : Proven)
        → All
            (IsGuarded group target)
            (reconcile_group api kube server pool template gvk group target marks proven).log
    unfolding reconcile_group
    reconcile_group-AllGuarded template gvk group target marks proven =
        elim (Option-cases (build_child_workload api template group pool target)) [
          | inl none_built ↦ rw (none_built) tt
          | inr (desired, built) ↦ rw (built) (
              rendered-AllGuarded gvk group target template desired marks proven
                (reconcile_workload api kube server pool desired) built
                (reconcile_workload-IsSettled api kube pool server desired))
        ]

  -- What is left of a group that failed.
  abbrev pub IsFailure : Fields → GroupSpec → ℕ → Marks → Proven → Error → GroupPass → Type 0
  IsFailure template group target marks proven e pass =
      (pass.marks ≡ marks)
      × (pass.proven ≡ proven)
      × (((pass.log ≡ [])
            × (build_child_workload api template group pool target ≡ none)
            × (e ≡ terminal (wrapped "building workload" (leaf (kube.build_error group)))))
          ⊎ ((desired : Fields) × (build_child_workload api template group pool target
                ≡ some desired)
              × (why : Error) × (e ≡ workload_error api kube why)
              × IsAccounted api kube pool server desired (pass.log, failed why)))

  observed-IsFailure :
      (gvk : Gvk) (group : GroupSpec) (target : ℕ) (template desired : Fields) (marks : Marks)
      (proven : Proven) (e : Error) (outcome : List Effect × Result ChildObservation)
      → build_child_workload api template group pool target ≡ some desired
      → IsAccounted api kube pool server desired outcome
      → (observed_group api kube pool gvk group (api.get_name desired) marks proven outcome).result
        ≡ failed e
      → IsFailure template group target marks proven e
          (observed_group api kube pool gvk group (api.get_name desired) marks proven outcome)
  observed-IsFailure gvk group target template desired marks proven e (log, done obs) built at h =
      absurd (cc)
  observed-IsFailure gvk group target template desired marks proven e (log, failed why) built at h =
      (refl, refl, inr (desired, built, why, sym (failed-injective _ e h), at))

  rendered-IsFailure :
      (template : Fields) (gvk : Gvk) (group : GroupSpec) (target : ℕ) (marks : Marks)
      (proven : Proven) (e : Error) (o : Option Fields)
      → build_child_workload api template group pool target ≡ o
      → (rendered api kube server pool gvk group marks proven o).result ≡ failed e
      → IsFailure template group target marks proven e
          (rendered api kube server pool gvk group marks proven o)
  rendered-IsFailure template gvk group target marks proven e none built h =
      (refl, refl, inl (refl, built, sym (failed-injective _ e h)))
  rendered-IsFailure template gvk group target marks proven e (some desired) built h =
      observed-IsFailure gvk group target template desired marks proven e
        (reconcile_workload api kube server pool desired) built
        (reconcile_workload-IsAccounted api kube pool server desired) h

  -- A group that fails leaves nothing behind but the one write that failed: it publishes no event and
  -- marks no child. It fails for good where the child cannot be rendered. Otherwise its error is that of
  -- the apply of the rendered child; or, with nothing written, that of the read of the cache, or of the
  -- read past it where the cache had no such object, or the refusal of an object that a read showed and
  -- that the pool does not control.
  pub reconcile_group-IsFailure :
      (template : Fields) (gvk : Gvk) (group : GroupSpec) (target : ℕ) (marks : Marks)
      (proven : Proven) (e : Error)
      → (reconcile_group api kube server pool template gvk group target marks proven).result
        ≡ failed e
      → IsFailure template group target marks proven e
          (reconcile_group api kube server pool template gvk group target marks proven)
  unfolding reconcile_group
  reconcile_group-IsFailure template gvk group target marks proven e h =
      rendered-IsFailure template gvk group target marks proven e
        (build_child_workload api template group pool target) refl h
