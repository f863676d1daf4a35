-- ===== src/Controller/Observe/ColdStart.antt =====
-- internal/controller/opportunistic.go: what an observation stands on.
use podpool_controller.Prelude.{
  ℕ, true, false, ◌&&◌, ltb, List, [], ◌∷◌, String, str_eq, ◌≡◌, refl, subst, ◌⊎◌, inl, inr, All,
  Bool-cases, put,
}
use podpool_controller.Json.{Fields}
use podpool_controller.Api.{GroupSpec, PodPool}
use podpool_controller.Workload.Object.{ObjectApi, Gvk}
use podpool_controller.Workload.Scaling.{is_opportunistic}
use podpool_controller.Workload.Render.{child_name}
use podpool_controller.Controller.Probe.{Observation, Observations}
use podpool_controller.Controller.Errors.{api_reason, is_missing, Result, failed, done}
use podpool_controller.Controller.Group.{Kube, Answer, unread, got, Server, is_controlled}
use podpool_controller.Controller.Group.Guard.{IsAbsent}
use podpool_controller.Controller.Group.Refusal.{IsShown}
use podpool_controller.Controller.Observe.Noted.{AllNoted, IsExtended, groups-IsExtended}
use podpool_controller.Controller.Observe.{
  PodCondition, counts_of, uncached_counts, cached_counts, child_counts, completed,
  with_unschedulable, noted, and_then, observe_groups, observe_opportunistic,
}

counted_keeps :
    (n : Result ℕ) (obs : Observation)
    → ((with_unschedulable n obs).found ≡ obs.found)
      × ((with_unschedulable n obs).foreign ≡ obs.foreign)
counted_keeps (failed e) obs = (refl, refl)
counted_keeps (done n) obs = (refl, refl)

module _ (api : ObjectApi) (kube : Kube) (server : Server) (pool : PodPool) (gvk : Gvk) where
  -- An observation of a group is of a child of the pool's, or of another's child, or of none.
  abbrev pub IsTold : String × Observation → Type 0
  IsTold (group, obs) =
      ((obs.found ≡ true)
        × (obs.foreign ≡ false)
        × ((child : Fields) × IsShown server gvk (child_name pool.name group) child
            × (is_controlled api kube pool child ≡ true)))
      ⊎ ((obs.found ≡ false)
          × (obs.foreign ≡ true)
          × ((child : Fields) × IsShown server gvk (child_name pool.name group) child
              × (is_controlled api kube pool child ≡ false)))
      ⊎ ((obs.found ≡ false)
          × (obs.foreign ≡ false)
          × IsAbsent (server.get_cached gvk (child_name pool.name group))
          × IsAbsent (server.get_uncached gvk (child_name pool.name group)))

  abbrev IsGood : String → Result Observation → Type 0
  IsGood group (failed e) = Unit
  IsGood group (done obs) = IsTold (group, obs)

  counts_of-IsTold :
      (group : String) (child : Fields)
      → IsShown server gvk (child_name pool.name group) child
      → IsTold (group, counts_of api kube pool child)
  counts_of-IsTold group child shown = elim (Bool-cases (is_controlled api kube pool child)) [
    | inl ours ↦ rw (ours) (inl (refl, refl, (child, shown, ours)))
    | inr theirs ↦ rw (theirs) (inr (inl (refl, refl, (child, shown, theirs))))
  ]

  uncached-IsGood :
      (group : String) (a : Answer)
      → IsAbsent (server.get_cached gvk (child_name pool.name group))
      → server.get_uncached gvk (child_name pool.name group) ≡ a
      → IsGood group (uncached_counts api kube pool a)
  uncached-IsGood group (unread e) missed said = elim (Bool-cases (is_missing (api_reason e))) [
    | inl gone ↦ rw (gone) (inr (inr (refl, refl, missed, (e, said, gone))))
    | inr other ↦ rw (other) tt
  ]
  uncached-IsGood group (got child) missed said = counts_of-IsTold group child (inr (missed, said))

  cached-IsGood :
      (group : String) (a : Answer)
      → server.get_cached gvk (child_name pool.name group) ≡ a
      → IsGood group (cached_counts api kube server pool gvk (child_name pool.name group) a)
  cached-IsGood group (unread e) said = elim (Bool-cases (is_missing (api_reason e))) [
    | inl gone ↦ rw (gone) (
        uncached-IsGood group (server.get_uncached gvk (child_name pool.name group)) (e, said, gone)
          refl)
    | inr other ↦ rw (other) tt
  ]
  cached-IsGood group (got child) said = counts_of-IsTold group child (inl said)

  module _ (list_pending : String → ℕ → Result (List (List PodCondition))) where
    completed_keeps :
        (group : String) (obs : Observation)
        → ((completed list_pending group obs).found ≡ obs.found)
          × ((completed list_pending group obs).foreign ≡ obs.foreign)
    unfolding completed
    completed_keeps group obs = elim (Bool-cases (obs.found && ltb obs.ready obs.asked)) [
      | inl short ↦ rw (short) (counted_keeps _ obs)
      | inr full ↦ rw (full) (refl, refl)
    ]

    completed-IsTold :
        (group : String) (obs : Observation)
        → IsTold (group, obs)
        → IsTold (group, completed list_pending group obs)
    completed-IsTold group obs told =
        let (found, foreign) = completed_keeps group obs in rw (found, foreign) told

    put-AllTold :
        (group : String) (obs : Observation) (out : Observations)
        → IsTold (group, obs)
        → All IsTold out
        → All IsTold (put str_eq group obs out)
    put-AllTold group obs [] told all = (told, tt)
    put-AllTold group obs ((other, old) ∷ out) told (first, rest) =
        elim (Bool-cases (str_eq group other)) [
          | inl same ↦ rw (same) (told, rest)
          | inr apart ↦ rw (apart) (first, put-AllTold group obs out told rest)
        ]

    abbrev AllGood : Result Observations → Type 0
    AllGood (failed e) = Unit
    AllGood (done out) = All IsTold out

    noted-AllGood :
        (out : Observations) (group : String) (r : Result Observation)
        → All IsTold out
        → IsGood group r
        → AllGood (noted api kube server list_pending out group r)
    noted-AllGood out group (failed e) all good = tt
    noted-AllGood out group (done obs) all good =
        put-AllTold group (completed list_pending group obs) out (completed-IsTold group obs good)
          all

    and_then-AllGood :
        (r : Result Observations) (next : Observations → Result Observations)
        → AllGood r
        → ((out : Observations) → All IsTold out → AllGood (next out))
        → AllGood (and_then r next)
    and_then-AllGood (failed e) next good keeps = tt
    and_then-AllGood (done out) next good keeps = keeps out good

    groups-AllGood :
        (groups : List GroupSpec) (out : Observations)
        → All IsTold out
        → AllGood (observe_groups api kube server list_pending pool gvk groups out)
    unfolding observe_groups child_counts
    groups-AllGood [] out all = all
    groups-AllGood (g ∷ groups) out all = elim (Bool-cases (is_opportunistic g.scaling)) [
      | inr fixed ↦ rw (fixed) (groups-AllGood groups out all)
      | inl grows ↦ rw (grows) (
          and_then-AllGood _ _
            (noted-AllGood out g.name (child_counts api kube server pool gvk g.name) all
              (cached-IsGood g.name (server.get_cached gvk (child_name pool.name g.name)) refl))
            (groups-AllGood groups))
    ]

    -- A group counts as a cold start only on the API server's word: whenever the observation of a pool
    -- succeeds, every opportunistic group of the spec has an entry, and each entry is of a child that a
    -- read showed, and tells whether the pool controls it, or of a child that the cache and then the API
    -- server said does not exist; so a read that failed is never taken for an absence.
    pub observe_opportunistic-AllTold :
        (out : Observations)
        → observe_opportunistic api kube server list_pending pool gvk ≡ done out
        → All IsTold out × AllNoted pool.spec.groups out
    unfolding observe_opportunistic
    observe_opportunistic-AllTold out h = (
      subst AllGood h (groups-AllGood pool.spec.groups [] tt),
      (subst (IsExtended pool.spec.groups []) h
          (groups-IsExtended api kube server pool gvk list_pending pool.spec.groups [])).1,
    )
