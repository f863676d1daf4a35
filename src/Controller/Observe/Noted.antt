-- ===== src/Controller/Observe/Noted.antt =====
-- internal/controller/opportunistic.go: which groups an observation has an entry for.
use podpool_controller.Prelude.{
  ℕ, false, some, List, [], ◌∷◌, String, str_eq, str_eq_iff, ◌≡◌, refl, ◌⊎◌, inl, inr, All,
  Bool-cases, put, arith,
}
use podpool_controller.Api.{GroupSpec, PodPool}
use podpool_controller.Workload.Object.{ObjectApi, Gvk}
use podpool_controller.Workload.Scaling.{is_opportunistic}
use podpool_controller.Controller.Probe.{Observation, Observations, observation_of}
use podpool_controller.Controller.Errors.{Result, failed, done}
use podpool_controller.Controller.Group.{Kube, Server}
use podpool_controller.Controller.Observe.{
  PodCondition, child_counts, completed, noted, and_then, observe_groups,
}

-- Every opportunistic group has an entry.
abbrev pub AllNoted : List GroupSpec → Observations → Type 0
AllNoted groups out =
    All
      (λ g.
        (is_opportunistic g.scaling ≡ false)
        ⊎ ((obs : Observation) × (observation_of g.name out ≡ some obs)))
      groups

-- The entries that are there stay there.
abbrev IsKept : Observations → Observations → Type 0
IsKept out more =
    (k : String) (obs : Observation)
    → observation_of k out ≡ some obs
    → (obs' : Observation) × (observation_of k more ≡ some obs')

put-found :
    (group : String) (obs : Observation) (out : Observations)
    → observation_of group (put str_eq group obs out) ≡ some obs
unfolding observation_of
put-found group obs [] = rw ((str_eq_iff group group).1 refl) refl
put-found group obs ((j, old) ∷ out) = elim (Bool-cases (str_eq group j)) [
  | inl same ↦ rw (same, (str_eq_iff group group).1 refl) refl
  | inr apart ↦
      let off : str_eq j group ≡ false =
        ground (arith, str_eq_iff j group, str_eq_iff group j, apart) in
      rw (apart, off) (put-found group obs out)
]

put-IsKept :
    (group : String) (obs : Observation) (out : Observations)
    → IsKept out (put str_eq group obs out)
unfolding observation_of
put-IsKept group obs [] k old h = absurd (cc)
put-IsKept group obs ((j, w) ∷ out) k old h = elim (Bool-cases (str_eq group j)) [
  | inl same ↦
      let alike : group ≡ j = (str_eq_iff group j).0 same in
      elim (Bool-cases (str_eq j k)) [
        | inl here ↦ rw (same, alike, here) (obs, refl)
        | inr there ↦ rw (same, alike, there) (old, rw (there) at h)
      ]
  | inr apart ↦ elim (Bool-cases (str_eq j k)) [
    | inl here ↦ rw (apart, here) (w, refl)
    | inr there ↦ rw (apart, there) (put-IsKept group obs out k old (rw (there) at h))
  ]
]

abbrev pub IsExtended : List GroupSpec → Observations → Result Observations → Type 0
IsExtended groups out (failed e) = Unit
IsExtended groups out (done more) = IsKept out more × AllNoted groups more

fixed-IsExtended :
    (group : GroupSpec) (groups : List GroupSpec) (out : Observations) (r : Result Observations)
    → is_opportunistic group.scaling ≡ false
    → IsExtended groups out r
    → IsExtended (group ∷ groups) out r
fixed-IsExtended group groups out (failed e) fixed h = tt
fixed-IsExtended group groups out (done more) fixed (kept, all) = (kept, (inl fixed, all))

module _ (api : ObjectApi) (kube : Kube) (server : Server) (pool : PodPool) (gvk : Gvk)
    (list_pending : String → ℕ → Result (List (List PodCondition))) where
  next-IsExtended :
      (group : GroupSpec) (groups : List GroupSpec) (out : Observations) (r : Result Observation)
      (next : Observations → Result Observations)
      → ((now : Observations) → IsExtended groups now (next now))
      → IsExtended
          (group ∷ groups)
          out
          (and_then (noted api kube server list_pending out group.name r) next)
  next-IsExtended group groups out (failed e) next goes = tt
  next-IsExtended group groups out (done obs) next goes =
      let now = put str_eq group.name (completed list_pending group.name obs) out in
      after (next now) (goes now)
    where
      after :
          (r : Result Observations)
          → IsExtended groups (put str_eq group.name (completed list_pending group.name obs) out) r
          → IsExtended (group ∷ groups) out r
      after (failed e) h = tt
      after (done more) (kept, all) = (
        (λ k old h.
            let (mid, there) =
              put-IsKept group.name (completed list_pending group.name obs) out k old h in
            kept k mid there),
        (
          inr (
              kept group.name (completed list_pending group.name obs)
                (put-found group.name (completed list_pending group.name obs) out)),
          all,
        ),
      )

  pub groups-IsExtended :
      (groups : List GroupSpec) (out : Observations)
      → IsExtended groups out (observe_groups api kube server list_pending pool gvk groups out)
  unfolding observe_groups
  groups-IsExtended [] out = ((λ k obs h. (obs, h)), tt)
  groups-IsExtended (g ∷ groups) out = elim (Bool-cases (is_opportunistic g.scaling)) [
    | inr fixed ↦ rw (fixed) (
        fixed-IsExtended g groups out
          (observe_groups api kube server list_pending pool gvk groups out) fixed
          (groups-IsExtended groups out))
    | inl grows ↦ rw (grows) (
        next-IsExtended g groups out (child_counts api kube server pool gvk g.name)
          (observe_groups api kube server list_pending pool gvk groups) (groups-IsExtended groups))
  ]
