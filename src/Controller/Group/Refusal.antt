-- ===== src/Controller/Group/Refusal.antt =====
-- internal/controller/podpool_controller.go: with which error the attempt at a child fails.
use podpool_controller.Prelude.{
  false, some, List, [], ◌∷◌, String, str_eq, ◌≡◌, refl, ◌⊎◌, inl, inr, Bool-cases, Option-cases,
}
use podpool_controller.Json.{Fields}
use podpool_controller.Api.{PodPool}
use podpool_controller.Workload.Object.{ObjectApi, Gvk}
use podpool_controller.Controller.Errors.{Error, api_reason, is_missing, Result, failed, done}
use podpool_controller.Controller.Group.{
  Kube, Answer, unread, got, Server, Effect, asked_apply, ChildObservation, just_created,
  is_controlled, observe_child, refusal, apply_child, confirmed, cached, reconcile_workload,
}
use podpool_controller.Controller.Group.Guard.{IsAbsent}

-- A read showed the object, from the cache or, where the cache had none, from the API server.
abbrev pub IsShown : Server → Gvk → String → Fields → Type 0
IsShown server gvk name o =
    (server.get_cached gvk name ≡ got o)
    ⊎ (IsAbsent (server.get_cached gvk name) × (server.get_uncached gvk name ≡ got o))

-- A read failed otherwise than by the absence of the object.
abbrev pub IsUnread : Answer → Error → Type 0
IsUnread a e = (a ≡ unread e) × (is_missing (api_reason e) ≡ false)

module _ (api : ObjectApi) (kube : Kube) (pool : PodPool) (server : Server) where
  -- Why nothing was written: the read of the cache failed, or it found nothing and the read past it
  -- failed, or a read showed an object that the pool does not control.
  abbrev pub IsRefused : Gvk → String → Error → Type 0
  IsRefused gvk name why =
      IsUnread (server.get_cached gvk name) why
      ⊎ (IsAbsent (server.get_cached gvk name) × IsUnread (server.get_uncached gvk name) why)
      ⊎ ((o : Fields) × IsShown server gvk name o
          × (is_controlled api kube pool o ≡ false)
          × (why ≡ refusal api kube o))

  -- An attempt that fails wrote nothing, for such a reason, or asked for one apply, whose error it has.
  abbrev pub IsAccounted : Fields → List Effect × Result ChildObservation → Type 0
  IsAccounted desired (log, done obs) = Unit
  IsAccounted desired (log, failed why) =
      ((log ≡ []) × IsRefused (kube.gvk_of desired) (api.get_name desired) why)
      ⊎ ((log ≡ asked_apply (kube.clear_resource_version desired) ∷ [])
          × (server.apply (kube.clear_resource_version desired) ≡ some why))

  apply_child-IsAccounted :
      (desired : Fields) (obs : ChildObservation)
      → IsAccounted desired (apply_child api kube server desired obs)
  unfolding apply_child
  apply_child-IsAccounted desired obs =
      elim (Option-cases (server.apply (kube.clear_resource_version desired))) [
        | inl ok ↦ rw (ok) tt
        | inr (e, refused) ↦ rw (refused) (inr (refl, refused))
      ]

  confirmed-IsAccounted :
      (desired : Fields) (a : Answer)
      → IsAbsent (server.get_cached (kube.gvk_of desired) (api.get_name desired))
      → server.get_uncached (kube.gvk_of desired) (api.get_name desired) ≡ a
      → IsAccounted desired (confirmed api kube server pool desired a)
  unfolding is_controlled
  confirmed-IsAccounted desired (unread e) missed read =
      elim (Bool-cases (is_missing (api_reason e))) [
        | inl gone ↦ rw (gone) (apply_child-IsAccounted desired just_created)
        | inr other ↦ rw (other) (inl (refl, inr (inl (missed, (read, other)))))
      ]
  confirmed-IsAccounted desired (got o) missed read =
      elim (Bool-cases (is_controlled api kube pool o)) [
        | inl ours ↦ elim (Bool-cases (str_eq (api.get_name o) "")) [
          | inl blank ↦ rw (ours, blank) (apply_child-IsAccounted desired just_created)
          | inr named ↦ rw (ours, named) (apply_child-IsAccounted desired (observe_child api o))
        ]
        | inr foreign ↦ rw (foreign) (inl (refl, inr (inr (o, inr (missed, read), foreign, refl))))
      ]

  cached-IsAccounted :
      (desired : Fields) (a : Answer)
      → server.get_cached (kube.gvk_of desired) (api.get_name desired) ≡ a
      → IsAccounted desired (cached api kube server pool desired a)
  unfolding is_controlled
  cached-IsAccounted desired (unread e) read = elim (Bool-cases (is_missing (api_reason e))) [
    | inl gone ↦ rw (gone) (
        confirmed-IsAccounted desired
          (server.get_uncached (kube.gvk_of desired) (api.get_name desired)) (e, read, gone) refl)
    | inr other ↦ rw (other) (inl (refl, inl (read, other)))
  ]
  cached-IsAccounted desired (got o) read = elim (Bool-cases (is_controlled api kube pool o)) [
    | inl ours ↦ rw (ours) (apply_child-IsAccounted desired (observe_child api o))
    | inr foreign ↦ rw (foreign) (inl (refl, inr (inr (o, inl read, foreign, refl))))
  ]

  pub reconcile_workload-IsAccounted :
      (desired : Fields) → IsAccounted desired (reconcile_workload api kube server pool desired)
  unfolding reconcile_workload
  reconcile_workload-IsAccounted desired =
      cached-IsAccounted desired (server.get_cached (kube.gvk_of desired) (api.get_name desired))
        refl
