-- ===== src/Controller/Group/Guard.antt =====
-- internal/controller/podpool_controller.go: what stands between a rendered child and its apply.
use podpool_controller.Prelude.{
  true, none, some, List, [], ◌∷◌, String, str_eq, ◌≡◌, refl, ◌⊎◌, inl, inr, Bool-cases,
  Option-cases,
}
use podpool_controller.Json.{Fields}
use podpool_controller.Api.{PodPool}
use podpool_controller.Workload.Object.{ObjectApi, Gvk}
use podpool_controller.Controller.Errors.{Error, api_reason, is_missing, Result, failed, done}
use podpool_controller.Controller.Group.{
  Kube, Answer, unread, got, Server, Effect, asked_apply, ChildObservation, just_created,
  is_controlled, observe_child, refusal, apply_child, confirmed, cached, reconcile_workload,
}

-- The server said that there is no such object.
abbrev pub IsAbsent : Answer → Type 0
IsAbsent a = (e : Error) × (a ≡ unread e) × (is_missing (api_reason e) ≡ true)

module _ (api : ObjectApi) (kube : Kube) (pool : PodPool) where
  -- The server showed an object that the pool controls.
  abbrev pub IsOurs : Answer → Type 0
  IsOurs a = (o : Fields) × (a ≡ got o) × (is_controlled api kube pool o ≡ true)

  -- A write is safe over an object that the pool controls, or where the API server itself, not the
  -- cache, has said that there is none.
  abbrev pub IsSafe : Server → Gvk → String → Type 0
  IsSafe server gvk name =
      IsOurs (server.get_cached gvk name)
      ⊎ (IsAbsent (server.get_cached gvk name)
          × (IsAbsent (server.get_uncached gvk name) ⊎ IsOurs (server.get_uncached gvk name)))

  module _ (server : Server) where
    -- One attempt: nothing was asked for and it failed, or one apply was, which decided.
    abbrev pub IsSettled : Fields → List Effect × Result ChildObservation → Type 0
    IsSettled desired (log, r) =
        ((log ≡ []) × ((e : Error) × (r ≡ failed e)))
        ⊎ ((log ≡ asked_apply (kube.clear_resource_version desired) ∷ [])
            × IsSafe server (kube.gvk_of desired) (api.get_name desired)
            × (((e : Error) × (server.apply (kube.clear_resource_version desired) ≡ some e)
                  × (r ≡ failed e))
                ⊎ ((obs : ChildObservation) × (server.apply (kube.clear_resource_version desired)
                      ≡ none)
                    × (r ≡ done obs))))

    apply_child-IsSettled :
        (desired : Fields) (obs : ChildObservation)
        → IsSafe server (kube.gvk_of desired) (api.get_name desired)
        → IsSettled desired (apply_child api kube server desired obs)
    unfolding apply_child
    apply_child-IsSettled desired obs safe =
        elim (Option-cases (server.apply (kube.clear_resource_version desired))) [
          | inl ok ↦ inr (refl, safe, inr (obs, ok, rw (ok) refl))
          | inr (e, refused) ↦ inr (refl, safe, inl (e, refused, rw (refused) refl))
        ]

    confirmed-IsSettled :
        (desired : Fields) (a : Answer)
        → IsAbsent (server.get_cached (kube.gvk_of desired) (api.get_name desired))
        → server.get_uncached (kube.gvk_of desired) (api.get_name desired) ≡ a
        → IsSettled desired (confirmed api kube server pool desired a)
    unfolding is_controlled
    confirmed-IsSettled desired (unread e) missed read =
        elim (Bool-cases (is_missing (api_reason e))) [
          | inl gone ↦
              rw (gone)
                (apply_child-IsSettled desired just_created (inr (missed, inl (e, read, gone))))
          | inr other ↦ rw (other) (inl (refl, (e, refl)))
        ]
    confirmed-IsSettled desired (got o) missed read =
        elim (Bool-cases (is_controlled api kube pool o)) [
          | inl ours ↦ elim (Bool-cases (str_eq (api.get_name o) "")) [
            | inl blank ↦
                rw (ours, blank)
                  (apply_child-IsSettled desired just_created (inr (missed, inr (o, read, ours))))
            | inr named ↦
                rw (ours, named)
                  (apply_child-IsSettled desired (observe_child api o)
                    (inr (missed, inr (o, read, ours))))
          ]
          | inr foreign ↦ rw (foreign) (inl (refl, (refusal api kube o, refl)))
        ]

    cached-IsSettled :
        (desired : Fields) (a : Answer)
        → server.get_cached (kube.gvk_of desired) (api.get_name desired) ≡ a
        → IsSettled desired (cached api kube server pool desired a)
    unfolding is_controlled
    cached-IsSettled desired (unread e) read = elim (Bool-cases (is_missing (api_reason e))) [
      | inl gone ↦ rw (gone) (
          confirmed-IsSettled desired
            (server.get_uncached (kube.gvk_of desired) (api.get_name desired)) (e, read, gone) refl)
      | inr other ↦ rw (other) (inl (refl, (e, refl)))
    ]
    cached-IsSettled desired (got o) read = elim (Bool-cases (is_controlled api kube pool o)) [
      | inl ours ↦
          rw (ours) (apply_child-IsSettled desired (observe_child api o) (inl (o, read, ours)))
      | inr foreign ↦ rw (foreign) (inl (refl, (refusal api kube o, refl)))
    ]

    -- A child is written at most once, and never blindly: either nothing is asked for and the attempt
    -- fails, or one apply is, of the rendered child, after the server has shown an object of that name
    -- that the pool controls, or has itself said, past the cache, that there is none. The attempt then
    -- fails with the error of that apply, and succeeds just when the apply does.
    pub reconcile_workload-IsSettled :
        (desired : Fields) → IsSettled desired (reconcile_workload api kube server pool desired)
    unfolding reconcile_workload
    reconcile_workload-IsSettled desired =
        cached-IsSettled desired (server.get_cached (kube.gvk_of desired) (api.get_name desired))
          refl
