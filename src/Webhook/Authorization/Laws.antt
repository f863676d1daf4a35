-- ===== src/Webhook/Authorization/Laws.antt =====
-- internal/webhook/v1alpha1/podpool_webhook.go: a verdict of the authorization, followed back to
-- the cluster's answers.
use podpool_controller.Prelude.{◌≡◌, refl, subst, true, false, none, some, String, ◌⊎◌, inl, inr}
use podpool_controller.Api.{PodPool}
use podpool_controller.Workload.Object.{Gvk}
use podpool_controller.Webhook.Report.{Texts}
use podpool_controller.Webhook.Authorization.{
  UserInfo, Review, Answer, failed, answered, PodPoolCustomValidator, review_of, plural_resource,
  check_workload_authorization, verdict, ask, with_client,
}

abbrev Allowed : PodPoolCustomValidator → (Review → Answer) → UserInfo → PodPool → Gvk → Type 0
Allowed v create user pool gvk =
    (plural : String) × (plural_resource v gvk ≡ inr plural)
    × (create (review_of user pool gvk plural) ≡ answered true)

module _ (texts : Texts) (v : PodPoolCustomValidator) (create : Review → Answer) (user : UserInfo)
    (pool : PodPool) (gvk : Gvk) (reason : String) where
  from_answer :
      (plural : String) (a : Answer)
      → verdict texts user pool gvk reason plural a ≡ none
      → a ≡ answered true
  from_answer plural (failed e) h = absurd (cc)
  from_answer plural (answered true) h = refl
  from_answer plural (answered false) h = absurd (cc)

  from_resource :
      (found : String ⊎ String)
      → plural_resource v gvk ≡ found
      → ask texts create user pool gvk reason found ≡ none
      → Allowed v create user pool gvk
  from_resource (inl e) at h = absurd (cc)
  from_resource (inr plural) at h =
      (plural, at, from_answer plural (create (review_of user pool gvk plural)) h)

  -- Authorization fails closed: with a client and a request, a pool passes only if the resource of its
  -- kind could be resolved and the review of creating just that, by the requesting user in the pool's
  -- namespace, came back allowed.
  pub authorization_fails_closed :
      v.client ≡ some create
      → check_workload_authorization texts v (some user) pool gvk reason ≡ none
      → (plural : String) × (plural_resource v gvk ≡ inr plural)
        × (create (review_of user pool gvk plural) ≡ answered true)
  unfolding check_workload_authorization
  authorization_fails_closed has_client passed = from_resource (plural_resource v gvk) refl (
      subst (λ c. with_client texts c (some user) pool gvk reason (plural_resource v gvk) ≡ none)
        has_client passed)
