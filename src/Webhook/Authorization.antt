-- ===== src/Webhook/Authorization.antt =====
-- internal/webhook/v1alpha1/podpool_webhook.go: whether the requesting user could create the
-- workloads that the pool renders. The cluster's answers are parameters.
pub mod Laws
use podpool_controller.Prelude.{
  Bool, true, false, not, ◌&&◌, ◌||◌, Option, none, some, List, [], ◌∷◌, ◌++◌, String, str_eq,
  if◌then◌else◌, concat, ◌⊎◌, inl, inr,
}
use podpool_controller.Api.{PodPool}
use podpool_controller.Workload.Object.{Gvk}
use podpool_controller.Webhook.Report.{
  Segment, child, index, key, ErrorKind, required, invalid, duplicate, forbidden, internal,
  FieldError, Texts,
}
use podpool_controller.Webhook.Template.{forbidden_error}

pub record UserInfo : Type 0 where
  pub username : String
  pub uid : String
  pub groups : List String
  pub extra : List (String × List String)

-- The spec of a `SubjectAccessReview`.
pub record Review : Type 0 where
  pub user : String
  pub groups : List String
  pub uid : String
  pub extra : List (String × List String)
  pub namespace : String
  pub verb : String
  pub group : String
  pub resource : String
  pub version : String

-- The creation of a review fails with a message, or its status says whether the user may.
pub data Answer : Type 0 where
  failed : String → Answer
  answered : Bool → Answer

-- A nil client or mapper is `none`; `rest_mapping` takes group, kind and version and gives the
-- message of its error or the name of the resource.
pub record PodPoolCustomValidator : Type 0 where
  pub client : Option (Review → Answer)
  pub rest_mapping : Option (String → String → String → String ⊎ String)

abbrev pub template_path : List Segment
template_path = child "spec" ∷ child "workloadTemplate" ∷ []

-- `builtinPluralResources`.
unfoldable pub builtin_plural_resource : String → String → Option String
builtin_plural_resource group kind =
    if not (str_eq group "apps")
    then none
    else if str_eq kind "Deployment"
    then some "deployments"
    else if str_eq kind "StatefulSet"
    then some "statefulsets"
    else if str_eq kind "DaemonSet"
    then some "daemonsets"
    else none

abbrev or_builtin : String → Option String → String ⊎ String
or_builtin message none = inl message
or_builtin message (some plural) = inr plural

abbrev from_discovery : Gvk → String ⊎ String → String ⊎ String
from_discovery gvk (inr resource) = inr resource
from_discovery gvk (inl e) =
    or_builtin (concat ("cannot resolve " ∷ gvk.kind ∷ " to a resource name: " ∷ e ∷ []))
      (builtin_plural_resource gvk.group gvk.kind)

abbrev resolve : Option (String → String → String → String ⊎ String) → Gvk → String ⊎ String
resolve none gvk =
    or_builtin (concat ("cannot resolve " ∷ gvk.kind ∷ ": no RESTMapper available" ∷ []))
      (builtin_plural_resource gvk.group gvk.kind)
resolve (some mapping) gvk = from_discovery gvk (mapping gvk.group gvk.kind gvk.version)

-- The message of the error, or the name of the resource.
unfoldable pub plural_resource : PodPoolCustomValidator → Gvk → String ⊎ String
unfolding builtin_plural_resource
plural_resource v gvk = resolve v.rest_mapping gvk

abbrev pub review_of : UserInfo → PodPool → Gvk → String → Review
review_of user pool gvk plural = record {
  user = user.username;
  groups = user.groups;
  uid = user.uid;
  extra = user.extra;
  namespace = pool.namespace;
  verb = "create";
  group = gvk.group;
  resource = plural;
  version = gvk.version;
}

module _ (texts : Texts) where
  abbrev refused : UserInfo → PodPool → Gvk → String → String → FieldError
  refused user pool gvk plural reason = forbidden_error template_path (
      concat (
        reason
        ∷ "user "
        ∷ texts.quote user.username
        ∷ " is not authorized to create "
        ∷ plural
        ∷ "."
        ∷ gvk.group
        ∷ " in namespace "
        ∷ texts.quote pool.namespace
        ∷ []))

  abbrev pub verdict : UserInfo → PodPool → Gvk → String → String → Answer → Option FieldError
  verdict user pool gvk reason plural (failed e) = some record {
    kind = internal;
    path = template_path;
    value = "";
    detail = concat ("authorization check failed for " ∷ gvk.kind ∷ ": " ∷ e ∷ []);
  }
  verdict user pool gvk reason plural (answered true) = none
  verdict user pool gvk reason plural (answered false) = some (refused user pool gvk plural reason)

  abbrev pub ask :
      (Review → Answer) → UserInfo → PodPool → Gvk → String → String ⊎ String → Option FieldError
  ask create user pool gvk reason (inl e) =
      some (forbidden_error template_path (concat ("cannot verify authorization: " ∷ e ∷ [])))
  ask create user pool gvk reason (inr plural) =
      verdict user pool gvk reason plural (create (review_of user pool gvk plural))

  -- No client, or no request in the context: the check is skipped.
  abbrev pub with_client :
      Option (Review → Answer)
      → Option UserInfo
      → PodPool
      → Gvk
      → String
      → String ⊎ String
      → Option FieldError
  with_client none user pool gvk reason plural = none
  with_client (some create) none pool gvk reason plural = none
  with_client (some create) (some user) pool gvk reason plural =
      ask create user pool gvk reason plural

  unfoldable pub check_workload_authorization :
      PodPoolCustomValidator → Option UserInfo → PodPool → Gvk → String → Option FieldError
  unfolding plural_resource
  check_workload_authorization v user pool gvk reason =
      with_client v.client user pool gvk reason (plural_resource v gvk)
