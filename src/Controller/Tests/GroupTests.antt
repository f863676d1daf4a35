-- ===== src/Controller/Tests/GroupTests.antt =====
-- Runs of the reconciliation of one group at a concrete server.
use podpool_controller.Prelude.{◌≡◌, refl, Option, none, some, List, [], ◌∷◌}
use podpool_controller.Json.{lookup, insert, delete}
use podpool_controller.Workload.Merge.{strip_pasted_metadata}
use podpool_controller.Workload.Object.{OwnerReference}
use podpool_controller.Workload.Object.Plain.{plain}
use podpool_controller.Workload.Tests.RenderTests.{plain_api, template_map, web_pool, quiet_group}
use podpool_controller.Controller.Errors.{
  Error, terminal, wrapped, api, is_not_found, is_invalid, is_other, failed, done,
}
use podpool_controller.Controller.Group.{
  Kube, Answer, unread, Server, just_created, GroupPass, reconcile_workload, reconcile_group,
}
use podpool_controller.Controller.Group.Guard.{IsSettled, reconcile_workload-IsSettled}
use podpool_controller.Controller.Group.Row.{KubeLaws, IsFailure, reconcile_group-IsFailure}
use podpool_controller.Controller.Tests.SweepTests.{deployments}

abbrev first_owner : List OwnerReference → Option OwnerReference
first_owner [] = none
first_owner (o ∷ owners) = some o

-- Every object is a Deployment, and none of them carries a resource version.
abbrev pub plain_kube : Kube
plain_kube = record {
  controller_of = λ o. first_owner (plain_api.get_owner_references o);
  gvk_of = λ o. deployments;
  clear_resource_version = λ o. o;
  group_version_text = λ g. "apps/v1";
  build_error = λ g. "no pod template";
}

pub plain_kube_laws : KubeLaws plain_api plain_kube
plain_kube_laws = record {
  keeps_name = λ d. refl;
  keeps_gvk = λ d. refl;
  keeps_owners = λ d. refl;
  keeps_spec = λ d path. refl;
}

abbrev absent : Answer
absent = unread (api is_not_found "not found")

-- No child exists, and an apply is accepted or refused.
abbrev pub bare_server : Option Error → Server
bare_server answer = record {
  get_cached = λ g name. absent;
  get_uncached = λ g name. absent;
  apply = λ d. answer;
}

-- The cache has no such object, and the API server cannot say.
abbrev mute_server : Server
mute_server = record {
  get_cached = λ g name. absent;
  get_uncached = λ g name. unread (api is_other "timeout");
  apply = λ d. none;
}

mute_lem :
    reconcile_workload plain_api plain_kube mute_server web_pool template_map
    ≡ ([], failed (api is_other "timeout"))
unfolding reconcile_workload plain
mute_lem = refl

bare_lem :
    (reconcile_workload plain_api plain_kube (bare_server none) web_pool template_map).1
    ≡ done just_created
unfolding reconcile_workload plain
bare_lem = refl

reconcile_workload-IsSettled_example :
    IsSettled plain_api plain_kube web_pool mute_server template_map
      (reconcile_workload plain_api plain_kube mute_server web_pool template_map)
reconcile_workload-IsSettled_example =
    reconcile_workload-IsSettled plain_api plain_kube web_pool mute_server template_map

abbrev pub rejection : Error
rejection = api is_invalid "spec.replicas: bad"

abbrev rejected_pass : GroupPass
rejected_pass =
    reconcile_group plain_api plain_kube (bare_server (some rejection)) web_pool template_map
      deployments quiet_group 3 [] []

rejected_lem : rejected_pass.result ≡ failed (terminal (wrapped "reconciling workload" rejection))
unfolding reconcile_group plain lookup strip_pasted_metadata delete insert
rejected_lem = refl

reconcile_group-IsFailure_example :
    IsFailure plain_api plain_kube web_pool
      (bare_server (some rejection))
      template_map
      quiet_group
      3
      []
      []
      (terminal (wrapped "reconciling workload" rejection))
      rejected_pass
reconcile_group-IsFailure_example =
    reconcile_group-IsFailure plain_api plain_kube web_pool (bare_server (some rejection))
      template_map deployments quiet_group 3 [] []
      (terminal (wrapped "reconciling workload" rejection)) rejected_lem
