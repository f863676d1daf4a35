-- ===== src/Workload/Tests/RenderTests.antt =====
-- Runs of the rendering and its theorems at a concrete template.
use podpool_controller.Prelude.{
  ◌≤◌, ◌≡◌, refl, List, [], ◌∷◌, true, false, Option, none, some, String, str_eq, pos, ◌⊎◌,
  if◌then◌else◌, max_int32,
}
use podpool_controller.Json.{
  Json, null, bool, num, str, arr, nil, cons, obj, Fields, end, field, Raw, decoded, lookup, insert,
  delete,
}
use podpool_controller.Api.{ScalingConstraints, GroupSpec, PodPoolStatus, PodPool}
use podpool_controller.Workload.Object.{ObjectApi}
use podpool_controller.Workload.Object.Plain.{plain}
use podpool_controller.Workload.Object.Plain.Laws.{plain_laws}
use podpool_controller.Workload.Merge.{merge_maps, strip_metadata, strip_pasted_metadata}
use podpool_controller.Workload.Merge.Laws.{patched, lookup-merge_maps}
use podpool_controller.Workload.Render.{
  child_name, label_pool, label_group, extract_gvk, read_int32_checked,
}
use podpool_controller.Workload.Render.Child.{build_child_workload, match_labels, owner_of}
use podpool_controller.Workload.Render.Ownership.{pod_label, build_child_workload-IsOwned}
use podpool_controller.Workload.Render.Reading.{read_int32_checked_fits}

-- `schema.ParseGroupVersion` at the one version that the tests use.
abbrev pub parse_apps : String → Option (String × String)
parse_apps s = if str_eq s "apps/v1" then some ("apps", "v1") else none

abbrev pub plain_api : ObjectApi
plain_api = plain parse_apps

abbrev pub pod_template : Json
pod_template = obj (field "metadata" (obj end) (field "spec" (obj end) end))

abbrev pub template_map : Fields
template_map = field "apiVersion" (str "apps/v1") (
    field "kind" (str "Deployment") (
      field "spec" (obj (field "template" pod_template (field "paused" (bool true) end)))
        (field "status" (obj end) end)))

abbrev pub open_scaling : ScalingConstraints
open_scaling = record { min = some 1; max = none; target = none; opportunistic = none }

-- Overrides that try to take the replicas and the name over.
abbrev override_map : Fields
override_map =
    field "metadata" (obj (field "name" (str "mine") end))
      (field "spec" (obj (field "replicas" (num (pos 9)) (field "paused" null end))) end)

abbrev pub base_group : GroupSpec
base_group = record {
  name = "base";
  scaling = open_scaling;
  overrides = some (decoded (obj override_map));
}

abbrev pub quiet_group : GroupSpec
quiet_group = record { name = "base"; scaling = open_scaling; overrides = none }

abbrev pub blank_status : PodPoolStatus
blank_status = record {
  conditions = [];
  observed_generation = 0;
  replicas = 0;
  ready_replicas = 0;
  updated_replicas = 0;
  unplaced_replicas = 0;
  selector = "";
  group_count = 0;
  groups = [];
}

abbrev pub pool_of : Raw → List GroupSpec → PodPool
pool_of template groups = record {
  name = "web";
  generate_name = "";
  namespace = "shop";
  uid = "u1";
  generation = 1;
  is_deleting = false;
  annotations = [];
  spec = record {
    replicas = 3;
    workload_template = template;
    groups = groups;
    opportunistic_heartbeat_seconds = none;
    progress_deadline_seconds = none;
  };
  status = blank_status;
}

abbrev pub web_pool : PodPool
web_pool = pool_of (decoded (obj template_map)) (quiet_group ∷ [])

abbrev or_end : Option Fields → Fields
or_end none = end
or_end (some m) = m

abbrev the_child : Fields
the_child = or_end (build_child_workload plain_api template_map base_group web_pool 3)

the_child_built : build_child_workload plain_api template_map base_group web_pool 3 ≡ some the_child
unfolding build_child_workload plain strip_pasted_metadata strip_metadata merge_maps lookup delete
    insert
the_child_built = refl

-- The overrides asked for nine replicas and for another name.
the_child_lem :
    (plain_api.get_name the_child ≡ "web-base")
    × (plain_api.nested_field ("spec" ∷ "paused" ∷ []) the_child ≡ none)
    × (plain_api.nested_field ("status" ∷ []) the_child ≡ none)
    × (plain_api.nested_field ("spec" ∷ "replicas" ∷ []) the_child ≡ some (num (pos 3)))
unfolding build_child_workload plain strip_pasted_metadata strip_metadata merge_maps lookup delete
    insert
the_child_lem = (refl, refl, refl, refl)

kind_lem :
    extract_gvk plain_api (decoded (obj template_map))
    ≡ some record { group = "apps"; version = "v1"; kind = "Deployment" }
unfolding extract_gvk plain
kind_lem = refl

build_child_workload-IsOwned_example :
    (plain_api.get_name the_child ≡ child_name web_pool.name base_group.name)
    × (plain_api.get_owner_references the_child ≡ owner_of web_pool ∷ [])
    × (plain_api.nested_field ("spec" ∷ "replicas" ∷ []) the_child ≡ some (num (pos 3)))
    × (plain_api.nested_field ("spec" ∷ "selector" ∷ "matchLabels" ∷ []) the_child
        ≡ some (match_labels web_pool base_group))
    × ((t : Fields) × (plain_api.nested_field ("spec" ∷ "template" ∷ []) the_child ≡ some (obj t))
        × (pod_label label_pool t ≡ some (str web_pool.name))
        × (pod_label label_group t ≡ some (str base_group.name)))
build_child_workload-IsOwned_example =
    build_child_workload-IsOwned plain_api (plain_laws parse_apps) web_pool base_group template_map
      the_child 3 the_child_built

lookup-merge_maps_example :
    lookup "spec" (merge_maps template_map override_map)
    ≡ patched (lookup "spec" template_map) (lookup "spec" override_map)
unfolding lookup
lookup-merge_maps_example = lookup-merge_maps template_map override_map "spec" (refl, (refl, tt))

-- A list is replaced as a whole, and a null inside a map that meets no map stays.
merge_not_strategic :
    merge_maps
      (field "containers" (arr (cons (str "app") (cons (str "sidecar") nil))) end)
      (field "containers" (arr (cons (str "app") nil)) end)
    ≡ field "containers" (arr (cons (str "app") nil)) end
unfolding merge_maps lookup insert
merge_not_strategic = refl

merge_keeps_nested_null :
    merge_maps end (field "limits" (obj (field "cpu" null end)) end)
    ≡ field "limits" (obj (field "cpu" null end)) end
unfolding merge_maps lookup insert
merge_keeps_nested_null = refl

-- A child that claims more than an `int32` holds.
abbrev boastful : Fields
boastful = field "status" (obj (field "readyReplicas" (num (pos 4294967296)) end)) end

boastful_lem :
    read_int32_checked plain_api boastful ("status" ∷ "readyReplicas" ∷ [])
    ≡ (2147483647, true, true)
unfolding read_int32_checked plain lookup
boastful_lem = refl

abbrev ready_path : List String
ready_path = "status" ∷ "readyReplicas" ∷ []

read_int32_checked_fits_run :
    ((read_int32_checked plain_api boastful ready_path).0 ≤ max_int32)
    × (((plain_api.nested_int64 ready_path boastful ≡ none)
          × ((read_int32_checked plain_api boastful ready_path).1 ≡ false))
        ⊎ (((plain_api.nested_int64 ready_path boastful
                ≡ some (pos (read_int32_checked plain_api boastful ready_path).0))
              × ((read_int32_checked plain_api boastful ready_path).2 ≡ false))
            ⊎ (((read_int32_checked plain_api boastful ready_path).1 ≡ true)
                × ((read_int32_checked plain_api boastful ready_path).2 ≡ true))))
read_int32_checked_fits_run = read_int32_checked_fits plain_api boastful ready_path
