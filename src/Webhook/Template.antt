-- ===== src/Webhook/Template.antt =====
-- internal/webhook/v1alpha1/podpool_webhook.go: the checks of the workload template, and of the paths
-- in a group's overrides that the controller owns.
use podpool_controller.Prelude.{
  Bool, true, false, Option, none, some, List, [], ◌∷◌, ◌++◌, String, is_some, if◌then◌else◌,
  concat,
}
use podpool_controller.Json.{Fields, end, field, Raw, empty, lookup, as_map}
use podpool_controller.Workload.Object.{ObjectApi, Gvk}
use podpool_controller.Workload.Render.{extract_gvk, unmarshal_map}
use podpool_controller.Webhook.Report.{
  Segment, child, key, required, invalid, forbidden, FieldError, Texts,
}
use text.Mathlib.Text.{starts_with}

abbrev pub required_error : List Segment → String → FieldError
required_error path detail = record { kind = required; path = path; value = ""; detail = detail }

abbrev pub forbidden_error : List Segment → String → FieldError
forbidden_error path detail = record { kind = forbidden; path = path; value = ""; detail = detail }

abbrev check_template_key : List Segment → Bool → List FieldError
check_template_key path true = []
check_template_key path false =
    required_error (path ++ (child "spec" ∷ child "template" ∷ []))
      "workloadTemplate must have .spec.template"
    ∷ []

abbrev check_spec : List Segment → Option Fields → List FieldError
check_spec path none =
    required_error (path ++ (child "spec" ∷ [])) "workloadTemplate must have a spec" ∷ []
check_spec path (some spec) = check_template_key path (is_some (lookup "template" spec))

module _ (texts : Texts) where
  abbrev check_object : List Segment → Raw → Option Fields → List FieldError
  check_object path raw none =
      record {
        kind = invalid;
        path = path;
        value = texts.raw_text raw;
        detail = "must be valid JSON";
      }
      ∷ []
  check_object path raw (some m) = check_spec path (as_map (lookup "spec" m))

  abbrev pub check_kind : List Segment → Raw → Option Gvk → List FieldError
  check_kind path raw none =
      record {
        kind = invalid;
        path = path;
        value = texts.raw_text raw;
        detail = concat ("must have valid apiVersion and kind: " ∷ texts.gvk_error raw ∷ []);
      }
      ∷ []
  check_kind path raw (some _) = check_object path raw (unmarshal_map raw)

  unfoldable pub validate_workload_template : ObjectApi → List Segment → Raw → List FieldError
  unfolding extract_gvk
  validate_workload_template api path empty =
      required_error path "workloadTemplate is required" ∷ []
  validate_workload_template api path raw = check_kind path raw (extract_gvk api raw)

-- The labels under the controller's own prefix, in the order in which the map yields them.
unfoldable pub label_errors : List Segment → Fields → List FieldError
label_errors path end = []
label_errors path (field k v m) =
    let rest = label_errors path m in
    if starts_with k "podpools.dev/"
    then forbidden_error (path ++ (child "metadata" ∷ child "labels" ∷ key k ∷ []))
        "overriding podpools.dev/* labels has no effect: the controller manages them"
      ∷ rest
    else rest

abbrev when_set : Bool → FieldError → List FieldError
when_set true e = e ∷ []
when_set false e = []

abbrev selector_errors : List Segment → Option Fields → List FieldError
selector_errors path none = []
selector_errors path (some selector) = when_set (is_some (lookup "matchLabels" selector)) (
    forbidden_error (path ++ (child "spec" ∷ child "selector" ∷ child "matchLabels" ∷ []))
      "overriding spec.selector.matchLabels has no effect: the controller overwrites it")

abbrev spec_errors : List Segment → Option Fields → List FieldError
spec_errors path none = []
spec_errors path (some spec) =
    selector_errors path (as_map (lookup "selector" spec))
    ++ when_set (is_some (lookup "replicas" spec)) (
        forbidden_error (path ++ (child "spec" ∷ child "replicas" ∷ []))
          "overriding spec.replicas has no effect: the controller sets it from the distribution")

abbrev labels_errors : List Segment → Option Fields → List FieldError
labels_errors path none = []
labels_errors path (some labels) = label_errors path labels

abbrev metadata_errors : List Segment → Option Fields → List FieldError
metadata_errors path none = []
metadata_errors path (some md) =
    when_set (is_some (lookup "name" md)) (
      forbidden_error (path ++ (child "metadata" ∷ child "name" ∷ []))
        "overriding metadata.name has no effect: the controller names children <pool>-<group>")
    ++ (when_set (is_some (lookup "ownerReferences" md)) (
          forbidden_error (path ++ (child "metadata" ∷ child "ownerReferences" ∷ []))
            "overriding ownerReferences has no effect: the controller sets the owner reference")
        ++ labels_errors path (as_map (lookup "labels" md)))

abbrev owned_paths : List Segment → Option Fields → List FieldError
owned_paths path none = []
owned_paths path (some m) =
    spec_errors path (as_map (lookup "spec" m))
    ++ metadata_errors path (as_map (lookup "metadata" m))

unfoldable pub check_controller_owned_paths : List Segment → Raw → List FieldError
unfolding label_errors
check_controller_owned_paths path overrides = owned_paths path (unmarshal_map overrides)
