-- ===== src/Webhook/Rendered.antt =====
-- internal/webhook/v1alpha1/podpool_webhook.go: the trial rendering of the children.
use podpool_controller.Prelude.{
  ℕ, suc, ◌&&◌, Option, none, some, List, [], ◌∷◌, ◌++◌, map, String, str_eq, if◌then◌else◌, concat,
  get_elem?,
}
use podpool_controller.Json.{Fields, Raw, empty}
use podpool_controller.Api.{GroupSpec, PodPool}
use podpool_controller.Workload.Distribution.{Rounding, compute_group_targets}
use podpool_controller.Workload.Object.{ObjectApi, Gvk}
use podpool_controller.Workload.Render.{extract_gvk, parse_template, scheme_group, kind_pod_pool}
use podpool_controller.Workload.Render.Child.{build_child_workload}
use podpool_controller.Webhook.Report.{Segment, child, invalid, FieldError, Texts}
use podpool_controller.Webhook.Groups.{at_group}
use podpool_controller.Webhook.Spec.{groups_path}
use podpool_controller.Webhook.Template.{forbidden_error, check_controller_owned_paths}

-- `groupErrs` is a map: an association list without a row that has no errors.
pub record RenderedChildResult : Type 0 where
  pub global_errs : List FieldError
  pub group_errs : List (String × List FieldError)
  pub warnings : List String

-- The strict decoding of a rendered child into the type that the scheme registers for its kind, if
-- it registers one: the error of the decoding, and what was found on the way.
abbrev pub StrictDecode : Type 0
StrictDecode = Gvk → Option (Fields → Option String × List String)

abbrev pub no_result : RenderedChildResult
no_result = record { global_errs = []; group_errs = []; warnings = [] }

unfoldable pub put_group :
    String → List FieldError → List (String × List FieldError) → List (String × List FieldError)
put_group name errs [] = (name, errs) ∷ []
put_group name errs ((n, es) ∷ rows) =
    let rest = put_group name errs rows in
    if str_eq n name then (n, errs) ∷ rows else (n, es) ∷ rest

-- A missing key reads as no errors.
unfoldable pub get_group : String → List (String × List FieldError) → List FieldError
get_group name [] = []
get_group name ((n, es) ∷ rows) =
    let rest = get_group name rows in if str_eq n name then es else rest

unfoldable pub flatten : List (String × List FieldError) → List FieldError
flatten [] = []
flatten ((_, es) ∷ rows) = es ++ flatten rows

unfoldable pub all_errors : RenderedChildResult → List FieldError
unfolding flatten
all_errors r = r.global_errs ++ flatten r.group_errs

abbrev stored : String → List FieldError → RenderedChildResult → RenderedChildResult
stored name [] r = r
stored name (e ∷ es) r = record r { group_errs = put_group name (e ∷ es) r.group_errs }

abbrev or_zero : Option ℕ → ℕ
or_zero none = 0
or_zero (some n) = n

abbrev owned_path_errors : List Segment → Option Raw → List FieldError
owned_path_errors path none = []
owned_path_errors path (some empty) = []
owned_path_errors path (some raw) =
    check_controller_owned_paths (path ++ (child "overrides" ∷ [])) raw

module _ (texts : Texts) (api : ObjectApi) (decode : StrictDecode) (f : Rounding) where
  abbrev decode_errors : List Segment → String → Option String → List FieldError
  decode_errors path name none = []
  decode_errors path name (some message) =
      record {
        kind = invalid;
        path = path;
        value = name;
        detail = concat ("rendered child has type errors: " ∷ message ∷ []);
      }
      ∷ []

  abbrev strict_warning : String → String → String
  strict_warning name message = concat ("group " ∷ texts.quote name ∷ ": " ∷ message ∷ [])

  -- What a rendered child adds; `errs` are the errors of its overrides.
  abbrev judged :
      List Segment
      → String
      → List FieldError
      → Option String × List String
      → RenderedChildResult
      → RenderedChildResult
  judged path name errs (failure, strict) r =
      stored name (errs ++ decode_errors path name failure)
        (record r { warnings = r.warnings ++ map {A = String} (strict_warning name) strict })

  abbrev decoded_child :
      List Segment
      → String
      → List FieldError
      → Option (Fields → Option String × List String)
      → Fields
      → RenderedChildResult
      → RenderedChildResult
  decoded_child path name errs none object r = stored name errs r
  decoded_child path name errs (some typed) object r = judged path name errs (typed object) r

  abbrev rendered :
      Gvk
      → Fields
      → List Segment
      → GroupSpec
      → List FieldError
      → Option Fields
      → RenderedChildResult
      → RenderedChildResult
  rendered gvk template path g errs none r =
      stored g.name
        (errs
          ++ (record {
            kind = invalid;
            path = path;
            value = g.name;
            detail = concat ("cannot render child workload: " ∷ texts.render_error template g ∷ []);
          }
              ∷ []))
        r
  rendered gvk template path g errs (some object) r =
      decoded_child path g.name errs (decode gvk) object r

  -- The loop over the groups.
  unfoldable pub render_groups :
      Gvk
      → Fields
      → PodPool
      → List ℕ
      → ℕ
      → List GroupSpec
      → RenderedChildResult
      → RenderedChildResult
  unfolding put_group
  render_groups gvk template pool targets i [] r = r
  render_groups gvk template pool targets i (g ∷ gs) r =
      let path = at_group groups_path i in
      render_groups gvk template pool targets (suc i) gs (
        rendered gvk template path g (owned_path_errors path g.overrides)
          (build_child_workload api template g pool (or_zero (get_elem? targets i))) r)

  abbrev from_template : Gvk → PodPool → Option Fields → RenderedChildResult
  from_template gvk pool none = no_result
  from_template gvk pool (some template) =
      render_groups gvk template pool
        (compute_group_targets f pool.spec.replicas pool.spec.groups (λ _. none)).targets 0
        pool.spec.groups no_result

  abbrev nested_pool : RenderedChildResult
  nested_pool = record no_result {
    global_errs =
        forbidden_error (child "spec" ∷ child "workloadTemplate" ∷ [])
          "a PodPool cannot use another PodPool as its workload template"
        ∷ [];
  }

  abbrev of_kind : PodPool → Option Gvk → RenderedChildResult
  of_kind pool none = no_result
  of_kind pool (some gvk) =
      if str_eq gvk.group scheme_group && str_eq gvk.kind kind_pod_pool
      then nested_pool
      else from_template gvk pool (parse_template api pool.spec.workload_template)

  unfoldable pub validate_rendered_children : PodPool → RenderedChildResult
  unfolding render_groups
  validate_rendered_children pool = of_kind pool (extract_gvk api pool.spec.workload_template)
