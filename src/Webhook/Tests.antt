-- ===== src/Webhook/Tests.antt =====
-- Runs of the webhook and its theorems at concrete pools.
use Prim.Native.String.{◌++◌}
use podpool_controller.Prelude.{
  ◌+◌, ◌-◌, ◌≤◌, ◌<◌, ◌≡◌, refl, List, [], ◌∷◌, true, false, ◌&&◌, none, some, String, str_eq, ◌⊎◌,
  inr, length,
}
use podpool_controller.Json.{malformed, lookup, insert, delete}
use podpool_controller.Api.{GroupSpec, PodPool}
use podpool_controller.Workload.Percent.{target_percent}
use podpool_controller.Workload.Scaling.{
  group_floor, group_target, group_ceiling, is_bounded, is_opportunistic,
}
use podpool_controller.Workload.Distribution.{
  Rounding, compute_group_targets, check_target_degraded,
}
use podpool_controller.Workload.Object.{Gvk}
use podpool_controller.Workload.Object.Plain.{plain}
use podpool_controller.Workload.Render.{extract_gvk, parse_template}
use podpool_controller.Workload.Tests.RenderTests.{
  plain_api, open_scaling, quiet_group, base_group, pool_of, web_pool,
}
use podpool_controller.Webhook.Report.{forbidden, FieldError, Texts}
use podpool_controller.Webhook.Defaulting.{default_scaling, default_scaling_keeps}
use podpool_controller.Webhook.Groups.{
  validate_scaling, validate_overflow_sink, validate_opportunistic,
}
use podpool_controller.Webhook.Template.{validate_workload_template}
use podpool_controller.Workload.Merge.{merge_maps, strip_metadata, strip_pasted_metadata}
use podpool_controller.Workload.Render.Child.{build_child_workload}
use podpool_controller.Webhook.Groups.Laws.{sinks, length-validate_overflow_sink}
use podpool_controller.Webhook.Spec.{groups_path, validate_pod_pool_spec}
use podpool_controller.Webhook.Spec.Laws.{AreSound, valid_spec-AreSound}
use podpool_controller.Webhook.Warnings.{
  name_length, max_pool_name_len, validate_pool_name_create, warn_on_fully_capped_pool,
  warn_on_unreadable_target, warn_stateful_set_ordinal_budget, warn_on_group_removal,
  warn_pool_name_update,
}
use podpool_controller.Webhook.Rendered.{
  RenderedChildResult, all_errors, validate_rendered_children,
}
use podpool_controller.Webhook.Downgrade.{downgrade_pre_existing}
use podpool_controller.Webhook.Downgrade.Laws.{downgrade_accounts, downgrade-own}
use podpool_controller.Webhook.Authorization.{
  UserInfo, Review, Answer, answered, PodPoolCustomValidator, review_of, plural_resource,
  check_workload_authorization,
}
use podpool_controller.Webhook.Authorization.Laws.{authorization_fails_closed}
use podpool_controller.Webhook.Admission.{
  Setting, admitted, validate_create, validate_update, same_gvk, reauthorize_reason,
}
use podpool_controller.Webhook.Admission.Laws.{created-IsAuthorized, updated-IsVouched}

abbrev plain_texts : Texts
plain_texts = record {
  quote = λ s. "\"" ++ (s ++ "\"");
  decimal = λ n. "3";
  path_text = λ p. "path";
  kind_text = λ k. "kind";
  target_text = λ t. "target";
  gvk_text = λ g. g.kind;
  raw_text = λ r. "raw";
  gvk_error = λ r. "unreadable";
  render_error = λ m g. "workload has no .spec.template";
}

abbrev no_ties : Rounding
no_ties = record { above = λ t total p. false; below = λ t total p. false }

abbrev alice : UserInfo
alice = record { username = "alice"; uid = "7"; groups = []; extra = [] }

-- Whoever asks for deployments in the namespace `shop` may create them.
abbrev cluster : Review → Answer
cluster r = answered (str_eq r.resource "deployments" && str_eq r.namespace "shop")

abbrev validator : PodPoolCustomValidator
validator = record { client = some cluster; rest_mapping = none }

abbrev setting : Setting
setting = record {
  texts = plain_texts;
  api = plain_api;
  decode = λ g. none;
  rounding = no_ties;
  validator = validator;
  same_spec = λ a b. false;
}

abbrev deployment : Gvk
deployment = record { group = "apps"; version = "v1"; kind = "Deployment" }

default_scaling_keeps_run :
    (default_scaling (default_scaling open_scaling) ≡ default_scaling open_scaling)
    × (group_floor (default_scaling open_scaling) ≡ group_floor open_scaling)
    × (group_target 10 (default_scaling open_scaling) ≡ group_target 10 open_scaling)
    × (group_ceiling 10 (default_scaling open_scaling) ≡ group_ceiling 10 open_scaling)
    × (is_bounded (default_scaling open_scaling) ≡ is_bounded open_scaling)
    × (is_opportunistic (default_scaling open_scaling) ≡ is_opportunistic open_scaling)
default_scaling_keeps_run = default_scaling_keeps 10 open_scaling

abbrev three_sinks : List GroupSpec
three_sinks = quiet_group ∷ quiet_group ∷ base_group ∷ []

three_sinks_lem : length (validate_overflow_sink plain_texts groups_path three_sinks) ≡ 2
unfolding validate_overflow_sink is_bounded
three_sinks_lem = refl

length-validate_overflow_sink_run :
    length (validate_overflow_sink plain_texts groups_path three_sinks) ≡ sinks three_sinks - 1
length-validate_overflow_sink_run =
    length-validate_overflow_sink plain_texts groups_path three_sinks

web_pool_valid : validate_pod_pool_spec plain_texts plain_api web_pool ≡ []
unfolding validate_pod_pool_spec validate_workload_template plain lookup validate_scaling
    validate_overflow_sink is_bounded validate_opportunistic
web_pool_valid = refl

valid_spec-AreSound_example :
    (0 < length web_pool.spec.groups)
    × (sinks web_pool.spec.groups ≤ 1)
    × AreSound web_pool.spec.groups
    × ((gvk : Gvk) × (extract_gvk plain_api web_pool.spec.workload_template ≡ some gvk))
valid_spec-AreSound_example = valid_spec-AreSound plain_texts plain_api web_pool web_pool_valid

alice_allowed :
    check_workload_authorization plain_texts validator (some alice) web_pool deployment "" ≡ none
unfolding check_workload_authorization
alice_allowed = refl

authorization_fails_closed_run :
    (plural : String) × (plural_resource validator deployment ≡ inr plural)
    × (cluster (review_of alice web_pool deployment plural) ≡ answered true)
authorization_fails_closed_run =
    authorization_fails_closed plain_texts validator cluster alice web_pool deployment "" refl
      alice_allowed

web_pool_created : validate_create setting (some alice) web_pool ≡ admitted []
unfolding validate_create validate_pool_name_create warn_on_fully_capped_pool
    warn_on_unreadable_target warn_stateful_set_ordinal_budget all_errors validate_pod_pool_spec
    validate_workload_template plain lookup validate_scaling validate_overflow_sink is_bounded
    validate_opportunistic extract_gvk strip_pasted_metadata strip_metadata insert delete merge_maps
    build_child_workload validate_rendered_children check_workload_authorization
    compute_group_targets target_percent check_target_degraded parse_template
web_pool_created = refl

created-IsAuthorized_example :
    (name_length web_pool.name ≤ max_pool_name_len)
    × ((gvk : Gvk) × (plural : String) × (extract_gvk plain_api web_pool.spec.workload_template
          ≡ some gvk)
        × (plural_resource validator gvk ≡ inr plural)
        × (cluster (review_of alice web_pool gvk plural) ≡ answered true))
created-IsAuthorized_example =
    created-IsAuthorized setting cluster alice web_pool [] refl web_pool_created

-- The stored pool's template cannot be read, so the kind is authorized anew.
abbrev broken_pool : PodPool
broken_pool = pool_of malformed (quiet_group ∷ [])

web_pool_updated : validate_update setting (some alice) broken_pool web_pool ≡ admitted []
unfolding validate_update warn_on_group_removal warn_pool_name_update warn_on_fully_capped_pool
    warn_on_unreadable_target warn_stateful_set_ordinal_budget all_errors validate_pod_pool_spec
    validate_workload_template plain lookup validate_scaling validate_overflow_sink is_bounded
    validate_opportunistic extract_gvk strip_pasted_metadata strip_metadata insert delete merge_maps
    build_child_workload validate_rendered_children check_workload_authorization
    compute_group_targets target_percent check_target_degraded parse_template
web_pool_updated = refl

updated-IsVouched_example :
    (gvk : Gvk) × (extract_gvk plain_api web_pool.spec.workload_template ≡ some gvk)
    × (((old : Gvk) × (extract_gvk plain_api broken_pool.spec.workload_template ≡ some old)
          × (same_gvk setting old gvk ≡ true))
        ⊎ ((extract_gvk plain_api broken_pool.spec.workload_template ≡ none)
            × (check_workload_authorization plain_texts validator
                  (some alice)
                  web_pool
                  gvk
                  (reauthorize_reason setting)
                ≡ none)))
updated-IsVouched_example =
    updated-IsVouched setting alice broken_pool web_pool [] refl web_pool_updated

abbrev an_error : String → FieldError
an_error detail = record { kind = forbidden; path = groups_path; value = ""; detail = detail }

abbrev old_result : RenderedChildResult
old_result = record {
  global_errs = [];
  group_errs = ("base", an_error "old" ∷ []) ∷ ("spot", an_error "worn" ∷ []) ∷ [];
  warnings = [];
}

abbrev new_result : RenderedChildResult
new_result = record {
  global_errs = an_error "global" ∷ [];
  group_errs = ("base", an_error "old" ∷ an_error "new" ∷ []) ∷ [];
  warnings = [];
}

downgrade_accounts_run :
    length (downgrade_pre_existing plain_texts old_result new_result).0
      + length (downgrade_pre_existing plain_texts old_result new_result).1
    ≡ length (all_errors new_result)
downgrade_accounts_run = downgrade_accounts plain_texts old_result new_result

downgrade-own_example : (downgrade_pre_existing plain_texts old_result old_result).0 ≡ []
downgrade-own_example = downgrade-own plain_texts old_result ((refl, tt), (tt, tt))
