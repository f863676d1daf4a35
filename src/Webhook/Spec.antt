-- ===== src/Webhook/Spec.antt =====
-- internal/webhook/v1alpha1/podpool_webhook.go: the validation of a pool's spec.
pub mod Laws
use podpool_controller.Prelude.{
  ℕ, suc, ◌+◌, ◌-◌, Bool, true, false, not, ◌&&◌, ◌||◌, Option, none, some, List, [], ◌∷◌, ◌++◌,
  String, str_eq, codes, leb, ltb, ◌==◌, if◌then◌else◌, length, any,
}
use podpool_controller.Api.{GroupSpec, PodPool}
use podpool_controller.Workload.Object.{ObjectApi}
use podpool_controller.Webhook.Report.{
  Segment, child, index, key, ErrorKind, required, invalid, duplicate, forbidden, internal,
  FieldError, Texts,
}
use podpool_controller.Webhook.Groups.{
  at_group, validate_scaling, validate_overflow_sink, validate_opportunistic,
}
use podpool_controller.Webhook.Template.{required_error, validate_workload_template}

abbrev is_lower : ℕ → Bool
is_lower c = leb b'a' c && leb c b'z'

abbrev is_alnum : ℕ → Bool
is_alnum c = is_lower c || (leb b'0' c && leb c b'9')

-- What may follow the first letter: letters, digits and hyphens, the last of them no hyphen.
unfoldable pub label_tail : List ℕ → Bool
label_tail [] = false
label_tail (c ∷ []) = is_alnum c
label_tail (c ∷ d ∷ s) = let rest = label_tail (d ∷ s) in (is_alnum c || c == b'-') && rest

-- `^[a-z][a-z0-9-]*[a-z0-9]$`.
unfoldable pub is_dns_label : List ℕ → Bool
unfolding label_tail
is_dns_label [] = false
is_dns_label (c ∷ s) = is_lower c && label_tail s

-- `len(name)`, in bytes: one to four for a character.
unfoldable pub byte_length : List ℕ → ℕ
byte_length [] = 0
byte_length (c ∷ s) =
    let rest = byte_length s in
    (if ltb c 128 then 1 else if ltb c 2048 then 2 else if ltb c 65536 then 3 else 4) + rest

unfoldable pub name_errors : List Segment → String → List FieldError
unfolding byte_length is_dns_label
name_errors path name =
    if str_eq name ""
    then required_error (path ++ (child "name" ∷ [])) "group name is required" ∷ []
    else if ltb (byte_length (codes name)) 2 || not (is_dns_label (codes name))
    then record {
      kind = invalid;
      path = path ++ (child "name" ∷ []);
      value = name;
      detail =
          "must be a valid DNS label (lowercase alphanumeric and hyphens, at least 2 characters)";
    }
      ∷ []
    else []

abbrev pub duplicate_error : List Segment → String → FieldError
duplicate_error path name = record {
  kind = duplicate;
  path = path ++ (child "name" ∷ []);
  value = name;
  detail = "";
}

abbrev pub groups_path : List Segment
groups_path = child "spec" ∷ child "groups" ∷ []

module _ (texts : Texts) where
  abbrev pub one_group : List String → ℕ → GroupSpec → List FieldError
  one_group names i g =
      name_errors (at_group groups_path i) g.name
      ++ ((if any {A = String} (str_eq g.name) names
            then duplicate_error (at_group groups_path i) g.name ∷ []
            else [])
          ++ validate_scaling texts (at_group groups_path i ++ (child "scaling" ∷ [])) g.scaling)

  -- The loop over the groups, with the names that have been met.
  unfoldable pub group_errors : List String → ℕ → List GroupSpec → List FieldError
  unfolding name_errors
  group_errors names i [] = []
  group_errors names i (g ∷ gs) = one_group names i g ++ group_errors (g.name ∷ names) (suc i) gs

  abbrev pub groups_errors : List GroupSpec → List FieldError
  groups_errors [] = required_error groups_path "at least one group is required" ∷ []
  groups_errors (g ∷ gs) =
      group_errors [] 0 (g ∷ gs)
      ++ (validate_overflow_sink texts groups_path (g ∷ gs)
          ++ validate_opportunistic texts groups_path (g ∷ gs))

  unfoldable pub validate_pod_pool_spec : ObjectApi → PodPool → List FieldError
  unfolding group_errors
  validate_pod_pool_spec api pool =
      validate_workload_template texts api (child "spec" ∷ child "workloadTemplate" ∷ [])
        pool.spec.workload_template
      ++ groups_errors pool.spec.groups
