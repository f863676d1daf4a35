-- ===== src/Webhook/Downgrade.antt =====
-- internal/webhook/v1alpha1/podpool_webhook.go: the rendering errors that the stored pool already had
-- become warnings of an update.
pub mod Laws
use podpool_controller.Prelude.{
  Bool, true, false, not, ◌&&◌, ◌||◌, List, [], ◌∷◌, ◌++◌, map, String, str_eq, if◌then◌else◌, any,
  concat,
}
use podpool_controller.Webhook.Report.{FieldError, Texts}
use podpool_controller.Webhook.Rendered.{RenderedChildResult, get_group}

module _ (texts : Texts) where
  -- The key of an error in the set of the global ones, and in the set of a group's.
  abbrev pub global_key : FieldError → String
  global_key e = concat (texts.path_text e.path ∷ "|" ∷ e.detail ∷ [])

  abbrev pub group_key : FieldError → String
  group_key e = concat (texts.kind_text e.kind ∷ "|" ∷ e.detail ∷ [])

  -- Whether an old error has the same key.
  unfoldable pub was_there : (FieldError → String) → List FieldError → FieldError → Bool
  was_there key old e = any {A = FieldError} (λ o. str_eq (key o) (key e)) old

  -- The errors that stay, and the warnings.
  unfoldable pub sort_out :
      (FieldError → Bool) → (FieldError → String) → List FieldError → List FieldError × List String
  sort_out known warning [] = ([], [])
  sort_out known warning (e ∷ es) =
      let rest = sort_out known warning es in
      if known e then (rest.0, warning e ∷ rest.1) else (e ∷ rest.0, rest.1)

  abbrev global_warning : FieldError → String
  global_warning e = concat ("pre-existing: " ∷ e.detail ∷ [])

  abbrev group_warning : String → FieldError → String
  group_warning name e =
      concat ("pre-existing issue in group " ∷ texts.quote name ∷ ": " ∷ e.detail ∷ [])

  abbrev sort_group : String → List FieldError → List FieldError → List FieldError × List String
  sort_group name [] es = (es, [])
  sort_group name (o ∷ old) es = sort_out (was_there group_key (o ∷ old)) (group_warning name) es

  unfoldable pub sort_groups :
      List (String × List FieldError)
      → List (String × List FieldError)
      → List FieldError × List String
  unfolding sort_out was_there get_group
  sort_groups old [] = ([], [])
  sort_groups old ((name, es) ∷ rows) =
      let rest = sort_groups old rows in
      let here = sort_group name (get_group name old) es in (here.0 ++ rest.0, here.1 ++ rest.1)

  unfoldable pub downgrade_pre_existing :
      RenderedChildResult → RenderedChildResult → List FieldError × List String
  unfolding sort_groups
  downgrade_pre_existing old new =
      let global = sort_out (was_there global_key old.global_errs) global_warning new.global_errs in
      let groups = sort_groups old.group_errs new.group_errs in
      (global.0 ++ groups.0, global.1 ++ groups.1)
