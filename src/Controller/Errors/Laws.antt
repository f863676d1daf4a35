-- ===== src/Controller/Errors/Laws.antt =====
-- internal/controller/errors.go: the class of an error however often it is wrapped.
use podpool_controller.Prelude.{
  List, [], ◌∷◌, String, ◌≡◌, refl, sym, ◌∙◌, inl, inr, Bool-cases, str_eq, not, ◌&&◌,
}
use podpool_controller.Controller.Errors.{
  Error, wrapped, is_terminal, is_not_owned, api_reason, classify_group_error, Result, failed,
}

-- An error on its way up, through any number of `fmt.Errorf` calls, the innermost last.
unfoldable pub wrap_all : List String → Error → Error
wrap_all [] e = e
wrap_all (what ∷ more) e = wrapped what (wrap_all more e)

pub wrap_all_class :
    (whats : List String) (e : Error)
    → (is_terminal (wrap_all whats e) ≡ is_terminal e)
      × (is_not_owned (wrap_all whats e) ≡ is_not_owned e)
      × (api_reason (wrap_all whats e) ≡ api_reason e)
unfolding wrap_all is_terminal
wrap_all_class [] e = (refl, refl, refl)
wrap_all_class (what ∷ more) e = wrap_all_class more e

-- The class that the event names is the class that is returned.
pub class_of_error :
    (group : String) (e : Error)
    → ((classify_group_error group e).0
        ≡ str_eq (classify_group_error group e).1.reason "GroupSpecInvalid")
      × (is_not_owned e ≡ str_eq (classify_group_error group e).1.reason "WorkloadNotOwned")
      × ((classify_group_error group e).0 ≡ (not (is_not_owned e) && is_terminal e))
      × ((classify_group_error group e).1.group ≡ group)
unfolding classify_group_error
class_of_error group e = elim (Bool-cases (is_not_owned e)) [
  | inl owned ↦ rw (owned) (refl, refl, refl, refl)
  | inr free ↦ elim (Bool-cases (is_terminal e)) [
    | inl final ↦ rw (free, final) (refl, refl, refl, refl)
    | inr retried ↦ rw (free, retried) (refl, refl, refl, refl)
  ]
]

-- One place decides the class: an error is counted as terminal just when its event blames the spec of
-- the group, and as an ownership conflict just when the chain holds one, whatever else it holds;
-- wrapping it any number of times changes neither.
pub classify_group_error_lem :
    (group : String) (whats : List String) (e : Error)
    → let classified = classify_group_error group (wrap_all whats e) in
      (classified.0 ≡ str_eq classified.1.reason "GroupSpecInvalid")
      × (is_not_owned e ≡ str_eq classified.1.reason "WorkloadNotOwned")
      × (classified.0 ≡ (not (is_not_owned e) && is_terminal e))
      × (classified.1.group ≡ group)
classify_group_error_lem group whats e =
    let (on_terminal, on_owner, _) = wrap_all_class whats e in
    let (final, owned, both, named) = class_of_error group (wrap_all whats e) in
    (final, sym on_owner ∙ owned, both ∙ rw (on_owner, on_terminal) refl, named)

pub failed-injective {ℓ} :
    {A : Type ℓ} (e why : Error) → Path (Result A) (failed e) (failed why) → e ≡ why
failed-injective e why h = cc
