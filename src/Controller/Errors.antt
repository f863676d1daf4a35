-- ===== src/Controller/Errors.antt =====
-- internal/controller/errors.go and the classification in podpool_controller.go: errors as values that
-- wrap one another, as far as the code looks into them.
pub mod Laws
use podpool_controller.Prelude.{
  Bool, true, false, ◌&&◌, Option, none, some, List, [], ◌∷◌, String, concat, contains,
  if◌then◌else◌,
}

-- What k8s.io/apimachinery's predicates say of a status error: `IsNotFound`, `IsConflict`, `IsInvalid`,
-- `IsRequestEntityTooLargeError`, `IsInternalError`, or none of them.
pub data ApiReason : Type 0 where
  is_not_found is_conflict is_invalid is_too_large is_internal is_other : ApiReason

-- `wrapped` is `fmt.Errorf` with `%w` at its end; an owner is its kind and its name.
pub data Error : Type 0 where
  leaf : String → Error
  api : ApiReason → String → Error
  not_owned : String → String → Option (String × String) → Error
  wrapped : String → Error → Error
  terminal : Error → Error

abbrev not_owned_text : String → String → Option (String × String) → String
not_owned_text kind name none =
    concat (kind ∷ " " ∷ name ∷ " exists and has no controller owner" ∷ [])
not_owned_text kind name (some owner) =
    concat (kind ∷ " " ∷ name ∷ " is controlled by " ∷ owner.0 ∷ "/" ∷ owner.1 ∷ [])

unfoldable pub error_message : Error → String
error_message (leaf text) = text
error_message (api reason text) = text
error_message (not_owned kind name owner) = not_owned_text kind name owner
error_message (wrapped what e) = concat (what ∷ ": " ∷ error_message e ∷ [])
error_message (terminal e) = error_message e

-- `errors.As` walks the chain to the first error of the type that it is asked for.
unfoldable pub is_terminal : Error → Bool
is_terminal (terminal e) = true
is_terminal (wrapped what e) = is_terminal e
is_terminal _ = false

abbrev pub is_not_owned : Error → Bool
is_not_owned (not_owned kind name owner) = true
is_not_owned (wrapped what e) = is_not_owned e
is_not_owned (terminal e) = is_not_owned e
is_not_owned _ = false

abbrev pub api_reason : Error → Option ApiReason
api_reason (api reason text) = some reason
api_reason (wrapped what e) = api_reason e
api_reason (terminal e) = api_reason e
api_reason _ = none

abbrev pub is_missing : Option ApiReason → Bool
is_missing (some is_not_found) = true
is_missing _ = false

abbrev rejects_for_good : String → Option ApiReason → Bool
rejects_for_good message (some is_invalid) = true
rejects_for_good message (some is_too_large) = true
rejects_for_good message (some is_internal) = contains message "failed to create typed patch object"
rejects_for_good message _ = false

unfoldable pub is_terminal_api_error : Error → Bool
unfolding error_message contains
is_terminal_api_error e = rejects_for_good (error_message e) (api_reason e)

-- An event that is published at the end of the pass. All of them are warnings.
pub record PendingEvent : Type 0 where
  pub group : String
  pub reason : String
  pub note : String

unfoldable pub classify_group_error : String → Error → Bool × PendingEvent
unfolding is_terminal error_message
classify_group_error group e =
    if is_not_owned e
    then (
      false,
      record {
        group = group;
        reason = "WorkloadNotOwned";
        note = concat ("Refusing to manage group " ∷ group ∷ ": " ∷ error_message e ∷ []);
      },
    )
    else if is_terminal e
    then (
      true,
      record {
        group = group;
        reason = "GroupSpecInvalid";
        note = concat (
            "Group "
            ∷ group
            ∷ " has a spec error that will not resolve without a change: "
            ∷ error_message e
            ∷ []);
      },
    )
    else (
      false,
      record {
        group = group;
        reason = "GroupReconcileFailed";
        note = concat ("Failed to reconcile group " ∷ group ∷ ": " ∷ error_message e ∷ []);
      },
    )

-- A value or an error.
pub data Result {ℓ} (A : Type ℓ) : Type ℓ where
  failed : Error → Result A
  done : A → Result A
