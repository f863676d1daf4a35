-- ===== src/Webhook/Downgrade/Laws.antt =====
-- internal/webhook/v1alpha1/podpool_webhook.go: the comparison of rendering errors, counted, and
-- that of a result with itself.
use podpool_controller.Prelude.{
  ℕ, ◌+◌, ◌≡◌, refl, Bool, true, false, ◌||◌, List, [], ◌∷◌, String, str_eq, str_eq_refl, length,
  length-append, All, arith, Bool-cases, inl, inr,
}
use podpool_controller.Webhook.Report.{FieldError, Texts}
use podpool_controller.Webhook.Rendered.{RenderedChildResult, get_group, flatten, all_errors}
use podpool_controller.Webhook.Downgrade.{
  was_there, sort_out, sort_group, sort_groups, downgrade_pre_existing, global_key, group_key,
  global_warning, group_warning,
}

-- The errors and the warnings of a comparison, counted.
abbrev count_both : List FieldError × List String → ℕ
count_both (errs, warnings) = length errs + length warnings

module _ (texts : Texts) where
  count-sort_out :
      (known : FieldError → Bool) (warning : FieldError → String) (es : List FieldError)
      → count_both (sort_out texts known warning es) ≡ length es
  unfolding sort_out
  count-sort_out known warning [] = refl
  count-sort_out known warning (e ∷ es) = elim (Bool-cases (known e)) [
    | inl k ↦ rw k (omega (arith, count-sort_out known warning es))
    | inr k ↦ rw k (omega (arith, count-sort_out known warning es))
  ]

  count-sort_group :
      (name : String) (old es : List FieldError)
      → count_both (sort_group texts name old es) ≡ length es
  count-sort_group name [] es = omega arith
  count-sort_group name (o ∷ old) es =
      count-sort_out (was_there texts (group_key texts) (o ∷ old)) (group_warning texts name) es

  count-sort_groups :
      (old rows : List (String × List FieldError))
      → count_both (sort_groups texts old rows) ≡ length (flatten rows)
  unfolding sort_groups flatten
  count-sort_groups old [] = refl
  count-sort_groups old ((name, es) ∷ rows) =
      let here = sort_group texts name (get_group name old) es in
      let rest = sort_groups texts old rows in
      omega (
        arith,
        count-sort_group name (get_group name old) es,
        count-sort_groups old rows,
        length-append here.0 rest.0,
        length-append here.1 rest.1,
        length-append es (flatten rows),
      )

-- Every rendering error of the new pool is either still an error or a warning, once, whatever the
-- stored pool had.
pub downgrade_accounts :
    (texts : Texts) (old new : RenderedChildResult)
    → length (downgrade_pre_existing texts old new).0
        + length (downgrade_pre_existing texts old new).1
      ≡ length (all_errors new)
unfolding downgrade_pre_existing all_errors
downgrade_accounts texts old new =
    let global =
      sort_out texts (was_there texts (global_key texts) old.global_errs) (global_warning texts)
        new.global_errs in
    let groups = sort_groups texts old.group_errs new.group_errs in
    omega (
      arith,
      count-sort_out texts (was_there texts (global_key texts) old.global_errs)
          (global_warning texts) new.global_errs,
      count-sort_groups texts old.group_errs new.group_errs,
      length-append global.0 groups.0,
      length-append global.1 groups.1,
      length-append new.global_errs (flatten new.group_errs),
    )

abbrev AllKnown : (FieldError → Bool) → List FieldError → Type 0
AllKnown known es = All (λ e. known e ≡ true) es

module _ (texts : Texts) (key : FieldError → String) where
  weaken :
      (o : FieldError) (old es : List FieldError)
      → AllKnown (was_there texts key old) es
      → AllKnown (was_there texts key (o ∷ old)) es
  unfolding was_there
  weaken o old [] known = tt
  weaken o old (e ∷ es) (here, rest) = (step (str_eq (key o) (key e)) here, weaken o old es rest)
    where
      step : (b : Bool) {c : Bool} → c ≡ true → (b || c) ≡ true
      step true h = refl
      step false h = h

  was_there-own : (es : List FieldError) → AllKnown (was_there texts key es) es
  unfolding was_there
  was_there-own [] = tt
  was_there-own (e ∷ es) = (rw (str_eq_refl (key e)) refl, weaken e es es (was_there-own es))

sort_out-known :
    (texts : Texts) (known : FieldError → Bool) (warning : FieldError → String)
    (es : List FieldError)
    → AllKnown known es
    → (sort_out texts known warning es).0 ≡ []
unfolding sort_out
sort_out-known texts known warning [] all = refl
sort_out-known texts known warning (e ∷ es) (here, rest) =
    rw here (sort_out-known texts known warning es rest)

abbrev Row : Type 0
Row = String × List FieldError

-- No group has two rows.
abbrev pub HasDistinctGroups : List Row → Type 0
HasDistinctGroups [] = Unit
HasDistinctGroups ((n, es) ∷ rows) =
    All {A = Row} (λ r. str_eq n r.0 ≡ false) rows × HasDistinctGroups rows

abbrev AllHeld : List Row → List Row → Type 0
AllHeld old rows = All {A = Row} (λ r. get_group r.0 old ≡ r.1) rows

weaken_row :
    (n : String) (es : List FieldError) (old rows : List Row)
    → All {A = Row} (λ r. str_eq n r.0 ≡ false) rows
    → AllHeld old rows
    → AllHeld ((n, es) ∷ old) rows
unfolding get_group
weaken_row n es old [] other held = tt
weaken_row n es old (r ∷ rows) (o, other) (h, held) = (rw o h, weaken_row n es old rows other held)

get_group-own : (rows : List Row) → HasDistinctGroups rows → AllHeld rows rows
unfolding get_group
get_group-own [] d = tt
get_group-own ((n, es) ∷ rows) (other, d) =
    (rw (str_eq_refl n) refl, weaken_row n es rows rows other (get_group-own rows d))

module _ (texts : Texts) where
  sort_group-own : (name : String) (es : List FieldError) → (sort_group texts name es es).0 ≡ []
  sort_group-own name [] = refl
  sort_group-own name (e ∷ es) =
      sort_out-known texts (was_there texts (group_key texts) (e ∷ es)) (group_warning texts name)
        (e ∷ es) (was_there-own texts (group_key texts) (e ∷ es))

  sort_groups-held : (old rows : List Row) → AllHeld old rows → (sort_groups texts old rows).0 ≡ []
  unfolding sort_groups
  sort_groups-held old [] held = refl
  sort_groups-held old ((n, es) ∷ rows) (h, held) =
      rw h (rw (sort_group-own n es) (sort_groups-held old rows held))

-- An edit that leaves the rendering errors as they were is not rejected for any of them, if no group has
-- two rows of errors.
pub downgrade-own :
    (texts : Texts) (r : RenderedChildResult)
    → HasDistinctGroups r.group_errs
    → (downgrade_pre_existing texts r r).0 ≡ []
unfolding downgrade_pre_existing
downgrade-own texts r d =
    rw
      (sort_out-known texts (was_there texts (global_key texts) r.global_errs)
        (global_warning texts) r.global_errs (was_there-own texts (global_key texts) r.global_errs))
      (sort_groups-held texts r.group_errs r.group_errs (get_group-own r.group_errs d))
