-- ===== src/Controller/Conditions/Messages.antt =====
-- internal/controller/conditions.go: the length of the messages.
use Prim.Native.String.{String as Text, ◌++◌}
use Prim.Native.String.count.{cons as count-cons}
use text.Mathlib.TextLemmas.{length-append}
use podpool_controller.Prelude.{
  ℕ, zero, suc, ◌-◌, ◌≤◌, Bool, true, false, List, String, ltb, arith, if◌then◌else◌, concat, ◌==◌,
  not,
}
use podpool_controller.Controller.Conditions.{
  Finding, prefix, truncate, size, is_empty, summary_ready,
}

size-prefix : (n : ℕ) (s : String) → size (prefix n s) ≤ n
unfolding prefix
size-prefix zero s = omega arith
size-prefix (suc n) Text.[] = omega arith
size-prefix (suc n) (Text.◌∷◌ c s) = omega (arith, size-prefix n s, count-cons c (prefix n s))

size-truncate : (s : String) (n : ℕ) → 3 ≤ n → size (truncate s n) ≤ n
unfolding truncate concat
size-truncate s n h =
    ground (
      arith,
      size-prefix n s,
      size-prefix (n - 3) s,
      length-append (prefix (n - 3) s) ("..." ++ ""),
    )

abbrev IsShort : Finding → Type 0
IsShort f = size f.message ≤ 60

IsShort-if : (b : Bool) (f g : Finding) → IsShort f → IsShort g → IsShort (if b then f else g)
IsShort-if true f g short _ = short
IsShort-if false f g _ short = short

truncated_short : (message : String) → size (truncate message 60) ≤ 60
truncated_short message = size-truncate message 60 (omega arith)

-- The message of the summary fits into the column that it is printed in: it never has more than 60
-- characters, whatever the groups are called.
pub summary_ready_short :
    (decimal : ℕ → String) (ready desired unplaced : ℕ) (failed terminal stalled : List String)
    → size (summary_ready decimal ready desired unplaced failed terminal stalled).message ≤ 60
unfolding summary_ready
summary_ready_short decimal ready desired unplaced failed terminal stalled =
    IsShort-if (desired == 0) _ _ (search truncated_short) (
      IsShort-if (not (is_empty terminal)) _ _ (search truncated_short) (
        IsShort-if (not (is_empty failed)) _ _ (search truncated_short) (
          IsShort-if (ltb 0 unplaced) _ _ (search truncated_short) (
            IsShort-if (ready == 0) _ _ (search truncated_short) (
              IsShort-if (not (is_empty stalled)) _ _ (search truncated_short) (
                IsShort-if (ltb ready desired) _ _ (search truncated_short)
                  (search truncated_short)))))))
