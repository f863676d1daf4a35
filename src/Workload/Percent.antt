-- ===== src/Workload/Percent.antt =====
-- internal/workload/algorithm.go: reading a percentage and rounding it.
pub mod Laws
use podpool_controller.Prelude.{
  ℕ, zero, suc, ◌+◌, ◌-◌, ◌*◌, ◌/◌, ◌≤◌, ◌<◌, ◌≡◌, refl, Bool, true, false, ◌&&◌, ◌||◌, Option,
  none, some, List, [], ◌∷◌, arith, leb, ltb, ◌==◌, if◌then◌else◌, codes, ℤ, pos, negsuc, to_int32,
  max_int32, to_int32_small,
}
use podpool_controller.Api.{IntOrString, int_val, str_val}

-- `strings.TrimSuffix(s, "%")`.
unfoldable pub trim_percent : List ℕ → List ℕ
trim_percent [] = []
trim_percent (c ∷ []) = if c == b'%' then [] else c ∷ []
trim_percent (c ∷ d ∷ s) = c ∷ trim_percent (d ∷ s)

-- The digits of `strconv.ParseUint` at base 10, the value so far first.
unfoldable pub parse_digits : ℕ → List ℕ → Option ℕ
parse_digits n [] = some n
parse_digits n (c ∷ s) =
    let rest = parse_digits (n * 10 + (c - b'0')) s in
    if leb b'0' c && leb c b'9' then rest else none

unfoldable pub parse_uint : List ℕ → Option ℕ
unfolding parse_digits
parse_uint [] = none
parse_uint (c ∷ s) = parse_digits 0 (c ∷ s)

abbrev pos_int32 : Option ℕ → Option ℤ
pos_int32 none = none
pos_int32 (some n) = if leb n max_int32 then some (pos n) else none

abbrev neg_int32 : Option ℕ → Option ℤ
neg_int32 none = none
neg_int32 (some zero) = some (pos 0)
neg_int32 (some (suc n)) = if leb n max_int32 then some (negsuc n) else none

-- `strconv.ParseInt(s, 10, 32)`: an optional sign and at least one digit; a value out of range is
-- an error too.
unfoldable pub parse_int32 : List ℕ → Option ℤ
unfolding parse_uint
parse_int32 [] = none
parse_int32 (c ∷ s) =
    if c == b'+'
    then pos_int32 (parse_uint s)
    else if c == b'-'
    then neg_int32 (parse_uint s)
    else pos_int32 (parse_uint (c ∷ s))

abbrev percent_in_range : Option ℤ → Option ℕ
percent_in_range none = none
percent_in_range (some (negsuc _)) = none
percent_in_range (some (pos p)) = if ltb p 1 || ltb 100 p then none else some p

-- The pair of a value and `ok` is an `Option`.
unfoldable pub target_percent : Option IntOrString → Option ℕ
unfolding trim_percent parse_int32
target_percent none = none
target_percent (some (int_val _)) = none
target_percent (some (str_val s)) = percent_in_range (parse_int32 (trim_percent s))

unfoldable pub percent_of : ℕ → ℕ → ℕ
unfolding to_int32
percent_of total pct = to_int32 (total * pct / 100)

unfoldable pub ceil_div64 : ℕ → ℕ → ℕ
unfolding to_int32
ceil_div64 a b = to_int32 ((a + b - 1) / b)
