-- ===== src/Prelude/Text.antt =====
-- Texts: names are native strings that are only compared; text that is parsed is a list of bytes.
use Prim.Native.Nat.{ℕ}
use Prim.Native.Char.{code}
use Prim.Native.String.{String, ◌++◌}
use mathlib.Core.Path.{◌≡◌, refl, sym, subst}
use mathlib.Core.Logic.{◌↔◌}
use mathlib.Core.Bool.{Bool, true, false, ◌||◌}
use mathlib.Core.List.{List, [], ◌∷◌}
use text.Mathlib.Text.{◌==◌, starts_with}
use text.Mathlib.TextEquality.{eq_iff}

abbrev pub str_eq : String → String → Bool
str_eq s t = s == t

pub str_eq_iff : (s t : String) → (str_eq s t ≡ true) ↔ (s ≡ t)
str_eq_iff s t = eq_iff s t

abbrev pub codes : String → List ℕ
codes String.[] = []
codes (String.◌∷◌ c s) = code c ∷ codes s

pub str_eq_refl : (s : String) → str_eq s s ≡ true
str_eq_refl s = (eq_iff s s).1 refl

-- A name equal to another is equal to the same names.
pub str_eq_same : (s t u : String) → str_eq s t ≡ true → str_eq t u ≡ false → str_eq s u ≡ false
str_eq_same s t u e h = subst (λ x. str_eq x u ≡ false) (sym ((eq_iff s t).0 e)) h

-- The pieces of a message in their order.
unfoldable pub concat : List String → String
concat [] = ""
concat (s ∷ pieces) = s ++ concat pieces

-- `strings.Contains`.
unfoldable pub contains : String → String → Bool
contains String.[] t = str_eq t ""
contains (String.◌∷◌ c s) t = let rest = contains s t in starts_with (String.◌∷◌ c s) t || rest
