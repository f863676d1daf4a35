-- ===== src/Workload/Percent/Laws.antt =====
-- internal/workload/algorithm.go: percentages are read back as they are written, and the rounding
-- never leaves the range of an `int32`.
use podpool_controller.Prelude.{
  ℕ, zero, suc, ◌+◌, ◌*◌, ◌/◌, ◌%◌, ◌≤◌, ◌<◌, ◌≡◌, refl, inl, inr, Bool, true, ◌&&◌, Option, none,
  some, Option-cases, Bool-cases, List, [], ◌∷◌, arith, ltb, ◌==◌, if◌then◌else◌, to_int32,
  max_int32,
}
use podpool_controller.Api.{IntOrString, int_val, str_val}
use podpool_controller.Workload.Percent.{target_percent, percent_of, ceil_div64}

-- A percentage as the CRD's rule on `target` wants it written: one to three digits with no leading
-- zero, and the sign.
abbrev pub percent_text : ℕ → List ℕ
percent_text p =
    if ltb p 10
    then (p + b'0') ∷ b'%' ∷ []
    else if ltb p 100
    then (p / 10 + b'0') ∷ (p % 10 + b'0') ∷ b'%' ∷ []
    else (p / 100 + b'0') ∷ (p / 10 % 10 + b'0') ∷ (p % 10 + b'0') ∷ b'%' ∷ []

reads_back : ℕ → Bool
unfolding target_percent
reads_back p = elim (target_percent (some (str_val (percent_text p)))) [
  | none ↦ p == 0
  | some q ↦ q == p
]

all_up_to : ℕ → (ℕ → Bool) → Bool
all_up_to zero p = p 0
all_up_to (suc n) p = p (suc n) && all_up_to n p

all_up_to_sound : (n : ℕ) (p : ℕ → Bool) (x : ℕ) → all_up_to n p ≡ true → x ≤ n → p x ≡ true
unfolding all_up_to
all_up_to_sound zero p x h le = let e : x ≡ 0 = omega arith in cc
all_up_to_sound (suc n) p x h le = elim (Bool-cases (x == suc n)) [
  | inl e ↦ let e' : x ≡ suc n = ground arith in rw e' (ground arith)
  | inr e ↦ all_up_to_sound n p x (ground arith) (ground arith)
]

table : all_up_to 100 reads_back ≡ true
unfolding all_up_to reads_back
table = refl

reads_back-some :
    (p : ℕ)
    → reads_back p ≡ true
    → 1 ≤ p
    → target_percent (some (str_val (percent_text p))) ≡ some p
unfolding reads_back
reads_back-some p h l = elim (Option-cases (target_percent (some (str_val (percent_text p))))) [
  | inl e ↦ absurd (ground arith)
  | inr (q, e) ↦ rw e (ground arith)
]

-- Every percentage from 1 to 100 is read back from the text that the schema's rule wants for it.
pub target_percent-text :
    (p : ℕ) → 1 ≤ p → p ≤ 100 → target_percent (some (str_val (percent_text p))) ≡ some p
target_percent-text p l h = reads_back-some p (all_up_to_sound 100 reads_back p table h) l

pub target_percent-range :
    (t : Option IntOrString) (p : ℕ) → target_percent t ≡ some p → (1 ≤ p) × (p ≤ 100)
unfolding target_percent
target_percent-range none p e = absurd (cc)
target_percent-range (some (int_val z)) p e = absurd (cc)
target_percent-range (some (str_val s)) p e = ground arith

-- Of a total that an `int32` holds and a percentage that can be read, `percentOf` is the share
-- rounded down and `ceilDiv64` the share rounded up, both exactly, and neither passes the total.
pub share_rounding :
    (t : Option IntOrString) (total pct : ℕ)
    → total ≤ max_int32
    → target_percent t ≡ some pct
    → (100 * percent_of total pct ≤ total * pct)
      × (total * pct < 100 * percent_of total pct + 100)
      × (total * pct ≤ 100 * ceil_div64 (total * pct) 100)
      × (100 * ceil_div64 (total * pct) 100 < total * pct + 100)
      × (ceil_div64 (total * pct) 100 ≤ total)
unfolding percent_of ceil_div64 to_int32
share_rounding t total pct h e =
    let (low, high) = target_percent-range t pct e in
    let le : total * pct ≤ total * 100 = grind arith in
    (omega arith, omega arith, omega arith, omega arith, omega arith)
