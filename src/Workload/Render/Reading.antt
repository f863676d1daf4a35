-- ===== src/Workload/Render/Reading.antt =====
-- internal/workload/render.go: the range of a count that is read from a child.
use podpool_controller.Prelude.{
  ◌⊎◌, ℕ, ◌≤◌, ◌≡◌, refl, Bool, true, false, Option, none, some, List, String, ℤ, pos, negsuc,
  max_int32, ltb, arith, Bool-cases, inl, inr,
}
use podpool_controller.Json.{Fields}
use podpool_controller.Workload.Object.{ObjectApi}
use podpool_controller.Workload.Render.{read_int32_checked, clamped}

abbrev IsReading : Option ℤ → ℕ × Bool × Bool → Type 0
IsReading stored (n, found, out_of_range) =
    (n ≤ max_int32)
    × (((stored ≡ none) × (found ≡ false))
        ⊎ (((stored ≡ some (pos n)) × (out_of_range ≡ false))
            ⊎ ((found ≡ true) × (out_of_range ≡ true))))

clamped-IsReading : (stored : Option ℤ) → IsReading stored (clamped stored)
clamped-IsReading none = (omega arith, inl (refl, refl))
clamped-IsReading (some (negsuc n)) = (omega arith, inr (inr (refl, refl)))
clamped-IsReading (some (pos n)) = elim (Bool-cases (ltb max_int32 n)) [
  | inl e ↦ rw e (omega arith, inr (inr (refl, refl)))
  | inr e ↦ rw e (ground arith, inr (inl (refl, refl)))
]

-- A count that is read from a child is one that the pool's status can store, whatever the child holds:
-- either the field is missing, or the number read is the number stored, or it is reported as out of
-- range.
pub read_int32_checked_fits :
    (api : ObjectApi) (object : Fields) (path : List String)
    → ((read_int32_checked api object path).0 ≤ max_int32)
      × (((api.nested_int64 path object ≡ none) × ((read_int32_checked api object path).1 ≡ false))
          ⊎ (((api.nested_int64 path object ≡ some (pos (read_int32_checked api object path).0))
                × ((read_int32_checked api object path).2 ≡ false))
              ⊎ (((read_int32_checked api object path).1 ≡ true)
                  × ((read_int32_checked api object path).2 ≡ true))))
unfolding read_int32_checked
read_int32_checked_fits api object path = clamped-IsReading (api.nested_int64 path object)
