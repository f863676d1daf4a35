-- ===== src/Controller/Progress/Totals.antt =====
-- internal/controller: the sums and shares of the pool's status stay in range.
use podpool_controller.Prelude.{
  ℕ, zero, suc, ◌+◌, ◌-◌, ◌*◌, ◌/◌, ◌%◌, ◌≤◌, ◌<◌, ◌≡◌, refl, Bool, List, [], ◌∷◌, map, arith, sum,
  min, max_int32, pos,
}
use podpool_controller.Api.{GroupStatus}
use podpool_controller.Controller.Progress.{clamp_int32, share_of_total, summarise_groups}

-- The quotient that is cut off, for a part of a total.
quotient_bounds :
    (a total : ℕ) → 0 < total → (a / total * total + a % total ≡ a) × (a % total < total)
quotient_bounds a total h = grind arith

pred_mul : (q total : ℕ) → 0 < q → (q - 1) * total + total ≡ q * total
pred_mul zero total h = absurd (omega arith)
pred_mul (suc q) total h = let e : suc q - 1 ≡ q = omega arith in rw e (omega arith)

-- The share of a group that has some of the replicas and not all of them is the exact percentage
-- cut to a whole number, or one less where the exact percentage is whole and the floating-point
-- quotient falls below it.
pub share_of_total_exact :
    (rounds_down : ℕ → ℕ → Bool) (replicas total : ℕ)
    → 0 < replicas
    → replicas < total
    → (share_of_total rounds_down replicas total * total ≤ replicas * 100)
      × (replicas * 100 ≤ share_of_total rounds_down replicas total * total + total)
unfolding share_of_total
share_of_total_exact rounds_down replicas total p l =
    let (split, low) = quotient_bounds (replicas * 100) total (omega arith) in
    ground (arith, split, low, pred_mul (replicas * 100 / total) total)

clamp_int32-pos : (n : ℕ) → clamp_int32 (pos n) ≡ min n max_int32
unfolding clamp_int32
clamp_int32-pos n = ground arith

-- A row without its share.
abbrev pub unshared : GroupStatus → GroupStatus
unshared gs = record gs { share_percent = 0 }

-- The pool's totals are the sums over its groups, and where a sum passes the range of an `int32`
-- its largest value stands instead of a number that has wrapped around; of each group's row nothing
-- changes but the share, which is taken of the total.
pub summarise_groups_totals :
    (rounds_down : ℕ → ℕ → Bool) (statuses : List GroupStatus)
    → (let (rows, totals) = summarise_groups rounds_down statuses in
        (totals.replicas ≡ min (sum (map (λ gs. gs.replicas) statuses)) max_int32)
        × (totals.ready ≡ min (sum (map (λ gs. gs.ready_replicas) statuses)) max_int32)
        × (totals.updated ≡ min (sum (map (λ gs. gs.updated_replicas) statuses)) max_int32)
        × (map unshared rows ≡ map unshared statuses)
        × (map (λ gs. gs.share_percent) rows
            ≡ map (λ gs. share_of_total rounds_down gs.replicas totals.replicas) statuses))
unfolding summarise_groups
summarise_groups_totals rounds_down statuses = (
  clamp_int32-pos _,
  clamp_int32-pos _,
  clamp_int32-pos _,
  map-map unshared (λ gs. record gs { share_percent = share gs }) statuses,
  map-map (λ gs. gs.share_percent) (λ gs. record gs { share_percent = share gs }) statuses,
)
  where
    share : GroupStatus → ℕ
    share gs =
        share_of_total rounds_down gs.replicas
          (clamp_int32 (pos (sum (map {A = GroupStatus} (λ row. row.replicas) statuses))))

    map-map :
        {B : Type 0} (f : GroupStatus → B) (g : GroupStatus → GroupStatus) (rows : List GroupStatus)
        → map f (map g rows) ≡ map (λ gs. f (g gs)) rows
    map-map f g [] = refl
    map-map f g (r ∷ rows) = cc (map-map f g rows)
