-- ===== src/Workload/Distribution/Degraded.antt =====
-- internal/workload/algorithm.go: what `TargetDegraded` says of the targets.
use podpool_controller.Prelude.{
  ℕ, suc, Bool, ◌≢◌, ◌+◌, ◌-◌, ◌*◌, ◌≤◌, ◌≡◌, refl, ◌⊎◌, inl, inr, List, [], ◌∷◌, true, false,
  Option, none, some, Option-cases, Bool-cases, String, arith, ◌==◌, All, max_int32, get_elem?,
}
use podpool_controller.Api.{GroupSpec}
use podpool_controller.Workload.Percent.{target_percent}
use podpool_controller.Workload.Distribution.{
  Slot, Rounding, slot_targets, slot_degraded, any_degraded, check_target_degraded,
  compute_group_targets, distribute,
}
use podpool_controller.Workload.Distribution.Account.{
  Pointwise, Pointwise-at, compute-Pointwise, compute-Pointwise_zero, distribute-Accounts,
}
use podpool_controller.Workload.Distribution.Rounds.{groups_of}
use podpool_controller.Workload.Distribution.Ceilings.{All-zero}

-- A group misses its percentage by half a point or more, on the side that its bounds leave open.
abbrev pub IsOff : ℕ → GroupSpec → ℕ → Type 0
IsOff total g t =
    (pct : ℕ) × (target_percent g.scaling.target ≡ some pct)
    × (((g.scaling.max ≡ none) × ((2 * pct + 1) * total ≤ 200 * t))
        ⊎ ((m : ℕ) × (g.scaling.max ≡ some m) × (200 * t ≤ (2 * pct - 1) * total)))

slot_degraded-IsOff :
    (f : Rounding) (total : ℕ) (s : Slot)
    → slot_degraded f total s ≡ true
    → IsOff total s.group s.target
unfolding slot_degraded
slot_degraded-IsOff f total s e = elim (Option-cases (target_percent s.group.scaling.target)) [
  | inl u ↦ absurd (ground arith)
  | inr (pct, u) ↦ elim (Option-cases s.group.scaling.max) [
    | inl m ↦ (pct, u, inl (m, ground arith))
    | inr (k, m) ↦ (pct, u, inr (k, m, ground arith))
  ]
]

-- Within tolerance: at most half a point above a percentage that is the ceiling, or below one that
-- is a soft floor.
abbrev pub OnTarget : ℕ → ℕ → ℕ → Option ℕ → Type 0
OnTarget total t pct none = 200 * t ≤ (2 * pct + 1) * total
OnTarget total t pct (some _) = (2 * pct - 1) * total ≤ 200 * t

slot_degraded-OnTarget :
    (f : Rounding) (total pct : ℕ) (s : Slot)
    → slot_degraded f total s ≡ false
    → target_percent s.group.scaling.target ≡ some pct
    → OnTarget total s.target pct s.group.scaling.max
unfolding slot_degraded
slot_degraded-OnTarget f total pct s e u = elim (Option-cases s.group.scaling.max) [
  | inl m ↦ rw m (ground arith)
  | inr (k, m) ↦ rw m (ground arith)
]

idle_OnTarget : (total pct : ℕ) (m : Option ℕ) → total ≡ 0 → OnTarget total 0 pct m
idle_OnTarget total pct none z = omega arith
idle_OnTarget total pct (some m) z = rw z (omega arith)

list_cases : (gs : List GroupSpec) → (gs ≡ []) ⊎ (gs ≢ [])
list_cases [] = inl refl
list_cases (g ∷ gs) = inr (λ e. cc)

any_degraded-false :
    (f : Rounding) (total : ℕ) (slots : List Slot)
    → any_degraded f total slots ≡ false
    → All (λ s. slot_degraded f total s ≡ false) slots
unfolding any_degraded
any_degraded-false f total [] e = tt
any_degraded-false f total (s ∷ slots) e = elim (Bool-cases (slot_degraded f total s)) [
  | inl d ↦ absurd (ground arith)
  | inr d ↦ (d, any_degraded-false f total slots (rw d at e))
]

-- Where the first group that is off stands.
any_degraded-true :
    (f : Rounding) (total : ℕ) (slots : List Slot)
    → any_degraded f total slots ≡ true
    → (i : ℕ) × (g : GroupSpec) × (t : ℕ) × (get_elem? (groups_of slots) i ≡ some g)
      × (get_elem? (slot_targets slots) i ≡ some t)
      × IsOff total g t
unfolding any_degraded
any_degraded-true f total [] e = absurd (cc)
any_degraded-true f total (s ∷ slots) e = elim (Bool-cases (slot_degraded f total s)) [
  | inl d ↦ (0, s.group, s.target, refl, refl, slot_degraded-IsOff f total s d)
  | inr d ↦
      let (i, g, t, a, b, off) = any_degraded-true f total slots (rw d at e) in
      (suc i, g, t, a, b, off)
]

any_degraded_of :
    (f : Rounding) (observed : String → Option ℕ) (total : ℕ) (gs : List GroupSpec)
    → gs ≢ []
    → (total == 0) ≡ false
    → (compute_group_targets f total gs observed).target_degraded
      ≡ any_degraded f total (distribute observed total gs).0
unfolding compute_group_targets check_target_degraded
any_degraded_of f observed total [] n e = absurd (n refl)
any_degraded_of f observed total (g ∷ gs) n e = rw e

targets_of :
    (f : Rounding) (observed : String → Option ℕ) (total : ℕ) (gs : List GroupSpec)
    → gs ≢ []
    → (total == 0) ≡ false
    → (compute_group_targets f total gs observed).targets
      ≡ slot_targets (distribute observed total gs).0
unfolding compute_group_targets
targets_of f observed total [] n e = absurd (n refl)
targets_of f observed total (g ∷ gs) n e = rw e

idle_not_degraded :
    (f : Rounding) (observed : String → Option ℕ) (total : ℕ) (gs : List GroupSpec)
    → (compute_group_targets f total gs observed).target_degraded ≡ true
    → (gs ≢ []) × ((total == 0) ≡ false)
unfolding compute_group_targets
idle_not_degraded f observed total [] e = absurd (cc)
idle_not_degraded f observed total (g ∷ gs) e = ((λ n. cc), ground arith)

degraded-IsOff :
    (f : Rounding) (observed : String → Option ℕ) (total : ℕ) (gs : List GroupSpec)
    → total ≤ max_int32
    → (compute_group_targets f total gs observed).target_degraded ≡ true
    → (i : ℕ) × (g : GroupSpec) × (t : ℕ) × (get_elem? gs i ≡ some g)
      × (get_elem? (compute_group_targets f total gs observed).targets i ≡ some t)
      × IsOff total g t
degraded-IsOff f observed total gs h e =
    let (n, z) = idle_not_degraded f observed total gs e in
    let d = rw (any_degraded_of f observed total gs n z) at e in
    let (i, g, t, a, b, off) = any_degraded-true f total (distribute observed total gs).0 d in
    let groups = (distribute-Accounts observed total gs h).1 in
    (i, g, t, rw groups at a, rw (targets_of f observed total gs n z) b, off)

-- A percentage that can be read is met.
abbrev pub MetAt : ℕ → ℕ → Option ℕ → Option ℕ → Type 0
MetAt total t max none = Unit
MetAt total t max (some pct) = OnTarget total t pct max

abbrev pub IsMet : ℕ → GroupSpec → ℕ → Type 0
IsMet total g t = MetAt total t g.scaling.max (target_percent g.scaling.target)

module _ (f : Rounding) (observed : String → Option ℕ) (total : ℕ) where
  slot-IsMet : (s : Slot) → slot_degraded f total s ≡ false → IsMet total s.group s.target
  slot-IsMet s e = elim (Option-cases (target_percent s.group.scaling.target)) [
    | inl u ↦ rw u tt
    | inr (pct, u) ↦ rw u (slot_degraded-OnTarget f total pct s e u)
  ]

  slots-IsMet :
      (slots : List Slot)
      → All (λ s. slot_degraded f total s ≡ false) slots
      → All (λ s. IsMet total s.group s.target) slots
  slots-IsMet [] q = tt
  slots-IsMet (s ∷ slots) (q, qs) = (slot-IsMet s q, slots-IsMet slots qs)

  idle-IsMet : total ≡ 0 → (g : GroupSpec) → IsMet total g 0
  idle-IsMet z g = elim (Option-cases (target_percent g.scaling.target)) [
    | inl u ↦ rw u tt
    | inr (pct, u) ↦ rw u (idle_OnTarget total pct g.scaling.max z)
  ]

  not_degraded-IsMet :
      (gs : List GroupSpec)
      → total ≤ max_int32
      → (compute_group_targets f total gs observed).target_degraded ≡ false
      → Pointwise (IsMet total) gs (compute_group_targets f total gs observed).targets
  not_degraded-IsMet gs h e = elim (Bool-cases (total == 0)) [
    | inl z ↦
        compute-Pointwise_zero f observed total (IsMet total) gs (ground arith)
          (All-zero (IsMet total) (idle-IsMet (ground arith)) gs)
    | inr z ↦ elim (list_cases gs) [
      | inl n ↦ rw n (unfold compute_group_targets in tt)
      | inr n ↦
          compute-Pointwise f observed total (IsMet total) gs h (λ y. absurd (ground arith))
            (slots-IsMet (distribute observed total gs).0 (
              any_degraded-false f total (distribute observed total gs).0
                (rw (any_degraded_of f observed total gs n z) at e)))
    ]
  ]

  not_degraded-OnTarget :
      (gs : List GroupSpec) (i : ℕ) (g : GroupSpec) (t pct : ℕ)
      → total ≤ max_int32
      → (compute_group_targets f total gs observed).target_degraded ≡ false
      → get_elem? gs i ≡ some g
      → get_elem? (compute_group_targets f total gs observed).targets i ≡ some t
      → target_percent g.scaling.target ≡ some pct
      → OnTarget total t pct g.scaling.max
  not_degraded-OnTarget gs i g t pct h e a b u = rw u at (
      Pointwise-at (IsMet total) gs (compute_group_targets f total gs observed).targets i g t
        (not_degraded-IsMet gs h e) a b)

  -- What the flag says of the targets.
  abbrev pub IsJudged : List GroupSpec → List ℕ → Bool → Type 0
  IsJudged gs targets true =
      (i : ℕ) × (g : GroupSpec) × (t : ℕ) × (get_elem? gs i ≡ some g)
      × (get_elem? targets i ≡ some t)
      × IsOff total g t
  IsJudged gs targets false = Pointwise (IsMet total) gs targets

  -- `TargetDegraded` tells whether the percentages are met, for a total that an `int32` holds. Raised, it
  -- comes with a group that misses its percentage by half a point or more: above it where the percentage
  -- is the ceiling, below it where there is a `max`. Not raised, every percentage that can be read is met
  -- within half a point on that side.
  pub compute-IsJudged :
      (gs : List GroupSpec)
      → total ≤ max_int32
      → IsJudged gs
          (compute_group_targets f total gs observed).targets
          (compute_group_targets f total gs observed).target_degraded
  compute-IsJudged gs h = by_flag (compute_group_targets f total gs observed).target_degraded refl
    where
      by_flag :
          (b : Bool)
          → (compute_group_targets f total gs observed).target_degraded ≡ b
          → IsJudged gs (compute_group_targets f total gs observed).targets b
      by_flag true e = degraded-IsOff f observed total gs h e
      by_flag false e = not_degraded-IsMet gs h e
