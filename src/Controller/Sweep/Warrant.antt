-- ===== src/Controller/Sweep/Warrant.antt =====
-- internal/controller/podpool_controller.go: what all sweeps of a pass delete.
use podpool_controller.Prelude.{
  ◌≡◌, refl, sym, subst, Bool, true, false, not, ◌&&◌, ◌||◌, Option, none, some, List, [], ◌∷◌,
  ◌++◌, String, if◌then◌else◌, any, All, Option-cases, ◌⊎◌, inl, inr,
}
use mathlib.Core.Option.{some-injective}
use podpool_controller.Api.{GroupStatus, PodPool}
use podpool_controller.Workload.Object.{Gvk}
use podpool_controller.Controller.Sweep.{
  Child, read, deleted, Cluster, Action, asked_delete, orphan_deleted, is_controlled_by, same_kind,
  recorded, add_stale, stale_from, stale_workload_gvks, sweep_orphans, is_child_of, keep_active,
  keep_unmoved, sweep_stale, sweep_all_orphans,
}
use podpool_controller.Controller.Sweep.SecondLook.{IsConfirmed, sweep_orphans-AllConfirmed}

module _ {ℓ κ} {A : Type ℓ} where
  pub All-append : (P : A → Type κ) (xs ys : List A) → All P xs → All P ys → All P (xs ++ ys)
  All-append P [] ys p q = q
  All-append P (x ∷ xs) ys (h, p) q = (h, All-append P xs ys p q)

  pub All-implied : (P Q : A → Type κ) → ((x : A) → P x → Q x) → (xs : List A) → All P xs → All Q xs
  All-implied P Q f [] p = tt
  All-implied P Q f (x ∷ xs) (h, p) = (f x h, All-implied P Q f xs p)

module _ (cluster : Cluster) (pool : PodPool) (current : Gvk) (reconciled : List String) where
  abbrev pub IsWarranted : Action → Type 0
  IsWarranted (asked_delete g name uid) =
      (fresh : Child) × (cluster.get g name ≡ read fresh)
      × (fresh.uid ≡ uid)
      × (is_controlled_by fresh pool ≡ true)
      × ((keep_active pool fresh.name ≡ false)
          ⊎ ((same_kind g current ≡ false) × (is_child_of pool reconciled fresh.name ≡ true)))
  IsWarranted (orphan_deleted g name label) = (uid : String) × (cluster.delete g name uid ≡ deleted)

  warrant-current :
      (a : Action) → IsConfirmed cluster pool current (keep_active pool) a → IsWarranted a
  warrant-current (asked_delete g name uid) (fresh, same, seen, at, ours, unkept) =
      (fresh, subst (λ k. cluster.get k name ≡ read fresh) (sym same) seen, at, ours, inl unkept)
  warrant-current (orphan_deleted g name label) done = done

  unmoved :
      (active moved_on : Bool)
      → (active && not moved_on) ≡ false
      → (active ≡ false) ⊎ (moved_on ≡ true)
  unmoved false m h = inl refl
  unmoved true true h = inr refl
  unmoved true false h = absurd (cc)

  warrant-stale :
      (stale : Gvk)
      → same_kind stale current ≡ false
      → (a : Action) → IsConfirmed cluster pool stale (keep_unmoved pool reconciled) a
      → IsWarranted a
  warrant-stale stale other (asked_delete g name uid) (fresh, same, seen, at, ours, unkept) = (
    fresh,
    subst (λ k. cluster.get k name ≡ read fresh) (sym same) seen,
    at,
    ours,
    elim (unmoved (keep_active pool fresh.name) (is_child_of pool reconciled fresh.name) unkept) [
      | inl inactive ↦ inl inactive
      | inr moved_on ↦ inr (subst (λ k. same_kind k current ≡ false) (sym same) other, moved_on)
    ],
  )
  warrant-stale stale other (orphan_deleted g name label) done = done

abbrev AllOther : Gvk → List Gvk → Type 0
AllOther current gvks = All {A = Gvk} (λ g. same_kind g current ≡ false) gvks

add_stale-other :
    (current : Gvk) (seen : List Gvk) (o : Option Gvk) (stale : Gvk)
    → add_stale current seen o ≡ some stale
    → same_kind stale current ≡ false
add_stale-other current seen none stale h = absurd (cc)
add_stale-other current seen (some g) stale h =
    chosen (same_kind g current) (any {A = Gvk} (same_kind g) seen) refl h
  where
    chosen :
        (a b : Bool)
        → same_kind g current ≡ a
        → (if a || b then none else some g) ≡ some stale
        → same_kind stale current ≡ false
    chosen true b e h = absurd (cc)
    chosen false true e h = absurd (cc)
    chosen false false e h = subst (λ k. same_kind k current ≡ false) (some-injective g stale h) e

stale_from-AllOther :
    (parse : String → Option (String × String)) (current : Gvk) (seen : List Gvk)
    (rows : List GroupStatus)
    → AllOther current (stale_from parse current seen rows)
unfolding stale_from
stale_from-AllOther parse current seen [] = tt
stale_from-AllOther parse current seen (gs ∷ rest) =
    elim (Option-cases (add_stale current seen (recorded parse gs.workload_ref))) [
      | inl e ↦ rw (stale_from, e) (stale_from-AllOther parse current seen rest)
      | inr (stale, e) ↦
          rw (stale_from, e)
            (
              add_stale-other current seen (recorded parse gs.workload_ref) stale e,
              stale_from-AllOther parse current (stale ∷ seen) rest,
            )
    ]

module _ (cluster : Cluster) (pool : PodPool) (current : Gvk) (reconciled : List String) where
  abbrev AllWarranted : List Action → Type 0
  AllWarranted log = All (IsWarranted cluster pool current reconciled) log

  sweep_stale-AllWarranted :
      (gvks : List Gvk)
      → AllOther current gvks
      → AllWarranted (sweep_stale cluster pool reconciled gvks).0
  unfolding sweep_stale
  sweep_stale-AllWarranted [] other = tt
  sweep_stale-AllWarranted (stale ∷ rest) (here, other) =
      let keep = keep_unmoved pool reconciled in
      let swept = sweep_orphans cluster pool stale keep (cluster.list_uncached stale) in
      All-append (IsWarranted cluster pool current reconciled) swept.0
        (sweep_stale cluster pool reconciled rest).0
        (All-implied (IsConfirmed cluster pool stale keep)
          (IsWarranted cluster pool current reconciled)
          (warrant-stale cluster pool current reconciled stale here) swept.0
          (sweep_orphans-AllConfirmed cluster pool stale keep (cluster.list_uncached stale)))
        (sweep_stale-AllWarranted rest other)

-- The sweep deletes nothing on the strength of a label or of the cache: whatever it asks to delete, an
-- uncached read has just shown to be controlled by the pool, and the deletion is bound to the UID that
-- was read; and either no group of the spec has a child of that name, or the kind is not the
-- template's and the group of that name has been reconciled in this pass. An event is published only
-- for a deletion that took place.
pub sweep_all_orphans-AllWarranted :
    (cluster : Cluster) (before : List GroupStatus) (pool : PodPool) (gvk : Gvk)
    (reconciled : List String)
    → All
        (IsWarranted cluster pool gvk reconciled)
        (sweep_all_orphans cluster before pool gvk reconciled).0
unfolding sweep_all_orphans stale_workload_gvks
sweep_all_orphans-AllWarranted cluster before pool gvk reconciled =
    let keep = keep_active pool in
    let swept = sweep_orphans cluster pool gvk keep (cluster.list_cached gvk) in
    let gvks = stale_workload_gvks cluster.parse_group_version before gvk in
    All-append (IsWarranted cluster pool gvk reconciled) swept.0
      (sweep_stale cluster pool reconciled gvks).0
      (All-implied (IsConfirmed cluster pool gvk keep) (IsWarranted cluster pool gvk reconciled)
        (warrant-current cluster pool gvk reconciled) swept.0
        (sweep_orphans-AllConfirmed cluster pool gvk keep (cluster.list_cached gvk)))
      (sweep_stale-AllWarranted cluster pool gvk reconciled gvks
        (stale_from-AllOther cluster.parse_group_version gvk [] before))
