-- ===== src/Controller/Sweep/SecondLook.antt =====
-- internal/controller/podpool_controller.go: the deletions of one sweep, and the second look at them.
use podpool_controller.Prelude.{
  ◌≡◌, refl, subst, ap, Bool, true, false, not, ◌||◌, Option, List, [], ◌∷◌, String, if◌then◌else◌,
  All, Bool-cases, inl, inr,
}
use podpool_controller.Api.{PodPool}
use podpool_controller.Workload.Object.{Gvk}
use podpool_controller.Controller.Sweep.{
  Child, ListAnswer, unlisted, listed, ReadAnswer, not_found, unread, read, DeleteAnswer, deleted,
  moved, undeleted, Cluster, Action, asked_delete, orphan_deleted, is_controlled_by, Confirmed,
  unconfirmed, left_alone, orphan, reconsider, confirm_orphan, removed, reported, sweep_items,
  sweep_orphans,
}

-- A deletion of what an uncached read has just shown to be the pool's and not to be kept, under the
-- UID that was read; and an event for a deletion that took place.
abbrev pub IsConfirmed : Cluster → PodPool → Gvk → (String → Bool) → Action → Type 0
IsConfirmed cluster pool gvk keep (asked_delete g name uid) =
    (fresh : Child) × (g ≡ gvk)
    × (cluster.get gvk name ≡ read fresh)
    × (fresh.uid ≡ uid)
    × (is_controlled_by fresh pool ≡ true)
    × (keep fresh.name ≡ false)
IsConfirmed cluster pool gvk keep (orphan_deleted g name label) =
    (uid : String) × (cluster.delete g name uid ≡ deleted)

abbrev or_found : Child → Confirmed → Child
or_found found (orphan fresh) = fresh
or_found found _ = found

decided :
    (found fresh : Child) (ours kept : Bool)
    → (if not ours || kept then left_alone else orphan found) ≡ orphan fresh
    → (found ≡ fresh) × (ours ≡ true) × (kept ≡ false)
decided found fresh true false h = (ap (or_found found) h, refl, refl)
decided found fresh true true h = absurd (cc)
decided found fresh false kept h = absurd (cc)

module _ (cluster : Cluster) (pool : PodPool) (gvk : Gvk) (keep : String → Bool) where
  abbrev AllConfirmed : List Action → Type 0
  AllConfirmed = All (IsConfirmed cluster pool gvk keep)

  reconsider-orphan :
      (answer : ReadAnswer) (fresh : Child)
      → reconsider cluster pool gvk keep answer ≡ orphan fresh
      → (answer ≡ read fresh) × (is_controlled_by fresh pool ≡ true) × (keep fresh.name ≡ false)
  reconsider-orphan not_found fresh h = absurd (cc)
  reconsider-orphan (unread e) fresh h = absurd (cc)
  reconsider-orphan (read found) fresh h =
      let (same, ours, unkept) =
        decided found fresh (is_controlled_by found pool) (keep found.name) h in
      (
        ap read same,
        subst (λ x. is_controlled_by x pool ≡ true) same ours,
        subst (λ (x : Child). keep x.name ≡ false) same unkept,
      )

  reported-AllConfirmed :
      (item fresh : Child) (answer : DeleteAnswer) (rest : List Action × Option String)
      → cluster.delete gvk item.name fresh.uid ≡ answer
      → IsConfirmed cluster pool gvk keep (asked_delete gvk item.name fresh.uid)
      → AllConfirmed rest.0
      → AllConfirmed (reported cluster pool gvk keep item fresh answer rest).0
  reported-AllConfirmed item fresh deleted rest at asked sure = (asked, ((fresh.uid, at), sure))
  reported-AllConfirmed item fresh moved rest at asked sure = (asked, sure)
  reported-AllConfirmed item fresh (undeleted e) rest at asked sure = (asked, tt)

  removed-AllConfirmed :
      (item : Child) (c : Confirmed) (rest : List Action × Option String)
      → confirm_orphan cluster pool gvk keep item ≡ c
      → AllConfirmed rest.0
      → AllConfirmed (removed cluster pool gvk keep item c rest).0
  unfolding confirm_orphan
  removed-AllConfirmed item (unconfirmed e) rest at sure = tt
  removed-AllConfirmed item left_alone rest at sure = sure
  removed-AllConfirmed item (orphan fresh) rest at sure =
      let (seen, ours, unkept) = reconsider-orphan (cluster.get gvk item.name) fresh at in
      reported-AllConfirmed item fresh (cluster.delete gvk item.name fresh.uid) rest refl
        (fresh, refl, seen, refl, ours, unkept) sure

  sweep_items-AllConfirmed :
      (items : List Child) → AllConfirmed (sweep_items cluster pool gvk keep items).0
  unfolding sweep_items
  sweep_items-AllConfirmed [] = tt
  sweep_items-AllConfirmed (item ∷ items) = elim (Bool-cases (is_controlled_by item pool)) [
    | inr e ↦ rw e (sweep_items-AllConfirmed items)
    | inl e ↦ rw e (elim (Bool-cases (keep item.name)) [
      | inl k ↦ rw k (sweep_items-AllConfirmed items)
      | inr k ↦ rw k (
          removed-AllConfirmed item (confirm_orphan cluster pool gvk keep item)
            (sweep_items cluster pool gvk keep items) refl (sweep_items-AllConfirmed items))
    ])
  ]

  pub sweep_orphans-AllConfirmed :
      (answer : ListAnswer) → AllConfirmed (sweep_orphans cluster pool gvk keep answer).0
  unfolding sweep_orphans
  sweep_orphans-AllConfirmed (unlisted e) = tt
  sweep_orphans-AllConfirmed (listed items) = sweep_items-AllConfirmed items
