-- ===== src/Controller/Watch/Outage.antt =====
-- internal/controller/watch.go and podpool_controller.go: how long a pass may wait for an informer.
use podpool_controller.Prelude.{
  ℕ, ◌+◌, ◌≤◌, Bool, true, false, Option, none, some, List, [], ◌∷◌, String, ◌≡◌, refl, Bool-cases,
  All, at, put, arith, ltb, inl, inr,
}
use podpool_controller.Api.{Condition, PodPool}
use podpool_controller.Workload.Object.{Gvk}
use podpool_controller.Controller.Errors.{Error}
use podpool_controller.Controller.Sweep.{same_kind}
use podpool_controller.Controller.Watch.{
  Watches, WatchCall, asked_watch, InformerAnswer, no_informer, informer, Watched, watching,
  pending, broken, is_instance, checked, registered, ensure_watch, give_up, followed, set_up_watch,
  watch_sync_grace,
}
use podpool_controller.Controller.Watch.Failure.{
  Visit, IsUnsynced, visited, visited_told, watches_after,
}

abbrev IsBroken : Watches × List WatchCall × Watched → Type 0
IsBroken (w, calls, verdict) = (e : Error) × (verdict ≡ broken e)

module _ (gvk_text : Gvk → String) (watch : Gvk → ℕ → Option Error) (gvk : Gvk) (since : ℕ) where
  checked-IsBroken :
      (now : ℕ) (w : Watches) (calls : List WatchCall)
      → at same_kind gvk w.pending_since ≡ some since
      → since + watch_sync_grace ≤ now
      → IsBroken (checked gvk_text watch gvk false now w calls)
  checked-IsBroken now w calls waited late =
      let over : ltb now (since + watch_sync_grace) ≡ false = ground arith in
      rw (waited, over) (_, refl)

  registered-IsBroken :
      (inf now : ℕ) (w : Watches) (o : Option Error)
      → at same_kind gvk w.pending_since ≡ some since
      → since + watch_sync_grace ≤ now
      → IsBroken (registered gvk_text watch gvk inf false now w o)
  registered-IsBroken inf now w none waited late =
      checked-IsBroken now (record w { states = put same_kind gvk inf w.states })
        (asked_watch gvk inf ∷ []) waited late
  registered-IsBroken inf now w (some e) waited late = (_, refl)

  ensure_watch-IsBroken :
      (answer : InformerAnswer) (now : ℕ) (w : Watches)
      → IsUnsynced answer
      → at same_kind gvk w.pending_since ≡ some since
      → since + watch_sync_grace ≤ now
      → IsBroken (ensure_watch gvk_text watch true gvk answer now w)
  unfolding ensure_watch
  ensure_watch-IsBroken (no_informer e) now w u waited late = (_, refl)
  ensure_watch-IsBroken (informer inf true has_synced) now w u waited late = (_, refl)
  ensure_watch-IsBroken (informer inf false has_synced) now w u waited late =
      elim (Bool-cases (is_instance inf (at same_kind gvk w.states))) [
        | inl known ↦ rw (known, u) (checked-IsBroken now w [] waited late)
        | inr fresh ↦ rw (fresh, u) (registered-IsBroken inf now w (watch gvk inf) waited late)
      ]

  module _ (decimal : ℕ → String) (set : Condition → List Condition → List Condition)
      (find : List Condition → String → Option Condition) where
    still_waiting :
        (visits : List Visit) (w : Watches)
        → All (λ v. IsUnsynced v.answer) visits
        → at same_kind gvk w.pending_since ≡ some since
        → at same_kind gvk
            (watches_after gvk_text watch gvk decimal set find visits w).pending_since
          ≡ some since
    unfolding watches_after
    still_waiting [] w us waited = waited
    still_waiting (v ∷ visits) w (u, us) waited =
        still_waiting visits (visited gvk_text watch gvk decimal set find v w).watches us
          ((visited_told gvk_text watch gvk decimal set find v w u).1 since waited)

    followed-gives_up :
        (pool before : PodPool) (was_paused : Bool) (outcome : Watches × List WatchCall × Watched)
        → IsBroken outcome
        → (e : Error) × ((followed decimal set find gvk_text watch gvk pool before was_paused
              outcome).next
            ≡ give_up e)
    followed-gives_up pool before was_paused (w, calls, watching) (e, h) = absurd (cc)
    followed-gives_up pool before was_paused (w, calls, pending) (e, h) = absurd (cc)
    followed-gives_up pool before was_paused (w, calls, broken e) h = (_, refl)

    -- A kind that never syncs is not waited for in silence: once thirty seconds have passed since the
    -- wait was first recorded, a pass that finds it still unsynced ends with an error, whichever pools
    -- looked in between and whatever the cache answered them short of a synced informer.
    pub outage_reported :
        (visits : List Visit) (v : Visit) (w : Watches)
        → at same_kind gvk w.pending_since ≡ some since
        → All (λ u. IsUnsynced u.answer) visits
        → IsUnsynced v.answer
        → since + watch_sync_grace ≤ v.now
        → (e : Error) × ((visited gvk_text watch gvk decimal set find v
              (watches_after gvk_text watch gvk decimal set find visits w)).next
            ≡ give_up e)
    unfolding visited set_up_watch
    outage_reported visits v w waited us u late =
        let held = watches_after gvk_text watch gvk decimal set find visits w in
        followed-gives_up v.pool v.before v.was_paused
          (ensure_watch gvk_text watch true gvk v.answer v.now held)
          (ensure_watch-IsBroken v.answer v.now held u (still_waiting visits w us waited) late)
