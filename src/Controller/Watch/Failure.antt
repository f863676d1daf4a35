-- ===== src/Controller/Watch/Failure.antt =====
-- internal/controller/watch.go and podpool_controller.go: a kind whose informer does not sync, over the
-- passes of any pools that want it.
use podpool_controller.Prelude.{
  ℕ, suc, ◌+◌, ◌≤◌, Bool, true, false, ◌&&◌, Option, none, some, List, [], ◌∷◌, ◌++◌, String,
  str_eq, ◌≡◌, refl, sym, inl, inr, Bool-cases, if◌then◌else◌, All, at, put, at-put, arith,
}
use podpool_controller.Api.{Condition, PodPool}
use podpool_controller.Workload.Object.{Gvk}
use podpool_controller.Controller.Errors.{Error}
use podpool_controller.Controller.Events.{
  Event, is_marked, condition_tuple_changed, announce_resume,
}
use podpool_controller.Controller.Sweep.{same_kind}
use podpool_controller.Controller.Watch.{
  Watches, WatchCall, asked_watch, InformerAnswer, no_informer, informer, Watched, watching,
  pending, broken, is_instance, checked, registered, ensure_watch, handle_watch_failure, WatchPass,
  followed, set_up_watch,
}
use podpool_controller.Controller.Watch.Instances.{same_kind_iff}

-- One pass of a pool that wants the kind.
pub record Visit : Type 0 where
  pub pool : PodPool
  pub before : PodPool
  pub was_paused : Bool
  pub answer : InformerAnswer
  pub now : ℕ

-- What the cache answered, other than an informer that has synced.
abbrev pub IsUnsynced : InformerAnswer → Type 0
IsUnsynced (no_informer e) = Unit
IsUnsynced (informer inf is_stopped has_synced) = has_synced ≡ false

abbrev tells_failure : Event → Bool
tells_failure e = str_eq e.reason "WatchSetupFailed"

unfoldable pub failures_told : List Event → ℕ
failures_told [] = 0
failures_told (e ∷ events) =
    let rest = failures_told events in if tells_failure e then suc rest else rest

failures_told-append :
    (a b : List Event) → failures_told (a ++ b) ≡ failures_told a + failures_told b
unfolding failures_told
failures_told-append [] b = omega arith
failures_told-append (e ∷ a) b = elim (Bool-cases (tells_failure e)) [
  | inl tells ↦ rw (tells) (omega (arith, failures_told-append a b))
  | inr other ↦ rw (other) (failures_told-append a b)
]

abbrev is_told : Gvk → Watches → Bool
is_told gvk w = is_marked (at same_kind gvk w.failure_emitted)

abbrev once : Bool → ℕ
once true = 1
once false = 0

-- What an unsynced answer keeps: when the wait began, and that the failure was told.
abbrev IsKept : Gvk → Watches → Watches × List WatchCall × Watched → Type 0
IsKept gvk w (after, calls, verdict) =
    ((since : ℕ)
      → at same_kind gvk w.pending_since ≡ some since
      → at same_kind gvk after.pending_since ≡ some since)
    × (after.failure_emitted ≡ w.failure_emitted)

module _ (gvk_text : Gvk → String) (watch : Gvk → ℕ → Option Error) (gvk : Gvk) where
  checked-IsKept :
      (now : ℕ) (w : Watches) (calls : List WatchCall)
      → IsKept gvk w (checked gvk_text watch gvk false now w calls)
  checked-IsKept now w calls =
      (λ since h. rw (h) (at-put same_kind same_kind_iff gvk since w.pending_since), refl)

  registered-IsKept :
      (inf now : ℕ) (w : Watches) (o : Option Error)
      → IsKept gvk w (registered gvk_text watch gvk inf false now w o)
  registered-IsKept inf now w none =
      checked-IsKept now (record w { states = put same_kind gvk inf w.states })
        (asked_watch gvk inf ∷ [])
  registered-IsKept inf now w (some e) = (λ since h. h, refl)

  ensure_watch-IsKept :
      (answer : InformerAnswer) (now : ℕ) (w : Watches)
      → IsUnsynced answer
      → IsKept gvk w (ensure_watch gvk_text watch true gvk answer now w)
  unfolding ensure_watch
  ensure_watch-IsKept (no_informer e) now w u = (λ since h. h, refl)
  ensure_watch-IsKept (informer inf true has_synced) now w u = (λ since h. h, refl)
  ensure_watch-IsKept (informer inf false has_synced) now w u =
      elim (Bool-cases (is_instance inf (at same_kind gvk w.states))) [
        | inl known ↦ rw (known, u) (checked-IsKept now w [])
        | inr fresh ↦ rw (fresh, u) (registered-IsKept inf now w (watch gvk inf))
      ]

  failure-IsTold :
      (e : Error) (w : Watches)
      → (failures_told (handle_watch_failure gvk_text watch gvk e w).1 + once (is_told gvk w) ≡ 1)
        × (is_told gvk (handle_watch_failure gvk_text watch gvk e w).0 ≡ true)
        × ((handle_watch_failure gvk_text watch gvk e w).0.pending_since ≡ w.pending_since)
  unfolding handle_watch_failure failures_told
  failure-IsTold e w = elim (Bool-cases (is_told gvk w)) [
    | inl told ↦ rw (told) (refl, told, refl)
    | inr new ↦
        rw (new) (refl, rw (at-put same_kind same_kind_iff gvk true w.failure_emitted) refl, refl)
  ]

  module _ (decimal : ℕ → String) (set : Condition → List Condition → List Condition)
      (find : List Condition → String → Option Condition) where
    unfoldable pub visited : Visit → Watches → WatchPass
    unfolding set_up_watch
    visited v w =
        set_up_watch decimal set find gvk_text watch true v.pool gvk v.before v.was_paused v.answer
          v.now w

    resume_untold :
        (pool before : PodPool) (was_paused : Bool)
        → failures_told (announce_resume find pool before was_paused) ≡ 0
    unfolding announce_resume failures_told
    resume_untold pool before was_paused =
        elim (Bool-cases (
          was_paused
          && condition_tuple_changed find before.status.conditions pool.status.conditions
              "Ready")) [ inl news ↦ rw (news) refl | inr stale ↦ rw (stale) refl ]

    broken_told :
        (told before : PodPool) (was_paused : Bool) (w v : Watches) (e : Error)
        → v.failure_emitted ≡ w.failure_emitted
        → failures_told (
              announce_resume find told before was_paused
              ++ (handle_watch_failure gvk_text watch gvk e v).1)
            + once (is_told gvk w)
          ≡ once (is_told gvk (handle_watch_failure gvk_text watch gvk e v).0)
    broken_told told before was_paused w v e same =
        let (count, now_told, _) = failure-IsTold e v in
        rw
          (
            failures_told-append (announce_resume find told before was_paused)
                (handle_watch_failure gvk_text watch gvk e v).1,
            resume_untold told before was_paused,
            sym same,
            now_told,
          )
          (omega (arith, count))

    followed_told :
        (pool before : PodPool) (was_paused : Bool) (w : Watches)
        (outcome : Watches × List WatchCall × Watched)
        → IsKept gvk w outcome
        → (let pass = followed decimal set find gvk_text watch gvk pool before was_paused outcome in
            (failures_told pass.events + once (is_told gvk w) ≡ once (is_told gvk pass.watches))
            × ((since : ℕ)
                → at same_kind gvk w.pending_since ≡ some since
                → at same_kind gvk pass.watches.pending_since ≡ some since))
    unfolding failures_told
    followed_told pool before was_paused w (v, calls, watching) (kept, same) =
        (rw (same) (omega arith), kept)
    followed_told pool before was_paused w (v, calls, pending) (kept, same) =
        (rw (same) (omega arith), kept)
    followed_told pool before was_paused w (v, calls, broken e) (kept, same) =
        let (_, _, waited) = failure-IsTold e v in
        (broken_told _ before was_paused w v e same, λ since h. rw (waited) (kept since h))

    pub visited_told :
        (v : Visit) (w : Watches)
        → IsUnsynced v.answer
        → (failures_told (visited v w).events + once (is_told gvk w)
            ≡ once (is_told gvk (visited v w).watches))
          × ((since : ℕ)
              → at same_kind gvk w.pending_since ≡ some since
              → at same_kind gvk (visited v w).watches.pending_since ≡ some since)
    unfolding visited
    visited_told v w u =
        followed_told v.pool v.before v.was_paused w
          (ensure_watch gvk_text watch true gvk v.answer v.now w)
          (ensure_watch-IsKept v.answer v.now w u)

    unfoldable pub watches_after : List Visit → Watches → Watches
    unfolding visited
    watches_after [] w = w
    watches_after (v ∷ visits) w = watches_after visits (visited v w).watches

    unfoldable pub events_of_visits : List Visit → Watches → List Event
    unfolding visited
    events_of_visits [] w = []
    events_of_visits (v ∷ visits) w =
        (visited v w).events ++ events_of_visits visits (visited v w).watches

    visits_told :
        (visits : List Visit) (w : Watches)
        → All (λ v. IsUnsynced v.answer) visits
        → failures_told (events_of_visits visits w) + once (is_told gvk w)
          ≡ once (is_told gvk (watches_after visits w))
    unfolding events_of_visits watches_after failures_told
    visits_told [] w us = omega arith
    visits_told (v ∷ visits) w (u, us) = omega (
      arith,
      failures_told-append (visited v w).events (events_of_visits visits (visited v w).watches),
      (visited_told v w u).0,
      visits_told visits (visited v w).watches us,
    )

    once_small : (b : Bool) → once b ≤ 1
    once_small true = omega arith
    once_small false = omega arith

    -- One outage of a kind is told once: over any passes of any pools in which its informer has not
    -- synced, the event that its watch failed is published at most once.
    pub failure_told_once :
        (visits : List Visit) (w : Watches)
        → All (λ v. IsUnsynced v.answer) visits
        → failures_told (events_of_visits visits w) ≤ 1
    failure_told_once visits w us =
        omega (arith, visits_told visits w us, once_small (is_told gvk (watches_after visits w)))
