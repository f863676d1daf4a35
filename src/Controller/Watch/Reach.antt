-- ===== src/Controller/Watch/Reach.antt =====
-- internal/controller/watch.go: the calls of ensureWatch over the life of a process, by any pools and for
-- any kinds, with what the cache does in between.
use podpool_controller.Prelude.{
  ℕ, suc, ◌≤◌, Bool, true, false, not, Option, none, some, List, [], ◌∷◌, String, ◌≡◌, refl, ap,
  ◌∙◌, inl, inr, Bool-cases, if◌then◌else◌, at, put, remove, at-put, arith,
}
use podpool_controller.Workload.Object.{Gvk}
use podpool_controller.Controller.Errors.{Error}
use podpool_controller.Controller.Sweep.{same_kind}
use podpool_controller.Controller.Watch.{
  Watches, WatchCall, removed_informer, asked_watch, informer, Watched, watching, is_instance,
  checked, registered, ensure_watch,
}
use podpool_controller.Controller.Watch.Instances.{
  Ledger, IsSound, handlers_of, same_kind_iff, grown-IsSound, dropped-IsSound, forgotten-IsSound,
  watched-IsSound,
}

-- The cache and the handlers, and the controller's maps.
pub record World : Type 0 where
  pub current : List (Gvk × ℕ)
  pub next : ℕ
  pub handlers : List (Gvk × ℕ)
  pub watches : Watches

abbrev pub ledger : World → Ledger
ledger w = record {
  current = w.current;
  next = w.next;
  handlers = w.handlers;
  states = w.watches.states;
}

-- `GetInformer` gives the instance that the cache has, and builds one where it has none.
abbrev pub served : Gvk → World → Option ℕ → ℕ × World
served gvk w (some inf) = (inf, w)
served gvk w none =
    (w.next, record w { current = put same_kind gvk w.next w.current; next = suc w.next })

abbrev pub serve : Gvk → World → ℕ × World
serve gvk w = served gvk w (at same_kind gvk w.current)

abbrev pub accepted : Gvk → ℕ → Option Error → World → World
accepted gvk inf none w = record w { handlers = (gvk, inf) ∷ w.handlers }
accepted gvk inf (some e) w = w

accepted-watches :
    (gvk : Gvk) (inf : ℕ) (o : Option Error) (w : World)
    → (accepted gvk inf o w).watches ≡ w.watches
accepted-watches gvk inf none w = refl
accepted-watches gvk inf (some e) w = refl

module _ (gvk_text : Gvk → String) where
  -- The calls take effect: an instance goes, or gets a handler where `Watch` accepts it.
  abbrev pub performed : (Gvk → ℕ → Option Error) → List WatchCall → World → World
  performed watch [] w = w
  performed watch (removed_informer gvk ∷ calls) w =
      performed watch calls (record w { current = remove same_kind gvk w.current })
  performed watch (asked_watch gvk inf ∷ calls) w =
      performed watch calls (accepted gvk inf (watch gvk inf) w)

  abbrev pub after_call :
      (Gvk → ℕ → Option Error) → World → Watches × List WatchCall × Watched → World
  after_call watch w (watches, calls, verdict) =
      performed watch calls (record w { watches = watches })

  abbrev pub outcome :
      (Gvk → ℕ → Option Error)
      → Gvk
      → Bool
      → Bool
      → ℕ
      → ℕ × World
      → Watches × List WatchCall × Watched
  outcome watch gvk is_stopped has_synced now (inf, w) =
      ensure_watch gvk_text watch true gvk (informer inf is_stopped has_synced) now w.watches

  abbrev pub call : (Gvk → ℕ → Option Error) → Gvk → Bool → Bool → ℕ → World → World
  call watch gvk is_stopped has_synced now w =
      after_call watch (serve gvk w).1 (outcome watch gvk is_stopped has_synced now (serve gvk w))

  pub served-IsSound :
      (gvk : Gvk) (w : World) (o : Option ℕ)
      → at same_kind gvk w.current ≡ o
      → IsSound (ledger w)
      → IsSound (ledger (served gvk w o).1)
        × (at same_kind gvk (served gvk w o).1.current ≡ some (served gvk w o).0)
  served-IsSound gvk w (some inf) here s = (s, here)
  served-IsSound gvk w none here s =
      (grown-IsSound gvk (ledger w) s, at-put same_kind same_kind_iff gvk w.next w.current)

  kept-IsSound :
      (watch : Gvk → ℕ → Option Error) (gvk : Gvk) (has_synced : Bool) (now : ℕ) (w : World)
      → IsSound (ledger w)
      → IsSound
          (ledger (after_call watch w (checked gvk_text watch gvk has_synced now w.watches [])))
  kept-IsSound watch gvk true now w s = s
  kept-IsSound watch gvk false now w s = s

  registered-IsSound :
      (watch : Gvk → ℕ → Option Error) (gvk : Gvk) (inf : ℕ) (has_synced : Bool) (now : ℕ)
      (w : World)
      → IsSound (ledger w)
      → at same_kind gvk w.current ≡ some inf
      → is_instance inf (at same_kind gvk w.watches.states) ≡ false
      → (o : Option Error) → watch gvk inf ≡ o
      → IsSound (
          ledger
            (after_call watch w (registered gvk_text watch gvk inf has_synced now w.watches o)))
  registered-IsSound watch gvk inf has_synced now w s here fresh (some e) said = rw (said) s
  registered-IsSound watch gvk inf true now w s here fresh none said =
      rw (said) (watched-IsSound gvk inf (ledger w) s here fresh)
  registered-IsSound watch gvk inf false now w s here fresh none said =
      rw (said) (watched-IsSound gvk inf (ledger w) s here fresh)

  pub outcome-IsSound :
      (watch : Gvk → ℕ → Option Error) (gvk : Gvk) (is_stopped has_synced : Bool) (now inf : ℕ)
      (w : World)
      → IsSound (ledger w)
      → at same_kind gvk w.current ≡ some inf
      → IsSound (ledger (after_call watch w (outcome watch gvk is_stopped has_synced now (inf, w))))
  unfolding ensure_watch
  outcome-IsSound watch gvk true has_synced now inf w s here = forgotten-IsSound gvk (ledger w) s
  outcome-IsSound watch gvk false has_synced now inf w s here =
      elim (Bool-cases (is_instance inf (at same_kind gvk w.watches.states))) [
        | inl known ↦ rw (known) (kept-IsSound watch gvk has_synced now w s)
        | inr fresh ↦
            rw (fresh)
              (registered-IsSound watch gvk inf has_synced now w s here fresh (watch gvk inf) refl)
      ]

  call-IsSound :
      (watch : Gvk → ℕ → Option Error) (gvk : Gvk) (is_stopped has_synced : Bool) (now : ℕ)
      (w : World)
      → IsSound (ledger w)
      → IsSound (ledger (call watch gvk is_stopped has_synced now w))
  call-IsSound watch gvk is_stopped has_synced now w s =
      let (sound, here) = served-IsSound gvk w (at same_kind gvk w.current) refl s in
      outcome-IsSound watch gvk is_stopped has_synced now (serve gvk w).0 (serve gvk w).1 sound here

  -- A call of `ensureWatch` that got an instance, the loss of one by the cache alone, and what else
  -- changes the record of the failures.
  pub data Step : World → World → Type 0 where
    called :
        (watch : Gvk → ℕ → Option Error) (gvk : Gvk) (is_stopped has_synced : Bool) (now : ℕ)
        (w : World)
        → Step w (call watch gvk is_stopped has_synced now w)
    lost : (gvk : Gvk) (w : World) → Step w (record w { current = remove same_kind gvk w.current })
    reported :
        (emitted : List (Gvk × Bool)) (w : World)
        → Step w (record w { watches = record w.watches { failure_emitted = emitted } })

  pub data Reach : World → Type 0 where
    start : Reach record {
      current = [];
      next = 0;
      handlers = [];
      watches = record { states = []; pending_since = []; failure_emitted = [] };
    }
    after : {w v : World} → Reach w → Step w v → Reach v

  step-IsSound : {w v : World} → Step w v → IsSound (ledger w) → IsSound (ledger v)
  step-IsSound (called watch gvk is_stopped has_synced now w) s =
      call-IsSound watch gvk is_stopped has_synced now w s
  step-IsSound (lost gvk w) s = dropped-IsSound gvk (ledger w) s
  step-IsSound (reported emitted w) s = s

  reach-IsSound : {w : World} → Reach w → IsSound (ledger w)
  unfolding handlers_of
  reach-IsSound start = record {
    once = λ g i. omega arith;
    used = λ g i h. absurd (omega (arith, h));
    live = λ g i h. absurd (cc);
    known = λ g i h n. absurd (cc);
    held = λ g i h. absurd (cc);
  }
  reach-IsSound (after r step) = step-IsSound step (reach-IsSound r)

  instance_of : (inf : ℕ) (o : Option ℕ) → is_instance inf o ≡ true → o ≡ some inf
  instance_of inf none h = absurd (cc)
  instance_of inf (some known) h = let same : known ≡ inf = ground arith in rw (same) refl

  -- The record that a call left names the instance that it was told of.
  abbrev pub Records : Gvk → ℕ → Watches × List WatchCall × Watched → Type 0
  Records gvk inf (watches, calls, verdict) = at same_kind gvk watches.states ≡ some inf

  abbrev pub IsWatching : Watches × List WatchCall × Watched → Type 0
  IsWatching (watches, calls, verdict) = verdict ≡ watching

  checked-Records :
      (watch : Gvk → ℕ → Option Error) (gvk : Gvk) (inf : ℕ) (has_synced : Bool) (now : ℕ)
      (watches : Watches) (calls : List WatchCall)
      → at same_kind gvk watches.states ≡ some inf
      → Records gvk inf (checked gvk_text watch gvk has_synced now watches calls)
  checked-Records watch gvk inf true now watches calls at_inf = at_inf
  checked-Records watch gvk inf false now watches calls at_inf = at_inf

  registered-Records :
      (watch : Gvk → ℕ → Option Error) (gvk : Gvk) (inf : ℕ) (has_synced : Bool) (now : ℕ)
      (watches : Watches) (o : Option Error)
      → IsWatching (registered gvk_text watch gvk inf has_synced now watches o)
      → Records gvk inf (registered gvk_text watch gvk inf has_synced now watches o)
  registered-Records watch gvk inf has_synced now watches (some e) h = absurd (cc)
  registered-Records watch gvk inf has_synced now watches none h =
      checked-Records watch gvk inf has_synced now
        (record watches { states = put same_kind gvk inf watches.states })
        (asked_watch gvk inf ∷ []) (at-put same_kind same_kind_iff gvk inf watches.states)

  either-Records :
      (watch : Gvk → ℕ → Option Error) (gvk : Gvk) (inf : ℕ) (has_synced : Bool) (now : ℕ)
      (watches : Watches) (b : Bool)
      → is_instance inf (at same_kind gvk watches.states) ≡ b
      → (let r =
            if not b
            then registered gvk_text watch gvk inf has_synced now watches (watch gvk inf)
            else checked gvk_text watch gvk has_synced now watches [] in
          IsWatching r → Records gvk inf r)
  either-Records watch gvk inf has_synced now watches true known h =
      checked-Records watch gvk inf has_synced now watches []
        (instance_of inf (at same_kind gvk watches.states) known)
  either-Records watch gvk inf has_synced now watches false fresh h =
      registered-Records watch gvk inf has_synced now watches (watch gvk inf) h

  pub outcome-Records :
      (watch : Gvk → ℕ → Option Error) (gvk : Gvk) (is_stopped has_synced : Bool) (now inf : ℕ)
      (w : World)
      → IsWatching (outcome watch gvk is_stopped has_synced now (inf, w))
      → Records gvk inf (outcome watch gvk is_stopped has_synced now (inf, w))
  unfolding ensure_watch
  outcome-Records watch gvk true has_synced now inf w h = absurd (cc)
  outcome-Records watch gvk false has_synced now inf w h =
      either-Records watch gvk inf has_synced now w.watches
        (is_instance inf (at same_kind gvk w.watches.states)) refl h

  pub performed-watches :
      (watch : Gvk → ℕ → Option Error) (calls : List WatchCall) (w : World)
      → (performed watch calls w).watches ≡ w.watches
  performed-watches watch [] w = refl
  performed-watches watch (removed_informer gvk ∷ calls) w =
      performed-watches watch calls (record w { current = remove same_kind gvk w.current })
  performed-watches watch (asked_watch gvk inf ∷ calls) w =
      performed-watches watch calls (accepted gvk inf (watch gvk inf) w)
      ∙ accepted-watches gvk inf (watch gvk inf) w

  -- Whatever pools asked for whatever kinds before, in any order, and whatever the cache lost in
  -- between: a call of ensureWatch that says that the kind is watched leaves the instance that it was
  -- told of with exactly one handler, and no instance of any kind with a second.
  pub reach-IsWatchedOnce :
      (w : World)
      → Reach w
      → (watch : Gvk → ℕ → Option Error) (gvk : Gvk) (is_stopped has_synced : Bool) (now : ℕ)
      → IsWatching (outcome watch gvk is_stopped has_synced now (serve gvk w))
      → (g : Gvk) (i : ℕ)
      → (let v = call watch gvk is_stopped has_synced now w in
          (handlers_of gvk (serve gvk w).0 v.handlers ≡ 1) × (handlers_of g i v.handlers ≤ 1))
  reach-IsWatchedOnce w r watch gvk is_stopped has_synced now h g i =
      let sound = reach-IsSound (after r (called watch gvk is_stopped has_synced now w)) in
      let (inf, v) = serve gvk w in
      let (watches, calls, _) = outcome watch gvk is_stopped has_synced now (inf, v) in
      let named : at same_kind gvk
            (performed watch calls (record v { watches = watches })).watches.states
          ≡ some inf =
        ap (λ x. at same_kind gvk (Watches.states x))
          (performed-watches watch calls (record v { watches = watches }))
        ∙ outcome-Records watch gvk is_stopped has_synced now inf v h in
      (omega (arith, sound.once gvk inf, sound.held gvk inf named), sound.once g i)
