-- ===== src/Controller/Reconcile/Observed.antt =====
-- internal/controller: whether a child is written before its kind is watched.
use podpool_controller.Prelude.{
  ℕ, ◌≤◌, Bool, true, false, some, List, [], String, if◌then◌else◌, ◌≡◌, refl, ap, ◌∙◌, ◌⊎◌, inl,
  inr, at, All, arith,
}
use podpool_controller.Json.{Fields}
use podpool_controller.Api.{PodPool}
use podpool_controller.Workload.Object.{Gvk}
use podpool_controller.Workload.Object.Laws.{ObjectLaws}
use podpool_controller.Workload.Render.{extract_gvk, parse_template}
use podpool_controller.Controller.Events.{is_paused, ready_reason_is}
use podpool_controller.Controller.Sweep.{same_kind}
use podpool_controller.Controller.Group.Row.{KubeLaws}
use podpool_controller.Controller.Watch.{
  Watches, WatchCall, InformerAnswer, no_informer, informer, Watched, watching, pending, broken,
  proceed, ensure_watch, followed, set_up_watch,
}
use podpool_controller.Controller.Watch.Instances.{IsSound, handlers_of}
use podpool_controller.Controller.Watch.Reach.{
  World, ledger, IsWatching, outcome-Records, performed-watches,
}
use podpool_controller.Controller.Reconcile.{
  PoolAnswer, pool_unread, pool_read, Libraries, Answers, Memory, Pass,
}
use podpool_controller.Controller.Reconcile.Gate.{IsEvent, IsGated, reconcile-IsGated}
use podpool_controller.Controller.Reconcile.Run.{
  selected, body, deferred, untouched, answered, reconcile,
}
use podpool_controller.Controller.Reconcile.OneCall.{call_of, body-IsFollowed}
use podpool_controller.Controller.Reconcile.Life.{
  Serves, after_pass, Life, passed-IsSound, Life-IsSound,
}

module _ (libs : Libraries) (ans : Answers) where
  followed-IsWatching :
      (gvk : Gvk) (pool before : PodPool) (was_paused : Bool)
      (r : Watches × List WatchCall × Watched)
      → (followed libs.decimal libs.set_condition libs.find_condition libs.gvk_text ans.watch gvk
          pool before was_paused r).next
        ≡ proceed
      → IsWatching libs.gvk_text r
  followed-IsWatching gvk pool before was_paused (w, calls, watching) e = refl
  followed-IsWatching gvk pool before was_paused (w, calls, pending) e = absurd (cc)
  followed-IsWatching gvk pool before was_paused (w, calls, broken x) e = absurd (cc)

  -- The instance that the cache has is the one that the record names.
  call_records :
      (gvk : Gvk) (answer : InformerAnswer) (w : World)
      → Serves w gvk answer
      → (let r = ensure_watch libs.gvk_text ans.watch true gvk answer ans.watch_time w.watches in
          IsWatching libs.gvk_text r
          → (inf : ℕ) × (at same_kind gvk w.current ≡ some inf)
            × (at same_kind gvk r.0.states ≡ some inf))
  unfolding ensure_watch
  call_records gvk (no_informer e) w here h = absurd (cc)
  call_records gvk (informer inf is_stopped has_synced) w here h = (
    inf,
    here,
    outcome-Records libs.gvk_text ans.watch gvk is_stopped has_synced ans.watch_time inf w h,
  )

  managed_records :
      (has_controller : Bool)
      → has_controller ≡ true
      → (gvk : Gvk) (w : World) → Serves w gvk (ans.informer gvk)
      → (let r =
            ensure_watch libs.gvk_text ans.watch has_controller gvk
              (ans.informer gvk)
              ans.watch_time
              w.watches in
          IsWatching libs.gvk_text r
          → (inf : ℕ) × (at same_kind gvk w.current ≡ some inf)
            × (at same_kind gvk r.0.states ≡ some inf))
  managed_records false e gvk w here h = absurd (cc)
  managed_records true e gvk w here h = call_records gvk (ans.informer gvk) w here h

  module _ (namespace name : String) (mem : Memory) where
    abbrev pub pass : Pass
    pass = reconcile libs ans namespace name mem

    -- The record that a pass leaves of the watches, where it comes to the template.
    read_states :
        (before : PodPool) (gvk : Gvk) (template : Fields)
        → ans.pool ≡ pool_read before
        → before.is_deleting ≡ false
        → is_paused before ≡ false
        → extract_gvk libs.api before.spec.workload_template ≡ some gvk
        → parse_template libs.api before.spec.workload_template ≡ some template
        → pass.memory.watches.states ≡ (call_of libs ans mem gvk).0.states
    unfolding reconcile deferred
    read_states before gvk template read stays runs named parsed =
        ap
          (λ a.
            Watches.states (Memory.watches (Pass.memory (answered libs ans namespace name mem a))))
          read
        ∙ staying before.is_deleting stays
      where
        staying :
            (b : Bool)
            → b ≡ false
            → (let p =
                  if b
                  then untouched libs ans mem []
                  else deferred libs ans before (body libs ans mem before) in
                p.memory.watches.states ≡ (call_of libs ans mem gvk).0.states)
        staying true e = absurd (cc)
        staying false e = (body-IsFollowed libs ans mem before gvk template runs named parsed).1.0

    module _ (laws : ObjectLaws libs.api) (kube_laws : KubeLaws libs.api libs.kube)
        (w : World) where
      -- The kind of the pool's template has its instance watched, by one handler.
      abbrev pub IsWatched : PodPool → World → Type 0
      IsWatched before v =
          (gvk : Gvk) × (extract_gvk libs.api before.spec.workload_template ≡ some gvk)
          × (inf : ℕ) × (at same_kind gvk w.current ≡ some inf)
          × (handlers_of gvk inf v.handlers ≡ 1)

      abbrev pub IsBornObserved : World → Type 0
      IsBornObserved v =
          All IsEvent pass.log
          ⊎ ((before : PodPool) × (ans.pool ≡ pool_read before) × IsWatched before v)

      one_handler :
          (gvk : Gvk) (inf : ℕ)
          → IsSound (ledger (after_pass libs ans pass w))
          → pass.memory.watches.states ≡ (call_of libs ans mem gvk).0.states
          → at same_kind gvk (call_of libs ans mem gvk).0.states ≡ some inf
          → handlers_of gvk inf (after_pass libs ans pass w).handlers ≡ 1
      one_handler gvk inf sound states recorded =
          let named : at same_kind gvk (after_pass libs ans pass w).watches.states ≡ some inf =
            ap (λ x. at same_kind gvk (Watches.states x))
              (performed-watches libs.gvk_text ans.watch pass.calls
                (record w { watches = pass.memory.watches }))
            ∙ ap (λ s. at same_kind gvk s) states
            ∙ recorded in
          omega (arith, sound.once gvk inf, sound.held gvk inf named)

      gated-IsBornObserved :
          ans.has_controller ≡ true
          → ((gvk : Gvk) → Serves w gvk (ans.informer gvk))
          → IsSound (ledger (after_pass libs ans pass w))
          → (a : PoolAnswer) → ans.pool ≡ a
          → IsGated libs ans laws kube_laws namespace name mem a pass
          → IsBornObserved (after_pass libs ans pass w)
      unfolding set_up_watch
      gated-IsBornObserved managed here sound (pool_unread e) said quiet = inl quiet
      gated-IsBornObserved managed here sound (pool_read before) said (inl quiet) = inl quiet
      gated-IsBornObserved managed here sound (pool_read before) said
            (inr (stays, runs, (gvk, (named, (template, parsed, (goes, lawful)))))) =
          let verdict =
            followed-IsWatching gvk (selected libs ans before) before
              (ready_reason_is libs.find_condition before.status.conditions "Paused")
              (call_of libs ans mem gvk) goes in
          let (inf, current, recorded) =
            managed_records ans.has_controller managed gvk (record w { watches = mem.watches })
              (here gvk) verdict in
          inr (
            before,
            said,
            (
              gvk,
              named,
              inf,
              current,
              one_handler gvk inf sound
                  (read_states before gvk template said stays runs named parsed) recorded,
            ),
          )

      -- A child is born observed: over the life of a process, with any passes for any pools and whatever
      -- instances the cache started or lost in between, no instance ever has a second handler; and a pass
      -- that writes to a child leaves the instance of the kind of its pool's template with exactly one,
      -- provided that there is a manager, the memory of the watches is that of the pass before, the cache
      -- gives the instance that it has, and the accessors read back what was set.
      pub Life-IsBornObserved :
          Life libs w
          → ans.has_controller ≡ true
          → mem.watches ≡ w.watches
          → ((gvk : Gvk) → Serves w gvk (ans.informer gvk))
          → (g : Gvk) (i : ℕ)
          → (handlers_of g i (after_pass libs ans pass w).handlers ≤ 1)
            × IsBornObserved (after_pass libs ans pass w)
      Life-IsBornObserved life managed same here g i =
          let sound =
            passed-IsSound libs ans namespace name mem w same here (Life-IsSound libs life) in
          (
            sound.once g i,
            gated-IsBornObserved managed here sound ans.pool refl
                (reconcile-IsGated libs ans laws kube_laws namespace name mem),
          )
