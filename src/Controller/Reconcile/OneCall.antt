-- ===== src/Controller/Reconcile/OneCall.antt =====
-- internal/controller/podpool_controller.go: what a pass of Reconcile does to the watches.
use podpool_controller.Prelude.{
  Bool, true, false, Option, none, some, List, [], ◌∷◌, ◌++◌, String, ◌≡◌, refl, ap, ◌∙◌, ◌⊎◌, inl,
  inr, Bool-cases, if◌then◌else◌, ℕ, at,
}
use podpool_controller.Json.{Fields}
use podpool_controller.Api.{PodPool}
use podpool_controller.Workload.Object.{Gvk}
use podpool_controller.Workload.Render.{extract_gvk, parse_template}
use podpool_controller.Controller.Errors.{Error, Result, failed, done, api_reason, is_missing}
use podpool_controller.Controller.Events.{is_paused, ready_reason_is, is_marked}
use podpool_controller.Controller.Sweep.{same_kind}
use podpool_controller.Controller.Probe.{Observations}
use podpool_controller.Controller.Watch.{
  Watches, WatchCall, Watched, watching, pending, broken, WatchPass, SetUp, proceed, come_back,
  give_up, ensure_watch, handle_watch_failure, followed, set_up_watch,
}
use podpool_controller.Controller.Observe.{observe_opportunistic}
use podpool_controller.Controller.Reconcile.{
  PoolAnswer, pool_unread, pool_read, Libraries, Answers, Memory, Exit,
}
use podpool_controller.Controller.Reconcile.Body.{paused_exit, invalid_exit}
use podpool_controller.Controller.Reconcile.Run.{
  full_exit, selected, observed_exit, watched_exit, parsed_exit, addressed_exit, body, deferred,
  untouched, answered, reconcile,
}

no_more : (calls : List WatchCall) → calls ++ [] ≡ calls
no_more [] = refl
no_more (c ∷ calls) = ap (λ rest. c ∷ rest) (no_more calls)

-- The watches apart from the record of the failures that were told.
abbrev pub IsAlike : Watches → Watches → Type 0
IsAlike v w = (v.states ≡ w.states) × (v.pending_since ≡ w.pending_since)

abbrev pub IsFollowed : List WatchCall → Watches → Watches × List WatchCall × Watched → Type 0
IsFollowed calls v (w, asked, verdict) = (calls ≡ asked) × IsAlike v w

handled-IsAlike :
    (gvk_text : Gvk → String) (watch : Gvk → ℕ → Option Error) (gvk : Gvk) (e : Error) (w : Watches)
    → IsAlike (handle_watch_failure gvk_text watch gvk e w).0 w
unfolding handle_watch_failure
handled-IsAlike gvk_text watch gvk e w =
    elim (Bool-cases (is_marked (at same_kind gvk w.failure_emitted))) [
      | inl told ↦ rw (told) (refl, refl)
      | inr news ↦ rw (news) (refl, refl)
    ]

module _ (libs : Libraries) (ans : Answers) where
  followed-IsFollowed :
      (gvk : Gvk) (pool before : PodPool) (was_paused : Bool)
      (r : Watches × List WatchCall × Watched)
      → (let w =
            followed libs.decimal libs.set_condition libs.find_condition libs.gvk_text ans.watch gvk
              pool before was_paused r in
          IsFollowed w.calls w.watches r)
  followed-IsFollowed gvk pool before was_paused (w, calls, watching) = (refl, (refl, refl))
  followed-IsFollowed gvk pool before was_paused (w, calls, pending) = (refl, (refl, refl))
  followed-IsFollowed gvk pool before was_paused (w, calls, broken e) =
      (refl, handled-IsAlike libs.gvk_text ans.watch gvk e w)

  module _ (mem : Memory) where
    abbrev pub call_of : Gvk → Watches × List WatchCall × Watched
    call_of gvk =
        ensure_watch libs.gvk_text ans.watch ans.has_controller gvk (ans.informer gvk)
          ans.watch_time mem.watches

    -- One call for the kind of the template, or none.
    abbrev pub IsOneCall : List WatchCall → Watches → Type 0
    IsOneCall calls v =
        ((calls ≡ []) × (v ≡ mem.watches)) ⊎ ((gvk : Gvk) × IsFollowed calls v (call_of gvk))

    module _ (before : PodPool) where
      abbrev IsCarried : WatchPass → Exit → Type 0
      IsCarried w x = (x.calls ≡ w.calls) × (x.memory.watches ≡ w.watches)

      observed-IsCarried :
          (mem' : Memory) (pool : PodPool) (was_paused : Bool) (gvk : Gvk) (template : Fields)
          (r : Result Observations)
          → (let x = observed_exit libs ans mem' before pool was_paused gvk template r in
              (x.calls ≡ []) × (x.memory.watches ≡ mem'.watches))
      unfolding full_exit
      observed-IsCarried mem' pool was_paused gvk template (failed e) = (refl, refl)
      observed-IsCarried mem' pool was_paused gvk template (done observed) = (refl, refl)

      watched-IsCarried :
          (was_paused : Bool) (gvk : Gvk) (template : Fields) (w : WatchPass) (next : SetUp)
          → IsCarried w (watched_exit libs ans mem before was_paused gvk template w next)
      watched-IsCarried was_paused gvk template w proceed =
          let (quiet, same) =
            observed-IsCarried (record mem { watches = w.watches }) w.pool was_paused gvk template
              (observe_opportunistic libs.api libs.kube ans.observing ans.list_pending w.pool
                gvk) in
          (ap (λ more. w.calls ++ more) quiet ∙ no_more w.calls, same)
      watched-IsCarried was_paused gvk template w (come_back wait) = (no_more w.calls, refl)
      watched-IsCarried was_paused gvk template w (give_up e) = (no_more w.calls, refl)

      -- Where the template parses, the call is for its kind.
      parsed-IsFollowed :
          (pool : PodPool) (was_paused : Bool) (gvk : Gvk) (template : Fields)
          → (let x = parsed_exit libs ans mem before pool was_paused gvk (some template) in
              IsFollowed x.calls x.memory.watches (call_of gvk))
      unfolding set_up_watch
      parsed-IsFollowed pool was_paused gvk template =
          let w =
            set_up_watch libs.decimal libs.set_condition libs.find_condition libs.gvk_text ans.watch
              ans.has_controller pool gvk before was_paused (ans.informer gvk) ans.watch_time
              mem.watches in
          let (calls, kept) = watched-IsCarried was_paused gvk template w w.next in
          let (asked, (states, since)) =
            followed-IsFollowed gvk pool before was_paused (call_of gvk) in
          (calls ∙ asked, (ap Watches.states kept ∙ states, ap Watches.pending_since kept ∙ since))

      parsed-IsOneCall :
          (pool : PodPool) (was_paused : Bool) (gvk : Gvk) (o : Option Fields)
          → (let x = parsed_exit libs ans mem before pool was_paused gvk o in
              IsOneCall x.calls x.memory.watches)
      parsed-IsOneCall pool was_paused gvk none = inl (refl, refl)
      parsed-IsOneCall pool was_paused gvk (some template) =
          inr (gvk, parsed-IsFollowed pool was_paused gvk template)

      addressed-IsOneCall :
          (pool : PodPool) (was_paused : Bool) (o : Option Gvk)
          → (let x = addressed_exit libs ans mem before pool was_paused o in
              IsOneCall x.calls x.memory.watches)
      unfolding invalid_exit
      addressed-IsOneCall pool was_paused none = inl (refl, refl)
      addressed-IsOneCall pool was_paused (some gvk) =
          parsed-IsOneCall pool was_paused gvk (parse_template libs.api pool.spec.workload_template)

      body-IsOneCall :
          IsOneCall (body libs ans mem before).calls (body libs ans mem before).memory.watches
      unfolding body paused_exit
      body-IsOneCall = elim (Bool-cases (is_paused (selected libs ans before))) [
        | inl paused ↦ rw (paused) (inl (refl, refl))
        | inr runs ↦ rw (runs) (
            addressed-IsOneCall (selected libs ans before)
              (ready_reason_is libs.find_condition before.status.conditions "Paused")
              (extract_gvk libs.api before.spec.workload_template))
      ]

      pub body-IsFollowed :
          (gvk : Gvk) (template : Fields)
          → is_paused before ≡ false
          → extract_gvk libs.api before.spec.workload_template ≡ some gvk
          → parse_template libs.api before.spec.workload_template ≡ some template
          → IsFollowed
              (body libs ans mem before).calls
              (body libs ans mem before).memory.watches
              (call_of gvk)
      unfolding body is_paused
      body-IsFollowed gvk template runs named parsed =
          rw (runs, named, parsed)
            (parsed-IsFollowed (selected libs ans before)
              (ready_reason_is libs.find_condition before.status.conditions "Paused") gvk template)

  pub reconcile-IsOneCall :
      (namespace name : String) (mem : Memory)
      → (let p = reconcile libs ans namespace name mem in IsOneCall mem p.calls p.memory.watches)
  unfolding reconcile deferred
  reconcile-IsOneCall namespace name mem = by_answer ans.pool
    where
      by_mark :
          (before : PodPool) (b : Bool)
          → (let p =
                if b
                then untouched libs ans mem []
                else deferred libs ans before (body libs ans mem before) in
              IsOneCall mem p.calls p.memory.watches)
      by_mark before true = inl (refl, refl)
      by_mark before false = body-IsOneCall mem before

      by_answer :
          (a : PoolAnswer)
          → (let p = answered libs ans namespace name mem a in
              IsOneCall mem p.calls p.memory.watches)
      by_answer (pool_unread e) = elim (Bool-cases (is_missing (api_reason e))) [
        | inl missing ↦ rw (missing) (inl (refl, refl))
        | inr other ↦ rw (other) (inl (refl, refl))
      ]
      by_answer (pool_read before) = by_mark before before.is_deleting
