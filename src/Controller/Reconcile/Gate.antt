-- ===== src/Controller/Reconcile/Gate.antt =====
-- internal/controller/podpool_controller.go: what has to hold before a pass writes to a child.
use podpool_controller.Prelude.{
  Bool, true, false, Option, none, some, List, [], ◌∷◌, String, ◌≡◌, refl, ◌⊎◌, inl, inr, All,
  Bool-cases, if◌then◌else◌,
}
use podpool_controller.Json.{Fields}
use podpool_controller.Api.{PodPool}
use podpool_controller.Workload.Object.{Gvk}
use podpool_controller.Workload.Object.Laws.{ObjectLaws}
use podpool_controller.Workload.Render.{extract_gvk, parse_template}
use podpool_controller.Controller.Errors.{api_reason, is_missing, Result, failed, done}
use podpool_controller.Controller.Events.{Event, is_paused, ready_reason_is}
use podpool_controller.Controller.Probe.{Observations}
use podpool_controller.Controller.Group.{Effect, asked_apply, swept, published, events_of}
use podpool_controller.Controller.Group.Row.{KubeLaws}
use podpool_controller.Controller.Watch.{
  WatchPass, SetUp, proceed, come_back, give_up, set_up_watch,
}
use podpool_controller.Controller.Observe.{observe_opportunistic}
use podpool_controller.Controller.Reconcile.{
  PoolAnswer, pool_unread, pool_read, Libraries, Answers, Memory, Pass,
}
use podpool_controller.Controller.Reconcile.Body.{paused_exit, invalid_exit}
use podpool_controller.Controller.Reconcile.Run.{
  selected, observed_exit, watched_exit, parsed_exit, addressed_exit, body, deferred, untouched,
  answered, reconcile,
}
use podpool_controller.Controller.Reconcile.Writes.{IsLawful, full_exit-AllLawful}

abbrev pub IsEvent : Effect → Type 0
IsEvent (published e) = Unit
IsEvent (asked_apply d) = true ≡ false
IsEvent (swept a) = true ≡ false

events-IsEvent : (events : List Event) → All IsEvent (events_of events)
events-IsEvent [] = tt
events-IsEvent (e ∷ events) = (tt, events-IsEvent events)

module _ (libs : Libraries) (ans : Answers) (laws : ObjectLaws libs.api)
    (kube_laws : KubeLaws libs.api libs.kube) (mem : Memory) (before : PodPool) where
  abbrev pool : PodPool
  pool = selected libs ans before

  abbrev was_paused : Bool
  was_paused = ready_reason_is libs.find_condition before.status.conditions "Paused"

  abbrev pub watch_of : Gvk → WatchPass
  watch_of gvk =
      set_up_watch libs.decimal libs.set_condition libs.find_condition libs.gvk_text ans.watch
        ans.has_controller pool gvk before was_paused (ans.informer gvk) ans.watch_time mem.watches

  abbrev watched_memory : WatchPass → Memory
  watched_memory w = record mem { watches = w.watches }

  -- The template names a kind, its watch stands, every opportunistic child was read, and then all that is
  -- written is lawful.
  abbrev pub IsObserved : Gvk → Fields → List Effect → Type 0
  IsObserved gvk template log =
      ((watch_of gvk).next ≡ proceed)
      × ((observed : Observations) × (observe_opportunistic libs.api libs.kube ans.observing
              ans.list_pending (watch_of gvk).pool gvk
            ≡ done observed)
          × All
              (IsLawful libs ans laws kube_laws (watched_memory (watch_of gvk)) before
                (watch_of gvk).pool was_paused gvk template observed)
              log)

  abbrev pub IsReached : List Effect → Type 0
  IsReached log =
      (gvk : Gvk) × ((extract_gvk libs.api before.spec.workload_template ≡ some gvk)
        × ((template : Fields) × (parse_template libs.api before.spec.workload_template
              ≡ some template)
            × IsObserved gvk template log))

  IsObserved-Gate :
      (gvk : Gvk) (template : Fields) (r : Result Observations)
      → (watch_of gvk).next ≡ proceed
      → observe_opportunistic libs.api libs.kube ans.observing ans.list_pending
          (watch_of gvk).pool
          gvk
        ≡ r
      → (let log =
            (observed_exit libs ans
              (watched_memory (watch_of gvk))
              before
              (watch_of gvk).pool
              was_paused
              gvk
              template
              r).log in
          All IsEvent log ⊎ IsObserved gvk template log)
  IsObserved-Gate gvk template (failed e) goes said = inl tt
  IsObserved-Gate gvk template (done observed) goes said = inr (
    goes,
    (
      observed,
      said,
      full_exit-AllLawful libs ans laws kube_laws (watched_memory (watch_of gvk)) before
          (watch_of gvk).pool was_paused gvk template observed,
    ),
  )

  watched-Gate :
      (gvk : Gvk) (template : Fields) (next : SetUp)
      → (watch_of gvk).next ≡ next
      → (let log =
            (watched_exit libs ans mem before was_paused gvk template (watch_of gvk) next).log in
          All IsEvent log ⊎ IsObserved gvk template log)
  watched-Gate gvk template proceed said =
      IsObserved-Gate gvk template
        (observe_opportunistic libs.api libs.kube ans.observing ans.list_pending (watch_of gvk).pool
          gvk)
        said refl
  watched-Gate gvk template (come_back wait) said = inl tt
  watched-Gate gvk template (give_up e) said = inl (events-IsEvent (watch_of gvk).events)

  parsed-Gate :
      (gvk : Gvk) (o : Option Fields)
      → extract_gvk libs.api before.spec.workload_template ≡ some gvk
      → parse_template libs.api before.spec.workload_template ≡ o
      → (let log = (parsed_exit libs ans mem before pool was_paused gvk o).log in
          All IsEvent log ⊎ IsReached log)
  parsed-Gate gvk none named said = inl tt
  parsed-Gate gvk (some template) named said =
      elim (watched-Gate gvk template (watch_of gvk).next refl) [
        | inl quiet ↦ inl quiet
        | inr lawful ↦ inr (gvk, (named, (template, said, lawful)))
      ]

  addressed-Gate :
      (o : Option Gvk)
      → extract_gvk libs.api before.spec.workload_template ≡ o
      → (let log = (addressed_exit libs ans mem before pool was_paused o).log in
          All IsEvent log ⊎ IsReached log)
  unfolding invalid_exit
  addressed-Gate none said = inl (events-IsEvent _)
  addressed-Gate (some gvk) said =
      parsed-Gate gvk (parse_template libs.api before.spec.workload_template) said refl

  body-Gate :
      All IsEvent (body libs ans mem before).log
      ⊎ ((is_paused before ≡ false) × IsReached (body libs ans mem before).log)
  unfolding body paused_exit is_paused
  body-Gate = elim (Bool-cases (is_paused before)) [
    | inl paused ↦ rw (paused) (inl (events-IsEvent _))
    | inr runs ↦
        rw (runs) (elim (addressed-Gate (extract_gvk libs.api before.spec.workload_template) refl) [
          | inl quiet ↦ inl quiet
          | inr reached ↦ inr (refl, reached)
        ])
  ]

-- What a pass may have done.
module _ (libs : Libraries) (ans : Answers) (laws : ObjectLaws libs.api)
    (kube_laws : KubeLaws libs.api libs.kube) (namespace name : String) (mem : Memory) where
  abbrev pub IsGated : PoolAnswer → Pass → Type 0
  IsGated (pool_unread e) pass = All IsEvent pass.log
  IsGated (pool_read before) pass =
      All IsEvent pass.log
      ⊎ ((before.is_deleting ≡ false)
          × (is_paused before ≡ false)
          × IsReached libs ans laws kube_laws mem before pass.log)

  read-IsGated :
      (before : PodPool) (b : Bool)
      → before.is_deleting ≡ b
      → IsGated (pool_read before) (
          if b
          then untouched libs ans mem []
          else deferred libs ans before (body libs ans mem before))
  unfolding deferred
  read-IsGated before true going = inl tt
  read-IsGated before false stays = elim (body-Gate libs ans laws kube_laws mem before) [
    | inl quiet ↦ inl quiet
    | inr (runs, reached) ↦ inr (stays, runs, reached)
  ]

  answered-IsGated : (a : PoolAnswer) → IsGated a (answered libs ans namespace name mem a)
  answered-IsGated (pool_unread e) = elim (Bool-cases (is_missing (api_reason e))) [
    | inl missing ↦ rw (missing) tt
    | inr other ↦ rw (other) tt
  ]
  answered-IsGated (pool_read before) = read-IsGated before before.is_deleting refl

  -- The whole of Reconcile, over accessors that read back what was set and a SetResourceVersion that
  -- changes nothing else: a pass writes to no child at all, or the pool was read, is not being deleted
  -- and is not paused, its template names a kind whose watch stands, every opportunistic child was read,
  -- and then each apply is of the child of a group with its target in this pass, owned by the pool and
  -- over nothing of another's, and each deletion is one that an uncached read warrants.
  pub reconcile-IsGated : IsGated ans.pool (reconcile libs ans namespace name mem)
  unfolding reconcile
  reconcile-IsGated = answered-IsGated ans.pool
