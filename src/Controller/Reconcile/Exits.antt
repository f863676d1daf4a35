-- ===== src/Controller/Reconcile/Exits.antt =====
-- internal/controller/podpool_controller.go: what every exit of Reconcile has in common.
use podpool_controller.Prelude.{
  ℕ, ◌≤◌, Bool, true, false, Option, none, some, List, [], ◌∷◌, ◌++◌, map, String, ◌≡◌, refl, ◌∙◌,
  ◌⊎◌, inl, inr, length, Bool-cases, Option-cases, if◌then◌else◌, ◌==◌, ltb, arith, any,
}
use podpool_controller.Json.{Fields}
use podpool_controller.Api.{Condition, GroupStatus, PodPoolSpec, PodPool}
use podpool_controller.Workload.Object.{Gvk}
use podpool_controller.Workload.Scaling.{is_opportunistic}
use podpool_controller.Workload.Render.{extract_gvk, parse_template, label_pool}
use podpool_controller.Controller.Timing.{
  second, reconcile_floor, opportunistic_heartbeat, requeue_after,
}
use podpool_controller.Controller.Probe.{Observations}
use podpool_controller.Controller.Progress.{deadline_aware_requeue}
use podpool_controller.Controller.Conditions.{
  ConditionInputs, halted_conditions, publish, set_conditions,
}
use podpool_controller.Controller.Errors.{Error, leaf, Result, failed, done}
use podpool_controller.Controller.Events.{is_paused, ready_reason_is}
use podpool_controller.Controller.Sweep.{sweep_all_orphans}
use podpool_controller.Controller.Watch.{
  Watches, WatchCall, Watched, watching, pending, broken, WatchPass, SetUp, proceed, come_back,
  give_up, no_inputs, ensure_watch, followed, set_up_watch,
}
use podpool_controller.Controller.Observe.{observe_opportunistic}
use podpool_controller.Controller.Reconcile.{Libraries, Answers, Memory, Exit}
use podpool_controller.Controller.Reconcile.Body.{
  ending, paused_exit, invalid_exit, final_rows, filled, inputs_of,
}
use podpool_controller.Controller.Reconcile.Run.{
  placed, probed, looped, full_exit, selected, observed_exit, watched_exit, parsed_exit,
  addressed_exit, body,
}

set_conditions-selector :
    (decimal : ℕ → String) (set : Condition → List Condition → List Condition) (pool : PodPool)
    (i : ConditionInputs)
    → (set_conditions decimal set pool i).status.selector ≡ pool.status.selector
unfolding set_conditions publish halted_conditions
set_conditions-selector decimal set pool i = ground arith

heartbeat_long :
    (spec : PodPoolSpec)
    → (opportunistic_heartbeat spec ≡ 0) ⊎ (second ≤ opportunistic_heartbeat spec)
unfolding opportunistic_heartbeat
heartbeat_long spec = elim (Bool-cases (any (λ g. is_opportunistic g.scaling) spec.groups)) [
  | inr none_grows ↦ rw (none_grows) (inl refl)
  | inl grows ↦ elim (Option-cases spec.opportunistic_heartbeat_seconds) [
    | inl unset ↦ rw (grows, unset) (inr (omega arith))
    | inr (s, set) ↦ elim (Bool-cases (ltb 0 s)) [
      | inl some_time ↦ rw (grows, set, some_time) (inr (ground arith))
      | inr no_time ↦ rw (grows, set, no_time) (inr (omega arith))
    ]
  ]
]

requeue_after_long :
    (jitter : ℕ → ℕ) (spec : PodPoolSpec)
    → ((d : ℕ) → d ≤ jitter d)
    → second ≤ requeue_after jitter spec
unfolding requeue_after
requeue_after_long jitter spec longer = elim (Bool-cases (ltb 0 (opportunistic_heartbeat spec))) [
  | inl some_heartbeat ↦ rw (some_heartbeat) (elim (heartbeat_long spec) [
    | inl z ↦ absurd (ground arith)
    | inr long ↦ omega (arith, long, longer (opportunistic_heartbeat spec))
  ])
  | inr no_heartbeat ↦ rw (no_heartbeat) (omega (arith, longer reconcile_floor))
]

deadline_aware_long :
    (jitter : ℕ → ℕ) (spec : PodPoolSpec) (groups : List GroupStatus) (now : ℕ)
    → second ≤ deadline_aware_requeue jitter spec groups now
unfolding deadline_aware_requeue
deadline_aware_long jitter spec groups now = ground arith

-- An exit that comes back, by its error or by its wait.
abbrev pub IsLive : Exit → Type 0
IsLive x = (1 ≤ length x.errors) ⊎ (second ≤ x.requeue_after)

ending_live :
    (errors : List Error) (terminal_groups : List String) (awaited : Bool) (wait : ℕ)
    → second ≤ wait
    → (1 ≤ length (ending errors terminal_groups awaited wait).1)
      ⊎ (second ≤ (ending errors terminal_groups awaited wait).0)
unfolding ending
ending_live [] terminal_groups true wait long = inr (omega arith)
ending_live [] terminal_groups false wait long = inr long
ending_live (e ∷ errors) terminal_groups awaited wait long =
    elim (Bool-cases (length (e ∷ errors) == length terminal_groups)) [
      | inr other ↦ rw (other) (inl (omega arith))
      | inl same ↦ elim (Bool-cases awaited) [
        | inl awaits ↦ rw (same, awaits) (inr (omega arith))
        | inr quiet ↦ rw (same, quiet) (inr long)
      ]
    ]

-- What a set-up of the watch leaves of the pool's selector, and how soon it wants to be called again.
abbrev IsSetUp : PodPool → WatchPass → SetUp → Type 0
IsSetUp pool w (come_back wait) = (w.pool.status.selector ≡ pool.status.selector) × (second ≤ wait)
IsSetUp pool w next = w.pool.status.selector ≡ pool.status.selector

followed-IsSetUp :
    (libs : Libraries) (watch : Gvk → ℕ → Option Error) (gvk : Gvk) (pool before : PodPool)
    (was_paused : Bool) (outcome : Watches × List WatchCall × Watched)
    → (let w =
          followed libs.decimal libs.set_condition libs.find_condition libs.gvk_text watch gvk pool
            before was_paused outcome in
        IsSetUp pool w w.next)
followed-IsSetUp libs watch gvk pool before was_paused (w, calls, watching) = refl
followed-IsSetUp libs watch gvk pool before was_paused (w, calls, pending) = (refl, omega arith)
followed-IsSetUp libs watch gvk pool before was_paused (w, calls, broken e) =
    set_conditions-selector libs.decimal libs.set_condition pool
      (record no_inputs { watch_failed = true })

module _ (libs : Libraries) (ans : Answers) (mem : Memory) (before : PodPool) where
  abbrev said_selector : String
  said_selector = libs.selector_text label_pool before.name

  abbrev IsTurned : PodPool → Exit → Type 0
  IsTurned pool x = IsLive x × (x.pool.status.selector ≡ pool.status.selector)

  full_exit-IsTurned :
      (mem' : Memory) (pool : PodPool) (was_paused : Bool) (gvk : Gvk) (template : Fields)
      (observed : Observations)
      → IsTurned pool (full_exit libs ans mem' before pool was_paused gvk template observed)
  unfolding full_exit
  full_exit-IsTurned mem' pool was_paused gvk template observed =
      let c = looped libs ans mem' before pool gvk template observed in
      let (stalled, rows, totals) = final_rows libs ans before pool c in
      let counted = filled libs ans pool (placed libs ans mem' pool observed) rows totals in
      (
        ending_live
            (c.errors
              ++ map leaf
                  (sweep_all_orphans ans.cluster before.status.groups pool gvk c.reconciled).1)
            c.terminal_groups (probed libs ans mem' pool observed).pending
            (deadline_aware_requeue ans.jitter pool.spec rows ans.now)
            (deadline_aware_long ans.jitter pool.spec rows ans.now),
        set_conditions-selector libs.decimal libs.set_condition counted
            (inputs_of libs ans counted (placed libs ans mem' pool observed) c stalled),
      )

  observed-IsTurned :
      (mem' : Memory) (pool : PodPool) (was_paused : Bool) (gvk : Gvk) (template : Fields)
      (r : Result Observations)
      → IsTurned pool (observed_exit libs ans mem' before pool was_paused gvk template r)
  observed-IsTurned mem' pool was_paused gvk template (failed e) = (inl (omega arith), refl)
  observed-IsTurned mem' pool was_paused gvk template (done observed) =
      full_exit-IsTurned mem' pool was_paused gvk template observed

  watched-IsTurned :
      (pool : PodPool) (was_paused : Bool) (gvk : Gvk) (template : Fields) (w : WatchPass)
      (next : SetUp)
      → IsSetUp pool w next
      → IsTurned pool (watched_exit libs ans mem before was_paused gvk template w next)
  watched-IsTurned pool was_paused gvk template w proceed kept =
      let (live, same) =
        observed-IsTurned (record mem { watches = w.watches }) w.pool was_paused gvk template
          (observe_opportunistic libs.api libs.kube ans.observing ans.list_pending w.pool gvk) in
      (live, same ∙ kept)
  watched-IsTurned pool was_paused gvk template w (come_back wait) (kept, long) = (inr long, kept)
  watched-IsTurned pool was_paused gvk template w (give_up e) kept = (inl (omega arith), kept)

  parsed-IsTurned :
      (pool : PodPool) (was_paused : Bool) (gvk : Gvk) (o : Option Fields)
      → IsTurned pool (parsed_exit libs ans mem before pool was_paused gvk o)
  unfolding set_up_watch
  parsed-IsTurned pool was_paused gvk none = (inl (omega arith), refl)
  parsed-IsTurned pool was_paused gvk (some template) =
      let w =
        set_up_watch libs.decimal libs.set_condition libs.find_condition libs.gvk_text ans.watch
          ans.has_controller pool gvk before was_paused (ans.informer gvk) ans.watch_time
          mem.watches in
      watched-IsTurned pool was_paused gvk template w w.next (
        followed-IsSetUp libs ans.watch gvk pool before was_paused (
          ensure_watch libs.gvk_text ans.watch ans.has_controller gvk (ans.informer gvk)
            ans.watch_time mem.watches))

  addressed-IsTurned :
      (pool : PodPool) (was_paused : Bool) (o : Option Gvk)
      → ((d : ℕ) → d ≤ ans.jitter d)
      → IsTurned pool (addressed_exit libs ans mem before pool was_paused o)
  unfolding invalid_exit
  addressed-IsTurned pool was_paused none longer = (
    inr (requeue_after_long ans.jitter pool.spec longer),
    set_conditions-selector libs.decimal libs.set_condition pool
        (record no_inputs { desired = pool.spec.replicas; pool_invalid = true }),
  )
  addressed-IsTurned pool was_paused (some gvk) longer =
      parsed-IsTurned pool was_paused gvk (parse_template libs.api pool.spec.workload_template)

  either-IsLive :
      (b : Bool)
      → ((d : ℕ) → d ≤ ans.jitter d)
      → (let pool = selected libs ans before in
          let was_paused = ready_reason_is libs.find_condition before.status.conditions "Paused" in
          let x =
            if b
            then paused_exit libs ans mem before pool
            else addressed_exit libs ans mem before pool was_paused
                (extract_gvk libs.api pool.spec.workload_template) in
          ((b ≡ true) ⊎ IsLive x) × (x.pool.status.selector ≡ said_selector))
  unfolding paused_exit
  either-IsLive true longer = (
    inl refl,
    set_conditions-selector libs.decimal libs.set_condition (selected libs ans before)
        (record no_inputs { paused = true }),
  )
  either-IsLive false longer =
      let (live, same) =
        addressed-IsTurned (selected libs ans before)
          (ready_reason_is libs.find_condition before.status.conditions "Paused")
          (extract_gvk libs.api before.spec.workload_template) longer in
      (inr live, same)

  -- A live pool is never forgotten, and its selector is always there: whatever a pass over a pool that is
  -- not being deleted meets, it publishes the pool's selector, and unless the pool is paused it returns
  -- an error or asks to be called again, not before a second has passed; provided that the jitter
  -- never shortens a wait.
  pub body-IsLive :
      ((d : ℕ) → d ≤ ans.jitter d)
      → ((is_paused before ≡ true) ⊎ IsLive (body libs ans mem before))
        × ((body libs ans mem before).pool.status.selector ≡ said_selector)
  unfolding body is_paused
  body-IsLive longer = either-IsLive (is_paused before) longer
