-- ===== src/Controller/Watch.antt =====
-- internal/controller/watch.go and the watch's part of podpool_controller.go. The mutex makes each stretch
-- that it covers one step on the maps; the cache's informers and the controller's `Watch` are parameters.
pub mod Instances
pub mod Reach
pub mod Failure
pub mod Outage
use podpool_controller.Prelude.{
  ℕ, ◌+◌, ◌*◌, Bool, true, false, not, Option, none, some, List, [], ◌∷◌, ◌++◌, String, concat, ltb,
  ◌==◌, if◌then◌else◌, at, put, remove,
}
use podpool_controller.Api.{Condition, PodPool}
use podpool_controller.Workload.Object.{Gvk}
use podpool_controller.Controller.Timing.{second}
use podpool_controller.Controller.Conditions.{ConditionInputs, set_conditions}
use podpool_controller.Controller.Errors.{Error, leaf, wrapped, error_message}
use podpool_controller.Controller.Events.{Event, warning, is_marked, announce_resume}
use podpool_controller.Controller.Sweep.{same_kind}

abbrev pub watch_sync_grace : ℕ
watch_sync_grace = 30 * second

abbrev pub watch_sync_requeue : ℕ
watch_sync_requeue = 2 * second

-- What `GetInformer` answers without blocking: an error, or the instance for the kind, as a number,
-- whether it has stopped and whether it has synced.
pub data InformerAnswer : Type 0 where
  no_informer : Error → InformerAnswer
  informer : (instance_id : ℕ) (is_stopped has_synced : Bool) → InformerAnswer

pub record Watches : Type 0 where
  pub states : List (Gvk × ℕ)
  pub pending_since : List (Gvk × ℕ)
  pub failure_emitted : List (Gvk × Bool)

-- The calls that change the cache or the controller: `RemoveInformer` and `Watch`.
pub data WatchCall : Type 0 where
  removed_informer : Gvk → WatchCall
  asked_watch : Gvk → ℕ → WatchCall

-- `pending` is an error that wraps `errWatchSyncPending`.
pub data Watched : Type 0 where
  watching pending : Watched
  broken : Error → Watched

abbrev pub is_instance : ℕ → Option ℕ → Bool
is_instance inf none = false
is_instance inf (some known) = known == inf

abbrev or_since : ℕ → Option ℕ → ℕ
or_since now none = now
or_since now (some since) = since

-- `gvk_text` is the text of a kind; `watch` is what `Watch` returns for an instance.
module _ (gvk_text : Gvk → String) (watch : Gvk → ℕ → Option Error) where
  abbrev unsynced : Gvk → ℕ → Watches → List WatchCall → Watches × List WatchCall × Watched
  unsynced gvk now w calls =
      let since = or_since now (at same_kind gvk w.pending_since) in
      (
        record w { pending_since = put same_kind gvk since w.pending_since },
        calls,
        if ltb now (since + watch_sync_grace)
            then pending
            else broken (
                leaf (
                  concat ("informer for " ∷ gvk_text gvk ∷ " has not synced after " ∷ "30s" ∷ []))),
      )

  abbrev synced : Gvk → Watches → List WatchCall → Watches × List WatchCall × Watched
  synced gvk w calls = (
    record w {
      pending_since = remove same_kind gvk w.pending_since;
      failure_emitted = remove same_kind gvk w.failure_emitted;
    },
    calls,
    watching,
  )

  abbrev pub checked :
      Gvk → Bool → ℕ → Watches → List WatchCall → Watches × List WatchCall × Watched
  checked gvk has_synced now w calls =
      if not has_synced then unsynced gvk now w calls else synced gvk w calls

  abbrev pub registered :
      Gvk → ℕ → Bool → ℕ → Watches → Option Error → Watches × List WatchCall × Watched
  registered gvk inf has_synced now w (some e) = (
    w,
    asked_watch gvk inf ∷ [],
    broken (wrapped (concat ("setting up watch for " ∷ gvk_text gvk ∷ [])) e),
  )
  registered gvk inf has_synced now w none =
      checked gvk has_synced now (record w { states = put same_kind gvk inf w.states })
        (asked_watch gvk inf ∷ [])

  -- `has_controller` is false only where there is no manager.
  unfoldable pub ensure_watch :
      Bool → Gvk → InformerAnswer → ℕ → Watches → Watches × List WatchCall × Watched
  ensure_watch false gvk answer now w = (w, [], watching)
  ensure_watch true gvk (no_informer e) now w =
      (w, [], broken (wrapped (concat ("getting informer for " ∷ gvk_text gvk ∷ [])) e))
  ensure_watch true gvk (informer inf is_stopped has_synced) now w =
      if is_stopped
      then (
        record w { states = remove same_kind gvk w.states },
        removed_informer gvk ∷ [],
        broken (leaf (concat ("informer for " ∷ gvk_text gvk ∷ " stopped; rebuilding" ∷ []))),
      )
      else if not (is_instance inf (at same_kind gvk w.states))
      then registered gvk inf has_synced now w (watch gvk inf)
      else checked gvk has_synced now w []

  unfoldable pub handle_watch_failure : Gvk → Error → Watches → Watches × List Event
  unfolding error_message
  handle_watch_failure gvk e w =
      if is_marked (at same_kind gvk w.failure_emitted) then (w, []) else (
        record w { failure_emitted = put same_kind gvk true w.failure_emitted },
        warning "WatchSetupFailed" "SetupWatch"
              (concat ("Failed to set up watch for " ∷ gvk_text gvk ∷ ": " ∷ error_message e ∷ []))
            ∷ [],
      )

-- The zero value of `conditionInputs`.
abbrev pub no_inputs : ConditionInputs
no_inputs = record {
  target_degraded = false;
  unplaced = 0;
  ready = 0;
  desired = 0;
  failed_groups = [];
  stalled_groups = [];
  not_owned_groups = [];
  terminal_groups = [];
  pool_invalid = false;
  paused = false;
  watch_failed = false;
}

-- What follows of the watch: the pass goes on, comes back after a while, or ends with an error.
pub data SetUp : Type 0 where
  proceed : SetUp
  come_back : ℕ → SetUp
  give_up : Error → SetUp

pub record WatchPass : Type 0 where
  pub watches : Watches
  pub calls : List WatchCall
  pub pool : PodPool
  pub events : List Event
  pub next : SetUp

module _ (decimal : ℕ → String) (set : Condition → List Condition → List Condition)
    (find : List Condition → String → Option Condition) (gvk_text : Gvk → String)
    (watch : Gvk → ℕ → Option Error) where
  abbrev pub followed :
      Gvk → PodPool → PodPool → Bool → Watches × List WatchCall × Watched → WatchPass
  followed gvk pool before was_paused (w, calls, watching) = record {
    watches = w;
    calls = calls;
    pool = pool;
    events = [];
    next = proceed;
  }
  followed gvk pool before was_paused (w, calls, pending) = record {
    watches = w;
    calls = calls;
    pool = pool;
    events = [];
    next = come_back watch_sync_requeue;
  }
  followed gvk pool before was_paused (w, calls, broken e) =
      let told = set_conditions decimal set pool (record no_inputs { watch_failed = true }) in
      let (next, failure) = handle_watch_failure gvk_text watch gvk e w in
      record {
        watches = next;
        calls = calls;
        pool = told;
        events = announce_resume find told before was_paused ++ failure;
        next = give_up (wrapped (concat ("setting up watch for " ∷ gvk_text gvk ∷ [])) e);
      }

  unfoldable pub set_up_watch :
      Bool → PodPool → Gvk → PodPool → Bool → InformerAnswer → ℕ → Watches → WatchPass
  unfolding ensure_watch handle_watch_failure set_conditions announce_resume
  set_up_watch has_controller pool gvk before was_paused answer now w =
      followed gvk pool before was_paused
        (ensure_watch gvk_text watch has_controller gvk answer now w)
