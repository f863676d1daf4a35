-- ===== src/Controller/Tests/WatchTests.antt =====
-- Runs of the watch machinery at a concrete kind.
use podpool_controller.Prelude.{
  ◌≡◌, ◌≤◌, refl, Option, none, List, [], ◌∷◌, String, true, false, ℕ, arith,
}
use podpool_controller.Api.{Condition}
use podpool_controller.Workload.Object.{Gvk}
use podpool_controller.Workload.Tests.RenderTests.{web_pool}
use podpool_controller.Controller.Errors.{Error}
use podpool_controller.Controller.Watch.{Watches, informer, watching, give_up, ensure_watch}
use podpool_controller.Controller.Watch.Instances.{handlers_of}
use podpool_controller.Controller.Watch.Reach.{
  World, Reach, start, after, called, lost, serve, outcome, call, reach-IsWatchedOnce,
}
use podpool_controller.Controller.Watch.Failure.{
  Visit, visited, watches_after, events_of_visits, failures_told, failure_told_once,
}
use podpool_controller.Controller.Watch.Outage.{outage_reported}
use podpool_controller.Controller.Tests.ConditionTests.{set_status_condition, find_status_condition}
use podpool_controller.Controller.Tests.SweepTests.{deployments}

abbrev kind_text : Gvk → String
kind_text g = g.kind

abbrev accepts : Gvk → ℕ → Option Error
accepts g i = none

abbrev decimal : ℕ → String
decimal n = "n"

abbrev find_condition : List Condition → String → Option Condition
find_condition conditions kind = find_status_condition kind conditions

abbrev first_world : World
first_world = record {
  current = [];
  next = 0;
  handlers = [];
  watches = record { states = []; pending_since = []; failure_emitted = [] };
}

-- The informer was watched while it synced, and was then lost by the cache.
abbrev unsynced_world : World
unsynced_world = call kind_text accepts deployments false false 5 first_world

abbrev lost_world : World
lost_world = record unsynced_world { current = [] }

lost_world_reached : Reach kind_text lost_world
unfolding ensure_watch
lost_world_reached =
    after (after start (called accepts deployments false false 5 first_world))
      (lost deployments unsynced_world)

watched_lem :
    (outcome kind_text accepts deployments false true 9 (serve deployments lost_world)).2 ≡ watching
unfolding ensure_watch
watched_lem = refl

reach-IsWatchedOnce_run :
    (handlers_of deployments
        (serve deployments lost_world).0
        (call kind_text accepts deployments false true 9 lost_world).handlers
      ≡ 1)
    × (handlers_of deployments 0
          (call kind_text accepts deployments false true 9 lost_world).handlers
        ≤ 1)
reach-IsWatchedOnce_run =
    reach-IsWatchedOnce kind_text lost_world lost_world_reached accepts deployments false true 9
      watched_lem deployments 0

abbrev unsynced_at : ℕ → Visit
unsynced_at now = record {
  pool = web_pool;
  before = web_pool;
  was_paused = false;
  answer = informer 0 false false;
  now = now;
}

abbrev outage : List Visit
outage = unsynced_at 5 ∷ unsynced_at 40000000000 ∷ unsynced_at 50000000000 ∷ []

outage_told :
    failures_told (
      events_of_visits kind_text accepts deployments decimal set_status_condition find_condition
        outage first_world.watches)
    ≡ 1
unfolding failures_told events_of_visits
outage_told = refl

failure_told_once_example :
    failures_told (
      events_of_visits kind_text accepts deployments decimal set_status_condition find_condition
        outage first_world.watches)
    ≤ 1
failure_told_once_example =
    failure_told_once kind_text accepts deployments decimal set_status_condition find_condition
      outage first_world.watches (refl, (refl, (refl, tt)))

abbrev waiting_watches : Watches
waiting_watches = record {
  states = [];
  pending_since = (deployments, 5) ∷ [];
  failure_emitted = [];
}

outage_reported_example :
    (e : Error) × ((visited kind_text accepts deployments decimal set_status_condition
        find_condition
        (unsynced_at 50000000000)
        (watches_after kind_text accepts deployments decimal set_status_condition find_condition
          outage waiting_watches)).next
      ≡ give_up e)
outage_reported_example =
    outage_reported kind_text accepts deployments 5 decimal set_status_condition find_condition
      outage (unsynced_at 50000000000) waiting_watches refl (refl, (refl, (refl, tt))) refl
      (omega arith)
