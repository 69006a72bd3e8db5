-- ===== src/JobEvents/Examples.antt =====
-- src/job-events.ts: a broker with a subscriber, and events of its files.
use codex_job_orchestrator.Common.{dict_get, String, ◌≡◌, refl, some, List, [], ◌∷◌}
use codex_job_orchestrator.JobEvents.{
  JobEventBroker, new_broker, emit, on_dir_event, made, unavailable,
}
use codex_job_orchestrator.JobEvents.Lifetime.{
  IsLive, Event, after_events, broker-IsLive, subscribes, unsubscribes, watcher_errors, rebuilds,
}

abbrev some_events : List Event
some_events =
    subscribes "j" 1 unavailable ∷ watcher_errors ∷ rebuilds made ∷ unsubscribes "j" 1 ∷ []

broker-IsLive_example : IsLive (after_events some_events new_broker)
broker-IsLive_example = broker-IsLive some_events (refl, (tt, (refl, (tt, tt))))

abbrev one_listener : JobEventBroker
unfolding new_broker
one_listener = record new_broker { listeners = ("j", 1 ∷ []) ∷ [] }

abbrev same_name : String → String
same_name f = f

abbrev file : String
file = "j.json"

delivered_to_one :
    on_dir_event same_name one_listener (some "j.json") ≡ (1, "j", some "j.json") ∷ []
unfolding on_dir_event emit one_listener dict_get
delivered_to_one = refl
