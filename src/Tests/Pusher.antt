-- ===== src/Tests/Pusher.antt =====
-- internal/eventpusher on the way from the start to the end of the loop.
use kigeon.Prelude.{◌≤◌, ◌≡◌, refl, true, false, none, some, List, [], ◌∷◌, ◌++◌, length}
use kigeon.Kubernetes.{Event}
use kigeon.EventPusher.{
  EventPusher, Options, new_event_pusher, channel_case, done_case, Act, notified, pushed, looped,
  started, canceled, closed, added, updated, run,
}
use kigeon.EventPusher.Fifo.{events_of, on_time, sent_by_all}
use kigeon.EventPusher.Shutdown.{run_fifo, run_safe, run_late, rounds, run-rounds}
use kigeon.Tests.Data.{back_off}

abbrev pub defaults : Options
defaults = record { push_timeout = none; resync_interval = none }

abbrev pub second : Event
second = record back_off { resource_version = "8" }

-- An event and its update are sent, and one of them published.
abbrev pub first_acts : List Act
first_acts =
    notified channel_case (added (some back_off))
    ∷ started
    ∷ looped channel_case
    ∷ notified channel_case (updated back_off second)
    ∷ notified channel_case (updated second second)
    ∷ []

abbrev half_way : EventPusher
half_way = record (new_event_pusher defaults) {
  channel = second ∷ [];
  is_started = true;
  watched = 2;
  publishings = record { event = back_off; canceled = false } ∷ [];
}

-- Then the pusher is stopped, gives up an event, and publishes the other one.
abbrev pub last_acts : List Act
last_acts = canceled ∷ closed ∷ pushed done_case back_off ∷ rounds 2

abbrev pub stopped : EventPusher
stopped = record half_way {
  channel = [];
  is_canceled = true;
  is_closed = true;
  is_ended = true;
  synthetic = 1;
  publishings =
      record { event = back_off; canceled = false }
      ∷ record { event = second; canceled = true }
      ∷ [];
}

run_fifo_example : events_of half_way.publishings ++ half_way.channel ≡ sent_by_all first_acts
unfolding run new_event_pusher
run_fifo_example = run_fifo defaults first_acts half_way refl refl

run_safe_example :
    (length half_way.channel ≤ 1024)
    × (half_way.is_closed ≡ true → half_way.is_canceled ≡ true)
    × (half_way.is_panicked ≡ true → half_way.is_closed ≡ true)
unfolding run new_event_pusher
run_safe_example = run_safe defaults first_acts half_way refl

run_late_example : on_time stopped ≡ on_time (record half_way { is_canceled = true })
unfolding run new_event_pusher
run_late_example = run_late last_acts (record half_way { is_canceled = true }) stopped refl refl

run-rounds_example :
    (ep : EventPusher) × (run (rounds 2) (record half_way { is_closed = true; is_canceled = true })
      ≡ some ep)
    × (ep.is_ended ≡ true)
unfolding new_event_pusher
run-rounds_example =
    run-rounds (record half_way { is_closed = true; is_canceled = true }) (second ∷ []) refl refl
      refl refl refl
