-- ===== src/Loki/Payload/Timestamp.antt =====
-- The single log line that `buildPushPayload` makes, and its timestamp.
use kigeon.Prelude.{◌≡◌, ◌⊎◌, true, false, some, arith}
use kigeon.Kubernetes.{Event, Time, is_zero}
use kigeon.Loki.Payload.{get_event_timestamp}

-- The timestamp of an event is the first of its event time, last timestamp and first timestamp that
-- is set, and the current time only if none is set; so it is never the zero time.
get_event_timestamp_first :
    (now : Time) (event : Event)
    → is_zero now ≡ false
    → let t = get_event_timestamp now (some event) in
      (is_zero t ≡ false)
      × ((t ≡ event.event_time)
          ⊎ ((is_zero event.event_time ≡ true) × (t ≡ event.last_timestamp))
          ⊎ ((is_zero event.event_time ≡ true)
              × (is_zero event.last_timestamp ≡ true)
              × (t ≡ event.first_timestamp))
          ⊎ ((is_zero event.event_time ≡ true)
              × (is_zero event.last_timestamp ≡ true)
              × (is_zero event.first_timestamp ≡ true)
              × (t ≡ now)))
unfolding get_event_timestamp
get_event_timestamp_first now event h = ground arith
