-- ===== src/EventPusher/Shutdown.antt =====
-- What internal/eventpusher/eventpusher.go promises from its start to its end: order, bound, and
-- what becomes of the buffer when it is stopped.
use kigeon.Prelude.{
  ℕ, zero, suc, ◌≤◌, ◌≡◌, refl, sym, ap, subst, ◌∙◌, true, false, Option, some, List, [], ◌∷◌, ◌++◌,
  arith, length,
}
use mathlib.Core.List.{append-nil}
use kigeon.Kubernetes.{Event}
use kigeon.EventPusher.{
  EventPusher, Options, new_event_pusher, channel_case, receive, loop_round, Act, looped, perform,
  act, then_run, run,
}
use kigeon.EventPusher.Fifo.{events_of, on_time, sent_by_all}
use kigeon.EventPusher.Fifo.Runs.{run-Advances, new_event_pusher-IsSound}

-- Whatever the goroutines do, in whatever order, as long as nothing panics: the events that were
-- sent are in their order those that `PublishEvent` was called with, followed by those in the buffer.
pub run_fifo :
    (o : Options) (acts : List Act) (ep : EventPusher)
    → run acts (new_event_pusher o) ≡ some ep
    → ep.is_panicked ≡ false
    → events_of ep.publishings ++ ep.channel ≡ sent_by_all acts
unfolding new_event_pusher
run_fifo o acts ep h p = (run-Advances acts (new_event_pusher o) ep h).fifo p

-- Whatever the goroutines do, in whatever order: the buffer never has more than 1024 events, the
-- channel is closed only after the context is done, and a panic happens only after it is closed.
pub run_safe :
    (o : Options) (acts : List Act) (ep : EventPusher)
    → run acts (new_event_pusher o) ≡ some ep
    → (length ep.channel ≤ 1024)
      × (ep.is_closed ≡ true → ep.is_canceled ≡ true)
      × (ep.is_panicked ≡ true → ep.is_closed ≡ true)
run_safe o acts ep h =
    let s = (run-Advances acts (new_event_pusher o) ep h).sound (new_event_pusher-IsSound o) in
    (ground (arith, s.bounded), s.closed_late, s.panicked_closed)

-- If the publishing loop has ended, and nothing panicked, `PublishEvent` was called with every event
-- that was sent, in order.
pub run_drained :
    (o : Options) (acts : List Act) (ep : EventPusher)
    → run acts (new_event_pusher o) ≡ some ep
    → ep.is_panicked ≡ false
    → ep.is_ended ≡ true
    → events_of ep.publishings ≡ sent_by_all acts
run_drained o acts ep h p ended =
    let s = (run-Advances acts (new_event_pusher o) ep h).sound (new_event_pusher-IsSound o) in
    sym (append-nil (events_of ep.publishings))
    ∙ ap (λ l. events_of ep.publishings ++ l) (sym (s.ended_empty ended))
    ∙ run_fifo o acts ep h p

-- Once the context is done, every further call of `PublishEvent` has a context that is canceled from
-- the start, also for the events that were in the buffer.
pub run_late :
    (acts : List Act) (ep ep' : EventPusher)
    → run acts ep ≡ some ep'
    → ep.is_canceled ≡ true
    → on_time ep' ≡ on_time ep
run_late acts ep ep' h canceled = ((run-Advances acts ep ep' h).late canceled).1

-- receiving from the channel, some number of times
abbrev pub rounds : ℕ → List Act
rounds zero = []
rounds (suc n) = looped channel_case ∷ rounds n

-- the state after the loop received an event
abbrev received : EventPusher → Event → List Event → EventPusher
received ep event events = record ep {
  channel = events;
  publishings = ep.publishings ++ (record { event = event; canceled = ep.is_canceled } ∷ []);
}

act-looped :
    (ep : EventPusher) (event : Event) (events : List Event)
    → ep.channel ≡ event ∷ events
    → ep.is_started ≡ true
    → ep.is_ended ≡ false
    → ep.is_panicked ≡ false
    → act (looped channel_case) ep ≡ some (received ep event events)
unfolding act perform loop_round receive
act-looped ep event events e a c d = simp (e, a, c, d)

last-round :
    (ep : EventPusher)
    → ep.channel ≡ []
    → ep.is_started ≡ true
    → ep.is_closed ≡ true
    → ep.is_ended ≡ false
    → ep.is_panicked ≡ false
    → run (rounds 1) ep ≡ some (record ep { is_ended = true })
unfolding run act perform then_run loop_round receive
last-round ep e a b c d = simp (e, a, b, c, d)

abbrev Ends : ℕ → Option EventPusher → Type 0
Ends n o = (ep : EventPusher) × (then_run (run (rounds n)) o ≡ some ep) × (ep.is_ended ≡ true)

-- Once the channel is closed, the loop ends after as many rounds that receive as there are events in
-- the buffer, and one more.
pub run-rounds :
    (ep : EventPusher) (channel : List Event)
    → ep.channel ≡ channel
    → ep.is_started ≡ true
    → ep.is_closed ≡ true
    → ep.is_ended ≡ false
    → ep.is_panicked ≡ false
    → (ep' : EventPusher) × (run (rounds (suc (length channel))) ep ≡ some ep')
      × (ep'.is_ended ≡ true)
unfolding run
run-rounds ep [] e a b c d = (record ep { is_ended = true }, last-round ep e a b c d, refl)
run-rounds ep (event ∷ events) e a b c d =
    subst (Ends (suc (length events))) (sym (act-looped ep event events e a c d))
      (run-rounds (received ep event events) events refl a b c d)
