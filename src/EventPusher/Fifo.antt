-- ===== src/EventPusher/Fifo.antt =====
-- The buffer of internal/eventpusher/eventpusher.go keeps the order and its bound, whatever the
-- goroutines do and in whatever order.
pub mod Runs
use kigeon.Prelude.{
  ℕ, ◌+◌, ◌≡◌, refl, sym, ap, ◌∙◌, true, false, not, ◌&&◌, Option, none, some, List, [], ◌∷◌, ◌++◌,
  arith, ltb, leb, length, length-append, count, count-append, Holds, Holds-if, Holds-some,
  Holds-map,
}
use mathlib.Core.List.{append-nil, append_assoc}
use kigeon.Kubernetes.{Event}
use kigeon.EventPusher.{
  EventPusher, Publishing, Options, new_event_pusher, Choice, channel_case, done_case,
  watched_event, enqueue, enqueue_watched, notify, push, receive, loop_round, start, cancel,
  close_channel, Act, notified, pushed, looped, started, canceled, closed, perform, act, then_run,
  run, event_channel_buffer_size,
}

-- the events that `PublishEvent` was called with
abbrev pub events_of : List Publishing → List Event
events_of [] = []
events_of (p ∷ l) = p.event ∷ events_of l

-- the events of the calls whose context was not canceled
abbrev pub on_time : EventPusher → ℕ
on_time ep = count (λ p. not p.canceled) ep.publishings

-- the event that a `select` sends
unfoldable pub sent : Choice → Event → List Event
sent channel_case event = event ∷ []
sent done_case event = []

unfoldable pub sent_watched : Choice → Option Event → List Event
unfolding sent
sent_watched choice none = []
sent_watched choice (some event) = sent choice event

-- the event that an act sends into the channel
unfoldable pub sent_by : Act → List Event
unfolding sent_watched sent
sent_by (notified choice n) = sent_watched choice (watched_event n)
sent_by (pushed choice event) = sent choice event
sent_by (looped choice) = []
sent_by started = []
sent_by canceled = []
sent_by closed = []

unfoldable pub sent_by_all : List Act → List Event
unfolding sent_by
sent_by_all [] = []
sent_by_all (a ∷ acts) = sent_by a ++ sent_by_all acts

-- the events on their way: those that were handed on, and those in the buffer
abbrev pub handed : EventPusher → List Event
handed ep = events_of ep.publishings ++ ep.channel

pub record IsSound (ep : EventPusher) : Type 0 where
  pub bounded : leb (length ep.channel) event_channel_buffer_size ≡ true
  pub closed_late : ep.is_closed ≡ true → ep.is_canceled ≡ true
  pub ended_closed : ep.is_ended ≡ true → ep.is_closed ≡ true
  pub ended_empty : ep.is_ended ≡ true → ep.channel ≡ []
  pub panicked_closed : ep.is_panicked ≡ true → ep.is_closed ≡ true

-- from `ep` to `ep'` exactly the events `l` were sent
pub record Advances (l : List Event) (ep ep' : EventPusher) : Type 0 where
  pub sound : IsSound ep → IsSound ep'
  pub fifo : ep'.is_panicked ≡ false → handed ep' ≡ handed ep ++ l
  pub late : ep.is_canceled ≡ true → (ep'.is_canceled ≡ true) × (on_time ep' ≡ on_time ep)

events_of-append : (l m : List Publishing) → events_of (l ++ m) ≡ events_of l ++ events_of m
events_of-append [] m = refl
events_of-append (p ∷ l) m = ap (λ k. p.event ∷ k) (events_of-append l m)

stays : (ep : EventPusher) → Advances [] ep ep
stays ep = record {
  sound = λ s. s;
  fifo = λ h. sym (append-nil (handed ep));
  late = λ h. (h, refl);
}

enqueue-Advances :
    (c : Choice) (e : Event) (ep : EventPusher) → Holds (Advances (sent c e) ep) (enqueue c e ep)
unfolding enqueue sent
enqueue-Advances done_case e ep = Holds-if _ ep.is_canceled (some ep) none (λ h. stays ep) (λ h. tt)
enqueue-Advances channel_case e ep =
    Holds-if _ ep.is_closed _ _
      (λ h. record {
        sound = λ s. record {
          bounded = s.bounded;
          closed_late = s.closed_late;
          ended_closed = s.ended_closed;
          ended_empty = s.ended_empty;
          panicked_closed = λ p. h;
        };
        fifo = λ p. absurd (ground (arith, p));
        late = λ p. (p, refl);
      })
      (λ h.
        Holds-if (Advances (e ∷ []) ep) (ltb (length ep.channel) event_channel_buffer_size)
          (some (record ep { channel = ep.channel ++ (e ∷ []) })) none
          (λ k. record {
            sound = λ s. record {
              bounded = ground (arith, k, length-append ep.channel (e ∷ []));
              closed_late = s.closed_late;
              ended_closed = s.ended_closed;
              ended_empty = λ p. absurd (ground (arith, h, s.ended_closed p));
              panicked_closed = s.panicked_closed;
            };
            fifo = λ p. sym (append_assoc (events_of ep.publishings) ep.channel (e ∷ []));
            late = λ p. (p, refl);
          })
          (λ k. tt))

-- Counting an event before it is sent makes no difference.
counted-Advances :
    (l : List Event) (ep ep' : EventPusher) (m n : ℕ)
    → Advances l (record ep { watched = m; synthetic = n }) ep'
    → Advances l ep ep'
counted-Advances l ep ep' m n a = record {
  sound = λ s. a.sound (record {
    bounded = s.bounded;
    closed_late = s.closed_late;
    ended_closed = s.ended_closed;
    ended_empty = s.ended_empty;
    panicked_closed = s.panicked_closed;
  });
  fifo = a.fifo;
  late = a.late;
}

enqueue_watched-Advances :
    (c : Choice) (o : Option Event) (ep : EventPusher)
    → Holds (Advances (sent_watched c o) ep) (enqueue_watched c o ep)
unfolding enqueue_watched sent_watched
enqueue_watched-Advances c none ep = stays ep
enqueue_watched-Advances c (some e) ep =
    Holds-map _ _ (enqueue c e (record ep { watched = ep.watched + 1 }))
      (λ ep'. counted-Advances _ ep ep' (ep.watched + 1) ep.synthetic)
      (enqueue-Advances c e (record ep { watched = ep.watched + 1 }))

push-Advances :
    (c : Choice) (e : Event) (ep : EventPusher) → Holds (Advances (sent c e) ep) (push c e ep)
unfolding push
push-Advances c e ep =
    Holds-map _ _ (enqueue c e (record ep { synthetic = ep.synthetic + 1 }))
      (λ ep'. counted-Advances _ ep ep' ep.watched (ep.synthetic + 1))
      (enqueue-Advances c e (record ep { synthetic = ep.synthetic + 1 }))

-- A round of a loop that has not ended takes the oldest event of the buffer, or ends the loop.
receive-Advances :
    (ep : EventPusher) (channel : List Event)
    → channel ≡ ep.channel
    → ep.is_ended ≡ false
    → Holds (Advances [] ep) (receive channel ep)
unfolding receive
receive-Advances ep [] e running =
    Holds-if _ ep.is_closed _ _
      (λ h. record {
        sound = λ s. record {
          bounded = s.bounded;
          closed_late = s.closed_late;
          ended_closed = λ p. h;
          ended_empty = λ p. sym e;
          panicked_closed = s.panicked_closed;
        };
        fifo = λ p. sym (append-nil (handed ep));
        late = λ p. (p, refl);
      })
      (λ h. tt)
receive-Advances ep (event ∷ events) e running = record {
  sound = λ s. record {
    bounded = ground (arith, s.bounded, ap length e);
    closed_late = s.closed_late;
    ended_closed = s.ended_closed;
    ended_empty = λ p. absurd (ground (arith, p, running));
    panicked_closed = s.panicked_closed;
  };
  fifo = λ p.
      ap (λ l. l ++ events) (events_of-append ep.publishings _)
      ∙ append_assoc (events_of ep.publishings) (event ∷ []) events
      ∙ ap (λ l. events_of ep.publishings ++ l) e
      ∙ sym (append-nil (handed ep));
  late = λ p. (
    p,
    ground (
      arith,
      p,
      count-append (λ p. not p.canceled) ep.publishings
          (record { event = event; canceled = ep.is_canceled } ∷ []),
    ),
  );
}

loop-Advances :
    (c : Choice) (ep : EventPusher) → ep.is_ended ≡ false → Holds (Advances [] ep) (loop_round c ep)
unfolding loop_round
loop-Advances channel_case ep running = receive-Advances ep ep.channel refl running
loop-Advances done_case ep running =
    Holds-if (Advances [] ep) ep.is_canceled (some ep) none (λ h. stays ep) (λ h. tt)

perform-Advances : (a : Act) (ep : EventPusher) → Holds (Advances (sent_by a) ep) (perform a ep)
unfolding perform sent_by notify start cancel close_channel
perform-Advances (notified c n) ep = enqueue_watched-Advances c (watched_event n) ep
perform-Advances (pushed c e) ep = push-Advances c e ep
perform-Advances (looped c) ep =
    Holds-if (Advances [] ep) (ep.is_started && not ep.is_ended) (loop_round c ep) none
      (λ h. loop-Advances c ep (ground (arith, h))) (λ h. tt)
perform-Advances started ep =
    Holds-if (Advances [] ep) ep.is_started none (some (record ep { is_started = true })) (λ h. tt)
      (λ h. record {
        sound = λ s. record {
          bounded = s.bounded;
          closed_late = s.closed_late;
          ended_closed = s.ended_closed;
          ended_empty = s.ended_empty;
          panicked_closed = s.panicked_closed;
        };
        fifo = λ p. sym (append-nil (handed ep));
        late = λ p. (p, refl);
      })
perform-Advances canceled ep = record {
  sound = λ s. record {
    bounded = s.bounded;
    closed_late = λ p. refl;
    ended_closed = s.ended_closed;
    ended_empty = s.ended_empty;
    panicked_closed = s.panicked_closed;
  };
  fifo = λ p. sym (append-nil (handed ep));
  late = λ p. (refl, refl);
}
perform-Advances closed ep =
    Holds-if (Advances [] ep) (ep.is_started && ep.is_canceled && not ep.is_closed)
      (some (record ep { is_closed = true })) none
      (λ h. record {
        sound = λ s. record {
          bounded = s.bounded;
          closed_late = λ p. ground (arith, h);
          ended_closed = λ p. refl;
          ended_empty = s.ended_empty;
          panicked_closed = λ p. refl;
        };
        fifo = λ p. sym (append-nil (handed ep));
        late = λ p. (p, refl);
      })
      (λ h. tt)
