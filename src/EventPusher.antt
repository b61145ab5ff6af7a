-- ===== src/EventPusher.antt =====
-- internal/eventpusher/eventpusher.go: the watched events, the buffer between the informer and the
-- publishing loop, and the shutdown. What the goroutines do is a sequence of acts, one for each
-- `select` and each call; an act that has to wait has no result.
pub mod Fifo
pub mod Shutdown
use kigeon.Prelude.{
  ℕ, ◌+◌, ◌*◌, String, Bool, true, false, not, ◌&&◌, ◌||◌, Option, none, some, List, [], ◌∷◌, ◌++◌,
  ◌==◌, ltb, length, if◌then◌else◌,
}
use kigeon.Kubernetes.{Event}

abbrev pub event_channel_buffer_size : ℕ
event_channel_buffer_size = 1024

-- 5 seconds, in nanoseconds
abbrev pub default_push_timeout : ℕ
default_push_timeout = 5 * 1000000000

-- 4 hours
abbrev pub default_resync_interval : ℕ
default_resync_interval = 4 * 3600 * 1000000000

-- `Options`
pub record Options : Type 0 where
  pub push_timeout : Option ℕ
  pub resync_interval : Option ℕ

-- a call of `PublishEvent`, with whether its context is canceled from the start
pub record Publishing : Type 0 where
  pub event : Event
  pub canceled : Bool

-- `EventPusher`: the channel with its oldest event first, its context, whether the loop runs and has
-- ended, and what can be seen from outside: the counters, the calls of `PublishEvent`, and a panic.
pub record EventPusher : Type 0 where
  pub push_timeout : ℕ
  pub resync_interval : ℕ
  pub channel : List Event
  pub is_closed : Bool
  pub is_canceled : Bool
  pub is_started : Bool
  pub is_ended : Bool
  pub watched : ℕ
  pub synthetic : ℕ
  pub publishings : List Publishing
  pub is_panicked : Bool

-- the value of an option that is set
abbrev pub set_or : ℕ → Option ℕ → ℕ
set_or default none = default
set_or default (some n) = n

-- `NewEventPusher`
unfoldable pub new_event_pusher : Options → EventPusher
new_event_pusher options = record {
  push_timeout = set_or default_push_timeout options.push_timeout;
  resync_interval = set_or default_resync_interval options.resync_interval;
  channel = [];
  is_closed = false;
  is_canceled = false;
  is_started = false;
  is_ended = false;
  watched = 0;
  synthetic = 0;
  publishings = [];
  is_panicked = false;
}

-- which case a `select` takes
pub data Choice : Type 0 where
  channel_case done_case : Choice

-- `enqueue`: a send panics if the channel is closed, and waits if it is full.
unfoldable pub enqueue : Choice → Event → EventPusher → Option EventPusher
enqueue channel_case event ep =
    if ep.is_closed
    then some (record ep { is_panicked = true })
    else if ltb (length ep.channel) event_channel_buffer_size
    then some (record ep { channel = ep.channel ++ (event ∷ []) })
    else none
enqueue done_case event ep = if ep.is_canceled then some ep else none

-- what the informer reports to the handlers; the object of `AddFunc` may not be an event
pub data Notification : Type 0 where
  added : Option Event → Notification
  updated : Event → Event → Notification
  deleted : Notification

-- the event that a notification makes a handler enqueue
unfoldable pub watched_event : Notification → Option Event
watched_event (added o) = o
watched_event (updated old_event new_event) =
    if old_event.resource_version == new_event.resource_version then none else some new_event
watched_event deleted = none

unfoldable pub enqueue_watched : Choice → Option Event → EventPusher → Option EventPusher
unfolding enqueue
enqueue_watched choice none ep = some ep
enqueue_watched choice (some event) ep =
    enqueue choice event (record ep { watched = ep.watched + 1 })

-- the handlers of `registerEventHandler`
unfoldable pub notify : Choice → Notification → EventPusher → Option EventPusher
unfolding watched_event enqueue_watched
notify choice n ep = enqueue_watched choice (watched_event n) ep

-- `Push`
unfoldable pub push : Choice → Event → EventPusher → Option EventPusher
unfolding enqueue
push choice event ep = enqueue choice event (record ep { synthetic = ep.synthetic + 1 })

-- receiving from the channel in `publishingLoop`, given what is in it
unfoldable pub receive : List Event → EventPusher → Option EventPusher
receive [] ep = if ep.is_closed then some (record ep { is_ended = true }) else none
receive (event ∷ events) ep = some (record ep {
  channel = events;
  publishings = ep.publishings ++ (record { event = event; canceled = ep.is_canceled } ∷ []);
})

-- one round of `publishingLoop`
unfoldable pub loop_round : Choice → EventPusher → Option EventPusher
unfolding receive
loop_round channel_case ep = receive ep.channel ep
loop_round done_case ep = if ep.is_canceled then some ep else none

-- `Run` after the caches are synced: the loop is started
unfoldable pub start : EventPusher → Option EventPusher
start ep = if ep.is_started then none else some (record ep { is_started = true })

-- `Stop`, or the end of the context that `NewEventPusher` is given
unfoldable pub cancel : EventPusher → Option EventPusher
cancel ep = some (record ep { is_canceled = true })

-- `Run` after the context is done: the channel is closed
unfoldable pub close_channel : EventPusher → Option EventPusher
close_channel ep =
    if ep.is_started && ep.is_canceled && not ep.is_closed
    then some (record ep { is_closed = true })
    else none

-- what one of the goroutines does
pub data Act : Type 0 where
  notified : Choice → Notification → Act
  pushed : Choice → Event → Act
  looped : Choice → Act
  started canceled closed : Act

unfoldable pub perform : Act → EventPusher → Option EventPusher
unfolding notify push loop_round start cancel close_channel
perform (notified choice n) ep = notify choice n ep
perform (pushed choice event) ep = push choice event ep
perform (looped choice) ep = if ep.is_started && not ep.is_ended then loop_round choice ep else none
perform started ep = start ep
perform canceled ep = cancel ep
perform closed ep = close_channel ep

-- A panic ends the program.
unfoldable pub act : Act → EventPusher → Option EventPusher
unfolding perform
act a ep = if ep.is_panicked then none else perform a ep

unfoldable pub then_run :
    (EventPusher → Option EventPusher) → Option EventPusher → Option EventPusher
then_run more none = none
then_run more (some ep) = more ep

-- the acts in an order in which they may happen, with their result if they can all happen in it
unfoldable pub run : List Act → EventPusher → Option EventPusher
unfolding act then_run
run [] ep = some ep
run (a ∷ acts) ep = then_run (run acts) (act a ep)
