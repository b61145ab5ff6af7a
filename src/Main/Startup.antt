-- ===== src/Main/Startup.antt =====
-- run of cmd/kigeon/main.go from the accepted configuration to the end of the shutdown: what it
-- starts and stops, in order, and the error at which it returns. Each part may fail to start.
pub mod Subscribing
pub mod Order
pub mod Tracking
pub mod Stopping
use kigeon.Prelude.{
  String, Bool, true, false, ◌||◌, Option, none, some, List, [], ◌∷◌, ◌++◌, if◌then◌else◌,
}
use kigeon.Errors.{Error, wrap}
use kigeon.Config.{Config, EventSenderConfig, FilterConfig, NamespaceSelectorConfig}

-- What `run` does, in which `filter_tracked` and `sender_tracked` are the appends to the slices
-- `filters` and `senders`.
pub data Action : Type 0 where
  metrics_started queue_started : Action
  filter_started filter_tracked subscribed sender_tracked sender_started : String → Action
  pruned : List String → Action
  pods_started pusher_started oom_watched ready : Action
  sender_stopped filter_stopped : String → Action
  pods_stopped pusher_stopped queue_stopped metrics_stopped : Action

-- what the parts return, and whether the creation of a sender enables the pod informer
pub record Parts : Type 0 where
  pub kubernetes_client : Option Error
  pub metrics_server : Option Error
  pub event_queue : Option Error
  pub register_metrics : Option Error
  pub selector : NamespaceSelectorConfig → Option Error
  pub start_filter : String → Option Error
  pub subscribe : String → Option Error
  pub create : EventSenderConfig → Option Error
  pub enables_pods : EventSenderConfig → Bool
  pub prune : List String → Option Error
  pub start_pods : Option Error
  pub wait_for_pusher : Option Error
  pub watch_oom : Option Error

-- the actions of a part of `run`, and the error at which `run` returns
abbrev pub Steps : Type 0
Steps = List Action × Option Error

-- Steps after an error are not made.
abbrev pub then_steps : Steps → Steps → Steps
then_steps (actions, some e) next = (actions, some e)
then_steps (actions, none) (more, e) = (actions ++ more, e)

-- a call that returns an error, and what was done if it returns none
abbrev pub attempt : String → List String → Option Error → List Action → Steps
attempt format args none actions = (actions, none)
attempt format args (some e) actions = ([], some (wrap format args e))

-- the namespace filter of a sender
unfoldable pub selector_steps : Parts → String → Option NamespaceSelectorConfig → Steps
selector_steps parts name none = ([], none)
selector_steps parts name (some s) =
    then_steps
      (attempt "failed to create label selector for sender %s: %w" (name ∷ []) (parts.selector s)
        [])
      (attempt "failed to start namespace filter for sender %s: %w" (name ∷ [])
        (parts.start_filter name) (filter_started name ∷ filter_tracked name ∷ []))

unfoldable pub filter_steps : Parts → String → Option FilterConfig → Steps
unfolding selector_steps
filter_steps parts name none = ([], none)
filter_steps parts name (some f) = selector_steps parts name f.namespace_selector

-- one round of the loop over the senders
unfoldable pub sender_steps : Parts → EventSenderConfig → Steps
unfolding filter_steps
sender_steps parts s = then_steps (filter_steps parts s.name s.filter) (
    then_steps
      (attempt "failed to subscribe sender %s to queue: %w" (s.name ∷ []) (parts.subscribe s.name)
        (subscribed s.name ∷ []))
      (attempt "failed to create sender %s: %w" (s.name ∷ []) (parts.create s)
        (sender_tracked s.name ∷ sender_started s.name ∷ [])))

unfoldable pub senders_steps : Parts → List EventSenderConfig → Steps
unfolding sender_steps
senders_steps parts [] = ([], none)
senders_steps parts (s ∷ senders) = then_steps (sender_steps parts s) (senders_steps parts senders)

-- `senderNames`
abbrev pub sender_names : List EventSenderConfig → List String
sender_names [] = []
sender_names (s ∷ senders) = s.name ∷ sender_names senders

-- `podInformer.Enabled()` after the loop
unfoldable pub pods_enabled : Parts → List EventSenderConfig → Bool → Bool
pods_enabled parts [] enabled = enabled
pods_enabled parts (s ∷ senders) enabled =
    pods_enabled parts senders (enabled || parts.enables_pods s)

unfoldable pub pods_steps : Parts → Bool → Steps
pods_steps parts false = ([], none)
pods_steps parts true =
    attempt "failed to start pod informer: %w" [] parts.start_pods (pods_started ∷ [])

unfoldable pub oom_steps : Parts → Bool → Steps
oom_steps parts false = ([], none)
oom_steps parts true =
    attempt "failed to watch for OOM killed containers: %w" [] parts.watch_oom (oom_watched ∷ [])

-- the loops over the slices `senders` and `filters`
unfoldable pub stop_senders : List String → List Action
stop_senders [] = []
stop_senders (name ∷ senders) = sender_stopped name ∷ stop_senders senders

unfoldable pub stop_filters : List String → List Action
stop_filters [] = []
stop_filters (name ∷ filters) = filter_stopped name ∷ stop_filters filters

-- the shutdown after a signal
unfoldable pub shutdown : List String → List String → List Action
unfolding stop_senders stop_filters
shutdown senders filters =
    stop_senders senders
    ++ (stop_filters filters
        ++ (pods_stopped ∷ pusher_stopped ∷ queue_stopped ∷ metrics_stopped ∷ []))

-- the slices `senders` and `filters` after some actions, as the names of their entries
unfoldable pub tracked_senders : List Action → List String
tracked_senders [] = []
tracked_senders (sender_tracked name ∷ actions) = name ∷ tracked_senders actions
tracked_senders (_ ∷ actions) = tracked_senders actions

unfoldable pub tracked_filters : List Action → List String
tracked_filters [] = []
tracked_filters (filter_tracked name ∷ actions) = name ∷ tracked_filters actions
tracked_filters (_ ∷ actions) = tracked_filters actions

-- up to the start of the event pusher
unfoldable pub start_steps : Parts → Config → Steps
unfolding senders_steps pods_enabled pods_steps
start_steps parts c =
    then_steps (attempt "failed to create Kubernetes client: %w" [] parts.kubernetes_client []) (
      then_steps
        (attempt "failed to start metrics server: %w" [] parts.metrics_server
          (metrics_started ∷ []))
        (then_steps
          (attempt "failed to start event queue: %w" [] parts.event_queue (queue_started ∷ []))
          (then_steps (attempt "failed to register queue metrics: %w" [] parts.register_metrics [])
            (then_steps (senders_steps parts c.event_senders) (
              then_steps
                (attempt "failed to prune stale senders: %w" []
                  (parts.prune (sender_names c.event_senders))
                  (pruned (sender_names c.event_senders) ∷ []))
                (pods_steps parts
                  (pods_enabled parts c.event_senders c.pods.oom_killed_events)))))))

-- From the start of the event pusher on, with the slices `senders` and `filters`; the pusher's
-- goroutine runs also if waiting for it fails.
unfoldable pub pusher_steps : Parts → Config → List String → List String → Steps
unfolding oom_steps shutdown
pusher_steps parts c senders filters =
    then_steps (pusher_started ∷ [], none)
      (then_steps (attempt "event pusher failed to start: %w" [] parts.wait_for_pusher []) (
        then_steps (oom_steps parts c.pods.oom_killed_events)
          (ready ∷ shutdown senders filters, none)))

-- `run` with a configuration that is accepted
unfoldable pub run : Parts → Config → Steps
unfolding start_steps pusher_steps tracked_senders tracked_filters
run parts c =
    let started = start_steps parts c in
    then_steps started
      (pusher_steps parts c (tracked_senders started.0) (tracked_filters started.0))
