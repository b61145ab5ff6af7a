-- ===== src/Lib.antt =====
-- kigeon watches the events of a Kubernetes cluster, keeps them in a queue and sends them to
-- receivers such as Grafana Loki. This library models its Go code and proves what makes it correct.
--
-- How the parts interact. The event pusher (internal/eventpusher) hands each event, a watched one or
-- one that the pod informer (internal/pods) makes of a kill for want of memory, to the queue
-- (internal/eventqueue), which publishes it to the subscribed senders unless it has seen it. A
-- sender fetches from its subscription, through a filter on namespaces if one is configured
-- (internal/eventsender/filter.go, internal/filter), lets a Starlark hook change its configuration,
-- posts the event to Loki and acknowledges it (internal/eventsender/loki).
--
-- Which file models which part:
--   Config           internal/config: config.go (Config, Defaults), validation.go (Validation)
--   Errors           Go's errors, their wrapping, and errors.Is
--   Kubernetes       the fields of the API types that the program uses
--   Main             cmd/kigeon/main.go: the configuration (Accepted) and the start of the queue
--                    (Limits); main, setupLogger and createK8sClient (Process); the order of the
--                    whole start and shutdown (Startup), and the readiness check meanwhile
--                    (Readiness)
--   Metrics          internal/metrics: the label values; metrics.go and kubernetes.go (Collectors,
--                    Arity), what they count (Counting, Calls, Senders), server.go (Server)
--   EventPusher      internal/eventpusher/eventpusher.go
--   EventQueue       internal/eventqueue/eventqueue.go: eventIdentifier (Identifier), PublishEvent
--                    (Publish, Deduplication), PruneConsumers (Consumers), Fetch (Fetch),
--                    StartEventQueue and Subscribe (Start), Stop (Stop); metrics.go (Collector)
--   EventSender      internal/eventsender: filter.go (FilteredFetcher), registry.go (Registry)
--   Filter           internal/filter/namespace_filter.go; Start and Stop (Lifecycle)
--   Loki.Factory     factory.go: Factory, and NewSender of loki.go
--   Loki.Loop        loki.go: Run
--   Loki.Config      internal/eventsender/loki/config.go, and parseConfig of factory.go
--   Loki.Payload     loki.go: buildLabels, getEventTimestamp, formatEventMessage, buildPushPayload
--   Loki.Hook        internal/eventsender/loki/hook.go; the conversions of values in Hook/Values
--   Loki.Sender      loki.go: sendToLoki, deliver, handleHookError, processEvent
--   Pipeline         the queue, the filtered fetcher and a sender together, as main.go puts them
--                    together: what becomes of a message (Delivered, Acknowledged, Lossless, Redelivery, Once)
--                    and of an event from PublishEvent on (Published) or from the event pusher on
--                    (Pushed)
--   Pods             internal/pods: oom.go (Oom), informer.go (Informer; Start and Stop in
--                    Informer/Lifecycle)
--   Prelude          names, lists, maps and texts that the modules share
--   Tests            inputs, what the model computes on them, and the theorems at such inputs
--
-- How state and operations correspond. A method takes the object's state and returns it with its
-- results; its name is the source's, respelled. What a round of a sender does to the outside
-- (Ack, counting, posting) is a list of effects in order. An error is a value; a message is kept as
-- its format and its arguments. Logging is left out. A Go map is a list of entries whose first
-- entry of a key counts; its order is that of one iteration.
--
-- What is taken as a parameter: the NATS server, as an interface over an abstract state; the file
-- system; the Starlark interpreter and its dicts; encoding/json; the HTTP client, the environment,
-- the clock, the label selector, the expiring caches and the store of the informer, the hash and the
-- format of a time in the synthetic events, and what Fetch and Ack return. What the theorems need of
-- them are Remembers, Keeps, Reaches, KeepsSubscriptions, Numbers, IsReadable, DeletesOne, Counts,
-- Starlark, IsForeign, IsInjective and Expires, each met by an instance in Tests. The Prometheus
-- client is such a parameter too, as are net.Listen, promhttp and client-go.
--
-- Bounds and fuel. The loops recur on their lists. The fuel of the decimal digits of n is n + 1,
-- which is more than the number of digits. A time is in nanoseconds from January 1 of the year 1;
-- UnixNano is modelled for the years in which it fits an int64. Counts of events are integers
-- without the bounds of an int32, which no operation on them can leave. A uint64 is a number whose
-- sums are taken modulo 2 ^ 64. The fuel of the bits that float64 rounds off is 11, since a number
-- below 2 ^ 64 has at most 11 bits more than the 53 that are kept.
--
-- The goroutines of the event pusher share its state: it is changed by acts, one for each `select`
-- and each call, and a run is any sequence of acts of which none has to wait.
--
-- The senders run at the same time as the event pusher. In Pipeline an occurrence is a call of
-- PublishEvent, the delivery of one message to one sender, with the filter and the outside of that
-- moment, or the server's dropping a message by the limits of the stream or of its deliveries; a
-- run is any sequence of occurrences. A loop of the filtered fetcher that passes over several
-- messages is one delivery for each.
--
-- What is not modelled: the informers of client-go beyond the notifications that they give, the
-- handler of promhttp, the help texts and buckets of the metrics, logging, the parsing of flags,
-- and contexts other than by the errors that they cause.
pub mod Config
pub mod Errors
pub mod EventPusher
pub mod EventQueue
pub mod EventSender
pub mod Filter
pub mod Kubernetes
pub mod Loki
pub mod Main
pub mod Metrics
pub mod Pipeline
pub mod Pods
pub mod Prelude
pub mod Tests
