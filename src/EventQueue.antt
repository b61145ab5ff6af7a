-- ===== src/EventQueue.antt =====
-- internal/eventqueue: eventqueue.go, which publishes with deduplication and has the subscriptions,
-- and metrics.go (Collector). NATS JetStream is an interface over an abstract state.
pub mod Identifier
pub mod Publish
pub mod Deduplication
pub mod Consumers
pub mod Fetch
pub mod Start
pub mod Stop
pub mod Collector
