-- ===== src/Loki.antt =====
-- internal/eventsender/loki: the sender that forwards events to Grafana Loki.
pub mod Config
pub mod Factory
pub mod Payload
pub mod Hook
pub mod Loop
pub mod Sender
