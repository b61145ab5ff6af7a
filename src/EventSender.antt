-- ===== src/EventSender.antt =====
-- internal/eventsender: the filtered fetcher and the registry of sender types.
pub mod FilteredFetcher
pub mod Registry
