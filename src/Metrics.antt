-- ===== src/Metrics.antt =====
-- internal/metrics: the label values of the counters of metrics.go here, the rest in the children.
pub mod Collectors
pub mod Counting
pub mod Arity
pub mod Calls
pub mod Senders
pub mod Server

-- The results of processing an event in a sender, `ResultSent` to `ResultFailed`.
pub data SenderResult : Type 0 where
  sent filtered skipped rejected failed : SenderResult

-- The results of publishing an event, `PublishPublished` to `PublishError`.
pub data PublishResult : Type 0 where
  published duplicate error : PublishResult

-- The sources of watched events, `SourceKubernetes` and `SourceSynthetic`.
pub data Source : Type 0 where
  kubernetes synthetic : Source
