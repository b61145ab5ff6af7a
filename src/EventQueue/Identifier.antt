-- ===== src/EventQueue/Identifier.antt =====
-- `eventIdentifier`: the key by which events are deduplicated.
pub mod Injective
use kigeon.Prelude.{String, [], ◌∷◌, concat, itoa}
use kigeon.Kubernetes.{Event}

-- `eventIdentifier`
unfoldable pub event_identifier : Event → String
event_identifier event = concat (event.uid ∷ "-" ∷ itoa event.count ∷ [])
