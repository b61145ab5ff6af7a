-- ===== src/Tests/Payloads.antt =====
-- The payload of an event (Loki/Payload.antt).
use kigeon.Prelude.{◌≡◌, refl, none, some, [], ◌∷◌, lookup, itoa}
use kigeon.Loki.Payload.{build_labels, build_push_payload}
use kigeon.Loki.Payload.Labels.{lookup-build_labels}
use kigeon.Errors.{ok}
use kigeon.Tests.Data.{back_off, config_of}

payload_runs : build_push_payload (λ m. ok "line") 9 (some back_off) (config_of none) ≡ record {
  streams =
      record {
        stream = ("app", "kigeon") ∷ ("type", "event") ∷ [];
        values = ("7" ∷ "line" ∷ []) ∷ [];
      }
      ∷ [];
}
unfolding build_push_payload itoa
payload_runs = refl

lookup-build_labels_example :
    lookup "type" (build_labels (some back_off) (config_of none)) ≡ some "Warning"
unfolding lookup
lookup-build_labels_example =
    lookup-build_labels back_off (config_of none) "type" (refl, (refl, tt))
