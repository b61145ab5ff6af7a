-- ===== src/Pods/Oom/Identity.antt =====
-- The synthetic events of internal/pods/oom.go as the queue of internal/eventqueue tells them apart.
use text.Mathlib.TextLemmas.{append_cancel_left}
use kigeon.Prelude.{◌≡◌, ◌↔◌, refl, ap, String}
use kigeon.Kubernetes.{Pod, Terminated}
use kigeon.EventQueue.Identifier.{event_identifier}
use kigeon.EventQueue.Identifier.Injective.{event_identifier_injective}
use kigeon.Pods.Oom.{Formats, oom_killed_event, event_uid}

module _ (formats : Formats) where
  -- If two identifiers have the same hash only if they are the same: their synthetic events, of whatever pods, containers and
  -- times, are the same event to the queue exactly if they are for the same container instance.
  pub event_identifier-oom_killed_event :
      (p q : Pod) (container container' path path' id id' limit limit' : String) (t t' : Terminated)
      → (formats.hash id ≡ formats.hash id' → id ≡ id')
      → (event_identifier (oom_killed_event formats p container path id t limit)
          ≡ event_identifier (oom_killed_event formats q container' path' id' t' limit'))
        ↔ (id ≡ id')
  unfolding oom_killed_event event_uid event_identifier
  event_identifier-oom_killed_event p q container container' path path' id id' limit limit' t t'
        injective =
      (
        λ h. injective (
            append_cancel_left "kigeon-oomkilled-" (formats.hash id) (formats.hash id')
              (event_identifier_injective (oom_killed_event formats p container path id t limit)
                (oom_killed_event formats q container' path' id' t' limit') 1 1 refl refl h).0),
        λ h. ap (λ i. event_identifier (oom_killed_event formats p container path i t limit)) h,
      )
