-- ===== src/Tests/Filters.antt =====
-- The namespace filter, the filtered fetcher and the registry.
use kigeon.Prelude.{
  ◌≡◌, refl, String, Bool, Option, if◌then◌else◌, none, some, [], ◌∷◌, ◌++◌, lookup, insert, true,
  false, ◌==◌, List, ℕ, contains, ◌⊎◌, ◌||◌, append,
}
use kigeon.Errors.{Error, wrap, ok, err}
use kigeon.Kubernetes.{Event, ObjectReference}
use kigeon.Filter.{
  Namespace, namespace, other, DynamicNamespaceFilterConfig, Notification, added, updated, deleted,
  new_dynamic_namespace_filter, notify_all, is_allowed_for_object,
}
use kigeon.Filter.Refinement.{is_allowed_for_object-notify_all}
use kigeon.EventSender.FilteredFetcher.{
  fetch, answers_of, Answer, acked, error, waiting, delivered, skips, fetch_ends, fetch-IsRejected,
  event,
}
use kigeon.EventSender.Registry.{
  SenderFactory, Registry, register, create, done, panic, registered_types, register_cases,
}
use kigeon.Tests.Data.{back_off, web_pod}

abbrev production : DynamicNamespaceFilterConfig
production = record {
  label_selector =
      λ labels. elim (lookup "environment" labels) [ none ↦ false | some v ↦ v == "production" ];
  include_non_namespaced = true;
  hard_refresh_interval = none;
}

abbrev shop : String → Namespace
shop environment = record { name = "shop"; labels = ("environment", environment) ∷ [] }

abbrev history : List Notification
history =
    added (namespace (shop "staging"))
    ∷ updated other (namespace (shop "production"))
    ∷ deleted other
    ∷ []

is_allowed_for_object-notify_all_example :
    is_allowed_for_object (notify_all (new_dynamic_namespace_filter production) history) web_pod
    ≡ true
unfolding lookup insert
is_allowed_for_object-notify_all_example =
    is_allowed_for_object-notify_all production history web_pod

abbrev node_event : Event
node_event = record back_off { involved_object = record web_pod { kind = "Node"; namespace = "" } }

abbrev in_shop : ObjectReference → Bool
in_shop obj = obj.namespace == "shop"

fetch_ends_example :
    let es = node_event ∷ node_event ∷ [] in
    (fetch in_shop (answers_of es) ≡ record { effects = skips es; returned = waiting; rest = [] })
    × ((e : Error) (ack : Option Error) (rest : List Answer)
        → fetch in_shop (answers_of es ++ record { result = err e; ack = ack } ∷ rest)
          ≡ record { effects = skips es; returned = error e; rest = rest })
    × ((e : Event) (ack : Option Error) (rest : List Answer)
        → in_shop e.involved_object ≡ true
        → fetch in_shop (answers_of es ++ record { result = ok e; ack = ack } ∷ rest)
          ≡ record { effects = skips es; returned = event e; rest = rest })
    × ((e : Event) (failure : Error) (rest : List Answer)
        → in_shop e.involved_object ≡ false
        → fetch in_shop (answers_of es ++ record { result = ok e; ack = some failure } ∷ rest)
          ≡ record {
            effects = skips es ++ acked e ∷ [];
            returned = error (wrap "failed to acknowledge filtered event: %w" [] failure);
            rest = rest;
          })
fetch_ends_example = fetch_ends in_shop (node_event ∷ node_event ∷ []) (refl, (refl, tt))

second_returned :
    (fetch in_shop (delivered node_event ∷ delivered back_off ∷ [])).returned ≡ event back_off
unfolding fetch
second_returned = refl

fetch-IsRejected_example : in_shop back_off.involved_object ≡ true
fetch-IsRejected_example =
    (fetch-IsRejected in_shop (delivered node_event ∷ delivered back_off ∷ [])).1 back_off
      second_returned

abbrev makes : ℕ → SenderFactory String ℕ
makes n name = ok n

abbrev one_type : Registry String ℕ
one_type = ("loki", makes 1) ∷ []

abbrev two_types : Registry String ℕ
two_types = ("loki", makes 1) ∷ ("file", makes 2) ∷ []

registers : register one_type "file" (some (makes 2)) ≡ done two_types
unfolding register lookup insert
registers = refl

register_cases_example :
    ((contains (registered_types one_type) "loki" ≡ true)
      × (register one_type "loki" (some (makes 2))
          ≡ panic (append "eventsender: Register called twice for type " "loki")))
    ⊎ ((contains (registered_types one_type) "loki" ≡ false)
        × (registry' : Registry String ℕ) × (register one_type "loki" (some (makes 2))
            ≡ done registry')
        × ((t : String)
            → contains (registered_types registry') t
              ≡ ("loki" == t || contains (registered_types one_type) t))
        × ((t : String) (arguments : String)
            → create registry' t arguments
              ≡ (if "loki" == t then makes 2 arguments else create one_type t arguments)))
register_cases_example = register_cases one_type "loki" (makes 2)
