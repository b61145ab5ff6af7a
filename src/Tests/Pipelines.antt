-- ===== src/Tests/Pipelines.antt =====
-- The queue, the filtered fetcher and a sender together (Pipeline.antt), over a server with lists.
use kigeon.Prelude.{
  ◌≤◌, length, ◌++◌, ◌≡◌, refl, ◌⊎◌, ℕ, true, ◌&&◌, none, some, List, [], ◌∷◌, Any, count, leb,
  if◌then◌else◌,
}
use kigeon.Errors.{is}
use kigeon.Metrics.{published}
use kigeon.EventQueue.Publish.{publish_event}
use kigeon.EventQueue.Fetch
use kigeon.EventSender.FilteredFetcher
use kigeon.Loki.Sender.{process_event, deliver}
use kigeon.Loki.Sender.Results.{is_failure}
use kigeon.Pipeline.{
  Delivery, Occurrence, delivers, publishes, System, run, do_action, round_of, Settles,
}
use kigeon.Pipeline.Lossless.{run_lossless}
use kigeon.Pipeline.Once.{acks_in_all, run_acks_once}
use kigeon.EventPusher.{Act}
use kigeon.EventPusher
use kigeon.Tests.Pusher.{second, first_acts, last_acts}
use kigeon.Pipeline.Redelivery.{delivers-pending}
use kigeon.Tests.Brokers.{
  Store, list_store, list_store-Keeps, list_store-Numbers, empty_store, acknowledge_at, remove,
  find,
}
use kigeon.Tests.SenderRounds.{answering-IsForeign}
use kigeon.Tests.Data.{back_off, plain_sender, failing, answering}

-- the first message at the sender of Loki, which answers with the status `code`
abbrev first_delivery : ℕ → Delivery
first_delivery code = record {
  service = "loki";
  number = 0;
  sender = plain_sender;
  is_allowed = λ object. true;
  outside = answering failing code;
}

abbrev one_message : Store
one_message = record empty_store {
  messages = record { text = "event"; waiting = "loki" ∷ [] } ∷ [];
}

-- a failure, and then a success
abbrev twice : List Occurrence
twice = delivers (first_delivery 500) ∷ delivers (first_delivery 204) ∷ []

delivered_at_last :
    find (run list_store twice (record { server = one_message; log = [] })).server.messages "loki" 0
    ≡ none
unfolding run acknowledge_at remove find process_event deliver FilteredFetcher.fetch Fetch.fetch is
delivered_at_last = refl

abbrev start_with : Store → System Store
start_with s = record { server = s; log = [] }

kept_first : find one_message.messages "loki" 0 ≡ some "event"
unfolding find
kept_first = refl

run_lossless_example :
    let x = run list_store twice (start_with one_message) in
    (find x.server.messages "loki" 0 ≡ some "event")
    ⊎ Any (Settles list_store.unmarshal "loki" 0 "event") x.log
run_lossless_example =
    run_lossless list_store list_store-Keeps "loki" 0 "event" twice one_message
      (answering-IsForeign 500, (answering-IsForeign 204, tt)) kept_first

newly_published : (publish_event list_store.js empty_store back_off).counted ≡ published ∷ []
unfolding publish_event
newly_published = refl

acked_first : find (acknowledge_at one_message.messages "loki" 0) "loki" 0 ≡ none
unfolding find acknowledge_at remove
acked_first = refl

delivers-pending_example :
    find
      (do_action list_store
        (delivers (first_delivery 500))
        (start_with one_message)).server.messages
      "loki"
      0
    ≡ (if true
          && leb 1
              (count is_failure (round_of list_store (first_delivery 500) one_message "event").0)
        then some "event"
        else none)
delivers-pending_example =
    delivers-pending list_store (first_delivery 500) (start_with one_message) "event"
      (record back_off { managed_fields = [] }) kept_first refl acked_first

-- the run of the pusher from its start to its end, and its two calls of `PublishEvent` with a
-- delivery between them
abbrev whole_run : List Act
whole_run = first_acts ++ last_acts

abbrev calls : List Occurrence
calls = publishes back_off ∷ delivers (first_delivery 204) ∷ publishes second ∷ []

-- delivered, failed, delivered again and acknowledged, and delivered once more
abbrev thrice : List Occurrence
thrice =
    publishes back_off
    ∷ delivers (first_delivery 500)
    ∷ delivers (first_delivery 204)
    ∷ delivers (first_delivery 204)
    ∷ []

run_acks_once_example :
    acks_in_all "loki" 0 (run list_store thrice (start_with empty_store)).log ≤ 1
run_acks_once_example =
    run_acks_once list_store (λ s. length s.messages) list_store-Keeps list_store-Numbers "loki" 0
      thrice empty_store
