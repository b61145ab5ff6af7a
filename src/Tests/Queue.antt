-- ===== src/Tests/Queue.antt =====
-- The event queue (EventQueue.antt), over a server that keeps lists.
use kigeon.Prelude.{
  ◌≡◌, refl, ◌≤◌, ◌+◌, String, none, some, [], ◌∷◌, List, ℕ, true, false, contains, if◌then◌else◌,
  eq_refl, arith, pos, negsuc, itoa,
}
use kigeon.Errors.{sentinel, key_not_found, ok}
use kigeon.EventQueue.Identifier.{event_identifier}
use kigeon.EventQueue.Identifier.Injective.{event_identifier_injective}
use kigeon.EventQueue.Publish.{JetStream, publish_event, stored}
use kigeon.EventQueue.Deduplication.{Remembers, times_published, times_warned, times_published-le}
use kigeon.EventQueue.Consumers.{
  Stream, DeletesOne, prune_consumers, prune_consumers_done, prune_consumers_keeps,
}
use kigeon.Tests.Brokers.{remove, contains-remove}
use kigeon.Tests.Data.{back_off}

-- the keys that were put; every message is accepted
abbrev key_list : JetStream (List String)
key_list = record {
  marshal = λ e. ok "{}";
  get = λ s k. if contains s k then none else some (sentinel key_not_found);
  publish = λ s subject text id. (ok false, s);
  put = λ s k. (none, k ∷ s);
}

key_list-Remembers : Remembers key_list
key_list-Remembers = record {
  put_found = λ s k h. rw (eq_refl k);
  put_keeps = λ s j k h. ground arith;
  publish_keeps = λ s subject text id k h. h;
}

identifier_runs : event_identifier back_off ≡ "4f-2a-3"
unfolding event_identifier itoa
identifier_runs = refl

-- With a negative count two UIDs can share an identifier.
negative_counts_collide :
    event_identifier (record back_off { uid = "a-"; count = pos 1 })
    ≡ event_identifier (record back_off { uid = "a"; count = negsuc 0 })
unfolding event_identifier itoa
negative_counts_collide = refl

event_identifier_injective_example : (back_off.uid ≡ "4f-2a") × (◌≡◌ {A = ℕ} 3 3)
event_identifier_injective_example =
    event_identifier_injective back_off (record back_off { reason = "Pulled" }) 3 3 refl refl
      (unfold event_identifier in refl)

published_once : times_published key_list "4f-2a-3" [] (back_off ∷ back_off ∷ []) ≡ 1
unfolding times_published publish_event event_identifier stored itoa
published_once = refl

times_published-le_example :
    times_published key_list "4f-2a-3" [] (back_off ∷ back_off ∷ [])
    ≤ 1 + times_warned key_list "4f-2a-3" [] (back_off ∷ back_off ∷ [])
times_published-le_example =
    times_published-le key_list key_list-Remembers "4f-2a-3" [] (back_off ∷ back_off ∷ [])

abbrev name_list : Stream (List String)
name_list = record { consumer_names = λ s. (s, none); delete_consumer = λ s k. (none, remove k s) }

name_list-DeletesOne : DeletesOne name_list
name_list-DeletesOne = record {
  deleted = λ s name k h. contains-remove name k s;
  failed = λ s name k e h other. cc;
}

abbrev subscribed : List String
subscribed = "old" ∷ "loki" ∷ []

prune_runs : prune_consumers name_list ("loki" ∷ []) subscribed ≡ (none, "loki" ∷ [])
unfolding prune_consumers remove
prune_runs = refl

prunes : (prune_consumers name_list ("loki" ∷ []) subscribed).0 ≡ none
unfolding prune_consumers
prunes = refl

prune_consumers_done_example :
    contains (prune_consumers name_list ("loki" ∷ []) subscribed).1 "old" ≡ false
prune_consumers_done_example =
    prune_consumers_done name_list name_list-DeletesOne ("loki" ∷ []) subscribed "old" prunes

prune_consumers_keeps_example :
    contains (prune_consumers name_list ("loki" ∷ []) subscribed).1 "loki" ≡ true
prune_consumers_keeps_example =
    prune_consumers_keeps name_list name_list-DeletesOne ("loki" ∷ []) subscribed "loki" refl
