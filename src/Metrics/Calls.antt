-- ===== src/Metrics/Calls.antt =====
-- The calls of internal/metrics that a round of internal/eventsender/loki/loki.go makes, by vector and
-- label values.
use kigeon.Prelude.{
  Bool, true, ◌++◌, count-append, ◌≡◌, refl, String, Option, none, false, ◌&&◌, some, List, [], ◌∷◌,
  arith, count, if◌then◌else◌, ◌==◌,
}
use kigeon.Metrics.{SenderResult, sent, filtered, skipped, rejected, failed}
use kigeon.Metrics.Collectors.{
  Trips, sender_events, sender_requests, result_text, round_trip, effect_calls, calls_of,
}
use kigeon.Metrics.Counting.{is_call, count-calls_of, count-and}
use kigeon.Loki.Sender
use kigeon.Loki.Sender.{
  Outside, Response, Effect, acked, counted, hook_observed, hook_failed, posted, process_event,
}
use kigeon.Loki.Sender.Results.{is_result}

-- The texts of the results differ.
result_text-differ :
    (r q : SenderResult) → (result_text q == result_text r) ≡ is_result r (counted q)
unfolding result_text
result_text-differ sent sent = refl
result_text-differ sent filtered = refl
result_text-differ sent skipped = refl
result_text-differ sent rejected = refl
result_text-differ sent failed = refl
result_text-differ filtered sent = refl
result_text-differ filtered filtered = refl
result_text-differ filtered skipped = refl
result_text-differ filtered rejected = refl
result_text-differ filtered failed = refl
result_text-differ skipped sent = refl
result_text-differ skipped filtered = refl
result_text-differ skipped skipped = refl
result_text-differ skipped rejected = refl
result_text-differ skipped failed = refl
result_text-differ rejected sent = refl
result_text-differ rejected filtered = refl
result_text-differ rejected skipped = refl
result_text-differ rejected rejected = refl
result_text-differ rejected failed = refl
result_text-differ failed sent = refl
result_text-differ failed filtered = refl
result_text-differ failed skipped = refl
result_text-differ failed rejected = refl
result_text-differ failed failed = refl

posted-is_result : (r : SenderResult) (req : Sender.Request) → is_result r (posted req) ≡ false
posted-is_result sent req = refl
posted-is_result filtered req = refl
posted-is_result skipped req = refl
posted-is_result rejected req = refl
posted-is_result failed req = refl

-- a round trip with a response, of which the label `code` is `text`
abbrev pub has_code : String → Option String → Bool
has_code text (some code) = code == text
has_code text none = false

-- the round trips for the requests among some effects
unfoldable pub round_trips : Trips → List Effect → List (Option String)
round_trips trips [] = []
round_trips trips (posted r ∷ effects) = trips r ++ round_trips trips effects
round_trips trips (_ ∷ effects) = round_trips trips effects

round_trip-results :
    (a b : String) (text : String) (answer : Option String)
    → count (is_call sender_events (b ∷ text ∷ [])) (round_trip a answer) ≡ (if false then 1 else 0)
unfolding round_trip is_call
round_trip-results a b text none = refl
round_trip-results a b text (some r) = refl

round_trip-requests :
    (a b : String) (text : String) (answer : Option String)
    → count (is_call sender_requests (b ∷ text ∷ [])) (round_trip a answer)
      ≡ (if a == b && has_code text answer then 1 else 0)
unfolding round_trip is_call
round_trip-requests a b text none = ground arith
round_trip-requests a b text (some r) = ground arith

module _ (a b : String) (trips : Trips) where
  pub counted_calls :
      (r : SenderResult) (e : Effect)
      → count (is_call sender_events (b ∷ result_text r ∷ [])) (effect_calls a trips e)
        ≡ (if a == b && is_result r e then 1 else 0)
  unfolding effect_calls is_call
  counted_calls r acked = ground arith
  counted_calls r (counted q) = ground (arith, result_text-differ r q)
  counted_calls r hook_observed = ground arith
  counted_calls r hook_failed = ground arith
  counted_calls r (posted req) = ground (
    arith,
    posted-is_result r req,
    count-calls_of _ (round_trip a) (λ t. false) (round_trip-results a b (result_text r))
        (trips req),
    count-and false (λ t. true) (trips req),
  )

  pub request_calls :
      (text : String) (effects : List Effect)
      → count (is_call sender_requests (b ∷ text ∷ [])) (calls_of (effect_calls a trips) effects)
        ≡ (if a == b then count (has_code text) (round_trips trips effects) else 0)
  unfolding effect_calls is_call calls_of round_trips
  request_calls text [] = ground arith
  request_calls text (acked ∷ effects) = request_calls text effects
  request_calls text (counted q ∷ effects) = omega (arith, request_calls text effects)
  request_calls text (hook_observed ∷ effects) = omega (arith, request_calls text effects)
  request_calls text (hook_failed ∷ effects) = omega (arith, request_calls text effects)
  request_calls text (posted req ∷ effects) = ground (
    arith,
    request_calls text effects,
    count-append (is_call sender_requests (b ∷ text ∷ [])) (calls_of (round_trip a) (trips req))
        (calls_of (effect_calls a trips) effects),
    count-append (has_code text) (trips req) (round_trips trips effects),
    count-calls_of _ (round_trip a) _ (round_trip-requests a b text) (trips req),
    count-and (a == b) (has_code text) (trips req),
  )
