-- ===== src/Loki/Sender.antt =====
-- internal/eventsender/loki/loki.go: how the sender processes one event. What the code does to the
-- outside, acknowledging, counting and posting, is recorded in order as a list of effects.
pub mod Results
pub mod Verdict
pub mod Delivery
pub mod HookErrors
use kigeon.Prelude.{
  ℕ, String, Bool, false, ◌||◌, Option, none, some, List, [], ◌∷◌, ◌++◌, ◌==◌, eqb, ltb, leb,
  if◌then◌else◌, append, format_nat,
}
use kigeon.Errors.{
  rejected as is_rejected, skip, no_message, canceled, deadline_exceeded, Error, sentinel, errorf,
  wrap, wrap_both, is, Result, ok, err, wrap_option,
}
use kigeon.Kubernetes.{Event, Time}
use kigeon.Metrics.{SenderResult, sent, skipped, rejected, failed}
use kigeon.Loki.Config.{Config, BasicAuth}
use kigeon.Loki.Payload.{EventMessage, LokiPushPayload, build_labels, build_push_payload}
use kigeon.Loki.Hook.{HookRuntime, HookExecutor, execute}

-- `Sender`, less its name, its fetcher, its HTTP client and its logger.
pub record Sender : Type 0 where
  pub config : Config
  pub hook : Option HookExecutor
  pub noop : Bool

-- the request that `sendToLoki` makes
pub record Request : Type 0 where
  pub url : String
  pub body : String
  pub content_type : String
  pub tenant : Option String
  pub credentials : Option (String × String)

pub record Response : Type 0 where
  pub status_code : ℕ
  pub body : String

-- What a round of the sender meets outside: what `Fetch` and `Ack` return, the clock, encoding/json,
-- `http.NewRequestWithContext`, and the answer of the HTTP client to a request.
pub record Outside : Type 0 where
  pub fetched : Result Event
  pub ack : Option Error
  pub now : Time
  pub hooks : HookRuntime
  pub marshal_message : EventMessage → Result String
  pub marshal_payload : LokiPushPayload → Result String
  pub new_request : String → Option Error
  pub post : Request → Result Response

-- What a round does to the outside: `Ack`, `countResult`, the two metrics of the hook, and the call
-- of the HTTP client.
pub data Effect : Type 0 where
  acked : Effect
  counted : SenderResult → Effect
  hook_observed hook_failed : Effect
  posted : Request → Effect

-- A method that has effects and returns an error, or `none` for nil.
abbrev pub Round : Type 0
Round = List Effect × Option Error

abbrev pub then_do : List Effect → Round → Round
then_do before (after, e) = (before ++ after, e)

-- `ack.Ack()`
abbrev pub acknowledge : Outside → Round
acknowledge w = (acked ∷ [], w.ack)

-- `ack.Ack()` with its error wrapped
abbrev pub acknowledge_or : String → Outside → Round
acknowledge_or format w = (acked ∷ [], wrap_option format [] w.ack)

-- what `sendToLoki` makes of the client's answer
unfoldable pub check_response : Result Response → Option Error
check_response (err e) = some (wrap "failed to send request: %w" [] e)
check_response (ok r) =
    if ltb r.status_code 200 || leb 300 r.status_code
    then (let e = errorf "loki returned status %d: %s" (format_nat r.status_code ∷ r.body ∷ []) in
        if eqb r.status_code 400 then some (wrap_both (sentinel is_rejected) e) else some e)
    else none

abbrev pub push_path : String
push_path = "/loki/api/v1/push"

-- the request with its headers
unfoldable pub push_request : Config → String → Request
push_request cfg body = record {
  url = append cfg.url push_path;
  body = body;
  content_type = "application/json";
  tenant = if cfg.tenant_id == "" then none else some cfg.tenant_id;
  credentials = elim cfg.basic_auth [ none ↦ none | some a ↦ some (a.username, a.password) ];
}

unfoldable pub post_body : Outside → Config → Result String → Round
unfolding push_request check_response
post_body w cfg (err e) = ([], some (wrap "failed to marshal payload: %w" [] e))
post_body w cfg (ok body) = elim (w.new_request (append cfg.url push_path)) [
  | some e ↦ ([], some (wrap "failed to create request: %w" [] e))
  | none ↦ (posted (push_request cfg body) ∷ [], check_response (w.post (push_request cfg body)))
]

-- `sendToLoki`
unfoldable pub send_to_loki : Outside → Event → Config → Round
unfolding post_body
send_to_loki w event cfg =
    post_body w cfg
      (w.marshal_payload (build_push_payload w.marshal_message w.now (some event) cfg))

-- the switch of `deliver` on the error of `sendToLoki`, and what follows it
unfoldable pub settle : Outside → Option Error → Round
settle w none = then_do (counted sent ∷ []) (acknowledge_or "failed to acknowledge event: %w" w)
settle w (some e) =
    if is e is_rejected
    then then_do (counted rejected ∷ []) (acknowledge_or "failed to acknowledge event: %w" w)
    else (counted failed ∷ [], some (wrap "failed to send event to loki: %w" [] e))

-- `deliver`
unfoldable pub deliver : Sender → Outside → Event → Config → Round
unfolding send_to_loki settle
deliver s w event cfg =
    if s.noop
    then then_do (counted sent ∷ []) (acknowledge w)
    else (let (effects, e) = send_to_loki w event cfg in then_do effects (settle w e))

-- `defaultConfig`
unfoldable pub default_config : Sender → Event → Config
default_config s event = record s.config { stream_labels = build_labels (some event) s.config }

-- the configured behaviour on an error of the hook
unfoldable pub on_error_of : Sender → String
on_error_of s = elim s.config.hook [
  | none ↦ "use-default"
  | some h ↦ if h.on_error == "" then "use-default" else h.on_error
]

-- `handleHookError`
unfoldable pub handle_hook_error : Sender → Outside → Error → Event → Round
handle_hook_error s w hook_err event =
    if on_error_of s == "skip"
    then then_do (counted skipped ∷ []) (acknowledge_or "failed to acknowledge skipped event: %w" w)
    else if on_error_of s == "fail"
    then (counted failed ∷ [], some (wrap "config hook failed: %w" [] hook_err))
    else deliver s w event (default_config s event)

-- what `processEvent` does with the result of the hook
unfoldable pub after_hook : Sender → Outside → Event → Result Config → Round
unfolding handle_hook_error
after_hook s w event (ok cfg) = deliver s w event cfg
after_hook s w event (err e) =
    if is e skip
    then then_do (counted skipped ∷ []) (acknowledge w)
    else then_do (hook_failed ∷ []) (handle_hook_error s w e event)

-- `processEvent` from the hook on, once an event was fetched
unfoldable pub run_hook : Sender → Outside → Event → Option HookExecutor → Round
unfolding after_hook
run_hook s w event none = deliver s w event (default_config s event)
run_hook s w event (some h) =
    then_do (hook_observed ∷ [])
      (after_hook s w event (execute w.hooks h (default_config s event) event))

-- the errors of `Fetch` that `processEvent` does not report
unfoldable pub is_idle : Error → Bool
is_idle e = is e no_message || is e canceled || is e deadline_exceeded

unfoldable pub after_fetch : Sender → Outside → Result Event → Round
unfolding run_hook is_idle
after_fetch s w (err e) =
    ([], if is_idle e then none else some (wrap "failed to fetch event: %w" [] e))
after_fetch s w (ok event) = run_hook s w event s.hook

-- `processEvent`
unfoldable pub process_event : Sender → Outside → Round
unfolding after_fetch
process_event s w = after_fetch s w w.fetched
