-- ===== src/Loki/Sender/Delivery.antt =====
-- How the results of a round of the sender relate to the answers of Loki (`sendToLoki`, `deliver`).
use kigeon.Prelude.{
  ℕ, ◌+◌, ◌≤◌, ◌≡◌, refl, String, Bool, true, false, ◌&&◌, Option, none, some, List, ◌∷◌, arith, [],
  ap, ◌∙◌, if◌then◌else◌, count, leb, ltb, eqb, append, Option-cases, inl, inr,
}
use kigeon.Errors.{Error, rejected as is_rejected, is, Result, ok, err, Result-cases}
use kigeon.Kubernetes.{Event}
use kigeon.Metrics.{sent, skipped, rejected}
use kigeon.Loki.Config.{Config}
use kigeon.Loki.Payload.{LokiPushPayload}
use kigeon.Loki.Hook.{HookExecutor, execute}
use kigeon.Loki.Sender.Results.{is_acked, is_result, results_add_up, process_event-IsSettled}
use kigeon.Loki.Sender.Verdict.{hook_skips, process_event_skips}
use kigeon.Loki.Sender.{
  Sender, Outside, Request, Effect, acked, counted, hook_failed, hook_observed, posted, then_do,
  push_request, push_path, post_body, settle, deliver, default_config, handle_hook_error,
  after_hook, run_hook, process_event,
}

abbrev pub is_posted : Effect → Bool
is_posted (posted r) = true
is_posted _ = false

-- a request that Loki answered with a status of the class `p`
abbrev pub answered : Outside → (ℕ → Bool) → Effect → Bool
answered w p (posted r) = elim (w.post r) [ ok resp ↦ p resp.status_code | err e ↦ false ]
answered w p _ = false

abbrev pub is_success : ℕ → Bool
is_success code = leb 200 code && ltb code 300

abbrev pub is_bad_request : ℕ → Bool
is_bad_request code = eqb code 400

-- `errRejected` belongs to the package: no error from outside wraps it.
pub record IsForeign (w : Outside) : Type 0 where
  pub post : (r : Request) (e : Error) → w.post r ≡ err e → is e is_rejected ≡ false
  pub request : (u : String) (e : Error) → w.new_request u ≡ some e → is e is_rejected ≡ false
  pub payload :
      (p : LokiPushPayload) (e : Error) → w.marshal_payload p ≡ err e → is e is_rejected ≡ false

-- The results of a round and the answers to its requests agree.
pub record IsAccounted (w : Outside) (t : List Effect) : Type 0 where
  pub sent_ok : count (is_result sent) t ≡ count (answered w is_success) t
  pub rejected_bad : count (is_result rejected) t ≡ count (answered w is_bad_request) t
  pub one_request : count is_posted t ≤ 1

-- A request has one answer at most.
answers_add_up :
    (w : Outside) (t : List Effect)
    → count (answered w is_success) t + count (answered w is_bad_request) t ≤ count is_posted t
answers_add_up w [] = ground arith
answers_add_up w (posted r ∷ t) = elim (Result-cases (w.post r)) [
  | inl (resp, answer) ↦ ground (arith, answers_add_up w t)
  | inr (e, broken) ↦ ground (arith, answers_add_up w t)
]
answers_add_up w (acked ∷ t) = omega (arith, answers_add_up w t)
answers_add_up w (counted r ∷ t) = omega (arith, answers_add_up w t)
answers_add_up w (hook_observed ∷ t) = omega (arith, answers_add_up w t)
answers_add_up w (hook_failed ∷ t) = omega (arith, answers_add_up w t)

module _ (s : Sender) (w : Outside) (event : Event) (foreign : IsForeign w) where
  post_body-IsAccounted :
      (cfg : Config) (body : Result String)
      → ((e : Error) → body ≡ err e → is e is_rejected ≡ false)
      → IsAccounted w (let (t, e) = post_body w cfg body in then_do t (settle w e)).0
  unfolding post_body settle is
  post_body-IsAccounted cfg (err e) h = ground (arith, h e refl)
  post_body-IsAccounted cfg (ok body) h =
      elim (Option-cases (w.new_request (append cfg.url push_path))) [
        | inl clean ↦ elim (Result-cases (w.post (push_request cfg body))) [
          | inl (resp, answer) ↦ ground arith
          | inr (e, broken) ↦ ground (arith, foreign.post (push_request cfg body) e broken)
        ]
        | inr (e, bad) ↦ ground (arith, foreign.request (append cfg.url push_path) e bad)
      ]

  deliver-IsAccounted : (cfg : Config) → s.noop ≡ false → IsAccounted w (deliver s w event cfg).0
  unfolding deliver
  deliver-IsAccounted cfg loud = rw loud (post_body-IsAccounted cfg _ (foreign.payload _))

  after_hook-IsAccounted :
      (r : Result Config) → s.noop ≡ false → IsAccounted w (after_hook s w event r).0
  unfolding after_hook handle_hook_error
  after_hook-IsAccounted (ok cfg) loud = deliver-IsAccounted cfg loud
  after_hook-IsAccounted (err e) loud =
      ground (arith, deliver-IsAccounted (default_config s event) loud)

  observed-IsAccounted : (t : List Effect) → IsAccounted w t → IsAccounted w (hook_observed ∷ t)
  observed-IsAccounted t h = ground arith

  run_hook-IsAccounted :
      (h : Option HookExecutor) → s.noop ≡ false → IsAccounted w (run_hook s w event h).0
  unfolding run_hook
  run_hook-IsAccounted none loud = deliver-IsAccounted (default_config s event) loud
  run_hook-IsAccounted (some h) loud =
      observed-IsAccounted _
        (after_hook-IsAccounted (execute w.hooks h (default_config s event) event) loud)

  -- Of a sender that is not in dry-run mode: a fetched event counts as `sent` exactly if Loki
  -- answered its request with a 2xx status, as `rejected` exactly if it answered 400, and at most
  -- one request is made for it. The errors that come from outside do not wrap `errRejected`.
  pub process_event-IsAccounted :
      w.fetched ≡ ok event → s.noop ≡ false → IsAccounted w (process_event s w).0
  unfolding process_event
  process_event-IsAccounted fetched loud = simp fetched (run_hook-IsAccounted s.hook loud)

  -- Of a sender that is not in dry-run mode, no event is lost: an event that was acknowledged, and
  -- that the hook does not skip, neither by its answer nor by failing under `onError: skip`, was
  -- sent in exactly one request, which Loki answered with a 2xx status or with 400. The errors that
  -- come from outside do not wrap `errRejected`.
  pub acked_was_answered :
      w.fetched ≡ ok event
      → s.noop ≡ false
      → count is_acked (process_event s w).0 ≡ 1
      → hook_skips s w.hooks event ≡ false
      → (count is_posted (process_event s w).0 ≡ 1)
        × (count (answered w is_success) (process_event s w).0
              + count (answered w is_bad_request) (process_event s w).0
            ≡ 1)
  acked_was_answered fetched loud was_acked not_skipped =
      let t = (process_event s w).0 in
      let skips : count (is_result skipped) t ≡ 0 =
        process_event_skips s w event fetched ∙ ap (λ b. if b then 1 else 0) not_skipped in
      ground (
        arith,
        process_event-IsSettled s w event fetched,
        process_event-IsAccounted fetched loud,
        results_add_up t,
        skips,
        answers_add_up w t,
      )

module _ (s : Sender) (w : Outside) (event : Event) where
  deliver_noop : (cfg : Config) → s.noop ≡ true → count is_posted (deliver s w event cfg).0 ≡ 0
  unfolding deliver
  deliver_noop cfg quiet = rw quiet

  after_hook_noop :
      (r : Result Config) → s.noop ≡ true → count is_posted (after_hook s w event r).0 ≡ 0
  unfolding after_hook handle_hook_error
  after_hook_noop (ok cfg) quiet = deliver_noop cfg quiet
  after_hook_noop (err e) quiet = ground (arith, deliver_noop (default_config s event) quiet)

  run_hook_noop :
      (h : Option HookExecutor) → s.noop ≡ true → count is_posted (run_hook s w event h).0 ≡ 0
  unfolding run_hook
  run_hook_noop none quiet = deliver_noop (default_config s event) quiet
  run_hook_noop (some h) quiet =
      omega (arith, after_hook_noop (execute w.hooks h (default_config s event) event) quiet)

  -- A sender in dry-run mode makes no request, whatever the hook does.
  process_event_noop :
      w.fetched ≡ ok event → s.noop ≡ true → count is_posted (process_event s w).0 ≡ 0
  unfolding process_event
  process_event_noop fetched quiet = simp fetched (run_hook_noop s.hook quiet)
