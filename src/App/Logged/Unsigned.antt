-- ===== src/App/Logged/Unsigned.antt =====
-- What is logged, and what is answered, for the two reasons to refuse a signature.
use issues_api_testbed.Prelude.{
  ℕ, ◌≡◌, ◌≢◌, ◌∙◌, refl, sym, ap, true, false, Option, none, some, List, [], ◌++◌, Text, text,
  is_empty,
}
use issues_api_testbed.Errors.{AppError, raise, app}
use issues_api_testbed.Http.{Request}
use issues_api_testbed.Handlers.{error_response, app_error_response}
use issues_api_testbed.Logging.{request_id_header, request_context_middleware}
use issues_api_testbed.Logging.Lines.{filtered, rendered}
use issues_api_testbed.Python.{Json, Fields}
use issues_api_testbed.Store.{EventStore}
use issues_api_testbed.Webhooks.{absent, mismatch, is_ascii, utf8, verify_signature}
use issues_api_testbed.Webhooks.Signature.{signature, responses_differ}
use issues_api_testbed.Routes.Webhooks
use issues_api_testbed.Routes.Webhooks.Deliveries.{receive_webhook_unsigned}
use issues_api_testbed.App.Defs.{App, Platform, hook_services, get_event_store}
use issues_api_testbed.App.Serving.{post_webhook, route, Visit, visit_id, tagged, serve}
use issues_api_testbed.App.Logged.Defs.{
  Trace, route_lines, request_lines, raised_lines, ended_lines, acknowledged, background_lines,
  app_error_line, request_context, log,
}

module _ (p : Platform) where
  open p use {db, hmac, structlog}

  -- a delivery in place of the request
  abbrev pub delivering : Trace p → Request → Trace p
  delivering t request = record t {
    visit = record t.visit { request = request; endpoint = post_webhook };
  }

  abbrev Refused : App db.Database → Request → AppError → Type 0
  Refused state request e =
      verify_signature hmac state.settings.webhook_secret request.raw_body
        (request.header (text "X-Hub-Signature-256"))
      ≡ raise (app e)

  abbrev refused_log : Trace p → Text → Fields → AppError → List Json
  refused_log t level context e =
      rendered structlog t.stamps 0 context (
        filtered structlog level
          (raised_lines (raise (app e)) ++ ended_lines t.traceback (raise (app e))))
      ++ []

  module _ (t : Trace p) (state : App db.Database) (st : EventStore db.Database)
      (there : state.store ≡ some st) (request : Request) (e : AppError)
      (refused : Refused state request e) where
    abbrev v : Visit p
    v = (delivering t request).visit

    received :
        Webhooks.receive_webhook (hook_services p state.settings) (tagged p v) v.now st
        ≡ (raise (app e), st)
    received =
        receive_webhook_unsigned (hook_services p state.settings) (tagged p v) v.now st (app e)
          refused

    route-refused : (route p v.up v.now (tagged p v) post_webhook state).0 ≡ raise (app e)
    unfolding route get_event_store
    route-refused = rw (there, route) (rw (received, route) refl)

    body-refused : (serve p v state).0.body ≡ (error_response (some (visit_id p v)) (app e)).body
    unfolding serve error_response request_context_middleware
    body-refused = rw route-refused refl

    status-refused : (serve p v state).0.status ≡ e.status_code
    unfolding serve request_context_middleware app_error_response
    status-refused = rw route-refused refl

    acknowledged-refused : acknowledged p v post_webhook state ≡ none
    unfolding acknowledged get_event_store
    acknowledged-refused = rw (there, acknowledged) (rw (received, acknowledged) refl)

    log-refused :
        log p (delivering t request) state
        ≡ refused_log t state.settings.log_level (request_context p (delivering t request)) e
    unfolding log request_lines route_lines background_lines
    log-refused = rw (acknowledged-refused, route-refused) refl

  reason-refused_log :
      (t : Trace p) (level : Text) (context : Fields)
      → refused_log t level context absent ≡ refused_log t level context mismatch
  unfolding raised_lines ended_lines app_error_line
  reason-refused_log t level context = refl

  context-same :
      (t : Trace p) (a b : Request)
      → a.header request_id_header ≡ b.header request_id_header
      → request_context p (delivering t a) ≡ request_context p (delivering t b)
  unfolding request_context
  context-same t a b same = rw (same, request_context) refl

  -- For an open store, a secret that has a UTF-8 form and digests that are ASCII, a delivery
  -- without a signature and one with a wrong ASCII signature that is not empty, under one id, are
  -- both answered with 401 and leave the same lines in the log, but with response bodies that
  -- differ: the reason is in the response, and not in the log.
  pub reason_not_logged :
      (hex : (key body : List ℕ) → is_ascii (hmac.hexdigest key body) ≡ true) (t : Trace p)
      (state : App db.Database) (st : EventStore db.Database) (bare signed : Request)
      (header : Text) (key : List ℕ)
      → state.store ≡ some st
      → utf8 state.settings.webhook_secret ≡ some key
      → bare.header (text "X-Hub-Signature-256") ≡ none
      → signed.header (text "X-Hub-Signature-256") ≡ some header
      → is_ascii header ≡ true
      → is_empty header ≡ false
      → header ≢ signature hmac key signed.raw_body
      → bare.header request_id_header ≡ signed.header request_id_header
      → (log p (delivering t bare) state ≡ log p (delivering t signed) state)
        × ((serve p (delivering t bare).visit state).0.status ≡ 401)
        × ((serve p (delivering t signed).visit state).0.status ≡ 401)
        × ((serve p (delivering t bare).visit state).0.body
            ≢ (serve p (delivering t signed).visit state).0.body)
  reason_not_logged hex t state st bare signed header key there utf none_sent sent a n wrong same =
      let secret : Text = state.settings.webhook_secret in
      let id : Option Text = some (visit_id p (delivering t signed).visit) in
      let (_, mismatched, _, _, differ) =
        responses_differ hmac hex secret header key signed.raw_body id utf a n wrong in
      let unsent : Refused state bare absent = rw none_sent (unfold verify_signature in refl) in
      let refused : Refused state signed mismatch = rw sent mismatched in
      (
        log-refused t state st there bare absent unsent
            ∙ ap (λ c. refused_log t state.settings.log_level c absent)
                (context-same t bare signed same)
            ∙ reason-refused_log t state.settings.log_level _
            ∙ sym (log-refused t state st there signed mismatch refused),
        status-refused t state st there bare absent unsent,
        status-refused t state st there signed mismatch refused,
        rw
            (
              body-refused t state st there bare absent unsent,
              body-refused t state st there signed mismatch refused,
              same,
            )
            differ,
      )
