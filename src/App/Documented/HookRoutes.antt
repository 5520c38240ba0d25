-- ===== src/App/Documented/HookRoutes.antt =====
-- The responses of the webhook routes.
use issues_api_testbed.Prelude.Int.{pos, min_ℤ}
use issues_api_testbed.Prelude.{
  All, ℕ, ◌≡◌, refl, true, Option, none, some, arith, inl, inr, List, [], ◌∷◌, Text, text,
}
use issues_api_testbed.Errors.{validation_error, unauthorized_error, Result-cases, only_crashes}
use issues_api_testbed.Http.{Request}
use issues_api_testbed.Store.{IsSqlite}
use issues_api_testbed.Store.Redelivery.{held}
use issues_api_testbed.Routes.Webhooks.Supported.{IsSupported, listed}
use issues_api_testbed.Python.{Fields}
use issues_api_testbed.Webhooks.{
  verify_signature, verify_header, compute_signature, compare_digest, validate_event, summarize,
}
use issues_api_testbed.Store.{Event, EventStore, StoredEvent, recent, connection, record_event}
use issues_api_testbed.Routes.Webhooks.{
  Services, ack_response, event_row, require_delivery, check_delivery, receive_webhook,
  event_records, event_record, load_body, list_events,
}
use issues_api_testbed.App.Documented.Tame.{
  is_expected, is_tame, is_answer, is_answer-bind_ok, is_tame-bind, tame_of_only_crashes,
}
use issues_api_testbed.Contract.Responses.{Operation, hook_error, is_documented, documented}
use issues_api_testbed.Contract.Fits.{class_code-is_code, event_list-fits}
use issues_api_testbed.Http.Bodies.{rendered}

module _ (sv : Services) where
  open sv use {webhook_secret, events_max_limit, hmac, codec, db}

  verify_signature-is_tame :
      (body : List ℕ) (h : Option Text)
      → is_tame hook_error (verify_signature hmac webhook_secret body h) ≡ true
  unfolding verify_signature verify_header compute_signature compare_digest is_tame is_expected
  verify_signature-is_tame body h = ground (arith, class_code-is_code unauthorized_error)

  validate_event-is_tame : (h : Option Text) → is_tame hook_error (validate_event h) ≡ true
  unfolding validate_event is_tame is_expected
  validate_event-is_tame h = ground (arith, class_code-is_code validation_error)

  load_body-is_tame : (b : List ℕ) → is_tame hook_error (load_body codec b) ≡ true
  unfolding load_body is_tame is_expected
  load_body-is_tame b = ground (arith, class_code-is_code validation_error)

  summarize-is_tame : (e : Text) (d : Fields) → is_tame hook_error (summarize e d) ≡ true
  unfolding summarize is_tame is_expected
  summarize-is_tame e d = ground (arith, class_code-is_code validation_error)

  require_delivery-is_tame : (o : Option Text) → is_tame hook_error (require_delivery o) ≡ true
  unfolding is_tame is_expected
  require_delivery-is_tame none = class_code-is_code validation_error
  require_delivery-is_tame (some []) = class_code-is_code validation_error
  require_delivery-is_tame (some (c ∷ s)) = refl

  check_delivery-is_tame :
      (request : Request) → is_tame hook_error (check_delivery sv request) ≡ true
  unfolding check_delivery is_tame
  check_delivery-is_tame request =
      is_tame-bind hook_error _ _
        (verify_signature-is_tame request.raw_body (request.header (text "X-Hub-Signature-256")))
        λ u.
          is_tame-bind hook_error _ _
            (validate_event-is_tame (request.header (text "X-GitHub-Event")))
            λ event.
              is_tame-bind hook_error _ _
                (require_delivery-is_tame (request.header (text "X-GitHub-Delivery")))
                λ id.
                  is_tame-bind hook_error _ _ (load_body-is_tame request.raw_body)
                    λ d. is_tame-bind hook_error _ _ (summarize-is_tame event d) λ s. refl

  record_event-only_crashes :
      (e : Event) (s : EventStore db.Database) → only_crashes (record_event db e s).0 ≡ true
  unfolding record_event connection only_crashes
  record_event-only_crashes e s = ground arith

  pub event_records-only_crashes :
      (es : List StoredEvent) → only_crashes (event_records sv es) ≡ true
  unfolding event_records event_record only_crashes
  event_records-only_crashes [] = refl
  event_records-only_crashes (e ∷ es) = ground (arith, event_records-only_crashes es)

  pub recent-only_crashes :
      (n : _) (s : EventStore db.Database) → only_crashes (recent db n s) ≡ true
  unfolding recent connection only_crashes
  recent-only_crashes n s = ground arith

  pub list_events-is_answer :
      (law : IsSqlite db) (n : ℕ) (s : EventStore db.Database)
      → All IsSupported (held db s)
      → is_answer Operation.list_events (list_events sv n s) ≡ true
  unfolding list_events is_answer is_documented documented rendered
  list_events-is_answer law n s h =
      is_answer-bind_ok Operation.list_events (recent db (min_ℤ (pos n) events_max_limit) s) _
        (tame_of_only_crashes _ _ (recent-only_crashes _ s))
        λ es got.
          is_answer-bind_ok Operation.list_events (event_records sv es) _
            (tame_of_only_crashes _ _ (event_records-only_crashes es))
            λ rs read. event_list-fits rs (listed sv law _ s es rs h got read)

  pub receive_webhook-is_answer :
      (request : Request) (now : Text) (s : EventStore db.Database)
      → is_answer Operation.receive_webhook (ack_response (receive_webhook sv request now s).0)
        ≡ true
  unfolding receive_webhook is_answer is_tame only_crashes is_documented documented rendered
  receive_webhook-is_answer request now s = elim (Result-cases (check_delivery sv request)) [
    | inl (e, failed) ↦ ground (arith, check_delivery-is_tame request)
    | inr (d, passed) ↦ elim (Result-cases (record_event db (event_row sv d now) s).0) [
      | inl (e, failed) ↦ ground (arith, record_event-only_crashes (event_row sv d now) s)
      | inr (stored, kept) ↦ ground arith
    ]
  ]
