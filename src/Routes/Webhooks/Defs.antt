-- ===== src/Routes/Webhooks/Defs.antt =====
-- The handlers, over the services that the dependencies of app/dependencies.py hand them.
use issues_api_testbed.Prelude.Int.{ℤ, pos, negsuc, min_ℤ}
use issues_api_testbed.Prelude.{
  ℕ, Bool, not, ◌&&◌, Option, none, some, List, [], ◌∷◌, Text, text, leb, if◌then◌else◌,
}
use issues_api_testbed.Python.{Json, obj, Fields, end, Integer, integer_value}
use issues_api_testbed.Errors.{
  Result, ok, raise, crash, app, or_crash, error, reason, validation_error, unicode_error,
  value_error, ◌>>=◌, ◌>>◌,
}
use issues_api_testbed.Http.{Request, Response, empty, EventRecord, events}
use issues_api_testbed.Store.{
  Sqlite, Event, EventStore, StoredEvent, Codec, Loaded, value, malformed, undecodable, event_of,
  record_event, recent,
}
use issues_api_testbed.Webhooks.{Hmac, WebhookSummary, verify_signature, validate_event, summarize}

-- What the handlers read of `Settings`, and the libraries that they call.
pub record Services : Type 1 where
  pub webhook_secret : Text
  pub events_max_limit : ℤ
  pub hmac : Hmac
  pub codec : Codec
  pub db : Sqlite

pub record Delivery : Type 0 where
  pub delivery_id : Text
  pub summary : WebhookSummary
  pub payload : Fields

-- the response, and the arguments of the background task `_log_delivery`
pub record Ack : Type 0 where
  pub response : Response
  pub summary : WebhookSummary
  pub delivery_id : Text
  pub duplicate : Bool

-- the response in it
abbrev pub ack_response : Result Ack → Result Response
ack_response (ok a) = ok a.response
ack_response (raise e) = raise e

abbrev refused {ℓ} : {A : Type ℓ} → Text → Text → Result A
refused message why = raise (app (error validation_error message (reason why)))

-- `if not delivery_id: raise …`
abbrev pub require_delivery : Option Text → Result Text
require_delivery none =
    refused (text "Missing X-GitHub-Delivery header.") (text "delivery_header_absent")
require_delivery (some []) =
    refused (text "Missing X-GitHub-Delivery header.") (text "delivery_header_absent")
require_delivery (some (c ∷ s)) = ok (c ∷ s)

-- `json.loads`, under the `except` clause that catches `JSONDecodeError` alone
abbrev loaded : Loaded → Result Json
loaded (value j) = ok j
loaded malformed = refused (text "Webhook body is not valid JSON.") (text "invalid_json")
loaded undecodable = raise (crash unicode_error)

abbrev require_object : Json → Result Fields
require_object (obj d) = ok d
require_object _ =
    refused (text "Webhook body must be a JSON object.") (text "payload_not_an_object")

unfoldable pub load_body : Codec → List ℕ → Result Fields
load_body codec [] = ok end
load_body codec (b ∷ body) = do j ← loaded (codec.loads (b ∷ body)); require_object j

-- `Query(ge=1, le=500)`
unfoldable pub parse_limit : ℤ → Option ℕ
parse_limit (pos n) = if leb 1 n && leb n 500 then some n else none
parse_limit (negsuc n) = none

module _ (sv : Services) where
  open sv use {webhook_secret, events_max_limit, hmac, codec, db}

  -- `receive_webhook` up to the call of `store.record`
  unfoldable pub check_delivery : Request → Result Delivery
  check_delivery request = do
    verify_signature hmac webhook_secret request.raw_body
        (request.header (text "X-Hub-Signature-256"))
    event ← validate_event (request.header (text "X-GitHub-Event"))
    delivery_id ← require_delivery (request.header (text "X-GitHub-Delivery"))
    payload ← load_body codec request.raw_body
    summary ← summarize event payload
    ok (record { delivery_id = delivery_id; summary = summary; payload = payload })

  -- the number that SQLite binds
  abbrev bound_number : Option Integer → Option ℤ
  bound_number none = none
  bound_number (some i) = some (integer_value i)

  -- the arguments of `store.record`, with the time at which it reads the clock
  abbrev pub event_row : Delivery → Text → Event
  event_row d now =
      event_of d.delivery_id d.summary.event d.summary.action (bound_number d.summary.issue_number)
        (bound_number d.summary.comment_id) d.summary.sender now (codec.dumps (obj d.payload))

  abbrev ack : Delivery → Bool → Ack
  ack d stored = record {
    response = record { status = 204; headers = []; body = empty };
    summary = d.summary;
    delivery_id = d.delivery_id;
    duplicate = not stored;
  }

  abbrev acknowledge :
      Delivery → Result Bool × EventStore db.Database → Result Ack × EventStore db.Database
  acknowledge d (ok stored, s) = (ok (ack d stored), s)
  acknowledge d (raise e, s) = (raise e, s)

  -- `receive_webhook`, at the time `now`
  unfoldable pub receive_webhook :
      Request → Text → EventStore db.Database → Result Ack × EventStore db.Database
  unfolding check_delivery
  receive_webhook request now store = elim (check_delivery request) [
    | raise e ↦ (raise e, store)
    | ok d ↦ acknowledge d (record_event db (event_row d now) store)
  ]

  unfoldable pub event_record : StoredEvent → Result EventRecord
  event_record e = do
    timestamp ← or_crash value_error (codec.fromisoformat e.timestamp)
    ok (record {
      id = e.id;
      event = e.event;
      action = e.action;
      issue_number = e.issue_number;
      timestamp = timestamp;
    })

  unfoldable pub event_records : List StoredEvent → Result (List EventRecord)
  event_records [] = ok []
  event_records (e ∷ es) = do r ← event_record e; rest ← event_records es; ok (r ∷ rest)

  -- `list_events`, for a `limit` that the query parameter accepts
  unfoldable pub list_events : ℕ → EventStore db.Database → Result Response
  unfolding event_records event_record
  list_events limit store = do
    stored ← recent db (min_ℤ (pos limit) events_max_limit) store
    records ← event_records stored
    ok (record { status = 200; headers = []; body = events records })
