-- ===== src/Replay/Service.antt =====
-- The webhook routes of the service as the script's client meets them.
use issues_api_testbed.Prelude.{ℕ, ◌+◌, true, Text, List}
use issues_api_testbed.Errors.{Result, ok, raise, crash, type_error}
use issues_api_testbed.Http.{Response, Body, EventRecord}
use issues_api_testbed.Handlers.{finish}
use issues_api_testbed.Store.{EventStore}
use issues_api_testbed.Routes.Webhooks.{ack_response, Services, receive_webhook, list_events}
use issues_api_testbed.Replay.Defs.{Client}

-- the store, and the number of deliveries that have come in
pub record Running (D : Type 0) : Type 0 where
  pub store : EventStore D
  pub ticks : ℕ

-- `.json()` of the answer to `GET /events`: an error envelope has no records
abbrev records_of : Result Response → Result (List EventRecord)
records_of (ok r) = elim r.body [ Body.events rs ↦ ok rs | _ ↦ raise (crash type_error) ]
records_of (raise e) = raise (crash type_error)

module _ (sv : Services) (time : ℕ → Text) where
  open sv use {db}

  -- `time n` is what the clock shows at the `n`th delivery
  unfoldable pub local : Client (Running db.Database)
  local = record {
    healthz = λ s. true;
    post = λ request s. (
      ok
          (finish request.request_id
            (ack_response (receive_webhook sv request (time s.ticks) s.store).0)).status,
      record { store = (receive_webhook sv request (time s.ticks) s.store).1; ticks = s.ticks + 1 },
    );
    events = λ limit s. records_of (list_events sv limit s.store);
  }
