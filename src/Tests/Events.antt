-- ===== src/Tests/Events.antt =====
-- `GET /events` on two rows, with room for one.
use issues_api_testbed.Prelude.Int.{pos}
use issues_api_testbed.Prelude.{◌≤◌, ◌≡◌, refl, some, List, [], ◌∷◌, text, text_beq, length}
use issues_api_testbed.Errors.{ok}
use issues_api_testbed.Http.{EventRecord, Response, Body}
use issues_api_testbed.Store.{Event, EventStore, recent, to_stored, order_by}
use issues_api_testbed.Routes.Webhooks.{Services, list_events}
use issues_api_testbed.Routes.Webhooks.Events.{list_events_bounded}
use issues_api_testbed.Tests.Samples.{memory, memory-IsSqlite, checksum, fixed_codec, event_at}

abbrev one_event : Services
one_event = record {
  webhook_secret = text "s";
  events_max_limit = pos 1;
  hmac = checksum;
  codec = fixed_codec;
  db = memory;
}

abbrev two_rows : List Event
two_rows = event_at (text "d1") (text "1") ∷ event_at (text "d2") (text "2") ∷ []

abbrev two_stored : EventStore (List Event)
two_stored = record { path = text "events.db"; open_on = some two_rows }

abbrev newest : EventRecord
newest = record {
  id = text "d2";
  event = text "issues";
  action = some (text "opened");
  issue_number = some (pos 7);
  timestamp = text "2";
}

abbrev page : Response
page = record { status = 200; headers = []; body = Body.events (newest ∷ []) }

listed : list_events one_event 50 two_stored ≡ ok page
unfolding list_events recent to_stored order_by text text_beq
listed = refl

list_events_bounded_example :
    (es : List EventRecord) × (page.body ≡ Body.events es) × (length es ≤ 50) × (length es ≤ 1)
list_events_bounded_example =
    list_events_bounded one_event memory-IsSqlite 50 1 two_rows two_stored page refl refl listed
