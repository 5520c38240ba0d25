-- ===== src/Tests/Hooks.antt =====
-- Webhook deliveries, from the signature to the row.
use issues_api_testbed.Prelude.Int.{pos}
use issues_api_testbed.Prelude.{
  map, ℕ, ◌≡◌, ◌≢◌, ◌↔◌, refl, true, false, none, some, Option, All, List, [], ◌∷◌, ◌++◌, Text,
  text, text_beq, text_ne, ◌==◌, text_eq, if◌then◌else◌,
}
use issues_api_testbed.Python.{lookup, get, as_str, as_dict, as_int, exact}
use issues_api_testbed.Errors.{ok}
use issues_api_testbed.Http.{Request, Body}
use issues_api_testbed.Store.{event_of, Event, has_delivery, record_event}
use issues_api_testbed.Store.Idempotent.{absorb}
use issues_api_testbed.Store.Redelivery.{held, record_all}
use issues_api_testbed.Webhooks.{
  WebhookSummary, utf8, is_ascii, verify_signature, validate_event, summarize,
}
use issues_api_testbed.Webhooks.Signature.{signature, verify_signature_iff}
use issues_api_testbed.Routes.Webhooks.{
  Services, Delivery, Ack, event_row, load_body, check_delivery, receive_webhook,
}
use issues_api_testbed.Routes.Webhooks.Deliveries.{
  acknowledged_was_signed, acknowledged_is_stored, redelivered_webhook,
}
use issues_api_testbed.App.{App, serve, serve_all}
use issues_api_testbed.App.Secrets.{responses}
use issues_api_testbed.App.Undisclosed.{with_secret, SameVerdict}
use issues_api_testbed.App.Logged.{
  untraced, Trace, log, logs, delivering, visits, sent, sent_again, reason_not_logged,
  secrets_undisclosed,
}
use issues_api_testbed.Tests.Running.{platform, visit, fresh_app}
use issues_api_testbed.Tests.Written.{traced}
use issues_api_testbed.Tests.Samples.{
  memory, memory-IsSqlite, checksum, checksum-ascii, fixed_codec, event_at, one_row,
}

abbrev services : Services
services = record {
  webhook_secret = text "s";
  events_max_limit = pos 200;
  hmac = checksum;
  codec = fixed_codec;
  db = memory;
}

abbrev signed : Text → Request
signed value = record {
  header = λ name.
      if name == text "X-Hub-Signature-256"
      then some value
      else if name == text "X-GitHub-Event"
      then some (text "issues")
      else if name == text "X-GitHub-Delivery"
      then some (text "d2")
      else none;
  raw_body = b'{' ∷ b'}' ∷ [];
  request_id = none;
}

-- 's' is 115, and the body adds 248
abbrev good : Request
good = signed (text "sha256=3")

abbrev forged : Request
forged = signed (text "sha256=4")

abbrev row : List Event
row = event_at (text "d1") (text "1") ∷ []

-- what a run computes with
program : Unit {0}
unfolding receive_webhook verify_signature validate_event load_body summarize record_event event_of
    utf8 is_ascii text text_beq lookup get as_str as_dict as_int
program = tt

stored :
    held memory (receive_webhook services good (text "2") one_row).1
    ≡ row ++ event_at (text "d2") (text "2") ∷ []
unfolding program
stored = refl

abbrev key : List ℕ
key = 115 ∷ []

abbrev summary_of : WebhookSummary
summary_of = record {
  event = text "issues";
  action = some (text "opened");
  issue_number = some (exact (pos 7));
  comment_id = none;
  sender = none;
}

abbrev first_ack : Ack
first_ack = record {
  response = record { status = 204; headers = []; body = Body.empty };
  summary = summary_of;
  delivery_id = text "d2";
  duplicate = false;
}

acknowledged_was_signed_example :
    good.header (text "X-Hub-Signature-256") ≡ some (signature checksum key good.raw_body)
unfolding program
acknowledged_was_signed_example =
    acknowledged_was_signed services checksum-ascii good (text "2") one_row first_ack key refl refl

acknowledged_is_stored_example :
    (dl : Delivery) × (check_delivery services good ≡ ok dl)
    × (first_ack.response.status ≡ 204)
    × (first_ack.duplicate ≡ has_delivery (event_row services dl (text "2")) row)
    × (held memory (receive_webhook services good (text "2") one_row).1
        ≡ absorb row (event_row services dl (text "2")))
unfolding program
acknowledged_is_stored_example =
    acknowledged_is_stored services memory-IsSqlite good (text "2") row one_row first_ack refl refl

redelivered_webhook_example :
    (b : Ack) × ((receive_webhook services good
        (text "3")
        (record_all memory [] (receive_webhook services good (text "2") one_row).1)).0
      ≡ ok b)
    × (b.response.status ≡ 204)
    × (b.duplicate ≡ true)
    × (held memory
          (receive_webhook services good
            (text "3")
            (record_all memory [] (receive_webhook services good (text "2") one_row).1)).1
        ≡ held memory (record_all memory [] (receive_webhook services good (text "2") one_row).1))
unfolding program
redelivered_webhook_example =
    redelivered_webhook services memory-IsSqlite good (text "2") (text "3") [] row one_row first_ack
      refl refl

verify_signature_iff_example :
    (verify_signature checksum (text "s") good.raw_body (some (text "sha256=3")) ≡ ok tt)
    ↔ (some (text "sha256=3") ≡ some (signature checksum key good.raw_body))
unfolding program
verify_signature_iff_example =
    verify_signature_iff checksum checksum-ascii (text "s") (some (text "sha256=3")) key
      good.raw_body refl

wrong : text "sha256=4" ≢ signature checksum key good.raw_body
unfolding program
wrong = text_ne _ _ refl

abbrev running : App memory.Database
running = record fresh_app { store = some one_row }

abbrev bare : Request
bare = record forged { header = λ name. none }

reason_not_logged_example :
    (log platform (delivering platform (traced visit) bare) running
      ≡ log platform (delivering platform (traced visit) forged) running)
    × ((serve platform (delivering platform (traced visit) bare).visit running).0.status ≡ 401)
    × ((serve platform (delivering platform (traced visit) forged).visit running).0.status ≡ 401)
    × ((serve platform (delivering platform (traced visit) bare).visit running).0.body
        ≢ (serve platform (delivering platform (traced visit) forged).visit running).0.body)
unfolding program
reason_not_logged_example =
    reason_not_logged platform checksum-ascii (traced visit) running one_row bare forged
      (text "sha256=4") key refl refl refl refl refl refl wrong refl

-- the signed delivery, and its signature under the secret `t`; then one that both refuse
abbrev deliveries : List (Trace platform × Option Text)
deliveries =
    (delivering platform (traced visit) good, some (text "sha256=4"))
    ∷ (delivering platform (traced visit) forged, some (text "sha256=3"))
    ∷ []

alike : All (λ x. SameVerdict platform (text "s") (text "t") x.1 x.0.visit.request) deliveries
unfolding program
alike = (refl, (refl, tt))

secrets_undisclosed_example :
    (responses platform
        (visits platform (sent platform deliveries))
        (with_secret (text "s") running)
      ≡ responses platform
          (visits platform (sent_again platform deliveries))
          (with_secret (text "t") running))
    × (logs platform
          (map (untraced platform) (sent platform deliveries))
          (with_secret (text "s") running)
        ≡ logs platform
            (map (untraced platform) (sent_again platform deliveries))
            (with_secret (text "t") running))
    × ((serve_all platform
          (visits platform (sent platform deliveries))
          (with_secret (text "s") running)).cache
        ≡ (serve_all platform
            (visits platform (sent_again platform deliveries))
            (with_secret (text "t") running)).cache)
    × ((serve_all platform
          (visits platform (sent platform deliveries))
          (with_secret (text "s") running)).store
        ≡ (serve_all platform
            (visits platform (sent_again platform deliveries))
            (with_secret (text "t") running)).store)
secrets_undisclosed_example =
    secrets_undisclosed platform (text "s") (text "t") deliveries running alike
