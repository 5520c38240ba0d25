-- ===== src/Tests/Replayed.antt =====
-- The replay script, three attempts against a store with one row.
use issues_api_testbed.Prelude.Int.{pos}
use issues_api_testbed.Prelude.{
  ℕ, ◌≡◌, refl, none, some, List, [], ◌∷◌, Text, text, text_beq, text_eq,
}
use issues_api_testbed.Python.{Json, obj}
use issues_api_testbed.Store.{Event, Codec, value}
use issues_api_testbed.Webhooks.{utf8}
use issues_api_testbed.Routes.Webhooks.{Services}
use issues_api_testbed.Replay.{Args, EventName, build_payload, load_secret, main}
use issues_api_testbed.Replay.{
  delivery_request, sign, secret_in, splitlines, partition, strip_quotes,
}
use issues_api_testbed.Replay.Printed.{printed, secret_not_printed}
use issues_api_testbed.Python.Str.{strip}
use issues_api_testbed.Cache.{find}
use issues_api_testbed.Webhooks.{verify_signature, is_ascii}
use issues_api_testbed.Routes.Webhooks.{check_delivery, receive_webhook}
use issues_api_testbed.Replay.Service.{Running, local}
use issues_api_testbed.Tests.Samples.{memory, checksum, fixed_codec, one_row}

abbrev args : Args
args = record {
  event = EventName.issues;
  action = text "opened";
  issue_number = pos 9999;
  times = pos 3;
  delivery_id = none;
}

abbrev script_codec : Codec
script_codec = record fixed_codec {
  loads = λ b. value (obj (build_payload EventName.issues (text "opened") (pos 9999)));
}

abbrev encode : Json → List ℕ
encode j = b'{' ∷ b'}' ∷ []

abbrev service : Services
service = record {
  webhook_secret = text "s";
  events_max_limit = pos 200;
  hmac = checksum;
  codec = script_codec;
  db = memory;
}

abbrev running : Running (List Event)
running = record { store = one_row; ticks = 0 }

abbrev clock : ℕ → Text
clock n = text "2"

-- two secrets that are not the service's
refused_alike :
    (s : Running memory.Database)
    → (local service clock).post
        (delivery_request EventName.issues (text "replay-u") (text "sha256=4") (b'{' ∷ b'}' ∷ []))
        s
      ≡ (local service clock).post
          (delivery_request EventName.issues (text "replay-u") (text "sha256=5") (b'{' ∷ b'}' ∷ []))
          s
unfolding local delivery_request receive_webhook check_delivery verify_signature find utf8 is_ascii
    text text_beq
refused_alike s = refl

secret_not_printed_example :
    (printed
        (local service clock)
        checksum
        encode
        (text "http://h/")
        args
        (some (text "t"))
        none
        (text "u")
        running
      ≡ printed
          (local service clock)
          checksum
          encode
          (text "http://h/")
          args
          none
          (some (text "WEBHOOK_SECRET=u"))
          (text "u")
          running)
    × (main (local service clock) checksum encode args (some (text "t")) none (text "u") running
        ≡ main
            (local service clock)
            checksum
            encode
            args
            none
            (some (text "WEBHOOK_SECRET=u"))
            (text "u")
            running)
unfolding load_secret sign utf8 text text_beq secret_in splitlines partition strip_quotes strip
secret_not_printed_example =
    secret_not_printed (local service clock) checksum encode (text "http://h/") args (text "u")
      (some (text "t")) none none (some (text "WEBHOOK_SECRET=u")) (text "t") (text "u")
      (text "sha256=4") (text "sha256=5") running refl refl refl refl refused_alike
