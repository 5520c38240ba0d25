-- ===== src/Replay/Passes.antt =====
-- The verdict of the script on the service.
use issues_api_testbed.Prelude.{ℕ, ◌≡◌, ◌≢◌, false, none, List, Text, ◌==◌, text_eq}
use issues_api_testbed.Python.{Json, obj}
use issues_api_testbed.Http.{EventRecord}
use issues_api_testbed.Store.{Event, to_stored}
use issues_api_testbed.Routes.Webhooks.{Services, Delivery}
use issues_api_testbed.Replay.Defs.{Args, build_payload, chosen_delivery}
use issues_api_testbed.Replay.Accepted.{replay_delivery}

module _ (sv : Services) where
  open sv use {codec, db}

  -- a row with another id, and a date that can be read
  abbrev pub IsOther : Text → Event → Type 0
  IsOther id r = ((r.delivery_id == id) ≡ false) × (codec.fromisoformat r.received_at ≢ none)

  -- what is listed of a row
  abbrev shown : Event → Text → EventRecord
  shown r t = record {
    id = r.delivery_id;
    event = r.event;
    action = (to_stored r).action;
    issue_number = r.issue_number;
    timestamp = t;
  }

-- the delivery id, the bytes that are sent, and what the service makes of them
abbrev pub sent_id : Args → Text → Text
sent_id args uuid = chosen_delivery args.delivery_id uuid

abbrev pub sent_bytes : (Json → List ℕ) → Args → List ℕ
sent_bytes encode args = encode (obj (build_payload args.event args.action args.issue_number))

abbrev pub sent_delivery : Services → Args → Text → Delivery
sent_delivery sv args uuid =
    replay_delivery sv args.event args.action args.issue_number (sent_id args uuid)
