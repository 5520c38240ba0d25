-- ===== src/Replay/Accepted.antt =====
-- The script's request, as the service checks it.
use issues_api_testbed.Prelude.Int.{ℤ, pos}
use issues_api_testbed.Prelude.{
  ℕ, ◌≡◌, refl, true, false, none, some, List, [], ◌∷◌, Text, text, text_beq, is_empty, nat_eq,
  text_eq,
}
use issues_api_testbed.Python.{obj, Fields, lookup, get, as_str, as_dict, as_int, exact}
use issues_api_testbed.Errors.{ok}
use issues_api_testbed.Cache.{find}
use issues_api_testbed.Store.{value}
use issues_api_testbed.Webhooks.{WebhookSummary, utf8, is_ascii, validate_event, summarize}
use issues_api_testbed.Webhooks.Signature.{signature, verify_signature_iff}
use issues_api_testbed.Routes.Webhooks.{Services, Delivery, check_delivery, load_body}
use issues_api_testbed.Replay.Defs.{
  EventName, issues, issue_comment, ping, event_text, build_payload, delivery_request,
}

-- what the service reads of the script's payload
abbrev pub replay_summary : EventName → Text → ℤ → WebhookSummary
replay_summary issues action n = record {
  event = text "issues";
  action = some action;
  issue_number = some (exact n);
  comment_id = none;
  sender = some (text "replay-script");
}
replay_summary issue_comment action n = record {
  event = text "issue_comment";
  action = some action;
  issue_number = some (exact n);
  comment_id = some (exact (pos 1));
  sender = some (text "replay-script");
}
replay_summary ping action n = record {
  event = text "ping";
  action = none;
  issue_number = none;
  comment_id = none;
  sender = none;
}

summarize-build_payload :
    (event : EventName) (action : Text) (n : ℤ)
    → summarize (event_text event) (build_payload event action n)
      ≡ ok (replay_summary event action n)
unfolding summarize build_payload get lookup as_str as_dict as_int text text_beq
summarize-build_payload issues action n = refl
summarize-build_payload issue_comment action n = refl
summarize-build_payload ping action n = refl

validate_event_text :
    (event : EventName) → validate_event (some (event_text event)) ≡ ok (event_text event)
unfolding validate_event text text_beq
validate_event_text issues = refl
validate_event_text issue_comment = refl
validate_event_text ping = refl

module _ (event : EventName) (id sig : Text) (raw : List ℕ) where
  event_header :
      (delivery_request event id sig raw).header (text "X-GitHub-Event") ≡ some (event_text event)
  unfolding delivery_request find text text_beq
  event_header = refl

  delivery_header : (delivery_request event id sig raw).header (text "X-GitHub-Delivery") ≡ some id
  unfolding delivery_request find text text_beq
  delivery_header = refl

  signature_header :
      (delivery_request event id sig raw).header (text "X-Hub-Signature-256") ≡ some sig
  unfolding delivery_request find text text_beq
  signature_header = refl

module _ (sv : Services) where
  open sv use {webhook_secret, hmac, codec, db}

  loaded_body :
      (raw : List ℕ) (d : Fields)
      → is_empty raw ≡ false
      → codec.loads raw ≡ value (obj d)
      → load_body codec raw ≡ ok d
  unfolding load_body
  loaded_body [] d e h = absurd (cc)
  loaded_body (b ∷ raw) d e h = rw h

  -- the delivery that the service makes of the script's request
  abbrev pub replay_delivery : EventName → Text → ℤ → Text → Delivery
  replay_delivery event action n id = record {
    delivery_id = id;
    summary = replay_summary event action n;
    payload = build_payload event action n;
  }

  -- The request passes every check.
  pub check_delivery_request :
      (hex : (key body : List ℕ) → is_ascii (hmac.hexdigest key body) ≡ true) (key : List ℕ)
      (event : EventName) (action : Text) (n : ℤ) (id : Text) (raw : List ℕ)
      → utf8 webhook_secret ≡ some key
      → is_empty id ≡ false
      → is_empty raw ≡ false
      → codec.loads raw ≡ value (obj (build_payload event action n))
      → check_delivery sv (delivery_request event id (signature hmac key raw) raw)
        ≡ ok (replay_delivery event action n id)
  unfolding check_delivery delivery_request
  check_delivery_request hex key event action n [] raw u e b l = absurd (cc)
  check_delivery_request hex key event action n (c ∷ id) raw u e b l =
      let request = delivery_request event (c ∷ id) (signature hmac key raw) raw in
      rw
        (
          signature_header event (c ∷ id) (signature hmac key raw) raw,
          event_header event (c ∷ id) (signature hmac key raw) raw,
          delivery_header event (c ∷ id) (signature hmac key raw) raw,
          (verify_signature_iff hmac hex webhook_secret (some (signature hmac key raw)) key raw u).1
              refl,
          validate_event_text event,
          loaded_body raw (build_payload event action n) b l,
          summarize-build_payload event action n,
        )
        refl
