-- ===== src/Routes/Webhooks/Deliveries.antt =====
-- `POST /webhook`: what a delivery does to the store, on every path through the handler.
use issues_api_testbed.Prelude.{
  ℕ, ◌≡◌, ◌≢◌, inl, inr, refl, sym, ◌∙◌, Bool, true, not, none, some, List, [], arith, Text, text,
  Option-cases, ==_refl, text_eq,
}
use issues_api_testbed.Errors.{Result-cases, ok, raise, Exc}
use issues_api_testbed.Http.{Request, Body}
use issues_api_testbed.Store.{
  IsSqlite, Event, EventStore, record_event, same_key, has_delivery, event_of,
}
use issues_api_testbed.Store.Idempotent.{absorb, record_event_lem}
use issues_api_testbed.Store.Redelivery.{
  held, after, record_all, seen_for_good, stored_is_seen, has_delivery_cong,
}
use issues_api_testbed.Webhooks.{is_ascii, utf8, verify_signature}
use issues_api_testbed.Webhooks.Signature.{signature, verify_signature_iff}
use issues_api_testbed.Routes.Webhooks.Defs.{
  Services, Delivery, Ack, check_delivery, event_row, receive_webhook,
}

module _ (sv : Services) where
  open sv use {webhook_secret, hmac, codec, db}

  -- A delivery whose signature is refused has the refusal for its whole answer, whatever its event,
  -- its id and its body are, and leaves the store as it was.
  pub receive_webhook_unsigned :
      (request : Request) (now : Text) (s : EventStore db.Database) (e : Exc)
      → verify_signature hmac webhook_secret request.raw_body
          (request.header (text "X-Hub-Signature-256"))
        ≡ raise e
      → receive_webhook sv request now s ≡ (raise e, s)
  unfolding receive_webhook
  receive_webhook_unsigned request now s e h = rw (h, receive_webhook, check_delivery) refl

  -- A delivery that is not acknowledged, for whatever reason, leaves the store as it was.
  refused_changes_nothing :
      (request : Request) (now : Text) (s : EventStore db.Database) (e : Exc)
      → (receive_webhook sv request now s).0 ≡ raise e
      → (receive_webhook sv request now s).1 ≡ s
  unfolding receive_webhook record_event
  refused_changes_nothing request now s e h = ground arith

  check_verified :
      (request : Request) (d : Delivery)
      → check_delivery sv request ≡ ok d
      → verify_signature hmac webhook_secret request.raw_body
          (request.header (text "X-Hub-Signature-256"))
        ≡ ok tt
  unfolding check_delivery
  check_verified request d h =
      elim (Result-cases (
        verify_signature hmac webhook_secret request.raw_body
          (request.header (text "X-Hub-Signature-256")))) [
            | inl (e, failed) ↦ absurd (ground arith)
            | inr (tt, passed) ↦ passed
          ]

  -- For a secret that has a UTF-8 form and digests that are ASCII, no delivery is acknowledged but
  -- one that carries the signature of its raw body.
  pub acknowledged_was_signed :
      (hex : (key body : List ℕ) → is_ascii (hmac.hexdigest key body) ≡ true) (request : Request)
      (now : Text) (s : EventStore db.Database) (a : Ack) (key : List ℕ)
      → utf8 webhook_secret ≡ some key
      → (receive_webhook sv request now s).0 ≡ ok a
      → request.header (text "X-Hub-Signature-256") ≡ some (signature hmac key request.raw_body)
  unfolding receive_webhook
  acknowledged_was_signed hex request now s a key e h =
      elim (Result-cases (check_delivery sv request)) [
        | inl (x, failed) ↦ absurd (ground arith)
        | inr (dl, passed) ↦
            (verify_signature_iff hmac hex webhook_secret _ key request.raw_body e).0
              (check_verified request dl passed)
      ]

  module _ (law : IsSqlite db) where
    -- With an open store, an acknowledged delivery has passed every check, gets 204, and its row is in the store: added
    -- if no row had its id and action, and reported as a duplicate, with no row changed, if one had.
    pub acknowledged_is_stored :
        (request : Request) (now : Text) (d : db.Database) (s : EventStore db.Database) (a : Ack)
        → s.open_on ≡ some d
        → (receive_webhook sv request now s).0 ≡ ok a
        → (dl : Delivery) × (check_delivery sv request ≡ ok dl)
          × (a.response.status ≡ 204)
          × (a.duplicate ≡ has_delivery (event_row sv dl now) (db.rows d))
          × (held db (receive_webhook sv request now s).1
              ≡ absorb (db.rows d) (event_row sv dl now))
    unfolding receive_webhook
    acknowledged_is_stored request now d s a o h = elim (Result-cases (check_delivery sv request)) [
      | inl (e, failed) ↦ absurd (ground arith)
      | inr (dl, passed) ↦ elim (record_event_lem db law (event_row sv dl now) d s o) [
        | inl (unbound, fail) ↦ absurd (ground arith)
        | inr (d', bound, done, kept) ↦
            (dl, passed, ground arith, ground arith, rw (passed, done, receive_webhook) kept)
      ]
    ]

    pub same_key_later :
        (dl : Delivery) (now later : Text)
        → same_key (event_row sv dl now) (event_row sv dl later) ≡ true
    unfolding event_of
    same_key_later dl now later =
        ground
          (arith, ==_refl (event_row sv dl now).delivery_id, ==_refl (event_row sv dl now).action)

    bound_later :
        (dl : Delivery) (now later : Text) (d d' : db.Database)
        → db.insert_or_ignore (event_row sv dl now) d ≢ none
        → db.insert_or_ignore (event_row sv dl later) d' ≢ none
    unfolding event_of
    bound_later dl now later d d' h =
        elim (Option-cases (db.insert_or_ignore (event_row sv dl now) d)) [
          | inl unbound ↦ absurd (h unbound)
          | inr (r, put) ↦
              let (again, put') = law.bind_again (event_row sv dl now) later d d' r put in
              ground arith
        ]

    -- what the handler does with a checked delivery whose key is in the table
    seen_again :
        (request : Request) (dl : Delivery) (later : Text) (d : db.Database)
        (s : EventStore db.Database)
        → check_delivery sv request ≡ ok dl
        → s.open_on ≡ some d
        → db.insert_or_ignore (event_row sv dl later) d ≢ none
        → has_delivery (event_row sv dl later) (db.rows d) ≡ true
        → (a : Ack) × ((receive_webhook sv request later s).0 ≡ ok a)
          × (a.response.status ≡ 204)
          × (a.duplicate ≡ true)
          × (held db (receive_webhook sv request later s).1 ≡ held db s)
    unfolding receive_webhook
    seen_again request dl later d s passed o bound seen =
        elim (record_event_lem db law (event_row sv dl later) d s o) [
          | inl (unbound, fail) ↦ absurd (bound unbound)
          | inr (d', _, done, kept) ↦ (
            record {
              response = record { status = 204; headers = []; body = Body.empty };
              summary = dl.summary;
              delivery_id = dl.delivery_id;
              duplicate = true;
            },
            ground arith,
            refl,
            refl,
            ground arith,
          )
        ]

    -- the call of `record` behind an acknowledgement
    first_delivery :
        (request : Request) (now : Text) (d : db.Database) (s : EventStore db.Database) (a : Ack)
        → s.open_on ≡ some d
        → (receive_webhook sv request now s).0 ≡ ok a
        → (dl : Delivery) × (check_delivery sv request ≡ ok dl)
          × ((receive_webhook sv request now s).1 ≡ after db (event_row sv dl now) s)
          × (b : Bool) × ((record_event db (event_row sv dl now) s).0 ≡ ok b)
          × (db.insert_or_ignore (event_row sv dl now) d ≢ none)
    unfolding receive_webhook
    first_delivery request now d s a o h = elim (Result-cases (check_delivery sv request)) [
      | inl (e, failed) ↦ absurd (ground arith)
      | inr (dl, passed) ↦ elim (record_event_lem db law (event_row sv dl now) d s o) [
        | inl (unbound, fail) ↦ absurd (ground arith)
        | inr (d', bound, done, kept) ↦ (
          dl,
          passed,
          ground arith,
          not (has_delivery (event_row sv dl now) (db.rows d)),
          ground arith,
          bound,
        )
      ]
    ]

    -- A delivery that was acknowledged once, by an open store, is acknowledged again whenever it comes back, however
    -- many other deliveries were recorded in between and whatever the time: with 204, as a
    -- duplicate, and with no row added or changed.
    pub redelivered_webhook :
        (request : Request) (now later : Text) (between : List Event) (d : db.Database)
        (s : EventStore db.Database) (a : Ack)
        → s.open_on ≡ some d
        → (receive_webhook sv request now s).0 ≡ ok a
        → (b : Ack) × ((receive_webhook sv request later
              (record_all db between (receive_webhook sv request now s).1)).0
            ≡ ok b)
          × (b.response.status ≡ 204)
          × (b.duplicate ≡ true)
          × (held db
                (receive_webhook sv request later
                  (record_all db between (receive_webhook sv request now s).1)).1
              ≡ held db (record_all db between (receive_webhook sv request now s).1))
    redelivered_webhook request now later between d s a o h =
        let (dl, passed, through, b, r, bound) = first_delivery request now d s a o h in
        let row = event_row sv dl now in
        let again = event_row sv dl later in
        let (d', o', seen) = stored_is_seen db law row b d s o r in
        let (d'', o'', seen') =
          seen_for_good db law again between d' (after db row s) o'
            (sym (has_delivery_cong row again (db.rows d') (same_key_later dl now later)) ∙ seen) in
        rw through (
          seen_again request dl later d'' (record_all db between (after db row s)) passed o''
            (bound_later dl now later d d'' bound) seen')
