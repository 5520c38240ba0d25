-- ===== src/Routes/Webhooks/Supported.antt =====
-- The event names that `POST /webhook` lets into the store, and `GET /events` lists.
use issues_api_testbed.Prelude.Int.{ℤ}
use issues_api_testbed.Prelude.{
  ◌≡◌, refl, sym, subst, inl, inr, true, List, [], ◌∷◌, map, arith, All, Text, Option, none, some,
  text,
}
use issues_api_testbed.Errors.{Result, Result-cases, ok, raise, ◌>>=◌}
use issues_api_testbed.Http.{Request, EventRecord}
use issues_api_testbed.Python.{Fields}
use issues_api_testbed.Store.{IsSqlite, Event, StoredEvent, EventStore, recent, to_stored, event_of}
use issues_api_testbed.Store.Redelivery.{held, after}
use issues_api_testbed.Store.Rows.{after-All, recent-All}
use issues_api_testbed.Webhooks.{
  is_supported, validate_event, summarize, verify_signature, WebhookSummary,
}
use issues_api_testbed.Routes.Webhooks.Defs.{
  Services, Delivery, require_delivery, event_row, load_body, check_delivery, receive_webhook,
  event_record, event_records,
}

-- its event is one of those that the service takes
abbrev pub IsSupported : Event → Type 0
IsSupported r = is_supported r.event ≡ true

abbrev pub IsListed : EventRecord → Type 0
IsListed r = is_supported r.event ≡ true

validated_event : (h : Option Text) (e : Text) → validate_event h ≡ ok e → is_supported e ≡ true
unfolding validate_event
validated_event none e got = absurd (cc)
validated_event (some t) e got = ground arith

summarize-event : (e : Text) (d : Fields) (s : WebhookSummary) → summarize e d ≡ ok s → s.event ≡ e
unfolding summarize
summarize-event e d s got = ground arith

ok_of_bind {ℓ κ} :
    {A : Type ℓ} {B : Type κ} (x : Result A) (f : A → Result B) {b : B}
    → (x >>= f) ≡ ok b
    → (a : A) × (x ≡ ok a) × (f a ≡ ok b)
ok_of_bind (ok a) f got = (a, refl, got)
ok_of_bind (raise e) f got = absurd (cc)

module _ (sv : Services) where
  open sv use {webhook_secret, hmac, codec, db}

  checked_event :
      (request : Request) (d : Delivery)
      → check_delivery sv request ≡ ok d
      → is_supported d.summary.event ≡ true
  unfolding check_delivery
  checked_event request d got =
      let (u, signed, got1) =
        ok_of_bind
          (verify_signature hmac webhook_secret request.raw_body
            (request.header (text "X-Hub-Signature-256")))
          _ got in
      let (event, named, got2) =
        ok_of_bind (validate_event (request.header (text "X-GitHub-Event"))) _ got1 in
      let (id, there, got3) =
        ok_of_bind (require_delivery (request.header (text "X-GitHub-Delivery"))) _ got2 in
      let (payload, loaded, got4) = ok_of_bind (load_body codec request.raw_body) _ got3 in
      let (summary, made, got5) = ok_of_bind (summarize event payload) _ got4 in
      ground (arith, validated_event _ event named, summarize-event event payload summary made)

  event_records-listed :
      (rows : List Event) (rs : List EventRecord)
      → All IsSupported rows
      → event_records sv (map to_stored rows) ≡ ok rs
      → All IsListed rs
  unfolding event_records event_record to_stored
  event_records-listed [] [] h got = tt
  event_records-listed [] (x ∷ rs) h got = absurd (cc)
  event_records-listed (r ∷ rows) [] h got = absurd (ground arith)
  event_records-listed (r ∷ rows) (x ∷ rs) h got =
      let (y, read, got1) = ok_of_bind (event_record sv (to_stored r)) _ got in
      let (ys, more, got2) = ok_of_bind (event_records sv (map to_stored rows)) _ got1 in
      (ground arith, event_records-listed rows rs h.1 (ground arith))

  module _ (law : IsSqlite db) where
    pub receive_webhook-IsSupported :
        (request : Request) (now : Text) (s : EventStore db.Database)
        → All IsSupported (held db s)
        → All IsSupported (held db (receive_webhook sv request now s).1)
    unfolding receive_webhook event_of
    receive_webhook-IsSupported request now s h = elim (Result-cases (check_delivery sv request)) [
      | inl (e, failed) ↦
          let same : (receive_webhook sv request now s).1 ≡ s = ground arith in
          subst (λ (t : EventStore db.Database). All IsSupported (held db t)) (sym same) h
      | inr (d, passed) ↦
          let put : (receive_webhook sv request now s).1 ≡ after db (event_row sv d now) s =
            ground arith in
          subst (λ (t : EventStore db.Database). All IsSupported (held db t)) (sym put)
            (after-All IsSupported db law (event_row sv d now) s (checked_event request d passed) h)
    ]

    pub listed :
        (n : ℤ) (s : EventStore db.Database) (es : List StoredEvent) (rs : List EventRecord)
        → All IsSupported (held db s)
        → recent db n s ≡ ok es
        → event_records sv es ≡ ok rs
        → All IsListed rs
    listed n s es rs h got read =
        let (rows, same, all) = recent-All IsSupported db law n s es h got in
        event_records-listed rows rs all (rw same at read)
