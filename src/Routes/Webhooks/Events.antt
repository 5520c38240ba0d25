-- ===== src/Routes/Webhooks/Events.antt =====
-- `GET /events`: how many deliveries it lists.
use issues_api_testbed.Prelude.Int.{pos, min_ℤ}
use issues_api_testbed.Prelude.{
  ℕ, ◌≤◌, ◌≡◌, inl, inr, some, List, [], ◌∷◌, arith, length, length-map, length-take, take,
  Bool-cases, leb,
}
use issues_api_testbed.Errors.{Result-cases, ok}
use issues_api_testbed.Http.{EventRecord, Response, Body}
use issues_api_testbed.Store.{IsSqlite, StoredEvent, EventStore, recent, order_by, to_stored}
use issues_api_testbed.Routes.Webhooks.Defs.{Services, event_record, event_records, list_events}

module _ (sv : Services) where
  open sv use {events_max_limit, codec, db}

  length-event_records :
      (es : List StoredEvent) {rs : List EventRecord}
      → event_records sv es ≡ ok rs
      → length rs ≡ length es
  unfolding event_records
  length-event_records [] {rs} h = ground arith
  length-event_records (e ∷ es) {rs} h = elim (Result-cases (event_record sv e)) [
    | inl (x, failed) ↦ absurd (ground arith)
    | inr (r, read) ↦ elim (Result-cases (event_records sv es)) [
      | inl (x, failed) ↦ absurd (ground arith)
      | inr (rest, more) ↦ ground (arith, length-event_records es more)
    ]
  ]

  module _ (law : IsSqlite db) where
    length-recent :
        (n : ℕ) (d : db.Database) (s : EventStore db.Database) {es : List StoredEvent}
        → s.open_on ≡ some d
        → recent db (pos n) s ≡ ok es
        → length es ≤ n
    unfolding recent
    length-recent n d s {es} o h = ground (
      arith,
      law.select_recent_lem (pos n) d,
      length-map to_stored (take n (order_by (db.rows d))),
      length-take n (order_by (db.rows d)),
    )

    pub capped :
        (limit m : ℕ) → (n : ℕ) × (min_ℤ (pos limit) (pos m) ≡ pos n) × (n ≤ limit) × (n ≤ m)
    capped limit m = elim (Bool-cases (leb limit m)) [
      | inl small ↦ (limit, ground arith, ground arith, ground arith)
      | inr large ↦ (m, ground arith, ground arith, ground arith)
    ]

    -- With a maximum that is not negative, and an open store, a list of events is no longer than
    -- the limit asked for, nor than the maximum.
    pub list_events_bounded :
        (limit m : ℕ) (d : db.Database) (s : EventStore db.Database) (r : Response)
        → s.open_on ≡ some d
        → events_max_limit ≡ pos m
        → list_events sv limit s ≡ ok r
        → (es : List EventRecord) × (r.body ≡ Body.events es)
          × (length es ≤ limit)
          × (length es ≤ m)
    unfolding list_events
    list_events_bounded limit m d s r o top h =
        let (n, least, below, under) = capped limit m in
        elim (Result-cases (recent db (pos n) s)) [
          | inl (x, failed) ↦ absurd (ground arith)
          | inr (es, stored) ↦ elim (Result-cases (event_records sv es)) [
            | inl (x, failed) ↦ absurd (ground arith)
            | inr (rs, read) ↦ (
              rs,
              ground arith,
              omega (arith, length-recent n d s o stored, length-event_records es read),
              omega (arith, length-recent n d s o stored, length-event_records es read),
            )
          ]
        ]
