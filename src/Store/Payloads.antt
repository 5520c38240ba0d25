-- ===== src/Store/Payloads.antt =====
-- What `payload_for` and `count` read of a delivery that was recorded.
use issues_api_testbed.Prelude.{
  ◌≡◌, ◌≢◌, ◌+◌, inl, inr, refl, true, false, none, some, List, [], ◌∷◌, ◌++◌, arith, Text, ==_refl,
  Option-cases, length, length-append, text_eq,
}
use issues_api_testbed.Python.{Json}
use issues_api_testbed.Errors.{ok}
use issues_api_testbed.Store.Sql.{Event, Sqlite, IsSqlite, has_delivery, mentions, HoldsPayload}
use issues_api_testbed.Store.Defs.{
  EventStore, Codec, value, record_event, payload_for, count, connection,
}
use issues_api_testbed.Store.Idempotent.{record_event_lem}

-- a delivery id that no row has is new under any action
pub unmentioned :
    (e : Event) (rows : List Event)
    → mentions e.delivery_id rows ≡ false
    → has_delivery e rows ≡ false
unmentioned e [] h = refl
unmentioned e (r ∷ rows) h = ground (arith, unmentioned e rows)

mentions-append : (e : Event) (rows : List Event) → mentions e.delivery_id (rows ++ e ∷ []) ≡ true
mentions-append e [] = ground (arith, ==_refl e.delivery_id)
mentions-append e (r ∷ rows) = ground (arith, mentions-append e rows)

-- the only row with the id is the last
last_payload :
    (e : Event) (p : Text) (rows : List Event)
    → mentions e.delivery_id rows ≡ false
    → HoldsPayload e.delivery_id p (rows ++ e ∷ [])
    → e.payload ≡ p
last_payload e p [] h (inl (same, q)) = q
last_payload e p [] h (inr k) = elim k [ ]
last_payload e p (r ∷ rows) h (inl (same, q)) = absurd (ground (arith, ==_refl e.delivery_id))
last_payload e p (r ∷ rows) h (inr k) = last_payload e p rows (ground arith) k

module _ (db : Sqlite) (law : IsSqlite db) where
  open db use {Database, rows}

  payload_read :
      (codec : Codec) (e : Event) (j : Json) (d : Database) (prior : List Event)
      (s : EventStore Database)
      → s.open_on ≡ some d
      → rows d ≡ prior ++ e ∷ []
      → mentions e.delivery_id prior ≡ false
      → codec.loads_text e.payload ≡ value j
      → payload_for db codec e.delivery_id s ≡ ok (some j)
  unfolding payload_for connection
  payload_read codec e j d prior s o added fresh loads =
      elim (Option-cases (db.select_payload e.delivery_id d)) [
        | inl missing ↦
            let gone = law.select_payload_missing e.delivery_id d missing in
            absurd (ground (arith, rw added at gone, mentions-append e prior))
        | inr (p, found) ↦
            let holds = law.select_payload_found e.delivery_id p d found in
            let same = last_payload e p prior fresh (rw added at holds) in ground arith
      ]

  counted :
      (e : Event) (d : Database) (prior : List Event) (s : EventStore Database)
      → s.open_on ≡ some d
      → rows d ≡ prior ++ e ∷ []
      → count db s ≡ ok (length prior + 1)
  unfolding count connection
  counted e d prior s o added =
      rw (o, law.select_count_lem d, added, length-append prior (e ∷ [])) refl

  -- On an open store with no row of its id, a delivery that can be bound is recorded as new; then
  -- `payload_for` returns for the id what its stored payload stands for, and `count` is one more
  -- than the number of rows before.
  pub payload_for-record_event :
      (codec : Codec) (e : Event) (j : Json) (d : Database) (s : EventStore Database)
      → s.open_on ≡ some d
      → mentions e.delivery_id (rows d) ≡ false
      → db.insert_or_ignore e d ≢ none
      → codec.loads_text e.payload ≡ value j
      → ((record_event db e s).0 ≡ ok true)
        × (payload_for db codec e.delivery_id (record_event db e s).1 ≡ ok (some j))
        × (count db (record_event db e s).1 ≡ ok (length (rows d) + 1))
  payload_for-record_event codec e j d s o fresh bound loads =
      elim (record_event_lem db law e d s o) [
        | inl (unbound, how) ↦ absurd (bound unbound)
        | inr (d', put, how, kept) ↦
            let new = unmentioned e (rows d) fresh in
            let added : rows d' ≡ rows d ++ e ∷ [] = rw new at kept in
            (
              rw (how, new) refl,
              rw how (
                  payload_read codec e j d' (rows d) (record s { open_on = some d' }) refl added
                    fresh loads),
              rw how (counted e d' (rows d) (record s { open_on = some d' }) refl added),
            )
      ]
