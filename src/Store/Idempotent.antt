-- ===== src/Store/Idempotent.antt =====
-- Redelivery: what `record` does to the rows, whatever comes in and however often.
use issues_api_testbed.Prelude.{
  ◌≡◌, ◌⊎◌, inl, inr, refl, false, not, ◌≢◌, ◌||◌, none, some, List, [], ◌∷◌, ◌++◌, arith, ==_comm,
  Bool-cases, Option-cases, if◌then◌else◌,
}
use issues_api_testbed.Errors.{ok, raise, crash, overflow_error}
use issues_api_testbed.Store.Sql.{Event, Sqlite, IsSqlite, same_key, has_delivery}
use issues_api_testbed.Store.Defs.{EventStore, record_event}

-- No two rows have the same delivery id and action.
abbrev pub Distinct : List Event → Type 0
Distinct [] = Unit
Distinct (r ∷ rows) = (has_delivery r rows ≡ false) × Distinct rows

pub same_key_comm : (a b : Event) → same_key a b ≡ same_key b a
same_key_comm a b = cc (==_comm a.delivery_id b.delivery_id, ==_comm a.action b.action)

pub has_delivery-append :
    (e : Event) (rows : List Event) (r : Event)
    → has_delivery e (rows ++ r ∷ []) ≡ (has_delivery e rows || same_key r e)
has_delivery-append e [] r = ground arith
has_delivery-append e (x ∷ rows) r = ground (arith, has_delivery-append e rows r)

pub Distinct-append :
    (rows : List Event) (e : Event)
    → Distinct rows
    → has_delivery e rows ≡ false
    → Distinct (rows ++ e ∷ [])
Distinct-append [] e d h = (refl, tt)
Distinct-append (r ∷ rows) e d h = (
  ground (arith, has_delivery-append r rows e, same_key_comm r e),
  Distinct-append rows e d.1 (ground arith),
)

-- the table of deliveries as a list: a delivery whose key is there is not added
abbrev pub absorb : List Event → Event → List Event
absorb rows e = if has_delivery e rows then rows else rows ++ e ∷ []

pub absorb-Distinct : (rows : List Event) (e : Event) → Distinct rows → Distinct (absorb rows e)
absorb-Distinct rows e d = elim (Bool-cases (has_delivery e rows)) [
  | inl old ↦ rw old d
  | inr new ↦ rw new (Distinct-append rows e d new)
]

module _ (db : Sqlite) (law : IsSqlite db) where
  open db use {Database, rows}

  -- On an open store `record` either fails with the store as it was, because a value cannot be
  -- bound, or returns whether the delivery was new, adds it if it was, and changes no other row.
  pub record_event_lem :
      (e : Event) (d : Database) (s : EventStore Database)
      → s.open_on ≡ some d
      → ((db.insert_or_ignore e d ≡ none)
          × (record_event db e s ≡ (raise (crash overflow_error), s)))
        ⊎ ((d' : Database) × (db.insert_or_ignore e d ≢ none)
            × (record_event db e s
                ≡ (ok (not (has_delivery e (rows d))), record s { open_on = some d' }))
            × (rows d' ≡ absorb (rows d) e))
  unfolding record_event
  record_event_lem e d s o = elim (Option-cases (db.insert_or_ignore e d)) [
    | inl unbound ↦ inl (unbound, ground arith)
    | inr (r, put) ↦ elim (Bool-cases (has_delivery e (rows d))) [
      | inl old ↦
          let (n, same) = law.insert_present e d r.0 r.1 old put in
          inr (r.0, ground arith, ground arith, rw (old, same))
      | inr new ↦
          let (n, more) = law.insert_new e d r.0 r.1 new put in
          inr (r.0, ground arith, ground arith, rw (new, more))
    ]
  ]
