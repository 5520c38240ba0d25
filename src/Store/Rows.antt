-- ===== src/Store/Rows.antt =====
-- What holds of every row: `record` keeps it, and `recent` returns such rows alone.
use issues_api_testbed.Prelude.Int.{ℤ, pos, negsuc}
use issues_api_testbed.Prelude.{
  ◌≡◌, ◌⊎◌, ◌∙◌, ap, sym, inl, inr, subst, List, [], ◌∷◌, ◌++◌, map, arith, All, All-take,
  Bool-cases, Option-cases,
}
use issues_api_testbed.Errors.{ok}
use issues_api_testbed.Store.Sql.{Event, Sqlite, IsSqlite, has_delivery, order_by, limited}
use issues_api_testbed.Store.Defs.{EventStore, StoredEvent, to_stored, record_event, recent}
use issues_api_testbed.Store.Idempotent.{absorb, record_event_lem}
use issues_api_testbed.Store.Redelivery.{held, after}
use issues_api_testbed.Store.Newest.{order_by-All}

module _ (P : Event → Type 0) where
  absorb-All : (rows : List Event) (e : Event) → P e → All P rows → All P (absorb rows e)
  absorb-All rows e p h = elim (Bool-cases (has_delivery e rows)) [
    | inl old ↦ rw old h
    | inr new ↦ rw new (append_one rows h)
  ]
    where
      append_one : (rows : List Event) → All P rows → All P (rows ++ e ∷ [])
      append_one [] h = (p, tt)
      append_one (r ∷ rows) h = (h.0, append_one rows h.1)

  limited-All : (n : ℤ) (rows : List Event) → All P rows → All P (limited n rows)
  limited-All (pos n) rows h = All-take P n rows h
  limited-All (negsuc n) rows h = h

  module _ (db : Sqlite) (law : IsSqlite db) where
    open db use {Database, rows}

    -- what a call of `record` does to the rows, connected or not
    held-after :
        (e : Event) (s : EventStore Database)
        → (held db (after db e s) ≡ held db s) ⊎ (held db (after db e s) ≡ absorb (held db s) e)
    unfolding record_event
    held-after e s = elim (Option-cases s.open_on) [
      | inl shut ↦ inl (ground arith)
      | inr (d, o) ↦ elim (record_event_lem db law e d s o) [
        | inl (unbound, failed) ↦ inl (ap (λ r. held db r.1) failed)
        | inr (d', bound, done, more) ↦ inr (ap (λ r. held db r.1) done ∙ rw (o, held) more)
      ]
    ]

    pub after-All :
        (e : Event) (s : EventStore Database)
        → P e
        → All P (held db s)
        → All P (held db (after db e s))
    after-All e s p h = elim (held-after e s) [
      | inl same ↦ subst (All P) (sym same) h
      | inr more ↦ subst (All P) (sym more) (absorb-All (held db s) e p h)
    ]

    pub recent-All :
        (n : ℤ) (s : EventStore Database) (es : List StoredEvent)
        → All P (held db s)
        → recent db n s ≡ ok es
        → (rs : List Event) × (es ≡ map to_stored rs) × All P rs
    unfolding recent
    recent-All n s es h got = elim (Option-cases s.open_on) [
      | inl shut ↦ absurd (ground arith)
      | inr (d, o) ↦ (
        limited n (order_by (rows d)),
        ground (arith, law.select_recent_lem n d),
        limited-All n (order_by (rows d)) (order_by-All P (rows d) (rw o at h)),
      )
    ]
