-- ===== src/Store/Redelivery.antt =====
-- Sequences of calls of `record`: the rows are the deliveries by key, in the order of their first
-- arrival, and a key that was stored once is never stored again.
use issues_api_testbed.Prelude.{
  ◌≡◌, ◌≢◌, inl, inr, refl, sym, ap, ◌∙◌, Bool, true, false, none, some, List, [], ◌∷◌, arith,
  Option-cases, Bool-cases, if◌then◌else◌, eq_of_==, ==_refl, text_eq,
}
use issues_api_testbed.Errors.{ok}
use issues_api_testbed.Store.Sql.{Event, Sqlite, IsSqlite, same_key, has_delivery}
use issues_api_testbed.Store.Defs.{EventStore, record_event}
use issues_api_testbed.Store.Idempotent.{
  Distinct, absorb, absorb-Distinct, has_delivery-append, record_event_lem,
}

same_key_cong : (r e f : Event) → same_key e f ≡ true → same_key r e ≡ same_key r f
same_key_cong r e f h =
    ground (arith, eq_of_== e.delivery_id f.delivery_id, eq_of_== e.action f.action)

pub has_delivery_cong :
    (e f : Event) (rows : List Event)
    → same_key e f ≡ true
    → has_delivery e rows ≡ has_delivery f rows
has_delivery_cong e f [] h = refl
has_delivery_cong e f (r ∷ rows) h =
    ground (arith, same_key_cong r e f h, has_delivery_cong e f rows h)

module _ (db : Sqlite) where
  open db use {Database, rows}

  -- the rows that a store has; none while it is not connected
  abbrev pub held : EventStore Database → List Event
  held s = elim s.open_on [ none ↦ [] | some d ↦ rows d ]

  -- the store after a call of `record`
  abbrev pub after : Event → EventStore Database → EventStore Database
  after e s = (record_event db e s).1

  -- the store after several calls, whatever they return
  unfoldable pub record_all : List Event → EventStore Database → EventStore Database
  record_all [] s = s
  record_all (e ∷ es) s = record_all es (after e s)

  -- whether the driver can bind the values of an event
  abbrev pub binds : Event → Database → Bool
  binds e d = elim (db.insert_or_ignore e d) [ none ↦ false | some _ ↦ true ]

  -- the specification: the keys are a set, and the first arrival stays
  unfoldable pub arrivals : Database → List Event → List Event → List Event
  arrivals d acc [] = acc
  arrivals d acc (e ∷ es) = arrivals d (if binds e d then absorb acc e else acc) es

  module _ (law : IsSqlite db) where
    binds_any : (e : Event) (d d' : Database) → binds e d ≡ binds e d'
    binds_any e d d' = elim (Option-cases (db.insert_or_ignore e d)) [
      | inr (r, put) ↦ let (_, q) = law.bind_again e e.received_at d d' r put in ground arith
      | inl gone ↦ elim (Option-cases (db.insert_or_ignore e d')) [
        | inr (r, put) ↦ let (_, q) = law.bind_again e e.received_at d' d r put in ground arith
        | inl gone' ↦ ground arith
      ]
    ]

    arrivals_any :
        (d d' : Database) (acc : List Event) (es : List Event)
        → arrivals d acc es ≡ arrivals d' acc es
    unfolding arrivals
    arrivals_any d d' acc [] = refl
    arrivals_any d d' acc (e ∷ es) =
        rw (binds_any e d d') (arrivals_any d d' (if binds e d' then absorb acc e else acc) es)

    -- one call: the store stays open, and its rows are those of the specification
    pub record_event-arrivals :
        (e : Event) (d : Database) (s : EventStore Database)
        → s.open_on ≡ some d
        → (d' : Database) × ((after e s).open_on ≡ some d')
          × (rows d' ≡ (if binds e d then absorb (rows d) e else rows d))
    record_event-arrivals e d s o = elim (record_event_lem db law e d s o) [
      | inl (unbound, r) ↦ (d, ground arith, ground arith)
      | inr (d', bound, r, kept) ↦ (d', ground arith, ground arith)
    ]

    -- Whatever deliveries come in, in whatever order and however often, the rows of an open store
    -- are those that it had, then the first arrival of each new key among the deliveries that can
    -- be bound, in the order of arrival.
    pub record_all-arrivals :
        (es : List Event) (d : Database) (s : EventStore Database)
        → s.open_on ≡ some d
        → held (record_all es s) ≡ arrivals d (rows d) es
    unfolding record_all arrivals
    record_all-arrivals [] d s o = rw o
    record_all-arrivals (e ∷ es) d s o =
        let (d', o', kept) = record_event-arrivals e d s o in
        record_all-arrivals es d' (after e s) o'
        ∙ arrivals_any d' d (rows d') es
        ∙ ap (λ acc. arrivals d acc es) kept

    -- An open store whose rows have distinct keys has rows with distinct keys after any calls of
    -- `record`.
    pub record_all-Distinct :
        (es : List Event) (d : Database) (s : EventStore Database)
        → s.open_on ≡ some d
        → Distinct (rows d)
        → Distinct (held (record_all es s))
    unfolding record_all
    record_all-Distinct [] d s o h = rw o h
    record_all-Distinct (e ∷ es) d s o h =
        let (d', o', kept) = record_event-arrivals e d s o in
        record_all-Distinct es d' (after e s) o' (
          rw kept (elim (Bool-cases (binds e d)) [
            | inl bound ↦ rw bound (absorb-Distinct (rows d) e h)
            | inr unbound ↦ rw unbound h
          ]))

    seen_after :
        (f e : Event) (d : Database) (s : EventStore Database)
        → s.open_on ≡ some d
        → has_delivery f (rows d) ≡ true
        → (d' : Database) × ((after e s).open_on ≡ some d') × (has_delivery f (rows d') ≡ true)
    seen_after f e d s o h =
        let (d', o', kept) = record_event-arrivals e d s o in
        (d', o', rw kept (ground (arith, has_delivery-append f (rows d) e)))

    pub seen_for_good :
        (f : Event) (es : List Event) (d : Database) (s : EventStore Database)
        → s.open_on ≡ some d
        → has_delivery f (rows d) ≡ true
        → (d' : Database) × ((record_all es s).open_on ≡ some d')
          × (has_delivery f (rows d') ≡ true)
    unfolding record_all
    seen_for_good f [] d s o h = (d, o, h)
    seen_for_good f (e ∷ es) d s o h =
        let (d', o', h') = seen_after f e d s o h in seen_for_good f es d' (after e s) o' h'

    pub stored_is_seen :
        (e : Event) (b : Bool) (d : Database) (s : EventStore Database)
        → s.open_on ≡ some d
        → (record_event db e s).0 ≡ ok b
        → (d' : Database) × ((after e s).open_on ≡ some d') × (has_delivery e (rows d') ≡ true)
    stored_is_seen e b d s o r = elim (record_event_lem db law e d s o) [
      | inl (unbound, fail) ↦ absurd (ground arith)
      | inr (d', bound, done, kept) ↦ (
        d',
        ground arith,
        rw kept (
            ground
              (arith, has_delivery-append e (rows d) e, ==_refl e.delivery_id, ==_refl e.action)),
      )
    ]

    pub ignored_again :
        (e : Event) (d : Database) (s : EventStore Database)
        → s.open_on ≡ some d
        → has_delivery e (rows d) ≡ true
        → (held (after e s) ≡ held s) × ((record_event db e s).0 ≢ ok true)
    ignored_again e d s o h = elim (record_event_lem db law e d s o) [
      | inl (unbound, fail) ↦ (ground arith, ground arith)
      | inr (d', bound, done, kept) ↦ (ground arith, ground arith)
    ]

    -- Once `record` has returned for a delivery on an open store, a redelivery under the same id and action adds no
    -- row and is never reported as new, whatever was recorded in between and whatever the rest of
    -- the redelivery holds.
    redelivery_adds_nothing :
        (e f : Event) (between : List Event) (b : Bool) (d : Database) (s : EventStore Database)
        → s.open_on ≡ some d
        → same_key e f ≡ true
        → (record_event db e s).0 ≡ ok b
        → (held (after f (record_all between (after e s))) ≡ held (record_all between (after e s)))
          × ((record_event db f (record_all between (after e s))).0 ≢ ok true)
    redelivery_adds_nothing e f between b d s o same r =
        let (d', o', seen) = stored_is_seen e b d s o r in
        let (d'', o'', seen') =
          seen_for_good f between d' (after e s) o'
            (sym (has_delivery_cong e f (rows d') same) ∙ seen) in
        ignored_again f d'' (record_all between (after e s)) o'' seen'
