-- ===== src/Store/Timeline.antt =====
-- Deliveries over time: what `recent` shows where the clock does not go back.
use issues_api_testbed.Prelude.Int.{pos}
use issues_api_testbed.Prelude.{
  ℕ, ◌≡◌, refl, sym, subst, ◌∙◌, inl, inr, true, some, List, [], ◌∷◌, ◌++◌, map, arith, Text, take,
  Bool-cases, append_assoc, append-nil, nat_eq,
}
use mathlib.Core.List.{reverse}
use issues_api_testbed.Errors.{ok}
use issues_api_testbed.Store.Sql.{Event, Sqlite, IsSqlite, text_leb, has_delivery}
use issues_api_testbed.Store.Defs.{EventStore, to_stored, recent}
use issues_api_testbed.Store.Redelivery.{
  record_all, arrivals, binds, after, record_event-arrivals, record_all-arrivals,
}
use issues_api_testbed.Store.Recent.{InOrder, InOrderFrom, recent_last_arrivals}
use issues_api_testbed.Store.Clock.{Moment, IsMoment, isoformat, moment_leb, isoformat-leb}

text_leb_trans : (s t u : Text) → text_leb s t ≡ true → text_leb t u ≡ true → text_leb s u ≡ true
unfolding text_leb
text_leb_trans [] t u h k = refl
text_leb_trans (c ∷ s) [] u h k = absurd (cc)
text_leb_trans (c ∷ s) (d ∷ t) [] h k = absurd (cc)
text_leb_trans (c ∷ s) (d ∷ t) (e ∷ u) h k = ground (arith, text_leb_trans s t u)

-- a row less
InOrderFrom-drop :
    (t : Text) (rows : List Event) (e : Event) (es : List Event)
    → InOrderFrom t (rows ++ e ∷ es)
    → InOrderFrom t (rows ++ es)
InOrderFrom-drop t [] e [] h = tt
InOrderFrom-drop t [] e (r ∷ es) h = (text_leb_trans t e.received_at r.received_at h.0 h.1.0, h.1.1)
InOrderFrom-drop t (r ∷ rows) e es h = (h.0, InOrderFrom-drop r.received_at rows e es h.1)

InOrder-arrivals :
    (db : Sqlite) (d : db.Database) (rows es : List Event)
    → InOrder (rows ++ es)
    → InOrder (arrivals db d rows es)
unfolding arrivals
InOrder-arrivals db d rows [] h = subst InOrder (append-nil rows) h
InOrder-arrivals db d rows (e ∷ es) h = elim (Bool-cases (binds db e d)) [
  | inr unbound ↦ rw unbound (InOrder-arrivals db d rows es (InOrderFrom-drop [] rows e es h))
  | inl bound ↦ elim (Bool-cases (has_delivery e rows)) [
    | inl old ↦ rw (bound, old) (InOrder-arrivals db d rows es (InOrderFrom-drop [] rows e es h))
    | inr new ↦
        rw (bound, new)
          (InOrder-arrivals db d (rows ++ e ∷ []) es
            (subst InOrder (sym (append_assoc rows (e ∷ []) es)) h))
  ]
]

-- the rows got their times from a clock that did not go back
abbrev pub StampedFrom : Moment → List Event → List Moment → Type 0
StampedFrom p [] [] = Unit
StampedFrom p (r ∷ rows) (m ∷ ms) =
    IsMoment m × (r.received_at ≡ isoformat m) × (moment_leb p m ≡ true) × StampedFrom m rows ms
StampedFrom p _ _ = ⊥

abbrev pub Stamped : List Event → List Moment → Type 0
Stamped [] [] = Unit
Stamped (r ∷ rows) (m ∷ ms) = IsMoment m × (r.received_at ≡ isoformat m) × StampedFrom m rows ms
Stamped _ _ = ⊥

StampedFrom-InOrder :
    (p : Moment) (rows : List Event) (ms : List Moment)
    → IsMoment p
    → StampedFrom p rows ms
    → InOrderFrom (isoformat p) rows
StampedFrom-InOrder p [] [] q h = tt
StampedFrom-InOrder p (r ∷ rows) (m ∷ ms) q h =
    let rest = StampedFrom-InOrder m rows ms h.0 h.3 in
    let earlier : text_leb (isoformat p) (isoformat m) ≡ true = isoformat-leb p m q h.0 ∙ h.2 in
    (rw h.1 earlier, rw h.1 rest)
StampedFrom-InOrder p _ _ q h = elim h [ ]

Stamped-InOrder : (rows : List Event) (ms : List Moment) → Stamped rows ms → InOrder rows
unfolding text_leb
Stamped-InOrder [] [] h = tt
Stamped-InOrder (r ∷ rows) (m ∷ ms) h = (refl, rw h.1 (StampedFrom-InOrder m rows ms h.0 h.2))
Stamped-InOrder _ _ h = elim h [ ]

module _ (db : Sqlite) (law : IsSqlite db) where
  open db use {Database, rows}

  stays_open :
      (es : List Event) (d : Database) (s : EventStore Database)
      → s.open_on ≡ some d
      → (d' : Database) × ((record_all db es s).open_on ≡ some d')
  unfolding record_all
  stays_open [] d s o = (d, o)
  stays_open (e ∷ es) d s o =
      let (d', o', kept) = record_event-arrivals db law e d s o in
      stays_open es d' (after db e s) o'

  -- On an open store whose rows, and the deliveries that come in, got their times from a clock that
  -- did not go back, `recent` returns the last `n` first arrivals, the newest first: a redelivery
  -- keeps the place of the delivery that it repeats.
  pub recent_by_clock :
      (n : ℕ) (ms : List Moment) (es : List Event) (d : Database) (s : EventStore Database)
      → s.open_on ≡ some d
      → Stamped (rows d ++ es) ms
      → recent db (pos n) (record_all db es s)
        ≡ ok (map to_stored (take n (reverse (arrivals db d (rows d) es))))
  recent_by_clock n ms es d s o h =
      let (d', o') = stays_open es d s o in
      let kept : rows d' ≡ arrivals db d (rows d) es =
        rw o' at (record_all-arrivals db law es d s o) in
      subst
        (λ (rs : List Event).
          recent db (pos n) (record_all db es s) ≡ ok (map to_stored (take n (reverse rs))))
        kept
        (recent_last_arrivals db law n d' (record_all db es s) o' (
          subst InOrder (sym kept)
            (InOrder-arrivals db d (rows d) es (Stamped-InOrder (rows d ++ es) ms h))))
