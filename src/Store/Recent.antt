-- ===== src/Store/Recent.antt =====
-- `recent`, `count` and `payload_for`: what is read back of the rows.
use issues_api_testbed.Prelude.Int.{ℤ, pos}
use issues_api_testbed.Prelude.{
  ℕ, ◌≡◌, inl, inr, refl, subst, true, false, none, some, List, [], ◌∷◌, ◌++◌, map, arith,
  Bool-cases, Text, take, length, append_assoc, append-nil,
}
use mathlib.Core.List.Perm
use mathlib.Core.List.{Perm, perm_middle, reverse, reverse-cons}
use issues_api_testbed.Errors.{Exc, ok, raise, crash, runtime_error, database_error}
use issues_api_testbed.Store.Sql.{
  Event, Sqlite, IsSqlite, text_leb, insert_desc, order_by, order_onto, limited,
}
use issues_api_testbed.Store.Defs.{
  EventStore, Codec, to_stored, connect, record_event, recent, count, payload_for,
}

-- from `t` on the clock never went back between two rows
abbrev pub InOrderFrom : Text → List Event → Type 0
InOrderFrom t [] = Unit
InOrderFrom t (r ∷ rows) = (text_leb t r.received_at ≡ true) × InOrderFrom r.received_at rows

abbrev pub InOrder : List Event → Type 0
InOrder = InOrderFrom []

order_onto-reverse :
    (rows : List Event) (p : Event) (sorted : List Event)
    → InOrderFrom p.received_at rows
    → order_onto (p ∷ sorted) rows ≡ reverse rows ++ p ∷ sorted
unfolding order_onto insert_desc
order_onto-reverse [] p sorted h = refl
order_onto-reverse (r ∷ rows) p sorted h =
    rw (h.0, reverse-cons, append_assoc) (order_onto-reverse rows r (p ∷ sorted) h.1)

order_by-reverse : (rows : List Event) → InOrder rows → order_by rows ≡ reverse rows
unfolding order_by order_onto insert_desc
order_by-reverse [] h = refl
order_by-reverse (r ∷ rows) h = rw reverse-cons (order_onto-reverse rows r [] h.1)

-- each row of the result is at least as new as the next
abbrev pub Descending : List Event → Type 0
Descending [] = Unit
Descending (r ∷ []) = Unit
Descending (r ∷ q ∷ rows) = (text_leb q.received_at r.received_at ≡ true) × Descending (q ∷ rows)

text_leb_total : (s t : Text) → text_leb s t ≡ false → text_leb t s ≡ true
unfolding text_leb
text_leb_total [] t h = absurd (cc)
text_leb_total (c ∷ s) [] h = refl
text_leb_total (c ∷ s) (d ∷ t) h = ground (arith, text_leb_total s t)

insert_desc-Descending :
    (e : Event) (rows : List Event) → Descending rows → Descending (insert_desc e rows)
unfolding insert_desc
insert_desc-Descending e [] h = tt
insert_desc-Descending e (r ∷ []) h = ground (arith, text_leb_total r.received_at e.received_at)
insert_desc-Descending e (r ∷ q ∷ rows) h =
    ground (arith, text_leb_total r.received_at e.received_at, insert_desc-Descending e (q ∷ rows))

order_onto-Descending :
    (sorted rows : List Event) → Descending sorted → Descending (order_onto sorted rows)
unfolding order_onto
order_onto-Descending sorted [] h = h
order_onto-Descending sorted (e ∷ rows) h =
    order_onto-Descending (insert_desc e sorted) rows (insert_desc-Descending e sorted h)

insert_desc-perm : (e : Event) (rows : List Event) → Perm (insert_desc e rows) (e ∷ rows)
unfolding insert_desc
insert_desc-perm e [] = Perm.refl (e ∷ [])
insert_desc-perm e (r ∷ rows) = elim (Bool-cases (text_leb r.received_at e.received_at)) [
  | inl newer ↦ rw newer (Perm.refl (e ∷ r ∷ rows))
  | inr older ↦ rw older (Perm.trans (Perm.cons r (insert_desc-perm e rows)) (Perm.swap e r rows))
]

order_onto-perm : (sorted rows : List Event) → Perm (order_onto sorted rows) (rows ++ sorted)
unfolding order_onto
order_onto-perm sorted [] = Perm.refl sorted
order_onto-perm sorted (e ∷ rows) = Perm.trans (order_onto-perm (insert_desc e sorted) rows) (
    Perm.trans (Perm.append (Perm.refl rows) (insert_desc-perm e sorted)) (perm_middle rows sorted))

order_by-perm : (rows : List Event) → Perm (order_by rows) rows
unfolding order_by
order_by-perm rows = subst (Perm (order_onto [] rows)) (append-nil rows) (order_onto-perm [] rows)

order_by-Descending : (rows : List Event) → Descending (order_by rows)
unfolding order_by
order_by-Descending rows = order_onto-Descending [] rows tt

module _ (db : Sqlite) (law : IsSqlite db) where
  open db use {Database, rows}

  -- On an open store, `recent` returns the rows from the newest received time to the oldest, up to
  -- the limit: all of them if the limit is negative.
  recent_newest_first :
      (limit : ℤ) (d : Database) (s : EventStore Database)
      → s.open_on ≡ some d
      → (shown : List Event) × (recent db limit s ≡ ok (map to_stored (limited limit shown)))
        × Perm shown (rows d)
        × Descending shown
  unfolding recent
  recent_newest_first limit d s o = (
    order_by (rows d),
    rw (o, law.select_recent_lem limit d, recent) refl,
    order_by-perm (rows d),
    order_by-Descending (rows d),
  )

  -- On an open store whose clock never went back, `recent` returns the last `n` rows to arrive,
  -- the last first.
  pub recent_last_arrivals :
      (n : ℕ) (d : Database) (s : EventStore Database)
      → s.open_on ≡ some d
      → InOrder (rows d)
      → recent db (pos n) s ≡ ok (map to_stored (take n (reverse (rows d))))
  unfolding recent
  recent_last_arrivals n d s o h =
      rw (o, law.select_recent_lem (pos n) d, order_by-reverse (rows d) h, recent) refl

  -- `count` is the number of rows.
  pub count_lem :
      (d : Database) (s : EventStore Database)
      → s.open_on ≡ some d
      → count db s ≡ ok (length (rows d))
  unfolding count
  count_lem d s o = rw (o, law.select_count_lem d, count) refl

-- A store that is not connected answers every call with `RuntimeError` and stays as it is.
not_connected :
    (db : Sqlite) (codec : Codec) (s : EventStore db.Database) (e : Event) (n : ℤ) (id : Text)
    → s.open_on ≡ none
    → (record_event db e s ≡ (raise (crash runtime_error), s))
      × (recent db n s ≡ raise (crash runtime_error))
      × (count db s ≡ raise (crash runtime_error))
      × (payload_for db codec id s ≡ raise (crash runtime_error))
unfolding record_event recent count payload_for
not_connected db codec s e n id o = (ground arith, ground arith, ground arith, ground arith)

-- Where `connect` returns, the store is the same, and open on the file.
pub connect_lem :
    (db : Sqlite) (file : db.Database) (s t : EventStore db.Database)
    → connect db file s ≡ ok t
    → (db.opens file ≡ true) × (t ≡ record s { open_on = some (db.create_if_missing file) })
unfolding connect
connect_lem db file s t h = ground arith

-- Where it raises, the file cannot be opened.
pub connect_fails :
    (db : Sqlite) (file : db.Database) (s : EventStore db.Database) (e : Exc)
    → connect db file s ≡ raise e
    → (db.opens file ≡ false) × (e ≡ crash database_error)
unfolding connect
connect_fails db file s e h = ground arith
