-- ===== src/Store/Sql.antt =====
-- The table `webhook_events` and the statements on it, as SQLite documents them.
use issues_api_testbed.Prelude.Int.{ℤ, pos, negsuc}
use issues_api_testbed.Prelude.{
  ℕ, ◌≡◌, ◌⊎◌, Bool, true, false, ◌&&◌, ◌||◌, Option, none, some, List, [], ◌∷◌, ◌++◌, Text, ◌==◌,
  text_eq, ltb, if◌then◌else◌, take, length, nat_eq,
}

-- A row: the columns of `_SCHEMA`.
pub record Event : Type 0 where
  pub delivery_id : Text
  pub action : Text
  pub event : Text
  pub issue_number : Option ℤ
  pub comment_id : Option ℤ
  pub sender : Option Text
  pub received_at : Text
  pub payload : Text

-- `PRIMARY KEY (delivery_id, action)`
abbrev pub same_key : Event → Event → Bool
same_key a b = a.delivery_id == b.delivery_id && a.action == b.action

abbrev pub has_delivery : Event → List Event → Bool
has_delivery e [] = false
has_delivery e (r ∷ rows) = same_key r e || has_delivery e rows

-- the order of TEXT values: by code points, a proper prefix first
unfoldable pub text_leb : Text → Text → Bool
text_leb [] t = true
text_leb (c ∷ s) [] = false
text_leb (c ∷ s) (d ∷ t) = ltb c d || (c == d && text_leb s t)

-- put a row with a larger rowid among rows that are in order
unfoldable pub insert_desc : Event → List Event → List Event
unfolding text_leb
insert_desc e [] = e ∷ []
insert_desc e (r ∷ rows) =
    let rest = insert_desc e rows in
    if text_leb r.received_at e.received_at then e ∷ r ∷ rows else r ∷ rest

unfoldable pub order_onto : List Event → List Event → List Event
order_onto sorted [] = sorted
order_onto sorted (e ∷ rows) = order_onto (insert_desc e sorted) rows

-- `ORDER BY received_at DESC, rowid DESC`, on rows in the order of their rowids
unfoldable pub order_by : List Event → List Event
unfolding order_onto insert_desc
order_by rows = order_onto [] rows

-- `LIMIT n`; a negative limit is none
abbrev pub limited : ℤ → List Event → List Event
limited (pos n) rows = take n rows
limited (negsuc n) rows = rows

pub record Sqlite : Type 1 where
  -- the content of a database file
  pub Database : Type 0
  -- the rows of `webhook_events`, in the order of their rowids
  pub rows : Database → List Event
  -- whether the file at the path can be opened and `_SCHEMA` run on it
  pub opens : Database → Bool
  -- what `_SCHEMA` leaves of a file on which it runs
  pub create_if_missing : Database → Database
  -- the database after the statement and `cursor.rowcount`; `none` where a value cannot be bound
  pub insert_or_ignore : Event → Database → Option (Database × ℕ)
  pub select_recent : ℤ → Database → List Event
  pub select_count : Database → ℕ
  pub select_payload : Text → Database → Option Text

abbrev pub HoldsPayload : Text → Text → List Event → Type 0
HoldsPayload id p [] = ⊥
HoldsPayload id p (r ∷ rows) = ((r.delivery_id ≡ id) × (r.payload ≡ p)) ⊎ HoldsPayload id p rows

abbrev pub mentions : Text → List Event → Bool
mentions id [] = false
mentions id (r ∷ rows) = r.delivery_id == id || mentions id rows

-- The documented behaviour that the store relies on.
pub record IsSqlite (db : Sqlite) : Type 0 where
  pub rows-create_if_missing : (d : db.Database) → db.rows (db.create_if_missing d) ≡ db.rows d
  pub insert_new :
      (e : Event) (d d' : db.Database) (n : ℕ)
      → has_delivery e (db.rows d) ≡ false
      → db.insert_or_ignore e d ≡ some (d', n)
      → (n ≡ 1) × (db.rows d' ≡ db.rows d ++ e ∷ [])
  pub insert_present :
      (e : Event) (d d' : db.Database) (n : ℕ)
      → has_delivery e (db.rows d) ≡ true
      → db.insert_or_ignore e d ≡ some (d', n)
      → (n ≡ 0) × (db.rows d' ≡ db.rows d)
  -- whether the values can be bound depends neither on the table nor on the time of the row
  pub bind_again :
      (e : Event) (now : Text) (d d' : db.Database) (r : db.Database × ℕ)
      → db.insert_or_ignore e d ≡ some r
      → (s : db.Database × ℕ) × (db.insert_or_ignore (record e { received_at = now }) d' ≡ some s)
  pub select_recent_lem :
      (n : ℤ) (d : db.Database) → db.select_recent n d ≡ limited n (order_by (db.rows d))
  pub select_count_lem : (d : db.Database) → db.select_count d ≡ length (db.rows d)
  pub select_payload_found :
      (id p : Text) (d : db.Database)
      → db.select_payload id d ≡ some p
      → HoldsPayload id p (db.rows d)
  pub select_payload_missing :
      (id : Text) (d : db.Database)
      → db.select_payload id d ≡ none
      → mentions id (db.rows d) ≡ false
