-- ===== src/Store/Defs.antt =====
-- `EventStore`: each method over the database that the connection is open on.
use issues_api_testbed.Prelude.Int.{ℤ}
use issues_api_testbed.Prelude.{
  ℕ, Bool, Option, none, some, List, [], map, Text, is_empty, ltb, if◌then◌else◌,
}
use issues_api_testbed.Python.{Json}
use issues_api_testbed.Errors.{
  Result, ok, raise, crash, runtime_error, database_error, overflow_error, value_error, or_crash,
  ◌>>=◌,
}
use issues_api_testbed.Store.Sql.{Event, Sqlite}

-- what `json.loads` makes of its argument: a value, `JSONDecodeError` or `UnicodeDecodeError`
pub data Loaded : Type 0 where
  value : Json → Loaded
  malformed undecodable : Loaded

-- the module `json`, and `datetime.fromisoformat` up to the text of the date
pub record Codec : Type 0 where
  pub loads : List ℕ → Loaded
  pub loads_text : Text → Loaded
  pub dumps : Json → Text
  pub fromisoformat : Text → Option Text

pub record StoredEvent : Type 0 where
  pub id : Text
  pub event : Text
  pub action : Option Text
  pub issue_number : Option ℤ
  pub timestamp : Text

-- the object; `_connection` is the database that it is open on
pub record EventStore (D : Type 0) : Type 0 where
  pub path : Text
  pub open_on : Option D

-- `action or ""`
abbrev or_empty : Option Text → Text
or_empty none = []
or_empty (some a) = a

-- `row["action"] or None`
abbrev or_none : Text → Option Text
or_none a = if is_empty a then none else some a

unfoldable pub event_of :
    Text → Text → Option Text → Option ℤ → Option ℤ → Option Text → Text → Text → Event
event_of delivery_id event action issue_number comment_id sender now payload = record {
  delivery_id = delivery_id;
  action = or_empty action;
  event = event;
  issue_number = issue_number;
  comment_id = comment_id;
  sender = sender;
  received_at = now;
  payload = payload;
}

unfoldable pub to_stored : Event → StoredEvent
to_stored r = record {
  id = r.delivery_id;
  event = r.event;
  action = or_none r.action;
  issue_number = r.issue_number;
  timestamp = r.received_at;
}

module _ (db : Sqlite) where
  open db use {Database}

  -- `connect`, on the content of the file at the store's path
  unfoldable pub connect : Database → EventStore Database → Result (EventStore Database)
  connect file s =
      if db.opens file
      then ok (record s { open_on = some (db.create_if_missing file) })
      else raise (crash database_error)

  unfoldable pub close : EventStore Database → EventStore Database
  close s = record s { open_on = none }

  unfoldable pub connection : EventStore Database → Result Database
  connection s = or_crash runtime_error s.open_on

  inserted : EventStore Database → Option (Database × ℕ) → Result Bool × EventStore Database
  inserted s none = (raise (crash overflow_error), s)
  inserted s (some (d, rowcount)) = (ok (ltb 0 rowcount), record s { open_on = some d })

  -- `record`: whether a row was stored, and the store afterwards
  unfoldable pub record_event : Event → EventStore Database → Result Bool × EventStore Database
  unfolding inserted connection
  record_event e s = elim (connection s) [
    | raise exc ↦ (raise exc, s)
    | ok d ↦ inserted s (db.insert_or_ignore e d)
  ]

  unfoldable pub recent : ℤ → EventStore Database → Result (List StoredEvent)
  unfolding connection to_stored
  recent limit s = do d ← connection s; ok (map to_stored (db.select_recent limit d))

  unfoldable pub count : EventStore Database → Result ℕ
  unfolding connection
  count s = do d ← connection s; ok (db.select_count d)

  unfoldable pub payload_for : Codec → Text → EventStore Database → Result (Option Json)
  unfolding connection
  payload_for codec delivery_id s = do
    d ← connection s
    elim (db.select_payload delivery_id d) [
      | none ↦ ok none
      | some p ↦ elim (codec.loads_text p) [ value j ↦ ok (some j) | _ ↦ raise (crash value_error) ]
    ]
