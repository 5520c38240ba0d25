-- ===== src/Tests/Samples.antt =====
-- A database, a digest and the other libraries, each as a small concrete function.
use issues_api_testbed.Prelude.Int.{pos}
use issues_api_testbed.Prelude.{
  ℕ, ◌+◌, ◌%◌, ◌≡◌, refl, inl, inr, true, false, Option, none, some, List, [], ◌∷◌, ◌++◌, arith,
  Text, text, ◌==◌, text_eq, if◌then◌else◌, length, eq_of_==, Bool-cases,
}
use issues_api_testbed.Python.{str, obj, field, end, num}
use issues_api_testbed.Store.{
  Event, Sqlite, IsSqlite, has_delivery, limited, order_by, HoldsPayload, mentions, Codec, value,
  EventStore,
}
use issues_api_testbed.Webhooks.{Hmac, is_ascii}

abbrev first_payload : Text → List Event → Option Text
first_payload id [] = none
first_payload id (r ∷ rows) = if r.delivery_id == id then some r.payload else first_payload id rows

-- a table in memory that binds every value
abbrev pub memory : Sqlite
memory = record {
  Database = List Event;
  rows = λ d. d;
  opens = λ d. true;
  create_if_missing = λ d. d;
  insert_or_ignore = λ e d. if has_delivery e d then some (d, 0) else some (d ++ e ∷ [], 1);
  select_recent = λ n d. limited n (order_by d);
  select_count = λ d. length d;
  select_payload = first_payload;
}

memory_new :
    (e : Event) (d d' : List Event) (n : ℕ)
    → has_delivery e d ≡ false
    → memory.insert_or_ignore e d ≡ some (d', n)
    → (n ≡ 1) × (d' ≡ d ++ e ∷ [])
memory_new e d d' n h p = ground arith

memory_present :
    (e : Event) (d d' : List Event) (n : ℕ)
    → has_delivery e d ≡ true
    → memory.insert_or_ignore e d ≡ some (d', n)
    → (n ≡ 0) × (d' ≡ d)
memory_present e d d' n h p = ground arith

memory_bind :
    (e : Event) (now : Text) (d d' : List Event) (r : List Event × ℕ)
    → memory.insert_or_ignore e d ≡ some r
    → (s : List Event × ℕ) × (memory.insert_or_ignore (record e { received_at = now }) d' ≡ some s)
memory_bind e now d d' r p = elim (Bool-cases (has_delivery (record e { received_at = now }) d')) [
  | inl old ↦ ((d', 0), rw old refl)
  | inr new ↦ ((d' ++ record e { received_at = now } ∷ [], 1), rw new refl)
]

memory_found : (id p : Text) (d : List Event) → first_payload id d ≡ some p → HoldsPayload id p d
memory_found id p [] h = cc
memory_found id p (r ∷ d) h = ground (arith, eq_of_== r.delivery_id id, memory_found id p d)

memory_missing : (id : Text) (d : List Event) → first_payload id d ≡ none → mentions id d ≡ false
memory_missing id [] h = refl
memory_missing id (r ∷ d) h = ground (arith, memory_missing id d)

pub memory-IsSqlite : IsSqlite memory
memory-IsSqlite = record {
  rows-create_if_missing = λ d. refl;
  insert_new = memory_new;
  insert_present = memory_present;
  bind_again = memory_bind;
  select_recent_lem = λ n d. refl;
  select_count_lem = λ d. refl;
  select_payload_found = memory_found;
  select_payload_missing = memory_missing;
}

abbrev sum : List ℕ → ℕ
sum [] = 0
sum (x ∷ xs) = x + sum xs

-- a checksum of one digit for a digest
abbrev pub checksum : Hmac
checksum = record { hexdigest = λ key body. (b'0' + (sum key + sum body) % 10) ∷ [] }

pub checksum-ascii : (key body : List ℕ) → is_ascii (checksum.hexdigest key body) ≡ true
unfolding is_ascii
checksum-ascii key body = ground arith

-- every body is one delivery of an opened issue
abbrev pub fixed_codec : Codec
fixed_codec = record {
  loads = λ b. value (
      obj (
        field (text "action") (str (text "opened"))
          (field (text "issue") (obj (field (text "number") (num 7) end)) end)));
  loads_text = λ t. value (obj end);
  dumps = λ j. text "{}";
  fromisoformat = λ t. some t;
}

abbrev pub event_at : Text → Text → Event
event_at id now = record {
  delivery_id = id;
  action = text "opened";
  event = text "issues";
  issue_number = some (pos 7);
  comment_id = none;
  sender = none;
  received_at = now;
  payload = text "{}";
}

-- an open store with one row
abbrev pub one_row : EventStore (List Event)
one_row = record { path = text "events.db"; open_on = some (event_at (text "d1") (text "1") ∷ []) }
