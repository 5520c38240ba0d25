-- ===== src/Tests/Stored.antt =====
-- The event store on the in-memory table.
use issues_api_testbed.Prelude.{◌≡◌, refl, true, some, List, [], ◌∷◌, text, text_beq}
use issues_api_testbed.Errors.{ok}
use issues_api_testbed.Store.{Event, record_event, payload_for, count}
use issues_api_testbed.Store.Redelivery.{held, record_all, arrivals, record_all-arrivals}
use issues_api_testbed.Python.{obj, end}
use issues_api_testbed.Store.Payloads.{payload_for-record_event}
use issues_api_testbed.Tests.Samples.{memory, memory-IsSqlite, event_at, one_row, fixed_codec}

abbrev first : Event
first = event_at (text "d1") (text "1")

abbrev second : Event
second = event_at (text "d2") (text "2")

abbrev repeat : Event
repeat = event_at (text "d1") (text "3")

abbrev rows : List Event
rows = first ∷ []

-- the second delivery is stored, and the first is not stored again
run_twice : held memory (record_all memory (second ∷ repeat ∷ []) one_row) ≡ first ∷ second ∷ []
unfolding record_all record_event text text_beq
run_twice = refl

record_all-arrivals_example :
    held memory (record_all memory (second ∷ repeat ∷ []) one_row)
    ≡ arrivals memory rows rows (second ∷ repeat ∷ [])
record_all-arrivals_example =
    record_all-arrivals memory memory-IsSqlite (second ∷ repeat ∷ []) rows one_row refl

payload_for-record_event_example :
    ((record_event memory second one_row).0 ≡ ok true)
    × (payload_for memory fixed_codec (text "d2") (record_event memory second one_row).1
        ≡ ok (some (obj end)))
    × (count memory (record_event memory second one_row).1 ≡ ok 2)
unfolding text text_beq
payload_for-record_event_example =
    payload_for-record_event memory memory-IsSqlite fixed_codec second (obj end) rows one_row refl
      refl (λ e. cc) refl
