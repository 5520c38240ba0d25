-- ===== src/Tests/Crashed.antt =====
-- Deliveries that come in twice, with a process that ends between the statement and the commit, and
-- rows that a clock has stamped.
use mathlib.Core.List.{reverse}
use issues_api_testbed.Prelude.Int.{pos}
use issues_api_testbed.Prelude.{
  ℕ, ◌≡◌, ◌≤◌, ◌<◌, refl, sym, subst, some, List, [], ◌∷◌, ◌++◌, map, arith, All, text, text_beq,
  take,
}
use issues_api_testbed.Errors.{ok}
use issues_api_testbed.Store.{Event, EventStore, recent, to_stored}
use issues_api_testbed.Store.Interleaved.{
  Disk, IsDisk, Inserted, Server, Takes, first, connected, execute, commit, restart, executes,
  commits, restarts, Reach, here, next,
}
use issues_api_testbed.Store.Claims.{won, Kept}
use issues_api_testbed.Store.Durable.{stored_once, returned_is_durable}
use issues_api_testbed.Store.Redelivery.{record_all, arrivals}
use issues_api_testbed.Store.Clock.{Moment, IsMoment, isoformat, moment_leb}
use issues_api_testbed.Store.Timeline.{recent_by_clock}
use issues_api_testbed.Tests.Samples.{memory, memory-IsSqlite, event_at}

-- a file that holds what was committed last
abbrev file : Disk memory
file = record { File = List Event; open_file = λ f. f; commit = λ d f. d }

file-IsDisk : IsDisk memory file
file-IsDisk = record { open_file-commit = λ d f. refl }

abbrev delivery : Event
delivery = event_at (text "d2") (text "2")

abbrev repeat : Event
repeat = event_at (text "d2") (text "3")

abbrev rows : List Event
rows = event_at (text "d1") (text "1") ∷ []

abbrev started : Server (List Event) (List Event)
started = connected memory file rows

-- two statements for one key, and the commit of the later one
abbrev stored : Inserted
stored = record { event = delivery; rowcount = 1 }

abbrev ignored : Inserted
ignored = record { event = repeat; rowcount = 0 }

abbrev both : Server (List Event) (List Event)
both = execute memory file repeat (execute memory file delivery started)

both_pending : both.pending ≡ ignored ∷ stored ∷ []
unfolding connected execute text text_beq
both_pending = refl

-- the process ends with the first call still at its commit
abbrev ended : Server (List Event) (List Event)
ended = restart memory file (commit memory file ignored (stored ∷ []) both)

ended_kept : ended.seen ≡ rows ++ delivery ∷ []
unfolding connected execute commit restart text text_beq
ended_kept = refl

ended-Reach : Reach memory file started ended
ended-Reach =
    next
      (next (next (next here (executes delivery)) (executes repeat)) (
        commits ignored (stored ∷ [])
          (subst (λ ps. Takes ignored ps (stored ∷ [])) (sym both_pending) first)))
      restarts

stored_once_example : won delivery ended.returned ≤ 1
stored_once_example = stored_once memory file memory-IsSqlite file-IsDisk rows delivery ended-Reach

returned_is_durable_example : All (Kept (memory.rows (file.open_file ended.file))) ended.returned
returned_is_durable_example =
    returned_is_durable memory file memory-IsSqlite file-IsDisk rows ended-Reach

abbrev at_second : ℕ → Moment
at_second n = record {
  year = 2026;
  month = 1;
  day = 31;
  hour = 9;
  minute = 5;
  second = n;
  microsecond = 7;
}

at_second-IsMoment : (n : ℕ) → n < 60 → IsMoment (at_second n)
at_second-IsMoment n h = record {
  year = omega arith;
  month = omega arith;
  day = omega arith;
  hour = omega arith;
  minute = omega arith;
  second = h;
  microsecond = omega arith;
}

-- the first delivery of a file, another one, and the first once more
abbrev delivered : List Event
delivered =
    event_at (text "d1") (isoformat (at_second 7))
    ∷ event_at (text "d2") (isoformat (at_second 8))
    ∷ event_at (text "d1") (isoformat (at_second 10))
    ∷ []

abbrev empty_store : EventStore (List Event)
empty_store = record { path = text "events.db"; open_on = some [] }

recent_by_clock_example :
    recent memory (pos 2) (record_all memory delivered empty_store)
    ≡ ok (map to_stored (take 2 (reverse (arrivals memory [] [] delivered))))
unfolding moment_leb
recent_by_clock_example =
    recent_by_clock memory memory-IsSqlite 2 (at_second 7 ∷ at_second 8 ∷ at_second 10 ∷ [])
      delivered [] empty_store refl
      (
        at_second-IsMoment 7 (omega arith),
        refl,
        (
          at_second-IsMoment 8 (omega arith),
          refl,
          refl,
          (at_second-IsMoment 10 (omega arith), refl, refl, tt),
        ),
      )
