-- ===== src/Store/Interleaved.antt =====
-- Several calls of `record` on one connection. A call gives way to the others at its two `await`s,
-- for the statement and for the commit; and the process may end at any time, which leaves what was
-- committed.
use issues_api_testbed.Prelude.{ℕ, ◌≡◌, Bool, none, some, List, [], ◌∷◌, ltb}
use issues_api_testbed.Store.Sql.{Event, Sqlite}

-- The file of a database, as SQLite's transactions leave it.
pub record Disk (db : Sqlite) : Type 1 where
  pub File : Type 0
  -- the content that a connection finds when it is opened
  pub open_file : File → db.Database
  -- the file after a commit of what the connection sees
  pub commit : db.Database → File → File

-- What was committed is found again.
pub record IsDisk (db : Sqlite) (disk : Disk db) : Type 0 where
  pub open_file-commit :
      (d : db.Database) (f : disk.File) → db.rows (disk.open_file (disk.commit d f)) ≡ db.rows d

-- a call whose statement was executed, with `cursor.rowcount`
pub record Inserted : Type 0 where
  pub event : Event
  pub rowcount : ℕ

-- what a call that has returned was called with, and what it returned
pub record Returned : Type 0 where
  pub event : Event
  pub stored : Bool

-- The file, what the connection sees of it, the calls that wait for their commit, and the calls that
-- have returned, under this process or an earlier one.
pub record Server (D F : Type 0) : Type 0 where
  pub file : F
  pub seen : D
  pub pending : List Inserted
  pub returned : List Returned

-- one of several waiting calls, and the others
pub data Takes (p : Inserted) : List Inserted → List Inserted → Type 0 where
  first : {ps : List Inserted} → Takes p (p ∷ ps) ps
  later : {x : Inserted} {ps qs : List Inserted} → Takes p ps qs → Takes p (x ∷ ps) (x ∷ qs)

module _ (db : Sqlite) (disk : Disk db) where
  open db use {Database}
  open disk use {File}

  -- `await self.connection.execute(…)`; where a value cannot be bound the call raises and is over
  unfoldable pub execute : Event → Server Database File → Server Database File
  execute e s = elim (db.insert_or_ignore e s.seen) [
    | none ↦ s
    | some (d, rowcount) ↦ record s {
      seen = d;
      pending = record { event = e; rowcount = rowcount } ∷ s.pending;
    }
  ]

  -- `await self.connection.commit()`, then `return cursor.rowcount > 0`
  unfoldable pub commit : Inserted → List Inserted → Server Database File → Server Database File
  commit p rest s = record s {
    file = disk.commit s.seen s.file;
    pending = rest;
    returned = record { event = p.event; stored = ltb 0 p.rowcount } ∷ s.returned;
  }

  -- `connect`, on a file
  unfoldable pub connected : File → Server Database File
  connected f = record {
    file = f;
    seen = db.create_if_missing (disk.open_file f);
    pending = [];
    returned = [];
  }

  -- the process ends, and another connects to the file
  unfoldable pub restart : Server Database File → Server Database File
  restart s = record s { seen = db.create_if_missing (disk.open_file s.file); pending = [] }

  pub data Step (s : Server Database File) : Server Database File → Type 0 where
    executes : (e : Event) → Step s (execute e s)
    commits :
        (p : Inserted) (rest : List Inserted) → Takes p s.pending rest → Step s (commit p rest s)
    restarts : Step s (restart s)

  pub data Reach (s : Server Database File) : Server Database File → Type 0 where
    here : Reach s s
    next : {t u : Server Database File} → Reach s t → Step t u → Reach s u
