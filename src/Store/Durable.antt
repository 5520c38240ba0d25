-- ===== src/Store/Durable.antt =====
-- Calls of `record` that overlap, and a process that may end at any time: what has returned is in
-- the file, and one call for each key has reported its delivery as stored.
use issues_api_testbed.Prelude.{
  ℕ, ◌+◌, ◌≤◌, ◌≡◌, refl, inl, inr, true, false, not, ◌&&◌, some, List, ◌∷◌, arith, All, ltb,
  nat_eq, Option-cases, Bool-cases, text_eq,
}
use issues_api_testbed.Store.Sql.{Event, Sqlite, IsSqlite, same_key, has_delivery}
use issues_api_testbed.Store.Idempotent.{absorb}
use issues_api_testbed.Store.Redelivery.{has_delivery_cong}
use issues_api_testbed.Store.Interleaved.{
  Disk, IsDisk, Inserted, Server, Takes, connected, execute, commit, restart, Step, executes,
  commits, restarts, Reach, here, next,
}
use issues_api_testbed.Store.Claims.{
  won, will_win, Seen, Kept, will_win_unseen, won_unseen, has_delivery-absorb,
  has_delivery-absorb_self, All-Seen-mono, All-Kept-mono, taken, will_win_taken,
}

module _ (db : Sqlite) (disk : Disk db) where
  open db use {Database, rows}
  open disk use {File, open_file}

  pub record IsSound (s : Server Database File) : Type 0 where
    pub within :
        (k : Event)
        → has_delivery k (rows (open_file s.file)) ≡ true
        → has_delivery k (rows s.seen) ≡ true
    pub waiting : All (Seen (rows s.seen)) s.pending
    pub durable : All (Kept (rows (open_file s.file))) s.returned
    pub once : (k : Event) → will_win k s.pending + won k s.returned ≤ 1

  module _ (law : IsSqlite db) (disk_law : IsDisk db disk) where
    -- the statement, on a value that can be bound
    executed :
        (e : Event) (d d' : Database) (n : ℕ)
        → db.insert_or_ignore e d ≡ some (d', n)
        → (rows d' ≡ absorb (rows d) e) × (ltb 0 n ≡ not (has_delivery e (rows d)))
    executed e d d' n put = elim (Bool-cases (has_delivery e (rows d))) [
      | inl old ↦
          let (none_added, same) = law.insert_present e d d' n old put in
          (rw old same, rw (old, none_added) refl)
      | inr new ↦
          let (one_added, more) = law.insert_new e d d' n new put in
          (rw new more, rw (new, one_added) refl)
    ]

    -- a delivery that is new to the connection is claimed by no call yet
    one_claim :
        (k e : Event) (n : ℕ) (s : Server Database File)
        → IsSound s
        → ltb 0 n ≡ not (has_delivery e (rows s.seen))
        → will_win k (record { event = e; rowcount = n } ∷ s.pending) + won k s.returned ≤ 1
    one_claim k e n s h claim = elim (Bool-cases (ltb 0 n && same_key k e)) [
      | inr other ↦ rw other (ground (arith, h.once k))
      | inl same ↦
          let unseen : has_delivery k (rows s.seen) ≡ false =
            ground (arith, has_delivery_cong k e (rows s.seen)) in
          let seen =
            All-Kept-mono (rows (open_file s.file)) (rows s.seen) h.within s.returned h.durable in
          ground (
            arith,
            will_win_unseen k (rows s.seen) s.pending unseen h.waiting,
            won_unseen k (rows s.seen) s.returned unseen seen,
          )
    ]

    execute-IsSound :
        (e : Event) (s : Server Database File) → IsSound s → IsSound (execute db disk e s)
    unfolding execute
    execute-IsSound e s h = elim (Option-cases (db.insert_or_ignore e s.seen)) [
      | inl unbound ↦ rw (unbound, execute) h
      | inr ((d, n), put) ↦
          let (added, won_now) = executed e s.seen d n put in
          let grows : (k : Event)
              → has_delivery k (rows s.seen) ≡ true
              → has_delivery k (rows d) ≡ true =
            λ k i. rw added (has_delivery-absorb k e (rows s.seen) i) in
          rw (put, execute)
            (record {
              within = λ k i. grows k (h.within k i);
              waiting = (
                rw added (has_delivery-absorb_self e (rows s.seen)),
                All-Seen-mono (rows s.seen) (rows d) grows s.pending h.waiting,
              );
              durable = h.durable;
              once = λ k. one_claim k e n s h won_now;
            })
    ]

    commit-IsSound :
        (p : Inserted) (rest : List Inserted) (s : Server Database File)
        → Takes p s.pending rest
        → IsSound s
        → IsSound (commit db disk p rest s)
    unfolding commit
    commit-IsSound p rest s t h =
        let same = disk_law.open_file-commit s.seen s.file in
        let (mine, others) = taken (rows s.seen) t h.waiting in
        record {
          within = λ k. rw same (λ i. i);
          waiting = others;
          durable = (
            rw same mine,
            All-Kept-mono (rows (open_file s.file)) (rows (open_file (disk.commit s.seen s.file)))
                (λ k i. rw same (h.within k i)) s.returned h.durable,
          );
          once = λ k. omega (arith, h.once k, will_win_taken k t);
        }

    restart-IsSound : (s : Server Database File) → IsSound s → IsSound (restart db disk s)
    unfolding restart
    restart-IsSound s h = record {
      within = λ k i. rw (law.rows-create_if_missing (open_file s.file)) i;
      waiting = tt;
      durable = h.durable;
      once = λ k. omega (arith, h.once k);
    }

    Step-IsSound : {s t : Server Database File} → Step db disk s t → IsSound s → IsSound t
    Step-IsSound {s} (executes e) h = execute-IsSound e s h
    Step-IsSound {s} (commits p rest t) h = commit-IsSound p rest s t h
    Step-IsSound {s} restarts h = restart-IsSound s h

    Reach-IsSound : {s t : Server Database File} → Reach db disk s t → IsSound s → IsSound t
    Reach-IsSound here h = h
    Reach-IsSound (next r st) h = Step-IsSound st (Reach-IsSound r h)

    connected-IsSound : (f : File) → IsSound (connected db disk f)
    unfolding connected
    connected-IsSound f = record {
      within = λ k i. rw (law.rows-create_if_missing (open_file f)) i;
      waiting = tt;
      durable = tt;
      once = λ k. omega arith;
    }

    -- From a file on, however calls of `record` overlap, and however often the process ends at any
    -- moment: no two calls with one id and action report their delivery as stored.
    pub stored_once :
        {t : Server Database File} (f : File) (k : Event)
        → Reach db disk (connected db disk f) t
        → won k t.returned ≤ 1
    stored_once f k run = omega (arith, (Reach-IsSound run (connected-IsSound f)).once k)

    -- From a file on, however calls of `record` overlap, and however often the process ends at any
    -- moment: the file has a row for the id and action of every call that has returned.
    pub returned_is_durable :
        {t : Server Database File} (f : File)
        → Reach db disk (connected db disk f) t
        → All (Kept (rows (open_file t.file))) t.returned
    returned_is_durable f run = (Reach-IsSound run (connected-IsSound f)).durable
