-- ===== src/App/Opening.antt =====
-- The store that `lifespan` opens.
use issues_api_testbed.Prelude.{
  ◌≡◌, ◌⊎◌, ◌∙◌, inl, inr, ap, true, false, none, some, ◌++◌, arith, Text,
}
use issues_api_testbed.Errors.{Result-cases, Exc, ok, raise, crash, value_error, database_error}
use issues_api_testbed.Config.{sqlite_path, sqlite_prefix, sqlite_path_iff}
use issues_api_testbed.Store.{EventStore, IsSqlite}
use issues_api_testbed.Store.Recent.{connect_lem, connect_fails}
use issues_api_testbed.App.Defs.{Platform, open_store}

refused_url : (url : Text) (e : Exc) → sqlite_path url ≡ raise e → e ≡ crash value_error
unfolding sqlite_path
refused_url url e h = ground arith

module _ (p : Platform) where
  open p use {db}

  -- a store at a path, open on a file
  abbrev pub opened_at : Text → db.Database → EventStore db.Database
  opened_at path file = record { path = path; open_on = some (db.create_if_missing file) }

  -- Where it returns, the URL has the prefix, and the store is open on the file at its path.
  pub open_store_lem :
      (file : db.Database) (url : Text) (st : EventStore db.Database)
      → open_store p file url ≡ ok st
      → (path : Text) × (url ≡ sqlite_prefix ++ path)
        × (db.opens file ≡ true)
        × (st ≡ opened_at path file)
  unfolding open_store
  open_store_lem file url st h = elim (Result-cases (sqlite_path url)) [
    | inl (e, bad) ↦ absurd (ground arith)
    | inr (path, read) ↦
        let (opens, made) =
          connect_lem db file (record { path = path; open_on = none }) st (ground arith) in
        (path, (sqlite_path_iff url path).0 read, opens, made)
  ]

  -- Where it raises, the URL is refused, or the file cannot be opened.
  pub open_store_fails :
      (file : db.Database) (url : Text) (e : Exc)
      → open_store p file url ≡ raise e
      → ((sqlite_path url ≡ raise (crash value_error)) × (e ≡ crash value_error))
        ⊎ ((path : Text) × (url ≡ sqlite_prefix ++ path)
            × (db.opens file ≡ false)
            × (e ≡ crash database_error))
  unfolding open_store
  open_store_fails file url e h = elim (Result-cases (sqlite_path url)) [
    | inl (x, bad) ↦ let why = refused_url url x bad in inl (bad ∙ ap raise why, ground arith)
    | inr (path, read) ↦
        let (shut, why) =
          connect_fails db file (record { path = path; open_on = none }) e (ground arith) in
        inr (path, (sqlite_path_iff url path).0 read, shut, why)
  ]

  -- The store that is opened has the rows of its file.
  pub open_store-rows :
      (law : IsSqlite db) (file : db.Database) (url : Text) (st : EventStore db.Database)
      → open_store p file url ≡ ok st
      → (d : db.Database) × (st.open_on ≡ some d) × (db.rows d ≡ db.rows file)
  open_store-rows law file url st h =
      let (path, at, opens, made) = open_store_lem file url st h in
      (
        db.create_if_missing file,
        ap (λ (s : EventStore db.Database). s.open_on) made,
        law.rows-create_if_missing file,
      )
