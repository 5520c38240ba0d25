-- ===== src/App/Sound.antt =====
-- The application over any sequence of requests: what its cache and its store keep.
use issues_api_testbed.Prelude.{
  ◌≡◌, ◌⊎◌, sym, subst, inl, inr, Option, Option-cases, none, some, List, [], ◌∷◌, arith, Text,
  pair_eq, text_eq, nat_eq,
}
use issues_api_testbed.Errors.{Result-cases, ok}
use issues_api_testbed.Http.{Request}
use issues_api_testbed.Config.Settings.{Settings}
use issues_api_testbed.Cache.{init, CacheKey, CachedList}
use issues_api_testbed.Cache.Lru.{run, run-IsValid}
use issues_api_testbed.Store.{Event, EventStore, Sqlite, IsSqlite, record_event}
use issues_api_testbed.Store.Idempotent.{Distinct}
use issues_api_testbed.Store.Redelivery.{held, after, record_all, record_all-Distinct}
use issues_api_testbed.Github.{Upstream}
use issues_api_testbed.Routes.Issues.Answers.{IsBounded, list_issues-IsBounded}
use issues_api_testbed.Routes.Webhooks.{Services, check_delivery, receive_webhook, event_row}
use issues_api_testbed.App.Opening.{open_store-rows}
use issues_api_testbed.App.Defs.{
  App, Platform, issue_services, hook_services, create_app, open_store, startup, get_github_client,
  get_event_store,
}
use issues_api_testbed.App.Serving.{
  Endpoint, get_health, post_issue, get_issues, get_issue, patch_issue, post_comment, get_comments,
  post_webhook, get_events, list_query, route, Visit, tagged, serve, serve_all,
}

after_not_connected :
    (db : Sqlite) (e : Event) (s : EventStore db.Database) → s.open_on ≡ none → after db e s ≡ s
unfolding record_event
after_not_connected db e s h = ground arith

after-Distinct :
    (db : Sqlite) (law : IsSqlite db) (e : Event) (s : EventStore db.Database)
    → Distinct (held db s)
    → Distinct (held db (after db e s))
unfolding record_all
after-Distinct db law e s h = elim (Option-cases s.open_on) [
  | inl shut ↦
      subst (λ (t : EventStore db.Database). Distinct (held db t))
        (sym (after_not_connected db e s shut)) h
  | inr (d, o) ↦ record_all-Distinct db law (e ∷ []) d s o (at_open db d s o h)
]
  where
    at_open :
        (db : Sqlite) (d : db.Database) (s : EventStore db.Database)
        → s.open_on ≡ some d
        → Distinct (held db s)
        → Distinct (db.rows d)
    at_open db d s o h = rw o at h

-- a delivery is recorded, or the store stays as it is
received :
    (sv : Services) (request : Request) (now : Text) (s : EventStore sv.db.Database)
    → ((receive_webhook sv request now s).1 ≡ s)
      ⊎ ((e : Event) × ((receive_webhook sv request now s).1 ≡ after sv.db e s))
unfolding receive_webhook
received sv request now s = elim (Result-cases (check_delivery sv request)) [
  | inl (e, failed) ↦ inl (ground arith)
  | inr (dl, passed) ↦ inr (event_row sv dl now, ground arith)
]

receive_webhook-Distinct :
    (sv : Services) (law : IsSqlite sv.db) (request : Request) (now : Text)
    (s : EventStore sv.db.Database)
    → Distinct (held sv.db s)
    → Distinct (held sv.db (receive_webhook sv request now s).1)
receive_webhook-Distinct sv law request now s h = elim (received sv request now s) [
  | inl same ↦ subst (λ (t : EventStore sv.db.Database). Distinct (held sv.db t)) (sym same) h
  | inr (e, put) ↦
      subst (λ (t : EventStore sv.db.Database). Distinct (held sv.db t)) (sym put)
        (after-Distinct sv.db law e s h)
]

-- the rows of an application's store; none before it has started
abbrev pub rows_of : (db : Sqlite) → Option (EventStore db.Database) → List Event
rows_of db none = []
rows_of db (some s) = held db s

-- The cache is valid, with the bound of the settings, and no two rows have one key.
pub record IsSound (db : Sqlite) (state : App db.Database) : Type 0 where
  pub cache : IsBounded state.settings.cache_max_entries state.cache
  pub rows : Distinct (rows_of db state.store)

pub store_there :
    {D : Type 0} (state : App D) (st : EventStore D)
    → get_event_store state ≡ ok st
    → state.store ≡ some st
unfolding get_event_store
store_there state st h = ground arith

module _ (p : Platform) (law : IsSqlite p.db) where
  open p use {floats, db}

  create_app-IsSound :
      (settings : Settings) (state : App db.Database)
      → create_app settings ≡ ok state
      → IsSound db state
  unfolding create_app run
  create_app-IsSound settings state h =
      elim (Result-cases (init {K = CacheKey} {V = CachedList} settings.cache_max_entries)) [
        | inl (e, failed) ↦ absurd (ground arith)
        | inr (c, made) ↦
            let start = run-IsValid ⦃e = pair_eq⦄ settings.cache_max_entries [] made in
            subst (IsSound db) (ground arith) (
              let fresh : IsSound db
                  (record { settings = settings; cache = c; github = none; store = none }) =
                record { cache = start; rows = tt } in
              fresh)
      ]

  startup-IsSound :
      (file : db.Database) (state : App db.Database)
      → Distinct (db.rows file)
      → IsSound db state
      → IsSound db (startup p file state).1
  unfolding startup
  startup-IsSound file state d h =
      elim (Result-cases (open_store p file state.settings.database_url)) [
        | inl (e, failed) ↦ rw (failed, startup) (record { cache = h.cache; rows = h.rows })
        | inr (st, made) ↦
            let (db', open_on, same) =
              open_store-rows p law file state.settings.database_url st made in
            rw (made, startup) (record { cache = h.cache; rows = rw open_on (rw same d) })
      ]

  route-IsSound :
      (up : Upstream floats) (now : Text) (request : Request) (e : Endpoint)
      (state : App db.Database)
      → IsSound db state
      → IsSound db (route p up now request e state).1
  unfolding route
  route-IsSound up now request get_health state h = h
  route-IsSound up now request (post_issue body) state h = h
  route-IsSound up now request (get_issue number) state h = h
  route-IsSound up now request (patch_issue number body) state h = h
  route-IsSound up now request (post_comment number body) state h = h
  route-IsSound up now request (get_comments number page per_page) state h = h
  route-IsSound up now request (get_events limit) state h = h
  route-IsSound up now request (get_issues filter labels page per_page etag) state h =
      elim (Result-cases (get_github_client state)) [
        | inl (e, failed) ↦ rw (failed, route) h
        | inr (c, there) ↦ elim (Option-cases (list_query filter labels page per_page etag)) [
          | inl invalid ↦ rw (there, route) (rw (invalid, route) h)
          | inr (q, valid) ↦
              rw (there, route)
                (rw (valid, route)
                  (record {
                    cache =
                        list_issues-IsBounded (issue_services p state.settings up)
                          state.settings.cache_max_entries q state.cache h.cache;
                    rows = h.rows;
                  }))
        ]
      ]
  route-IsSound up now request post_webhook state h = elim (Result-cases (get_event_store state)) [
    | inl (e, failed) ↦ rw (failed, route) h
    | inr (st, there) ↦
        rw (there, route)
          (record {
            cache = h.cache;
            rows = receive_webhook-Distinct (hook_services p state.settings) law request now st (
                subst (λ (o : Option (EventStore db.Database)). Distinct (rows_of db o))
                  (store_there state st there) h.rows);
          })
  ]

  -- After any requests, whatever they hold and whatever GitHub answers, an application that was
  -- made of its settings and started on a file whose rows have distinct keys, whether its start
  -- succeeded or not, has a cache that is valid and bounded as the settings say, and no two rows of
  -- its store have one id and action.
  pub serve_all-IsSound :
      (settings : Settings) (state : App db.Database) (file : db.Database) (visits : List (Visit p))
      → create_app settings ≡ ok state
      → Distinct (db.rows file)
      → IsSound db (serve_all p visits (startup p file state).1)
  unfolding serve serve_all
  serve_all-IsSound settings state file visits made d =
      kept visits (startup p file state).1
        (startup-IsSound file state d (create_app-IsSound settings state made))
    where
      kept :
          (visits : List (Visit p)) (state : App db.Database)
          → IsSound db state
          → IsSound db (serve_all p visits state)
      kept [] state h = h
      kept (v ∷ visits) state h =
          kept visits (serve p v state).1 (route-IsSound v.up v.now (tagged p v) v.endpoint state h)
