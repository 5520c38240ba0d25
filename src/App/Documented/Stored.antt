-- ===== src/App/Documented/Stored.antt =====
-- The rows of the application, over any requests: their events are those that the service takes.
use issues_api_testbed.Prelude.{
  ◌≡◌, subst, inl, inr, Option, Option-cases, none, List, [], ◌∷◌, arith, All, Text,
}
use issues_api_testbed.Errors.{Result-cases, ok}
use issues_api_testbed.Http.{Request}
use issues_api_testbed.Config.Settings.{Settings}
use issues_api_testbed.Store.{EventStore, IsSqlite}
use issues_api_testbed.Github.{Upstream}
use issues_api_testbed.Routes.Webhooks.Supported.{IsSupported, receive_webhook-IsSupported}
use issues_api_testbed.App.Opening.{open_store-rows}
use issues_api_testbed.App.Defs.{
  App, Platform, hook_services, create_app, open_store, startup, get_github_client, get_event_store,
}
use issues_api_testbed.App.Serving.{
  Endpoint, get_health, post_issue, get_issues, get_issue, patch_issue, post_comment, get_comments,
  post_webhook, get_events, list_query, route, Visit, tagged, serve, serve_all,
}
use issues_api_testbed.App.Sound.{rows_of, store_there}

module _ (p : Platform) (law : IsSqlite p.db) where
  open p use {floats, db}

  -- in the rows of its store
  abbrev pub HasSupported : App db.Database → Type 0
  HasSupported state = All IsSupported (rows_of db state.store)

  create_app-HasSupported :
      (settings : Settings) (state : App db.Database)
      → create_app settings ≡ ok state
      → HasSupported state
  unfolding create_app
  create_app-HasSupported settings state h =
      let unstarted : state.store ≡ none = ground arith in rw unstarted tt

  startup-HasSupported :
      (file : db.Database) (state : App db.Database)
      → All IsSupported (db.rows file)
      → HasSupported state
      → HasSupported (startup p file state).1
  unfolding startup
  startup-HasSupported file state d h =
      elim (Result-cases (open_store p file state.settings.database_url)) [
        | inl (e, failed) ↦ rw (failed, startup) h
        | inr (st, made) ↦
            let (db', open_on, same) =
              open_store-rows p law file state.settings.database_url st made in
            rw (made, startup) (rw open_on (rw same d))
      ]

  route-HasSupported :
      (up : Upstream floats) (now : Text) (request : Request) (e : Endpoint)
      (state : App db.Database)
      → HasSupported state
      → HasSupported (route p up now request e state).1
  unfolding route
  route-HasSupported up now request get_health state h = h
  route-HasSupported up now request (post_issue body) state h = h
  route-HasSupported up now request (get_issue number) state h = h
  route-HasSupported up now request (patch_issue number body) state h = h
  route-HasSupported up now request (post_comment number body) state h = h
  route-HasSupported up now request (get_comments number page per_page) state h = h
  route-HasSupported up now request (get_events limit) state h = h
  route-HasSupported up now request (get_issues filter labels page per_page etag) state h =
      elim (Result-cases (get_github_client state)) [
        | inl (e, failed) ↦ rw (failed, route) h
        | inr (c, there) ↦ elim (Option-cases (list_query filter labels page per_page etag)) [
          | inl invalid ↦ rw (there, route) (rw (invalid, route) h)
          | inr (q, valid) ↦ rw (there, route) (rw (valid, route) h)
        ]
      ]
  route-HasSupported up now request post_webhook state h =
      elim (Result-cases (get_event_store state)) [
        | inl (e, failed) ↦ rw (failed, route) h
        | inr (st, there) ↦
            rw (there, route)
              (receive_webhook-IsSupported (hook_services p state.settings) law request now st (
                subst (λ (o : Option (EventStore db.Database)). All IsSupported (rows_of db o))
                  (store_there state st there) h))
      ]

  serve_all-HasSupported :
      (visits : List (Visit p)) (state : App db.Database)
      → HasSupported state
      → HasSupported (serve_all p visits state)
  unfolding serve serve_all
  serve_all-HasSupported [] state h = h
  serve_all-HasSupported (v ∷ visits) state h =
      serve_all-HasSupported visits (serve p v state).1
        (route-HasSupported v.up v.now (tagged p v) v.endpoint state h)

  pub at_work-HasSupported :
      (settings : Settings) (state : App db.Database) (file : db.Database) (visits : List (Visit p))
      → create_app settings ≡ ok state
      → All IsSupported (db.rows file)
      → HasSupported (serve_all p visits (startup p file state).1)
  at_work-HasSupported settings state file visits made h =
      serve_all-HasSupported visits (startup p file state).1
        (startup-HasSupported file state h (create_app-HasSupported settings state made))
