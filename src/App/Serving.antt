-- ===== src/App/Serving.antt =====
-- A request through the application: the middleware, the route with its dependencies, and the
-- handlers of exceptions. FastAPI runs the dependencies, then refuses what does not validate.
use issues_api_testbed.Prelude.Int.{ℤ}
use issues_api_testbed.Prelude.{Option, none, some, List, [], ◌∷◌, Text}
use issues_api_testbed.Python.{Json}
use issues_api_testbed.Errors.{Result, ok, raise, app, crash, ◌>>=◌}
use issues_api_testbed.Http.{Request, Response}
use issues_api_testbed.Handlers.{app_error_response, validation_response, unhandled_response}
use issues_api_testbed.Logging.{request_id_header, chosen_id, request_context_middleware}
use issues_api_testbed.Schemas.{IssueStateFilter, parse_create, parse_patch, parse_comment}
use issues_api_testbed.Github.{Upstream}
use issues_api_testbed.Store.{EventStore}
use issues_api_testbed.Routes.Issues
use issues_api_testbed.Routes.Issues.{parse_number, parse_page, parse_per_page}
use issues_api_testbed.Routes.Webhooks
use issues_api_testbed.Routes.Webhooks.{ack_response, Ack, parse_limit}
use issues_api_testbed.App.Defs.{
  App, Platform, issue_services, hook_services, healthz, get_settings_dep, get_response_cache,
  get_github_client, get_event_store,
}

-- The routes, with their parameters as they are before validation. A state is one of the
-- enumeration already.
pub data Endpoint : Type 0 where
  get_health : Endpoint
  post_issue : Json → Endpoint
  get_issues : IssueStateFilter → Option Text → ℤ → ℤ → Option Text → Endpoint
  get_issue : ℤ → Endpoint
  patch_issue : ℤ → Json → Endpoint
  post_comment : ℤ → Json → Endpoint
  get_comments : ℤ → ℤ → ℤ → Endpoint
  post_webhook : Endpoint
  get_events : ℤ → Endpoint

-- Starlette's `ExceptionMiddleware`: the handlers of `AppError`, and no other exception
abbrev pub recovered : Option Text → Result Response → Result Response
recovered request_id (ok r) = ok r
recovered request_id (raise (app e)) = ok (app_error_response request_id e)
recovered request_id (raise (crash c)) = raise (crash c)

-- Starlette's `ServerErrorMiddleware`, outside all others: the handler of `Exception`
abbrev pub outermost : Option Text → Result Response → Response
outermost request_id (ok r) = r
outermost request_id (raise e) = unhandled_response request_id

-- the parameters of `list_issues`
abbrev pub list_query :
    IssueStateFilter → Option Text → ℤ → ℤ → Option Text → Option Issues.ListQuery
list_query filter labels page per_page etag = elim (parse_page page) [
  | none ↦ none
  | some pg ↦ elim (parse_per_page per_page) [
    | none ↦ none
    | some pp ↦
        some (record {
          state = filter;
          labels = labels;
          page = pg;
          per_page = pp;
          if_none_match = etag;
        })
  ]
]

module _ (p : Platform) where
  open p use {floats, db, errors}

  -- `_validation_error`, unless the parameters are valid
  abbrev pub validated : {A : Type 0} → Request → Option A → (A → Result Response) → Result Response
  validated request none f = ok (validation_response request.request_id errors)
  validated request (some a) f = f a

  -- a route that leaves the state alone, behind its dependency on the client
  abbrev pub with_client :
      App db.Database → (Unit {0} → Result Response) → Result Response × App db.Database
  with_client state f = (get_github_client state >>= λ _. f tt, state)

  -- `list_issues`, and the cache that it leaves
  abbrev cached_page :
      App db.Database → Result Response × Issues.Cache → Result Response × App db.Database
  cached_page state (r, c) = (r, record state { cache = c })

  abbrev listed :
      Upstream floats
      → App db.Database
      → Request
      → Option Issues.ListQuery
      → Result Response × App db.Database
  listed up state request none = (ok (validation_response request.request_id errors), state)
  listed up state request (some q) = cached_page state (
      Issues.list_issues (issue_services p (get_settings_dep state) up) q
        (get_response_cache state))

  -- `receive_webhook`, and the store that it leaves
  abbrev stored :
      App db.Database → Result Ack × EventStore db.Database → Result Response × App db.Database
  stored state (a, st) = (ack_response a, record state { store = some st })

  -- The route of an endpoint, at the time `now`.
  unfoldable pub route :
      Upstream floats
      → Text
      → Request
      → Endpoint
      → App db.Database
      → Result Response × App db.Database
  route up now request get_health state = (ok (healthz state.settings), state)
  route up now request (post_issue body) state = with_client state λ _.
      validated request (parse_create body)
        λ payload. Issues.create_issue (issue_services p (get_settings_dep state) up) payload
  route up now request (get_issues filter labels page per_page etag) state =
      elim (get_github_client state) [
        | raise e ↦ (raise e, state)
        | ok _ ↦ listed up state request (list_query filter labels page per_page etag)
      ]
  route up now request (get_issue number) state = with_client state λ _.
      validated request (parse_number number)
        λ n. Issues.get_issue (issue_services p (get_settings_dep state) up) n
  route up now request (patch_issue number body) state = with_client state λ _.
      validated request (parse_number number) λ n.
        validated request (parse_patch body)
          λ payload. Issues.update_issue (issue_services p (get_settings_dep state) up) n payload
  route up now request (post_comment number body) state = with_client state λ _.
      validated request (parse_number number) λ n.
        validated request (parse_comment body)
          λ payload. Issues.create_comment (issue_services p (get_settings_dep state) up) n payload
  route up now request (get_comments number page per_page) state = with_client state λ _.
      validated request (parse_number number) λ n. validated request (parse_page page) λ pg.
        validated request (parse_per_page per_page)
          λ pp. Issues.list_comments (issue_services p (get_settings_dep state) up) n pg pp
  route up now request post_webhook state = elim (get_event_store state) [
    | raise e ↦ (raise e, state)
    | ok st ↦
        stored state
          (Webhooks.receive_webhook (hook_services p (get_settings_dep state)) request now st)
  ]
  route up now request (get_events limit) state = (
    get_event_store state >>= λ st.
        validated request (parse_limit limit)
          λ n. Webhooks.list_events (hook_services p (get_settings_dep state)) n st,
    state,
  )

  -- A request, its endpoint, the text of a fresh UUID and the time; and GitHub meanwhile.
  pub record Visit : Type 0 where
    pub up : Upstream floats
    pub request : Request
    pub endpoint : Endpoint
    pub fresh : Text
    pub now : Text

  abbrev pub visit_id : Visit → Text
  visit_id v = chosen_id (v.request.header request_id_header) v.fresh

  -- the request as the routes see it
  abbrev pub tagged : Visit → Request
  tagged v = record v.request { request_id = some (visit_id v) }

  -- The response to a request, and the state behind it.
  unfoldable pub serve : Visit → App db.Database → Response × App db.Database
  serve v state =
      let (r, state') = route v.up v.now (tagged v) v.endpoint state in
      (
        outermost (some (visit_id v)) (
            request_context_middleware v.request v.fresh
              (λ request. recovered request.request_id r)),
        state',
      )

  unfoldable pub serve_all : List Visit → App db.Database → App db.Database
  serve_all [] state = state
  serve_all (v ∷ visits) state = serve_all visits (serve v state).1
