-- ===== src/App/Logged/Defs.antt =====
-- The lines that the loggers of the service write for a request, from the route to the handler of
-- `Exception`. What httpx and other libraries log to the same output is left out.
use issues_api_testbed.Prelude.{ℕ, Option, none, some, List, [], ◌∷◌, ◌++◌, Text, text, length}
use issues_api_testbed.Python.{Json, str, num, Fields, field, end}
use issues_api_testbed.Errors.{AppError, Crash, Result, ok, raise, app, crash}
use issues_api_testbed.Http.{Request, Response}
use issues_api_testbed.Cache.{CacheKey}
use issues_api_testbed.Logging.Lines.{Line, info, warning, line, exception, filtered, rendered}
use issues_api_testbed.Schemas.{parse_create, parse_patch, parse_comment}
use issues_api_testbed.Routes.Issues.{parse_number, parse_page, parse_per_page}
use issues_api_testbed.Routes.Issues.Lines
use issues_api_testbed.Routes.Issues.Lines.{then_lines}
use issues_api_testbed.Routes.Webhooks
use issues_api_testbed.Routes.Webhooks.{Ack, parse_limit}
use issues_api_testbed.Routes.Webhooks.Lines.{delivery_context, delivery_line, list_events_lines}
use issues_api_testbed.App.Defs.{
  App, Platform, issue_services, hook_services, get_github_client, get_event_store,
}
use issues_api_testbed.App.Serving.{
  Endpoint, get_health, post_issue, get_issues, get_issue, patch_issue, post_comment, get_comments,
  post_webhook, get_events, list_query, route, Visit, visit_id, tagged, serve,
}

-- `_app_error`
unfoldable pub app_error_line : AppError → Line
app_error_line exc = line warning (text "app_error") (
    field (text "code") (str exc.code) (
      field (text "status_code") (num exc.status_code)
        (field (text "message") (str exc.message) end)))

-- `_validation_error`
unfoldable pub validation_line : List Fields → Line
validation_line errors =
    line warning (text "request_validation_failed")
      (field (text "error_count") (num (length errors)) end)

-- a line of the exception handlers behind the middleware
unfoldable pub raised_lines : Result Response → List Line
unfolding app_error_line
raised_lines (raise (app e)) = app_error_line e ∷ []
raised_lines _ = []

abbrev pub completed : ℕ → Line
completed status_code =
    line info (text "request_completed") (field (text "status_code") (num status_code) end)

-- the line of the middleware, and of the handler of `Exception` outside it
unfoldable pub ended_lines : (Crash → Text) → Result Response → List Line
ended_lines traceback (ok r) = completed r.status ∷ []
ended_lines traceback (raise (app e)) = completed e.status_code ∷ []
ended_lines traceback (raise (crash c)) =
    exception (text "request_failed") (traceback c)
    ∷ exception (text "unhandled_exception") (traceback c)
    ∷ []

module _ (p : Platform) where
  open p use {floats, db, errors, structlog}

  -- A request with its method and path; the milliseconds that the call of GitHub takes, Python's `str`
  -- of a key of the cache, the text of a traceback, and the times at which lines are written.
  pub record Trace : Type 0 where
    pub visit : Visit p
    pub method : Text
    pub path : Text
    pub duration_ms : Json
    pub show : CacheKey → Text
    pub traceback : Crash → Text
    pub stamps : ℕ → Text

  -- a request whose tracebacks have no text
  abbrev pub untraced : Trace → Trace
  untraced t = record t { traceback = λ c. [] }

  unfoldable pub validated_lines : {A : Type 0} → Option A → (A → List Line) → List Line
  validated_lines none f = validation_line errors ∷ []
  validated_lines (some a) f = f a

  -- the lines of a route and of the validation of its parameters
  unfoldable pub route_lines : Trace → Request → Endpoint → App db.Database → List Line
  unfolding validation_line validated_lines then_lines
  route_lines t request get_health state = []
  route_lines t request (post_issue body) state = then_lines (get_github_client state) λ _.
      validated_lines (parse_create body) λ payload.
        Lines.create_issue_lines (issue_services p state.settings t.visit.up) t.duration_ms t.show
          payload
  route_lines t request (get_issues filter labels page per_page etag) state =
      then_lines (get_github_client state) λ _.
        validated_lines (list_query filter labels page per_page etag) λ q.
          Lines.list_issues_lines (issue_services p state.settings t.visit.up) t.duration_ms t.show
            q state.cache
  route_lines t request (get_issue number) state = then_lines (get_github_client state) λ _.
      validated_lines (parse_number number) λ n.
        Lines.get_issue_lines (issue_services p state.settings t.visit.up) t.duration_ms t.show n
  route_lines t request (patch_issue number body) state = then_lines (get_github_client state) λ _.
      validated_lines (parse_number number) λ n. validated_lines (parse_patch body) λ payload.
        Lines.update_issue_lines (issue_services p state.settings t.visit.up) t.duration_ms t.show n
          payload
  route_lines t request (post_comment number body) state = then_lines (get_github_client state) λ _.
      validated_lines (parse_number number) λ n. validated_lines (parse_comment body) λ payload.
        Lines.create_comment_lines (issue_services p state.settings t.visit.up) t.duration_ms t.show
          n payload
  route_lines t request (get_comments number page per_page) state =
      then_lines (get_github_client state) λ _. validated_lines (parse_number number) λ n.
        validated_lines (parse_page page) λ pg. validated_lines (parse_per_page per_page) λ pp.
          Lines.list_comments_lines (issue_services p state.settings t.visit.up) t.duration_ms
            t.show n pg pp
  route_lines t request post_webhook state = []
  route_lines t request (get_events limit) state = then_lines (get_event_store state) λ st.
      validated_lines (parse_limit limit)
        λ n. list_events_lines (hook_services p state.settings) request.request_id n st

  -- `bind_contextvars`, after `clear_contextvars`
  unfoldable pub request_context : Trace → Fields
  request_context t =
      structlog.bind_contextvars
        (field (text "request_id") (str (visit_id p t.visit))
          (field (text "method") (str t.method) (field (text "path") (str t.path) end)))
        end

  -- the lines before the response is sent
  unfoldable pub request_lines : Trace → App db.Database → List Line
  unfolding route_lines raised_lines ended_lines
  request_lines t state =
      let r = (route p t.visit.up t.visit.now (tagged p t.visit) t.visit.endpoint state).0 in
      route_lines t (tagged p t.visit) t.visit.endpoint state
      ++ raised_lines r
      ++ ended_lines t.traceback r

  -- the acknowledgement whose background task runs after the response
  unfoldable pub acknowledged : Visit p → Endpoint → App db.Database → Option Ack
  acknowledged v post_webhook state = elim (get_event_store state) [
    | raise e ↦ none
    | ok st ↦
        elim (Webhooks.receive_webhook (hook_services p state.settings) (tagged p v) v.now st).0 [
          | raise e ↦ none
          | ok a ↦ some a
        ]
  ]
  acknowledged v _ state = none

  unfoldable pub background_lines : Trace → Text → ℕ → Option Ack → List Json
  background_lines t level n none = []
  background_lines t level n (some a) =
      rendered structlog t.stamps n (delivery_context structlog a (request_context t))
        (filtered structlog level (delivery_line a ∷ []))

  -- what is written for a request, in order
  unfoldable pub log : Trace → App db.Database → List Json
  unfolding request_lines acknowledged background_lines
  log t state =
      let lines = filtered structlog state.settings.log_level (request_lines t state) in
      rendered structlog t.stamps 0 (request_context t) lines
      ++ background_lines t state.settings.log_level (length lines)
          (acknowledged t.visit t.visit.endpoint state)

  -- what is written for several requests
  unfoldable pub logs : List Trace → App db.Database → List Json
  logs [] state = []
  logs (t ∷ ts) state = log t state ++ logs ts (serve p t.visit state).1
