-- ===== src/App/Documented.antt =====
-- The responses that leave the service, and those that openapi.yaml has for the operation.
mod Tame
mod Raised
mod Pages
mod IssueRoutes
pub mod HookRoutes
mod Routing
mod Stored
use issues_api_testbed.Prelude.Int.{ℤ}
use issues_api_testbed.Prelude.{
  All, ℕ, ◌≡◌, ◌≢◌, ◌⊎◌, ◌||◌, ◌&&◌, ◌==◌, nat_eq, Bool-cases, refl, Bool, true, text, text_beq,
  Option, Option-cases, none, some, arith, Text, inl, inr, List,
}
use issues_api_testbed.Config.Settings.{Settings}
use issues_api_testbed.Python.{Json, null, Fields, lookup}
use issues_api_testbed.Http.Bodies.{rendered}
use issues_api_testbed.Contract.Shapes.{fits}
use issues_api_testbed.Contract.Schemas.{is_code, error_shape}
use issues_api_testbed.Contract.Responses.{
  Operation, documented, is_documented, is_left_out, json_of, asks_github,
}
use issues_api_testbed.Contract.Fits.{error_body-fits, class_code-is_code, internal_error-is_code}
use issues_api_testbed.Errors.{
  ErrorClass, validation_error, class_code, error_body, Result, Result-cases, Exc, Crash, ok, raise,
  app, crash, only_crashes, attribute_error, or_crash,
}
use issues_api_testbed.Store.{IsSqlite}
use issues_api_testbed.Routes.Webhooks.Supported.{IsSupported}
use issues_api_testbed.Http.{Request, Response}
use issues_api_testbed.Handlers.{app_error_response, validation_response, unhandled_response}
use issues_api_testbed.Logging.{request_context_middleware}
use issues_api_testbed.Github.{Upstream}
use issues_api_testbed.Routes.Issues
use issues_api_testbed.Routes.Issues.{parse_number, parse_page, parse_per_page}
use issues_api_testbed.Routes.Webhooks.{parse_limit}
use issues_api_testbed.Schemas.{parse_create, parse_patch, parse_comment}
use issues_api_testbed.App.Defs.{
  create_app, startup, App, Platform, issue_services, hook_services, get_github_client,
  get_event_store, healthz,
}
use issues_api_testbed.App.Serving.{
  Endpoint, get_health, post_issue, get_issues, get_issue, patch_issue, post_comment, get_comments,
  post_webhook, get_events, validated, with_client, recovered, outermost, list_query, route, Visit,
  visit_id, tagged, serve, serve_all,
}
use Stored.{HasSupported, at_work-HasSupported}
use Routing.{route-is_answer}
pub use Routing.{operation}
use Tame.{
  raised_by, is_expected, is_tame, is_answer, is_answer-bind, is_tame-bind, tame_of_only_crashes,
}
use IssueRoutes.{
  create_issue-is_answer, get_issue-is_answer, update_issue-is_answer, create_comment-is_answer,
  list_comments-is_answer, list_issues-is_answer,
}
use HookRoutes.{list_events-is_answer, receive_webhook-is_answer}

-- as the contract has it, or an error that the contract leaves out
abbrev pub fits_contract : Operation → Response → Bool
fits_contract op r = is_documented op r || is_left_out op r

-- an error that an operation raises on purpose is documented, or GitHub's unforeseen answer
raised_cases :
    (op : Operation) (s : ℕ)
    → raised_by op s ≡ true
    → (documented op s ≡ some (json_of error_shape)) ⊎ ((asks_github op && (s == 502)) ≡ true)
unfolding documented
raised_cases Operation.healthz s h = absurd (cc)
raised_cases Operation.create_issue s h = ground arith
raised_cases Operation.list_issues s h = ground arith
raised_cases Operation.get_issue s h = ground arith
raised_cases Operation.update_issue s h = ground arith
raised_cases Operation.create_comment s h = ground arith
raised_cases Operation.list_comments s h = ground arith
raised_cases Operation.receive_webhook s h = ground arith
raised_cases Operation.list_events s h = absurd (cc)

module _ (p : Platform) where
  open p use {floats, db}

  answer_fits :
      (v : Visit p) (op : Operation) (r : Result Response)
      → is_answer op r ≡ true
      → fits_contract op (
          outermost (some (visit_id p v)) (
            request_context_middleware v.request v.fresh λ request. recovered request.request_id r))
        ≡ true
  unfolding is_answer is_expected request_context_middleware app_error_response unhandled_response
      is_documented is_left_out rendered
  answer_fits v op (ok r) h = ground arith
  answer_fits v op (raise (app e)) h =
      let envelope =
        error_body-fits e.code e.message e.details (some (visit_id p v)) (ground arith) in
      elim (raised_cases op e.status_code (ground arith)) [
        | inl there ↦ ground arith
        | inr unforeseen ↦ ground arith
      ]
  answer_fits v op (raise (crash c)) h = ground (
    arith,
    error_body-fits (text "internal_error") (text "An unexpected error occurred.") null
        (some (visit_id p v)) internal_error-is_code,
  )

  module _ (law : IsSqlite db) where
    pub serve-fits_contract :
        (v : Visit p) (state : App db.Database)
        → (operation v.endpoint ≡ Operation.list_events → HasSupported p law state)
        → fits_contract (operation v.endpoint) (serve p v state).0 ≡ true
    unfolding serve
    serve-fits_contract v state h =
        answer_fits v (operation v.endpoint) (route p v.up v.now (tagged p v) v.endpoint state).0
          (route-is_answer p law v.up v.now (tagged p v) v.endpoint state h)

    -- Every response of an application that was made of its settings, started on a file whose rows
    -- have events that the service takes, and at work since, whatever the requests hold and GitHub
    -- answers, has a status that openapi.yaml has for the operation and a body that fits its schema
    -- there, a `minimum` of an integer aside; or it is an error envelope with the status 500, or with 502 from an operation that asks
    -- GitHub.
    pub responses_fit_contract :
        (settings : Settings) (state : App db.Database) (file : db.Database)
        (visits : List (Visit p)) (v : Visit p)
        → create_app settings ≡ ok state
        → All IsSupported (db.rows file)
        → fits_contract
            (operation v.endpoint)
            (serve p v (serve_all p visits (startup p file state).1)).0
          ≡ true
    responses_fit_contract settings state file visits v made h =
        serve-fits_contract v (serve_all p visits (startup p file state).1)
          λ lists. at_work-HasSupported p law settings state file visits made h
