-- ===== src/App/Documented/Routing.antt =====
-- What the routes answer, before the exception handlers.
use issues_api_testbed.Prelude.{
  All, subst, ℕ, ◌≡◌, ◌≢◌, nat_eq, refl, Bool, true, text, text_beq, Option, Option-cases, none,
  some, arith, Text, inl, inr, List,
}
use issues_api_testbed.Config.Settings.{Settings}
use issues_api_testbed.Python.{Json, Fields, lookup}
use issues_api_testbed.Http.Bodies.{rendered}
use issues_api_testbed.Contract.Shapes.{fits}
use issues_api_testbed.Contract.Schemas.{error_shape}
use issues_api_testbed.Contract.Responses.{Operation, documented, is_documented}
use issues_api_testbed.Contract.Fits.{error_body-fits, class_code-is_code}
use issues_api_testbed.Errors.{
  ErrorClass, validation_error, class_code, error_body, Result, Result-cases, Exc, ok, raise, app,
  crash,
}
use issues_api_testbed.Store.{IsSqlite, EventStore}
use issues_api_testbed.Routes.Webhooks.Supported.{IsSupported}
use issues_api_testbed.App.Sound.{rows_of, store_there}
use issues_api_testbed.Http.{Request, Response}
use issues_api_testbed.Handlers.{validation_response}
use issues_api_testbed.Github.{Upstream}
use issues_api_testbed.Routes.Issues.{parse_number, parse_page, parse_per_page}
use issues_api_testbed.Routes.Webhooks.{parse_limit}
use issues_api_testbed.Schemas.{parse_create, parse_patch, parse_comment}
use issues_api_testbed.App.Defs.{
  App, Platform, issue_services, hook_services, get_github_client, get_event_store, healthz,
}
use issues_api_testbed.App.Serving.{
  Endpoint, get_health, post_issue, get_issues, get_issue, patch_issue, post_comment, get_comments,
  post_webhook, get_events, validated, with_client, list_query, route,
}
use issues_api_testbed.App.Documented.Tame.{
  raised_by, is_tame, is_answer, is_answer-bind, is_answer-bind_ok,
}
use issues_api_testbed.App.Documented.IssueRoutes.{
  create_issue-is_answer, get_issue-is_answer, update_issue-is_answer, create_comment-is_answer,
  list_comments-is_answer, list_issues-is_answer,
}
use issues_api_testbed.App.Documented.HookRoutes.{list_events-is_answer, receive_webhook-is_answer}

get_github_client-is_tame :
    {D : Type 0} (raised : ℕ → Bool) (state : App D)
    → is_tame raised (get_github_client state) ≡ true
unfolding get_github_client is_tame
get_github_client-is_tame raised state = ground arith

get_event_store-is_tame :
    {D : Type 0} (raised : ℕ → Bool) (state : App D) → is_tame raised (get_event_store state) ≡ true
unfolding get_event_store is_tame
get_event_store-is_tame raised state = ground arith

-- the operation of an endpoint
abbrev pub operation : Endpoint → Operation
operation get_health = Operation.healthz
operation (post_issue _) = Operation.create_issue
operation (get_issues _ _ _ _ _) = Operation.list_issues
operation (get_issue _) = Operation.get_issue
operation (patch_issue _ _) = Operation.update_issue
operation (post_comment _ _) = Operation.create_comment
operation (get_comments _ _ _) = Operation.list_comments
operation post_webhook = Operation.receive_webhook
operation (get_events _) = Operation.list_events

healthz-is_answer : (s : Settings) → is_answer Operation.healthz (ok (healthz s)) ≡ true
unfolding healthz is_answer is_documented documented rendered fits lookup text text_beq
healthz-is_answer s = refl

error_envelope-fits :
    (id : Option Text) (message : Text) (details : Json) (c : ErrorClass)
    → fits error_shape (error_body (class_code c) message details id) ≡ true
error_envelope-fits id message details c =
    error_body-fits (class_code c) message details id (class_code-is_code c)

-- every operation that validates has a `400`
validation_response-is_answer :
    (op : Operation) (id : Option Text) (errors : List Fields)
    → op ≢ Operation.healthz
    → is_answer op (ok (validation_response id errors)) ≡ true
unfolding validation_response is_answer is_documented documented rendered
validation_response-is_answer Operation.healthz id errors ne = absurd (ne refl)
validation_response-is_answer Operation.create_issue id errors ne =
    error_envelope-fits id _ _ validation_error
validation_response-is_answer Operation.list_issues id errors ne =
    error_envelope-fits id _ _ validation_error
validation_response-is_answer Operation.get_issue id errors ne =
    error_envelope-fits id _ _ validation_error
validation_response-is_answer Operation.update_issue id errors ne =
    error_envelope-fits id _ _ validation_error
validation_response-is_answer Operation.create_comment id errors ne =
    error_envelope-fits id _ _ validation_error
validation_response-is_answer Operation.list_comments id errors ne =
    error_envelope-fits id _ _ validation_error
validation_response-is_answer Operation.receive_webhook id errors ne =
    error_envelope-fits id _ _ validation_error
validation_response-is_answer Operation.list_events id errors ne =
    error_envelope-fits id _ _ validation_error

refused-is_answer :
    {A : Type 0} (op : Operation) (x : Result A) (e : Exc)
    → is_tame (raised_by op) x ≡ true
    → x ≡ raise e
    → is_answer op (raise e) ≡ true
unfolding is_answer is_tame
refused-is_answer op x (app e) h r = ground (arith)
refused-is_answer op x (crash c) h r = refl

module _ (p : Platform) (law : IsSqlite p.db) where
  open p use {floats, db}

  validated-is_answer :
      {A : Type 0} (op : Operation) (request : Request) (o : Option A) (f : A → Result Response)
      → op ≢ Operation.healthz
      → ((a : A) → is_answer op (f a) ≡ true)
      → is_answer op (validated p request o f) ≡ true
  validated-is_answer op request none f ne h =
      validation_response-is_answer op request.request_id p.errors ne
  validated-is_answer op request (some a) f ne h = h a

  with_client-is_answer :
      (op : Operation) (state : App db.Database) (r : Result Response)
      → is_answer op r ≡ true
      → is_answer op (with_client p state λ _. r).0 ≡ true
  with_client-is_answer op state r h =
      is_answer-bind op (get_github_client state) (λ _. r) (get_github_client-is_tame _ state)
        λ c. h

  pub route-is_answer :
      (up : Upstream floats) (now : Text) (request : Request) (e : Endpoint)
      (state : App db.Database)
      → (operation e ≡ Operation.list_events → All IsSupported (rows_of db state.store))
      → is_answer (operation e) (route p up now request e state).0 ≡ true
  unfolding route
  route-is_answer up now request get_health state h = healthz-is_answer state.settings
  route-is_answer up now request (post_issue body) state h =
      with_client-is_answer Operation.create_issue state _ (
        validated-is_answer Operation.create_issue request (parse_create body) _ (λ e. cc)
          λ payload. create_issue-is_answer (issue_services p state.settings up) payload)
  route-is_answer up now request (get_issue number) state h =
      with_client-is_answer Operation.get_issue state _ (
        validated-is_answer Operation.get_issue request (parse_number number) _ (λ e. cc)
          λ n. get_issue-is_answer (issue_services p state.settings up) n)
  route-is_answer up now request (patch_issue number body) state h =
      with_client-is_answer Operation.update_issue state _ (
        validated-is_answer Operation.update_issue request (parse_number number) _ (λ e. cc)
          λ n.
            validated-is_answer Operation.update_issue request (parse_patch body) _ (λ e. cc)
              λ payload. update_issue-is_answer (issue_services p state.settings up) n payload)
  route-is_answer up now request (post_comment number body) state h =
      with_client-is_answer Operation.create_comment state _ (
        validated-is_answer Operation.create_comment request (parse_number number) _ (λ e. cc)
          λ n.
            validated-is_answer Operation.create_comment request (parse_comment body) _ (λ e. cc)
              λ payload. create_comment-is_answer (issue_services p state.settings up) n payload)
  route-is_answer up now request (get_comments number page per_page) state h =
      with_client-is_answer Operation.list_comments state _ (
        validated-is_answer Operation.list_comments request (parse_number number) _ (λ e. cc)
          λ n.
            validated-is_answer Operation.list_comments request (parse_page page) _ (λ e. cc)
              λ pg.
                validated-is_answer Operation.list_comments request (parse_per_page per_page) _
                  (λ e. cc)
                  λ pp. list_comments-is_answer (issue_services p state.settings up) n pg pp)
  route-is_answer up now request (get_events limit) state h =
      is_answer-bind_ok Operation.list_events (get_event_store state) _
        (get_event_store-is_tame _ state)
        λ st there.
          validated-is_answer Operation.list_events request (parse_limit limit) _ (λ e. cc)
            λ n. list_events-is_answer (hook_services p state.settings) law n st (
              subst (λ (o : Option (EventStore db.Database)). All IsSupported (rows_of db o))
                (store_there state st there) (h refl))
  route-is_answer up now request (get_issues filter labels page per_page etag) state h =
      elim (Result-cases (get_github_client state)) [
        | inl (e, failed) ↦
            rw (failed, route)
              (refused-is_answer Operation.list_issues (get_github_client state) e
                (get_github_client-is_tame _ state) failed)
        | inr (c, there) ↦ elim (Option-cases (list_query filter labels page per_page etag)) [
          | inl invalid ↦
              rw (there, route)
                (rw (invalid, route)
                  (validation_response-is_answer Operation.list_issues request.request_id p.errors
                    (λ e. cc)))
          | inr (q, valid) ↦
              rw (there, route)
                (rw (valid, route)
                  (list_issues-is_answer (issue_services p state.settings up) q state.cache))
        ]
      ]
  route-is_answer up now request post_webhook state h =
      elim (Result-cases (get_event_store state)) [
        | inl (e, failed) ↦
            rw (failed, route)
              (refused-is_answer Operation.receive_webhook (get_event_store state) e
                (get_event_store-is_tame _ state) failed)
        | inr (st, there) ↦
            rw (there, route)
              (receive_webhook-is_answer (hook_services p state.settings) request now st)
      ]
