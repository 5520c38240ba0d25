-- ===== src/App/Logged/Identified.antt =====
-- The id of a request on the lines that the loggers of the service write for it.
use issues_api_testbed.Prelude.{
  ◌≡◌, inl, inr, refl, ◌∙◌, ℕ, Option, none, some, List, [], ◌∷◌, All, All-append, Text, text,
  text_beq, text_eq,
}
use issues_api_testbed.Python.{Json, str, end, lookup}
use issues_api_testbed.Errors.{Result, ok, raise, app, crash, Crash}
use issues_api_testbed.Http.{Response, Request}
use issues_api_testbed.Schemas.{parse_create, parse_patch, parse_comment}
use issues_api_testbed.Logging.Lines.{Line, IsStructlog}
use issues_api_testbed.Logging.Carried.{Agrees, Carries, rendered-Carries, filtered-All}
use issues_api_testbed.Routes.Issues.{parse_number, parse_page, parse_per_page}
use issues_api_testbed.Routes.Webhooks
use issues_api_testbed.Routes.Webhooks.{Ack, parse_limit}
use issues_api_testbed.Routes.Webhooks.Lines.{delivery_context, delivery_line, list_events_lines}
use issues_api_testbed.Webhooks.{as_log_fields}
use issues_api_testbed.Store.{EventStore}
use issues_api_testbed.App.Defs.{
  App, Platform, issue_services, hook_services, get_github_client, get_event_store,
}
use issues_api_testbed.App.Serving.{
  Endpoint, get_health, post_issue, get_issues, get_issue, patch_issue, post_comment, get_comments,
  post_webhook, get_events, list_query, route, visit_id, tagged,
}
use issues_api_testbed.App.Logged.Defs.{
  validation_line, validated_lines, raised_lines, app_error_line, ended_lines, Trace, route_lines,
  request_context, request_lines, log, background_lines,
}
use issues_api_testbed.App.Logged.Agreeing.{
  key, key-IsFree, AllAgree, no-AllAgree, cons-AllAgree, append-AllAgree, then_lines-AllAgree,
  create_issue_lines-AllAgree, get_issue_lines-AllAgree, update_issue_lines-AllAgree,
  create_comment_lines-AllAgree, list_comments_lines-AllAgree, list_issues_lines-AllAgree,
}

raised_lines-AllAgree : (v : Json) (r : Result Response) → AllAgree v (raised_lines r)
unfolding raised_lines app_error_line lookup text text_beq
raised_lines-AllAgree v (ok r) = no-AllAgree v
raised_lines-AllAgree v (raise (app e)) = cons-AllAgree v (inl refl) (no-AllAgree v)
raised_lines-AllAgree v (raise (crash c)) = no-AllAgree v

ended_lines-AllAgree :
    (v : Json) (traceback : Crash → Text) (r : Result Response)
    → AllAgree v (ended_lines traceback r)
unfolding ended_lines lookup text text_beq
ended_lines-AllAgree v traceback (ok r) = cons-AllAgree v (inl refl) (no-AllAgree v)
ended_lines-AllAgree v traceback (raise (app e)) = cons-AllAgree v (inl refl) (no-AllAgree v)
ended_lines-AllAgree v traceback (raise (crash c)) =
    cons-AllAgree v (inl refl) (cons-AllAgree v (inl refl) (no-AllAgree v))

list_events_lines-AllAgree :
    (sv : Webhooks.Services) (id : Text) (n : ℕ) (s : EventStore sv.db.Database)
    → AllAgree (str id) (list_events_lines sv (some id) n s)
unfolding list_events_lines lookup text text_beq
list_events_lines-AllAgree sv id n s =
    then_lines-AllAgree (str id) _ _ λ es. cons-AllAgree (str id) (inr refl) (no-AllAgree (str id))

delivery_line-Agrees : (v : Json) (a : Ack) → Agrees key v (delivery_line a)
unfolding delivery_line as_log_fields lookup text text_beq
delivery_line-Agrees v a = inl refl

module _ (p : Platform) where
  open p use {floats, db, errors, structlog}

  validated_lines-AllAgree :
      (v : Json) {A : Type 0} (o : Option A) (f : A → List Line)
      → ((a : A) → AllAgree v (f a))
      → AllAgree v (validated_lines p o f)
  unfolding validated_lines validation_line lookup text text_beq
  validated_lines-AllAgree v none f h = cons-AllAgree v (inl refl) (no-AllAgree v)
  validated_lines-AllAgree v (some a) f h = h a

  module _ (t : Trace p) (request : Request) (id : Text) (tag : request.request_id ≡ some id) where
    abbrev v : Json
    v = str id

    route_lines-AllAgree :
        (e : Endpoint) (state : App db.Database) → AllAgree v (route_lines p t request e state)
    unfolding route_lines
    route_lines-AllAgree get_health state = no-AllAgree v
    route_lines-AllAgree (post_issue body) state =
        then_lines-AllAgree v (get_github_client state) _ λ c.
          validated_lines-AllAgree v (parse_create body) _ λ payload.
            create_issue_lines-AllAgree v (issue_services p state.settings t.visit.up) t.duration_ms
              t.show payload
    route_lines-AllAgree (get_issues filter labels page per_page etag) state =
        then_lines-AllAgree v (get_github_client state) _ λ c.
          validated_lines-AllAgree v (list_query filter labels page per_page etag) _ λ q.
            list_issues_lines-AllAgree v (issue_services p state.settings t.visit.up) t.duration_ms
              t.show q state.cache
    route_lines-AllAgree (get_issue number) state =
        then_lines-AllAgree v (get_github_client state) _ λ c.
          validated_lines-AllAgree v (parse_number number) _ λ n.
            get_issue_lines-AllAgree v (issue_services p state.settings t.visit.up) t.duration_ms
              t.show n
    route_lines-AllAgree (patch_issue number body) state =
        then_lines-AllAgree v (get_github_client state) _ λ c.
          validated_lines-AllAgree v (parse_number number) _ λ n.
            validated_lines-AllAgree v (parse_patch body) _ λ payload.
              update_issue_lines-AllAgree v (issue_services p state.settings t.visit.up)
                t.duration_ms t.show n payload
    route_lines-AllAgree (post_comment number body) state =
        then_lines-AllAgree v (get_github_client state) _ λ c.
          validated_lines-AllAgree v (parse_number number) _ λ n.
            validated_lines-AllAgree v (parse_comment body) _ λ payload.
              create_comment_lines-AllAgree v (issue_services p state.settings t.visit.up)
                t.duration_ms t.show n payload
    route_lines-AllAgree (get_comments number page per_page) state =
        then_lines-AllAgree v (get_github_client state) _ λ c.
          validated_lines-AllAgree v (parse_number number) _ λ n.
            validated_lines-AllAgree v (parse_page page) _ λ pg.
              validated_lines-AllAgree v (parse_per_page per_page) _ λ pp.
                list_comments_lines-AllAgree v (issue_services p state.settings t.visit.up)
                  t.duration_ms t.show n pg pp
    route_lines-AllAgree post_webhook state = no-AllAgree v
    route_lines-AllAgree (get_events limit) state =
        then_lines-AllAgree v (get_event_store state) _ λ st.
          validated_lines-AllAgree v (parse_limit limit) _
            λ n. rw tag (list_events_lines-AllAgree (hook_services p state.settings) id n st)

  request_lines-AllAgree :
      (t : Trace p) (state : App db.Database)
      → AllAgree (str (visit_id p t.visit)) (request_lines p t state)
  unfolding request_lines
  request_lines-AllAgree t state =
      let id : Json = str (visit_id p t.visit) in
      let r = (route p t.visit.up t.visit.now (tagged p t.visit) t.visit.endpoint state).0 in
      append-AllAgree id _ _
        (append-AllAgree id _ _
          (route_lines-AllAgree t (tagged p t.visit) (visit_id p t.visit) refl t.visit.endpoint
            state)
          (raised_lines-AllAgree id r))
        (ended_lines-AllAgree id t.traceback r)

  module _ (law : IsStructlog structlog) where
    bound : (t : Trace p) → lookup key (request_context p t) ≡ some (str (visit_id p t.visit))
    unfolding request_context lookup text text_beq
    bound t = law.bind-lookup key _ end

    bound-delivery :
        (t : Trace p) (a : Ack)
        → lookup key (delivery_context structlog a (request_context p t))
          ≡ some (str (visit_id p t.visit))
    unfolding delivery_context lookup text text_beq
    bound-delivery t a = law.bind-lookup key _ (request_context p t) ∙ bound t

    background_lines-Carries :
        (t : Trace p) (level : Text) (n : ℕ) (o : Option Ack)
        → All (Carries key (str (visit_id p t.visit))) (background_lines p t level n o)
    unfolding background_lines
    background_lines-Carries t level n none = tt
    background_lines-Carries t level n (some a) =
        let id : Json = str (visit_id p t.visit) in
        rendered-Carries structlog law key id t.stamps n _ _ key-IsFree (bound-delivery t a) (
          filtered-All structlog (Agrees key id) level (delivery_line a ∷ [])
            (delivery_line-Agrees id a, tt))

    -- Every line that the loggers of the service itself write for a request, the summary of a delivery
    -- in the background included, carries the id of the request, whatever the request holds and whatever becomes of it, if
    -- structlog does what its documentation says.
    pub log-Carries :
        (t : Trace p) (state : App db.Database)
        → All (Carries key (str (visit_id p t.visit))) (log p t state)
    unfolding log
    log-Carries t state =
        let id : Json = str (visit_id p t.visit) in
        let level : Text = state.settings.log_level in
        All-append (Carries key id) _ _
          (rendered-Carries structlog law key id t.stamps 0 _ _ key-IsFree (bound t)
            (filtered-All structlog (Agrees key id) level _ (request_lines-AllAgree t state).each))
          (background_lines-Carries t level _ _)
