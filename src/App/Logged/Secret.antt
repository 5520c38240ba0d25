-- ===== src/App/Logged/Secret.antt =====
-- What is logged under two tokens for GitHub.
use issues_api_testbed.Prelude.{◌≡◌, refl, Option, none, some, List, [], ◌∷◌, All, Text}
use issues_api_testbed.Errors.{Result, ok, raise}
use issues_api_testbed.Http.{Request}
use issues_api_testbed.Schemas.{parse_create, parse_patch, parse_comment}
use issues_api_testbed.Github.Token.{SameAnswers}
use issues_api_testbed.Logging.Lines.{Line}
use issues_api_testbed.Routes.Issues.{parse_number, parse_page, parse_per_page}
use issues_api_testbed.Routes.Issues.Lines.{then_lines}
use issues_api_testbed.Routes.Issues.Unseen.{
  create_issue_lines-under, get_issue_lines-under, update_issue_lines-under,
  create_comment_lines-under, list_comments_lines-under, list_issues_lines-under,
}
use issues_api_testbed.App.Defs.{App, Platform, issue_services, get_github_client, get_event_store}
use issues_api_testbed.App.Serving.{
  Endpoint, get_health, post_issue, get_issues, get_issue, patch_issue, post_comment, get_comments,
  post_webhook, get_events, list_query, Visit, tagged,
}
use issues_api_testbed.App.Secrets.{with_token, route-AlikeBut, serve-AlikeBut}
use issues_api_testbed.App.Logged.Defs.{
  validated_lines, Trace, route_lines, request_lines, acknowledged, log, logs,
}

then_lines_ext :
    {A : Type 0} (c : Result A) (f g : A → List Line)
    → ((x : A) → f x ≡ g x)
    → then_lines c f ≡ then_lines c g
unfolding then_lines
then_lines_ext (ok x) f g h = h x
then_lines_ext (raise e) f g h = refl

module _ (p : Platform) where
  open p use {db}

  validated_lines_ext :
      {A : Type 0} (o : Option A) (f g : A → List Line)
      → ((x : A) → f x ≡ g x)
      → validated_lines p o f ≡ validated_lines p o g
  unfolding validated_lines
  validated_lines_ext none f g h = refl
  validated_lines_ext (some x) f g h = h x

  module _ (a b : Text) where
    module _ (t : Trace p) (request : Request) (same : SameAnswers t.visit.up a b) where
      route_lines-token :
          (e : Endpoint) (state : App db.Database)
          → route_lines p t request e (with_token a state)
            ≡ route_lines p t request e (with_token b state)
      unfolding route_lines get_github_client get_event_store
      route_lines-token get_health state = refl
      route_lines-token (post_issue body) state = then_lines_ext (get_github_client state) _ _ λ c.
          validated_lines_ext (parse_create body) _ _ λ payload.
            create_issue_lines-under (issue_services p state.settings t.visit.up) a b same
              t.duration_ms t.show payload
      route_lines-token (get_issues filter labels page per_page etag) state =
          then_lines_ext (get_github_client state) _ _ λ c.
            validated_lines_ext (list_query filter labels page per_page etag) _ _ λ q.
              list_issues_lines-under (issue_services p state.settings t.visit.up) a b same
                t.duration_ms t.show q state.cache
      route_lines-token (get_issue number) state = then_lines_ext (get_github_client state) _ _ λ c.
          validated_lines_ext (parse_number number) _ _ λ n.
            get_issue_lines-under (issue_services p state.settings t.visit.up) a b same
              t.duration_ms t.show n
      route_lines-token (patch_issue number body) state =
          then_lines_ext (get_github_client state) _ _ λ c.
            validated_lines_ext (parse_number number) _ _ λ n.
              validated_lines_ext (parse_patch body) _ _ λ payload.
                update_issue_lines-under (issue_services p state.settings t.visit.up) a b same
                  t.duration_ms t.show n payload
      route_lines-token (post_comment number body) state =
          then_lines_ext (get_github_client state) _ _ λ c.
            validated_lines_ext (parse_number number) _ _ λ n.
              validated_lines_ext (parse_comment body) _ _ λ payload.
                create_comment_lines-under (issue_services p state.settings t.visit.up) a b same
                  t.duration_ms t.show n payload
      route_lines-token (get_comments number page per_page) state =
          then_lines_ext (get_github_client state) _ _ λ c.
            validated_lines_ext (parse_number number) _ _ λ n.
              validated_lines_ext (parse_page page) _ _ λ pg.
                validated_lines_ext (parse_per_page per_page) _ _ λ pp.
                  list_comments_lines-under (issue_services p state.settings t.visit.up) a b same
                    t.duration_ms t.show n pg pp
      route_lines-token post_webhook state = refl
      route_lines-token (get_events limit) state = refl

    acknowledged-token :
        (v : Visit p) (e : Endpoint) (state : App db.Database)
        → acknowledged p v e (with_token a state) ≡ acknowledged p v e (with_token b state)
    unfolding acknowledged get_event_store
    acknowledged-token v post_webhook state = refl
    acknowledged-token v get_health state = refl
    acknowledged-token v (post_issue _) state = refl
    acknowledged-token v (get_issues _ _ _ _ _) state = refl
    acknowledged-token v (get_issue _) state = refl
    acknowledged-token v (patch_issue _ _) state = refl
    acknowledged-token v (post_comment _ _) state = refl
    acknowledged-token v (get_comments _ _ _) state = refl
    acknowledged-token v (get_events _) state = refl

    request_lines-token :
        (t : Trace p) (state : App db.Database)
        → SameAnswers t.visit.up a b
        → request_lines p t (with_token a state) ≡ request_lines p t (with_token b state)
    unfolding request_lines
    request_lines-token t state same =
        let (answer, x, left, right) =
          route-AlikeBut p a b t.visit.up t.visit.now (tagged p t.visit) t.visit.endpoint state
            same in
        rw (route_lines-token t (tagged p t.visit) same t.visit.endpoint state, answer) refl

    log-token :
        (t : Trace p) (state : App db.Database)
        → SameAnswers t.visit.up a b
        → log p t (with_token a state) ≡ log p t (with_token b state)
    unfolding log
    log-token t state same =
        rw (request_lines-token t state same, acknowledged-token t.visit t.visit.endpoint state)
          refl

    -- For requests whose calls of GitHub are answered alike under two tokens, the application
    -- writes the same lines to its log under the one and the other.
    pub logs_hide_token :
        (ts : List (Trace p)) (state : App db.Database)
        → All (λ t. SameAnswers t.visit.up a b) ts
        → logs p ts (with_token a state) ≡ logs p ts (with_token b state)
    unfolding logs
    logs_hide_token [] state same = refl
    logs_hide_token (t ∷ ts) state same =
        let (answer, x, left, right) = serve-AlikeBut p a b t.visit state same.0 in
        rw (log-token t state same.0, left, right, logs_hide_token ts x same.1) refl
