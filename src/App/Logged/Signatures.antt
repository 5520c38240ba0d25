-- ===== src/App/Logged/Signatures.antt =====
-- What is answered and logged under two webhook secrets, for deliveries with two signatures.
use issues_api_testbed.Prelude.{
  ◌≡◌, refl, inl, inr, Option, Option-cases, List, [], ◌∷◌, map, All, Text, text, text_beq,
}
use issues_api_testbed.App.Defs.{App, Platform, get_github_client, get_event_store}
use issues_api_testbed.App.Serving.{
  Endpoint, get_health, post_issue, get_issues, get_issue, patch_issue, post_comment, get_comments,
  post_webhook, get_events, Visit, tagged, serve_all,
}
use issues_api_testbed.App.Secrets.{responses}
use issues_api_testbed.App.Undisclosed.{
  with_secret, resigned, SameVerdict, received, route-AlikeBut, serve-AlikeBut,
}
use issues_api_testbed.App.Logged.Defs.{
  Trace, route_lines, request_context, request_lines, acknowledged, untraced, log, logs,
}
use issues_api_testbed.Routes.Webhooks.Lines.{list_events_lines}

module _ (p : Platform) where
  open p use {db}

  -- the same request with another signature
  abbrev pub resent : Option Text → Trace p → Trace p
  resent s t = record t { visit = resigned p s t.visit }

  -- requests with the one signature, and with the other
  abbrev pub sent : List (Trace p × Option Text) → List (Trace p)
  sent ts = map (λ x. x.0) ts

  abbrev pub sent_again : List (Trace p × Option Text) → List (Trace p)
  sent_again ts = map (λ x. resent x.1 x.0) ts

  abbrev pub visits : List (Trace p) → List (Visit p)
  visits ts = map (λ t. t.visit) ts

  module _ (a b : Text) where
    route_lines-secret :
        (t : Trace p) (s : Option Text) (e : Endpoint) (state : App db.Database)
        → route_lines p t (tagged p t.visit) e (with_secret a state)
          ≡ route_lines p (resent s t) (tagged p (resigned p s t.visit)) e (with_secret b state)
    unfolding route_lines get_github_client get_event_store list_events_lines text text_beq
    route_lines-secret t s get_health state = refl
    route_lines-secret t s (post_issue body) state = refl
    route_lines-secret t s (get_issues filter labels page per_page etag) state = refl
    route_lines-secret t s (get_issue number) state = refl
    route_lines-secret t s (patch_issue number body) state = refl
    route_lines-secret t s (post_comment number body) state = refl
    route_lines-secret t s (get_comments number page per_page) state = refl
    route_lines-secret t s post_webhook state = refl
    route_lines-secret t s (get_events limit) state = refl

    acknowledged-secret :
        (t : Trace p) (s : Option Text) (e : Endpoint) (state : App db.Database)
        → SameVerdict p a b s t.visit.request
        → acknowledged p t.visit e (with_secret a state)
          ≡ acknowledged p (resigned p s t.visit) e (with_secret b state)
    unfolding acknowledged get_event_store
    acknowledged-secret t s get_health state same = refl
    acknowledged-secret t s (post_issue body) state same = refl
    acknowledged-secret t s (get_issues filter labels page per_page etag) state same = refl
    acknowledged-secret t s (get_issue number) state same = refl
    acknowledged-secret t s (patch_issue number body) state same = refl
    acknowledged-secret t s (post_comment number body) state same = refl
    acknowledged-secret t s (get_comments number page per_page) state same = refl
    acknowledged-secret t s (get_events limit) state same = refl
    acknowledged-secret t s post_webhook state same = elim (Option-cases state.store) [
      | inl missing ↦ rw (missing, acknowledged) refl
      | inr (st, there) ↦
          rw (there, acknowledged) (rw (received p a b state t.visit s st same) refl)
    ]

    request_lines-secret :
        (t : Trace p) (s : Option Text) (state : App db.Database)
        → SameVerdict p a b s t.visit.request
        → request_lines p t (with_secret a state)
          ≡ request_lines p (resent s t) (with_secret b state)
    unfolding request_lines
    request_lines-secret t s state same =
        let (answer, x, left, right) = route-AlikeBut p a b t.visit s t.visit.endpoint state same in
        rw (route_lines-secret t s t.visit.endpoint state, answer) refl

    log-secret :
        (t : Trace p) (s : Option Text) (state : App db.Database)
        → SameVerdict p a b s t.visit.request
        → log p t (with_secret a state) ≡ log p (resent s t) (with_secret b state)
    unfolding log request_context text text_beq
    log-secret t s state same =
        rw
          (request_lines-secret t s state same, acknowledged-secret t s t.visit.endpoint state same)
          refl

    -- For requests whose signatures pass or are refused alike under two webhook secrets, the one
    -- signature under the one secret and the other under the other, the application gives the same
    -- responses, its loggers write the same lines, the texts of tracebacks left out, and it is left
    -- with the same cache and store.
    pub secrets_undisclosed :
        (ts : List (Trace p × Option Text)) (state : App db.Database)
        → All (λ x. SameVerdict p a b x.1 x.0.visit.request) ts
        → (responses p (visits (sent ts)) (with_secret a state)
            ≡ responses p (visits (sent_again ts)) (with_secret b state))
          × (logs p (map (untraced p) (sent ts)) (with_secret a state)
              ≡ logs p (map (untraced p) (sent_again ts)) (with_secret b state))
          × ((serve_all p (visits (sent ts)) (with_secret a state)).cache
              ≡ (serve_all p (visits (sent_again ts)) (with_secret b state)).cache)
          × ((serve_all p (visits (sent ts)) (with_secret a state)).store
              ≡ (serve_all p (visits (sent_again ts)) (with_secret b state)).store)
    unfolding logs serve_all
    secrets_undisclosed [] state same = (refl, refl, refl, refl)
    secrets_undisclosed ((t, s) ∷ ts) state same =
        let (answer, x, left, right) = serve-AlikeBut p a b t.visit s state same.0 in
        let (rest, written, cache, store) = secrets_undisclosed ts x same.1 in
        (
          rw (answer, left, right) (rw rest refl),
          rw (log-secret (untraced p t) s state same.0, left, right, written) refl,
          rw (left, right, serve_all) cache,
          rw (left, right, serve_all) store,
        )
