-- ===== src/App/Undisclosed.antt =====
-- What leaves the service under two webhook secrets, for deliveries with two signatures.
use issues_api_testbed.Prelude.{
  ◌≡◌, refl, inl, inr, Option, Option-cases, some, Text, text, text_beq, text_eq, ◌==◌,
  if◌then◌else◌,
}
use issues_api_testbed.Http.{Request}
use issues_api_testbed.Logging.{request_context_middleware}
use issues_api_testbed.Store.{EventStore}
use issues_api_testbed.Webhooks.{verify_signature}
use issues_api_testbed.Routes.Issues
use issues_api_testbed.Routes.Webhooks
use issues_api_testbed.App.Defs.{
  App, Platform, issue_services, hook_services, healthz, get_github_client, get_event_store,
}
use issues_api_testbed.App.Serving.{
  Endpoint, get_health, post_issue, get_issues, get_issue, patch_issue, post_comment, get_comments,
  post_webhook, get_events, list_query, route, Visit, tagged, serve,
}

abbrev signature_header : Text
signature_header = text "X-Hub-Signature-256"

-- the application with another secret in its settings
abbrev pub with_secret : {D : Type 0} → Text → App D → App D
with_secret t state = record state { settings = record state.settings { webhook_secret = t } }

-- a request with another signature, or none
abbrev pub signed_with : Option Text → Request → Request
signed_with s r = record r {
  header = λ name. if name == signature_header then s else r.header name;
}

module _ (p : Platform) where
  open p use {floats, db, hmac}

  abbrev pub resigned : Option Text → Visit p → Visit p
  resigned s v = record v { request = signed_with s v.request }

  module _ (a b : Text) where
    -- the check has the same outcome under the one secret and under the other with a signature
    abbrev pub SameVerdict : Option Text → Request → Type 0
    SameVerdict s r =
        verify_signature hmac a r.raw_body (r.header signature_header)
        ≡ verify_signature hmac b r.raw_body s

    checked :
        (state : App db.Database) (v : Visit p) (s : Option Text)
        → SameVerdict s v.request
        → Webhooks.check_delivery (hook_services p (with_secret a state).settings) (tagged p v)
          ≡ Webhooks.check_delivery
              (hook_services p (with_secret b state).settings)
              (tagged p (resigned s v))
    unfolding Webhooks.check_delivery text text_beq
    checked state v s same = rw (same, Webhooks.check_delivery) refl

    pub received :
        (state : App db.Database) (v : Visit p) (s : Option Text) (st : EventStore db.Database)
        → SameVerdict s v.request
        → Webhooks.receive_webhook
            (hook_services p (with_secret a state).settings)
            (tagged p v)
            v.now
            st
          ≡ Webhooks.receive_webhook
              (hook_services p (with_secret b state).settings)
              (tagged p (resigned s v))
              v.now
              st
    unfolding Webhooks.receive_webhook
    received state v s st same = rw (checked state v s same, Webhooks.receive_webhook) refl

    -- two answers that are the same, with states that differ in the secret alone
    abbrev pub AlikeBut {ℓ} : {A : Type ℓ} → A × App db.Database → A × App db.Database → Type ℓ
    AlikeBut (r, s) (r', s') =
        (r ≡ r') × (x : App db.Database) × (s ≡ with_secret a x) × (s' ≡ with_secret b x)

    pub route-AlikeBut :
        (v : Visit p) (s : Option Text) (e : Endpoint) (state : App db.Database)
        → SameVerdict s v.request
        → AlikeBut
            (route p v.up v.now (tagged p v) e (with_secret a state))
            (route p v.up v.now (tagged p (resigned s v)) e (with_secret b state))
    unfolding route get_github_client get_event_store healthz Webhooks.list_events text text_beq
    route-AlikeBut v s get_health state same = (refl, state, refl, refl)
    route-AlikeBut v s (post_issue body) state same = (refl, state, refl, refl)
    route-AlikeBut v s (get_issue number) state same = (refl, state, refl, refl)
    route-AlikeBut v s (patch_issue number body) state same = (refl, state, refl, refl)
    route-AlikeBut v s (post_comment number body) state same = (refl, state, refl, refl)
    route-AlikeBut v s (get_comments number page per_page) state same = (refl, state, refl, refl)
    route-AlikeBut v s (get_events limit) state same = (refl, state, refl, refl)
    route-AlikeBut v s (get_issues filter labels page per_page etag) state same =
        elim (Option-cases state.github) [
          | inl missing ↦ rw (missing, route) (refl, state, refl, refl)
          | inr (c, there) ↦ elim (Option-cases (list_query filter labels page per_page etag)) [
            | inl invalid ↦ rw (there, route) (rw (invalid, route) (refl, state, refl, refl))
            | inr (q, valid) ↦
                let answer =
                  Issues.list_issues (issue_services p state.settings v.up) q state.cache in
                rw (there, route)
                  (rw (valid, route) (refl, record state { cache = answer.1 }, refl, refl))
          ]
        ]
    route-AlikeBut v s post_webhook state same = elim (Option-cases state.store) [
      | inl missing ↦ rw (missing, route) (refl, state, refl, refl)
      | inr (st, there) ↦
          let answer =
            Webhooks.receive_webhook (hook_services p (with_secret b state).settings)
              (tagged p (resigned s v)) v.now st in
          rw (there, route)
            (rw (received state v s st same)
              (refl, record state { store = some answer.1 }, refl, refl))
    ]

    pub serve-AlikeBut :
        (v : Visit p) (s : Option Text) (state : App db.Database)
        → SameVerdict s v.request
        → AlikeBut (serve p v (with_secret a state)) (serve p (resigned s v) (with_secret b state))
    unfolding serve text text_beq request_context_middleware
    serve-AlikeBut v s state same =
        let (answer, x, left, right) = route-AlikeBut v s v.endpoint state same in
        (rw answer refl, x, left, right)
