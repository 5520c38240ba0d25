-- ===== src/App/Secrets.antt =====
-- What leaves the service under two tokens for GitHub.
use issues_api_testbed.Prelude.{
  ◌≡◌, refl, ap, inl, inr, Option, Option-cases, none, some, List, [], ◌∷◌, All, Text,
}
use issues_api_testbed.Errors.{Result, ◌>>=◌}
use issues_api_testbed.Http.{Request, Response}
use issues_api_testbed.Schemas.{parse_create, parse_patch, parse_comment}
use issues_api_testbed.Github.{Upstream}
use issues_api_testbed.Github.Token.{SameAnswers}
use issues_api_testbed.Routes.Issues.{parse_number, parse_page, parse_per_page}
use issues_api_testbed.Routes.Issues
use issues_api_testbed.Routes.Webhooks
use issues_api_testbed.Routes.Issues.Token.{
  create_issue-under, get_issue-under, update_issue-under, create_comment-under,
  list_comments-under, list_issues-under,
}
use issues_api_testbed.App.Defs.{
  App, Platform, issue_services, hook_services, healthz, get_github_client, get_event_store,
}
use issues_api_testbed.App.Serving.{
  Endpoint, get_health, post_issue, get_issues, get_issue, patch_issue, post_comment, get_comments,
  post_webhook, get_events, list_query, validated, route, Visit, tagged, serve, serve_all,
}

-- the application with another token in its settings
abbrev pub with_token : {D : Type 0} → Text → App D → App D
with_token t state = record state { settings = record state.settings { github_token = t } }

module _ (p : Platform) where
  open p use {floats, db}

  -- the responses to several requests
  abbrev pub responses : List (Visit p) → App db.Database → List Response
  responses [] state = []
  responses (v ∷ visits) state = (serve p v state).0 ∷ responses visits (serve p v state).1

  module _ (a b : Text) where
    -- two answers that are the same, with states that differ in the token alone
    abbrev pub AlikeBut {ℓ} : {A : Type ℓ} → A × App db.Database → A × App db.Database → Type ℓ
    AlikeBut (r, s) (r', s') =
        (r ≡ r') × (x : App db.Database) × (s ≡ with_token a x) × (s' ≡ with_token b x)

    validated_ext :
        {A : Type 0} (request : Request) (o : Option A) (f g : A → Result Response)
        → ((x : A) → f x ≡ g x)
        → validated p request o f ≡ validated p request o g
    validated_ext request none f g h = refl
    validated_ext request (some x) f g h = h x

    after_client :
        {A : Type 0} (c : Result A) (r r' : Result Response)
        → r ≡ r'
        → (c >>= λ _. r) ≡ (c >>= λ _. r')
    after_client c r r' h = ap (λ x. c >>= λ _. x) h

    pub route-AlikeBut :
        (up : Upstream floats) (now : Text) (request : Request) (e : Endpoint)
        (state : App db.Database)
        → SameAnswers up a b
        → AlikeBut
            (route p up now request e (with_token a state))
            (route p up now request e (with_token b state))
    unfolding route get_github_client get_event_store healthz
    route-AlikeBut up now request get_health state same = (refl, state, refl, refl)
    route-AlikeBut up now request (post_issue body) state same = (
      after_client _ _ _ (
          validated_ext request (parse_create body) _ _
            λ payload. create_issue-under (issue_services p state.settings up) a b same payload),
      state,
      refl,
      refl,
    )
    route-AlikeBut up now request (get_issue number) state same = (
      after_client _ _ _ (
          validated_ext request (parse_number number) _ _
            λ n. get_issue-under (issue_services p state.settings up) a b same n),
      state,
      refl,
      refl,
    )
    route-AlikeBut up now request (patch_issue number body) state same = (
      after_client _ _ _ (
          validated_ext request (parse_number number) _ _ λ n.
            validated_ext request (parse_patch body) _ _ λ payload.
              update_issue-under (issue_services p state.settings up) a b same n payload),
      state,
      refl,
      refl,
    )
    route-AlikeBut up now request (post_comment number body) state same = (
      after_client _ _ _ (
          validated_ext request (parse_number number) _ _ λ n.
            validated_ext request (parse_comment body) _ _ λ payload.
              create_comment-under (issue_services p state.settings up) a b same n payload),
      state,
      refl,
      refl,
    )
    route-AlikeBut up now request (get_comments number page per_page) state same = (
      after_client _ _ _ (
          validated_ext request (parse_number number) _ _ λ n.
            validated_ext request (parse_page page) _ _ λ pg.
              validated_ext request (parse_per_page per_page) _ _
                λ pp. list_comments-under (issue_services p state.settings up) a b same n pg pp),
      state,
      refl,
      refl,
    )
    route-AlikeBut up now request (get_events limit) state same = (refl, state, refl, refl)
    route-AlikeBut up now request (get_issues filter labels page per_page etag) state same =
        elim (Option-cases state.github) [
          | inl missing ↦ rw (missing, route) (refl, state, refl, refl)
          | inr (c, there) ↦ elim (Option-cases (list_query filter labels page per_page etag)) [
            | inl invalid ↦ rw (there, route) (rw (invalid, route) (refl, state, refl, refl))
            | inr (q, valid) ↦
                let alike =
                  list_issues-under (issue_services p state.settings up) a b same q state.cache in
                let answer =
                  Issues.list_issues (issue_services p (with_token b state).settings up) q
                    state.cache in
                rw (there, route)
                  (rw (valid, route)
                    (
                      ap (λ x. x.0) alike,
                      record state { cache = answer.1 },
                      ap (λ x. with_token a (record state { cache = x.1 })) alike,
                      refl,
                    ))
          ]
        ]
    route-AlikeBut up now request post_webhook state same = elim (Option-cases state.store) [
      | inl missing ↦ rw (missing, route) (refl, state, refl, refl)
      | inr (st, there) ↦
          let (r, st') = Webhooks.receive_webhook (hook_services p state.settings) request now st in
          rw (there, route) (refl, record state { store = some st' }, refl, refl)
    ]

    pub serve-AlikeBut :
        (v : Visit p) (state : App db.Database)
        → SameAnswers v.up a b
        → AlikeBut (serve p v (with_token a state)) (serve p v (with_token b state))
    unfolding serve
    serve-AlikeBut v state same =
        let (answer, x, left, right) =
          route-AlikeBut v.up v.now (tagged p v) v.endpoint state same in
        (rw answer refl, x, left, right)

    -- For requests whose calls of GitHub are answered alike under two tokens, the application gives
    -- the same responses under the one and the other, and is left with the same cache and the same
    -- store.
    pub responses_hide_token :
        (visits : List (Visit p)) (state : App db.Database)
        → All (λ v. SameAnswers v.up a b) visits
        → (responses visits (with_token a state) ≡ responses visits (with_token b state))
          × ((serve_all p visits (with_token a state)).cache
              ≡ (serve_all p visits (with_token b state)).cache)
          × ((serve_all p visits (with_token a state)).store
              ≡ (serve_all p visits (with_token b state)).store)
    unfolding serve_all
    responses_hide_token [] state same = (refl, refl, refl)
    responses_hide_token (v ∷ visits) state same =
        let (answer, x, left, right) = serve-AlikeBut v state same.0 in
        let (rest, cache, store) = responses_hide_token visits x same.1 in
        (
          rw (answer, left, right) (rw rest refl),
          rw (left, right, serve_all) cache,
          rw (left, right, serve_all) store,
        )
