-- ===== src/App/Statuses.antt =====
-- The statuses of the responses that leave the service.
use issues_api_testbed.Prelude.Int.{ℤ}
use issues_api_testbed.Prelude.{
  ◌≢◌, ◌⊎◌, inl, inr, Option, none, some, Text, subst, sym, ℕ, ◌≡◌, refl, Bool, true, ◌||◌, ◌==◌,
  nat_eq, arith,
}
use issues_api_testbed.Errors.{Result, ok, raise, app, crash, only_crashes, ◌>>=◌}
use issues_api_testbed.Http.{Request, Response}
use issues_api_testbed.Handlers.{app_error_response, validation_response, unhandled_response}
use issues_api_testbed.Logging.{request_context_middleware}
use issues_api_testbed.Github.{Upstream}
use issues_api_testbed.Store.{EventStore, IsSqlite, recent}
use issues_api_testbed.Routes.Webhooks.{Services, event_records, parse_limit, list_events}
use issues_api_testbed.App.Documented.HookRoutes.{event_records-only_crashes, recent-only_crashes}
use issues_api_testbed.Contract.Responses.{Operation, documented, is_documented, is_left_out}
use issues_api_testbed.App.Defs.{App, Platform, hook_services, get_event_store}
use issues_api_testbed.App.Serving.{
  Endpoint, get_health, post_issue, get_issues, get_issue, patch_issue, post_comment, get_comments,
  post_webhook, get_events, validated, recovered, outermost, route, Visit, visit_id, tagged, serve,
}
use issues_api_testbed.App.Documented.{fits_contract, serve-fits_contract, operation}

-- success, a refused request, or a failure of GitHub or of the service
is_status : ℕ → Bool
is_status n =
    (n == 200 || n == 201 || n == 204 || n == 304)
    || (n == 400 || n == 401 || n == 403 || n == 404 || n == 429)
    || (n == 500 || n == 502 || n == 503)

fits_contract-is_status :
    (op : Operation) (r : Response) → fits_contract op r ≡ true → is_status r.status ≡ true
unfolding documented is_documented is_left_out is_status
fits_contract-is_status Operation.healthz r h = ground arith
fits_contract-is_status op r h = ground arith

-- and so for what a route returns or raises
has_status : Result Response → Bool
unfolding is_status
has_status (ok r) = is_status r.status
has_status (raise (app e)) = is_status e.status_code
has_status (raise (crash c)) = true

has_status-bind :
    {A : Type 0} (x : Result A) (f : A → Result Response)
    → only_crashes x ≡ true
    → ((a : A) → has_status (f a) ≡ true)
    → has_status (x >>= f) ≡ true
unfolding only_crashes has_status
has_status-bind (ok a) f h k = k a
has_status-bind (raise (app e)) f h k = absurd (cc)
has_status-bind (raise (crash c)) f h k = refl

listing :
    (e : Endpoint) → (operation e ≢ Operation.list_events) ⊎ ((limit : ℤ) × (e ≡ get_events limit))
listing get_health = inl (λ e. cc)
listing (post_issue _) = inl (λ e. cc)
listing (get_issues _ _ _ _ _) = inl (λ e. cc)
listing (get_issue _) = inl (λ e. cc)
listing (patch_issue _ _) = inl (λ e. cc)
listing (post_comment _ _) = inl (λ e. cc)
listing (get_comments _ _ _) = inl (λ e. cc)
listing post_webhook = inl (λ e. cc)
listing (get_events limit) = inr (limit, refl)

module _ (p : Platform) (law : IsSqlite p.db) where
  open p use {floats, db}

  list_events-has_status :
      (sv : Services) (n : ℕ) (s : EventStore sv.db.Database)
      → has_status (list_events sv n s) ≡ true
  unfolding list_events has_status is_status
  list_events-has_status sv n s =
      has_status-bind (recent sv.db _ s) _ (recent-only_crashes sv _ s)
        λ es. has_status-bind (event_records sv es) _ (event_records-only_crashes sv es) λ rs. refl

  validated-has_status :
      {A : Type 0} (request : Request) (o : Option A) (f : A → Result Response)
      → ((a : A) → has_status (f a) ≡ true)
      → has_status (validated p request o f) ≡ true
  unfolding validation_response has_status is_status
  validated-has_status request none f h = refl
  validated-has_status request (some a) f h = h a

  events-has_status :
      (up : Upstream floats) (now : Text) (request : Request) (limit : ℤ) (state : App db.Database)
      → has_status (route p up now request (get_events limit) state).0 ≡ true
  unfolding route get_event_store only_crashes
  events-has_status up now request limit state =
      has_status-bind (get_event_store state) _ (ground arith) λ st.
        validated-has_status request (parse_limit limit) _
          λ n. list_events-has_status (hook_services p state.settings) n st

  answer-is_status :
      (v : Visit p) (r : Result Response)
      → has_status r ≡ true
      → is_status
          (outermost (some (visit_id p v)) (
            request_context_middleware v.request v.fresh
              λ request. recovered request.request_id r)).status
        ≡ true
  unfolding has_status is_status request_context_middleware app_error_response unhandled_response
  answer-is_status v (ok r) h = h
  answer-is_status v (raise (app e)) h = h
  answer-is_status v (raise (crash c)) h = refl

  -- Every response, whatever the rows of the store are, has one of the statuses 200, 201, 204, 304,
  -- 400, 401, 403, 404, 429, 500, 502 and 503.
  serve-is_status :
      (v : Visit p) (state : App db.Database) → is_status (serve p v state).0.status ≡ true
  unfolding serve
  serve-is_status v state = elim (listing v.endpoint) [
    | inl other ↦
        fits_contract-is_status (operation v.endpoint) (serve p v state).0
          (serve-fits_contract p law v state λ same. absurd (other same))
    | inr (limit, same) ↦ answer-is_status v (route p v.up v.now (tagged p v) v.endpoint state).0 (
        subst (λ e. has_status (route p v.up v.now (tagged p v) e state).0 ≡ true) (sym same)
          (events-has_status v.up v.now (tagged p v) limit state))
  ]
