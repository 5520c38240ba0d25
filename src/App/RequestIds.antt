-- ===== src/App/RequestIds.antt =====
-- The id of a request, in the header and in the body of its response.
use issues_api_testbed.Prelude.{◌≡◌, ◌⊎◌, inl, inr, refl, none, some, text_eq}
use issues_api_testbed.Errors.{Result-cases, AppError, Crash, ok, raise, app, crash, error_body}
use issues_api_testbed.Http.{Response, json}
use issues_api_testbed.Handlers.{app_error_response, unhandled_response}
use issues_api_testbed.Cache.{find}
use issues_api_testbed.Logging.{request_id_header, request_context_middleware, find-set_header}
use issues_api_testbed.App.Defs.{App, Platform}
use issues_api_testbed.App.Serving.{route, Visit, visit_id, tagged, serve}

module _ (p : Platform) where
  open p use {db}

  -- A response carries the id of its request in `X-Request-ID`, and an error that the service raised
  -- on purpose carries it in its body too; but the response to any other exception has the id in its
  -- body alone.
  pub serve_request_id :
      (v : Visit p) (state : App db.Database)
      → ((r : Response) × ((route p v.up v.now (tagged p v) v.endpoint state).0 ≡ ok r)
          × (find request_id_header (serve p v state).0.headers ≡ some (visit_id p v))
          × ((serve p v state).0.status ≡ r.status)
          × ((serve p v state).0.body ≡ r.body))
        ⊎ ((e : AppError) × ((route p v.up v.now (tagged p v) v.endpoint state).0 ≡ raise (app e))
            × (find request_id_header (serve p v state).0.headers ≡ some (visit_id p v))
            × ((serve p v state).0.status ≡ e.status_code)
            × ((serve p v state).0.body
                ≡ json (error_body e.code e.message e.details (some (visit_id p v)))))
        ⊎ ((c : Crash) × ((route p v.up v.now (tagged p v) v.endpoint state).0 ≡ raise (crash c))
            × (find request_id_header (serve p v state).0.headers ≡ none)
            × ((serve p v state).0 ≡ unhandled_response (some (visit_id p v))))
  unfolding serve request_context_middleware app_error_response unhandled_response
  serve_request_id v state =
      elim (Result-cases (route p v.up v.now (tagged p v) v.endpoint state).0) [
        | inr (r, done) ↦ inl (
          r,
          done,
          rw done (find-set_header request_id_header (visit_id p v) r.headers),
          rw done refl,
          rw done refl,
        )
        | inl (app e, failed) ↦ inr (
            inl (
              e,
              failed,
              rw failed (find-set_header request_id_header (visit_id p v) e.headers),
              rw failed refl,
              rw failed refl,
            ))
        | inl (crash c, failed) ↦
            inr (inr (c, failed, rw failed (unfold find in refl), rw failed refl))
      ]
