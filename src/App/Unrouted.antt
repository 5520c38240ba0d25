-- ===== src/App/Unrouted.antt =====
-- A request that no route takes: Starlette's router raises an `HTTPException`, and the handler of
-- that answers it, inside the middleware.
use issues_api_testbed.Prelude.{
  ℕ, ◌≡◌, ◌≢◌, refl, Option, none, some, [], Text, text, true, text_beq, text_eq, arith,
}
use issues_api_testbed.Python.{Json, null}
use issues_api_testbed.Errors.{Headers, ok, error_body}
use issues_api_testbed.Http.{Response}
use issues_api_testbed.Http.Bodies.{rendered}
use issues_api_testbed.Handlers.{http_code, http_error_response}
use issues_api_testbed.Cache.{find}
use issues_api_testbed.Contract.Schemas.{is_code, error_shape}
use issues_api_testbed.Contract.Shapes.{fits}
use issues_api_testbed.Contract.Fits.{error_body-fits}
use issues_api_testbed.Logging.{
  request_id_header, request_context_middleware, find-set_header, find-set_header_ne,
}
use issues_api_testbed.App.Defs.{App, Platform}
use issues_api_testbed.App.Serving.{Visit, visit_id, outermost}

-- `getattr(exc, "headers", None) or {}`
abbrev pub given_headers : Option Headers → Headers
given_headers none = []
given_headers (some h) = h

http_code-is_code : (status : ℕ) → is_code (http_code status) ≡ true
unfolding is_code text text_beq
http_code-is_code status = ground arith

module _ (p : Platform) where
  open p use {db}

  -- The response, with the status, the detail and the headers of the exception, and the state
  -- behind it.
  unfoldable pub serve_unrouted :
      Visit p → ℕ → Text → Option Headers → App db.Database → Response × App db.Database
  unfolding http_error_response
  serve_unrouted v status detail headers state = (
    outermost (some (visit_id p v)) (
        request_context_middleware v.request v.fresh
          (λ request. ok (http_error_response request.request_id status detail headers))),
    state,
  )

  -- A request that no route takes is answered with the status of the router's exception, with its
  -- headers but for `X-Request-ID`, which has the id of the request, and with an error envelope that
  -- fits openapi.yaml; the state stays as it is.
  pub unrouted_lem :
      (v : Visit p) (status : ℕ) (detail name : Text) (headers : Option Headers)
      (state : App db.Database)
      → request_id_header ≢ name
      → ((serve_unrouted v status detail headers state).0.status ≡ status)
        × (find name (serve_unrouted v status detail headers state).0.headers
            ≡ find name (given_headers headers))
        × (find request_id_header (serve_unrouted v status detail headers state).0.headers
            ≡ some (visit_id p v))
        × ((j : Json) × (rendered (serve_unrouted v status detail headers state).0.body ≡ some j)
            × (fits error_shape j ≡ true))
        × ((serve_unrouted v status detail headers state).1 ≡ state)
  unfolding serve_unrouted request_context_middleware http_error_response rendered
  unrouted_lem v status detail name headers state other = (
    refl,
    find-set_header_ne request_id_header name (visit_id p v) (given_headers headers) other,
    find-set_header request_id_header (visit_id p v) _,
    (
      error_body (http_code status) detail null (some (visit_id p v)),
      refl,
      error_body-fits (http_code status) detail null (some (visit_id p v))
          (http_code-is_code status),
    ),
    refl,
  )
