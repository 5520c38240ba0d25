-- ===== src/Handlers.antt =====
-- `register_exception_handlers`: the response for each exception.
use issues_api_testbed.Prelude.{
  ℕ, Option, none, some, List, [], ◌∷◌, Text, text, ◌==◌, nat_eq, if◌then◌else◌,
}
use issues_api_testbed.Python.{Json, null, str, arr, obj, nil, Fields, field, end, lookup, to_items}
use issues_api_testbed.Errors.{AppError, Exc, app, crash, Headers, error_body, Result, ok, raise}
use issues_api_testbed.Http.{Response, json}

-- `_app_error`
unfoldable pub app_error_response : Option Text → AppError → Response
app_error_response request_id exc = record {
  status = exc.status_code;
  headers = exc.headers;
  body = json (error_body exc.code exc.message exc.details request_id);
}

abbrev or_default : Json → Option Json → Json
or_default d none = d
or_default d (some v) = v

-- one entry of `exc.errors()`
unfoldable pub error_item : Fields → Json
error_item err = obj (
    field (text "location") (or_default (arr nil) (lookup (text "loc") err)) (
      field (text "message") (or_default (str []) (lookup (text "msg") err))
        (field (text "type") (or_default (str []) (lookup (text "type") err)) end)))

error_items : List Fields → List Json
error_items [] = []
error_items (e ∷ es) = error_item e ∷ error_items es

-- `_validation_error`; `errors` is what pydantic reports
unfoldable pub validation_response : Option Text → List Fields → Response
unfolding error_items
validation_response request_id errors = record {
  status = 400;
  headers = [];
  body = json (
      error_body (text "validation_error") (text "Request payload or query parameters are invalid.")
        (arr (to_items (error_items errors))) request_id);
}

abbrev pub http_code : ℕ → Text
http_code status =
    if status == 401
    then text "unauthorized"
    else if status == 403
    then text "forbidden"
    else if status == 404
    then text "not_found"
    else if status == 405
    then text "method_not_allowed"
    else text "http_error"

-- `_http_error`, on Starlette's `HTTPException`
unfoldable pub http_error_response : Option Text → ℕ → Text → Option Headers → Response
http_error_response request_id status detail headers = record {
  status = status;
  headers = elim headers [ none ↦ [] | some h ↦ h ];
  body = json (error_body (http_code status) detail null request_id);
}

-- `_unhandled`
unfoldable pub unhandled_response : Option Text → Response
unhandled_response request_id = record {
  status = 500;
  headers = [];
  body =
      json
        (error_body (text "internal_error") (text "An unexpected error occurred.") null request_id);
}

-- the handler that Starlette chooses for an exception of the service's own code
unfoldable pub error_response : Option Text → Exc → Response
unfolding app_error_response unhandled_response
error_response request_id (app e) = app_error_response request_id e
error_response request_id (crash c) = unhandled_response request_id

-- what a handler's result is answered with
abbrev pub finish : Option Text → Result Response → Response
finish request_id (ok r) = r
finish request_id (raise e) = error_response request_id e
