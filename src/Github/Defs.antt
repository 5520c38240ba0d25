-- ===== src/Github/Defs.antt =====
-- `_request`, `_decode` and `_map_error`.
use issues_api_testbed.Prelude.Int.{at_least_one}
use issues_api_testbed.Prelude.{
  ℕ, Bool, true, false, ◌&&◌, ◌||◌, Option, none, some, [], ◌∷◌, ◌++◌, Text, text, is_empty, ◌==◌,
  nat_eq, text_eq, leb, if◌then◌else◌,
}
use issues_api_testbed.Python.{
  Json, null, str, obj, num, Fields, field, end, get, truthy, append_field,
}
use issues_api_testbed.Python.Str.{strip, decimal}
use issues_api_testbed.Errors.{
  Result, ok, raise, crash, app, AppError, init, error, overflow_error, app_error,
  unauthorized_error, forbidden_error, not_found_error, validation_error, rate_limited_error,
  upstream_unavailable_error, ◌>>=◌,
}
use issues_api_testbed.Github.Types.{
  Floats, Truncated, whole, not_a_number, infinite, Reply, Outcome, replied, timeout, transport,
  failed, GitHubResult,
}

abbrev pub or_none : Option Json → Json
or_none none = null
or_none (some j) = j

unfoldable pub decode : Reply → Json
decode r =
    if (r.status_code == 204 || r.status_code == 304) || is_empty r.content
    then null
    else or_none r.json

-- the payload if it is a dict, and an empty one otherwise
unfoldable pub error_payload : Option Json → Fields
error_payload (some (obj d)) = d
error_payload _ = end

abbrev is_zero_text : Option Text → Bool
is_zero_text none = false
is_zero_text (some s) = strip s == text "0"

abbrev is_some : Option Text → Bool
is_some none = false
is_some (some s) = true

unfoldable pub is_rate_limited : Reply → Bool
is_rate_limited r =
    r.status_code == 429
    || is_zero_text (r.header (text "x-ratelimit-remaining"))
    || is_some (r.header (text "retry-after"))

-- `{"upstream_status": …, "upstream_message": …}`, with `"upstream_errors"` where there are some
unfoldable pub upstream_details : Reply → Fields
unfolding error_payload
upstream_details r =
    let payload = error_payload r.json in
    let message = get (text "message") payload in
    let errors = get (text "errors") payload in
    field (text "upstream_status") (num r.status_code) (
      field (text "upstream_message") (if truthy message then message else str r.reason_phrase)
        (if truthy errors then field (text "upstream_errors") errors end else end))

module _ (fl : Floats) where
  -- `max(1, int(f))`, under `except ValueError: pass`
  abbrev pub seconds : Truncated → Result (Option ℕ)
  seconds (whole i) = ok (some (at_least_one i))
  seconds not_a_number = ok none
  seconds infinite = raise (crash overflow_error)

  -- one of the two headers; `none` where it does not serve
  unfoldable pub read_seconds : (fl.Float → fl.Float) → Option Text → Result (Option ℕ)
  read_seconds f none = ok none
  read_seconds f (some raw) =
      if is_empty raw
      then ok none
      else elim (fl.parse raw) [ none ↦ ok none | some x ↦ seconds (fl.truncate (f x)) ]

  unfoldable pub retry_after_seconds : fl.Float → Reply → Result ℕ
  unfolding read_seconds
  retry_after_seconds now r = do
    retry_after ← read_seconds (λ x. x) (r.header (text "retry-after"))
    elim retry_after [
      | some n ↦ ok n
      | none ↦ (do
        reset ← read_seconds (λ x. fl.minus x now) (r.header (text "x-ratelimit-reset"))
        elim reset [ some n ↦ ok n | none ↦ ok 60 ])
    ]

  abbrev pub rate_limited : Fields → ℕ → AppError
  rate_limited details n =
      init rate_limited_error
        (text "GitHub API rate limit exceeded. Retry in " ++ decimal n ++ text "s.") none none
        (obj (append_field (text "retry_after_seconds") (num n) details))
        ((text "Retry-After", decimal n) ∷ [])

  unfoldable pub map_error : fl.Float → Reply → Result AppError
  map_error now r =
      let status = r.status_code in
      let details = upstream_details r in
      if status == 401
      then ok (
          error unauthorized_error
            (text
              "GitHub rejected the configured token. Check GITHUB_TOKEN is set, unexpired, and has Issues: read & write on this repository.")
            (obj details))
      else if (status == 403 || status == 429) && is_rate_limited r
      then (do n ← retry_after_seconds now r; ok (rate_limited details n))
      else if status == 403
      then ok (
          error forbidden_error
            (text "GitHub refused this request. The token is valid but lacks permission for it.")
            (obj details))
      else if status == 404
      then ok (
          error not_found_error
            (text "The requested issue or repository does not exist, or the token cannot see it.")
            (obj details))
      else if status == 410 || status == 422
      then ok (
          error validation_error (text "GitHub rejected the request payload as invalid.")
            (obj details))
      else if leb 500 status
      then ok (
          error upstream_unavailable_error
            (text "GitHub returned a server error. This is upstream, not your request.")
            (obj details))
      else ok (
          init app_error (text "Unexpected response from GitHub (" ++ decimal status ++ text ").")
            (some 502) (some (text "upstream_error")) (obj details) [])

  abbrev unavailable : Text → Text → AppError
  unavailable message why =
      error upstream_unavailable_error message (obj (field (text "upstream") (str why) end))

  -- `_request`, on what became of the HTTP request
  unfoldable pub request : fl.Float → Outcome → Result GitHubResult
  unfolding decode
  request now timeout = raise (
      app
        (unavailable (text "Timed out talking to the GitHub API. Please retry.") (text "timeout")))
  request now (transport name) =
      raise (app (unavailable (text "Could not reach the GitHub API.") name))
  request now (failed c) = raise (crash c)
  request now (replied r) =
      if leb 400 r.status_code
      then (do e ← map_error now r; raise (app e))
      else ok (record { status_code = r.status_code; payload = decode r; header = r.header })
