-- ===== src/App/Documented/Raised.antt =====
-- The errors that the client for GitHub raises.
use issues_api_testbed.Prelude.{◌≡◌, refl, true, arith, inl, inr}
use issues_api_testbed.Errors.{
  unauthorized_error, rate_limited_error, forbidden_error, not_found_error, validation_error,
  upstream_unavailable_error, Result-cases, AppError, ok, only_crashes,
}
use issues_api_testbed.Github
use issues_api_testbed.Github.{
  Floats, Outcome, replied, timeout, transport, failed, request, map_error, retry_after_seconds,
  GitHubResult,
}
use issues_api_testbed.Github.Mapping.{map_error-MapsTo}
use issues_api_testbed.App.Documented.Tame.{github_error, is_expected, is_tame}
use issues_api_testbed.Contract.Fits.{class_code-is_code, upstream_error-is_code}

module _ (fl : Floats) where
  map_error-is_expected :
      (now : fl.Float) (r : Github.Reply) (e : AppError)
      → map_error fl now r ≡ ok e
      → is_expected github_error e ≡ true
  unfolding is_expected
  map_error-is_expected now r e h = ground (
    arith,
    map_error-MapsTo fl now r e h,
    class_code-is_code unauthorized_error,
    class_code-is_code rate_limited_error,
    class_code-is_code forbidden_error,
    class_code-is_code not_found_error,
    class_code-is_code validation_error,
    class_code-is_code upstream_unavailable_error,
    upstream_error-is_code,
  )

  retry_after_seconds-only_crashes :
      (now : fl.Float) (r : Github.Reply) → only_crashes (retry_after_seconds fl now r) ≡ true
  unfolding retry_after_seconds Github.read_seconds only_crashes
  retry_after_seconds-only_crashes now r = ground arith

  map_error-only_crashes :
      (now : fl.Float) (r : Github.Reply) → only_crashes (map_error fl now r) ≡ true
  unfolding map_error only_crashes
  map_error-only_crashes now r = ground (arith, retry_after_seconds-only_crashes now r)

  pub request-is_tame :
      (now : fl.Float) (o : Outcome) → is_tame github_error (request fl now o) ≡ true
  unfolding request is_expected is_tame only_crashes
  request-is_tame now timeout = class_code-is_code upstream_unavailable_error
  request-is_tame now (transport name) = class_code-is_code upstream_unavailable_error
  request-is_tame now (failed c) = refl
  request-is_tame now (replied r) = elim (Result-cases (map_error fl now r)) [
    | inl (e, unmapped) ↦ ground (arith, map_error-only_crashes now r)
    | inr (e, made) ↦ ground (arith, map_error-is_expected now r e made)
  ]
