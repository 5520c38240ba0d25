-- ===== src/Github/Types.antt =====
-- What the client exchanges with httpx, and the operations on floats that it uses.
use issues_api_testbed.Prelude.Int.{ℤ}
use issues_api_testbed.Prelude.{ℕ, Option, List, Text}
use issues_api_testbed.Python.{Json, Fields}
use issues_api_testbed.Errors.{Headers, Crash}

-- `int(f)`: an integer, `ValueError` for a NaN, `OverflowError` for an infinity
pub data Truncated : Type 0 where
  whole : ℤ → Truncated
  not_a_number infinite : Truncated

pub record Floats : Type 1 where
  pub Float : Type 0
  -- `float(s)`; `none` is `ValueError`
  pub parse : Text → Option Float
  pub minus : Float → Float → Float
  pub truncate : Float → Truncated

-- An `httpx.Response`. `header` is the case-insensitive `headers.get`; `json` is `none` where
-- `response.json()` raises `ValueError`.
pub record Reply : Type 0 where
  pub status_code : ℕ
  pub header : Text → Option Text
  pub content : List ℕ
  pub json : Option Json
  pub reason_phrase : Text

-- How a request ends: with a response, `TimeoutException`, another `HTTPError` of that name, or
-- another exception.
pub data Outcome : Type 0 where
  replied : Reply → Outcome
  timeout : Outcome
  transport : Text → Outcome
  -- an exception that is no `httpx.HTTPError`, as for a header that cannot be encoded
  failed : Crash → Outcome

pub record GitHubResult : Type 0 where
  pub status_code : ℕ
  pub payload : Json
  pub header : Text → Option Text

-- The arguments of `self._client.request`; `None` for an argument that is left out.
pub record Call : Type 0 where
  pub method : Text
  pub path : Text
  pub json : Option Json
  pub params : Option Fields
  pub headers : Headers

-- What the client reads of `Settings`.
pub record Repository : Type 0 where
  pub github_owner : Text
  pub github_repo : Text
  pub github_token : Text
  pub github_api_version : Text

-- GitHub for the length of one request, and the clock when a response is translated.
pub record Upstream (fl : Floats) : Type 0 where
  pub send : Call → Outcome
  pub time : fl.Float
