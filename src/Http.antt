-- ===== src/Http.antt =====
-- What the framework gives a handler and takes from it.
pub mod Bodies
use issues_api_testbed.Prelude.Int.{ℤ}
use issues_api_testbed.Prelude.{ℕ, Option, List, Text}
use issues_api_testbed.Python.{Json}
use issues_api_testbed.Errors.{Headers}
use issues_api_testbed.Schemas.{Issue, Comment}

-- `EventRecord` of app/schemas.py, its timestamp as ISO text
pub record EventRecord : Type 0 where
  pub id : Text
  pub event : Text
  pub action : Option Text
  pub issue_number : Option ℤ
  pub timestamp : Text

-- A response body before it is serialised: an error envelope or other JSON, or values of a
-- response model.
pub data Body : Type 0 where
  empty : Body
  json : Json → Body
  issue : Issue → Body
  issues : List Issue → Body
  comment : Comment → Body
  comments : List Comment → Body
  events : List EventRecord → Body

pub record Response : Type 0 where
  pub status : ℕ
  pub headers : Headers
  pub body : Body

-- What a handler reads of a request. `header` is the case-insensitive `request.headers.get`.
pub record Request : Type 0 where
  pub header : Text → Option Text
  pub raw_body : List ℕ
  pub request_id : Option Text
