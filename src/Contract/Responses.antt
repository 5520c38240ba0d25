-- ===== src/Contract/Responses.antt =====
-- `paths` of the contract: the responses of each operation.
use issues_api_testbed.Prelude.{
  ℕ, Bool, true, false, ◌&&◌, ◌||◌, Option, none, some, ◌==◌, nat_eq, if◌then◌else◌,
}
use issues_api_testbed.Python.{Json}
use issues_api_testbed.Http.{Response}
use issues_api_testbed.Http.Bodies.{rendered}
use issues_api_testbed.Contract.Shapes.{Shape, list_of, fits, loosened}
use issues_api_testbed.Contract.Schemas.{
  health_shape, issue_shape, comment_shape, event_shape, error_shape,
}

-- by their `operationId`
pub data Operation : Type 0 where
  healthz create_issue list_issues get_issue update_issue create_comment list_comments : Operation
  receive_webhook list_events : Operation

pub data Content : Type 0 where
  no_body : Content
  json_of : Shape → Content

-- the error responses of the issue routes, and of the webhook
abbrev pub issue_error : ℕ → Bool
issue_error s = s == 400 || s == 401 || s == 403 || s == 404 || s == 429 || s == 503

abbrev pub hook_error : ℕ → Bool
hook_error s = s == 400 || s == 401

abbrev error_if : Bool → Option Content
error_if b = if b then some (json_of error_shape) else none

-- the response that an operation has for a status
unfoldable pub documented : Operation → ℕ → Option Content
documented healthz s = if s == 200 then some (json_of health_shape) else none
documented create_issue s =
    if s == 201 then some (json_of issue_shape) else error_if (issue_error s)
documented list_issues s =
    if s == 200
    then some (json_of (list_of issue_shape))
    else if s == 304
    then some no_body
    else error_if (issue_error s)
documented get_issue s = if s == 200 then some (json_of issue_shape) else error_if (issue_error s)
documented update_issue s =
    if s == 200 then some (json_of issue_shape) else error_if (issue_error s)
documented create_comment s =
    if s == 201 then some (json_of comment_shape) else error_if (issue_error s)
documented list_comments s =
    if s == 200 then some (json_of (list_of comment_shape)) else error_if (issue_error s)
documented receive_webhook s = if s == 204 then some no_body else error_if (hook_error s)
documented list_events s =
    if s == 200 then some (json_of (list_of event_shape)) else error_if (s == 400)

abbrev pub has_content : Option Content → Option Json → Bool
has_content (some no_body) none = true
has_content (some (json_of shape)) (some j) = fits (loosened shape) j
has_content _ _ = false

-- a response that the contract has for the operation, a `minimum` in its body aside
unfoldable pub is_documented : Operation → Response → Bool
is_documented op r = has_content (documented op r.status) (rendered r.body)

abbrev pub asks_github : Operation → Bool
asks_github healthz = false
asks_github receive_webhook = false
asks_github list_events = false
asks_github _ = true

-- an error envelope under a status that the contract leaves out
unfoldable pub is_left_out : Operation → Response → Bool
is_left_out op r =
    (r.status == 500 || (asks_github op && r.status == 502))
    && has_content (some (json_of error_shape)) (rendered r.body)
