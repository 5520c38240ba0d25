-- ===== src/Routes/Issues/Defs.antt =====
-- The handlers for one issue and for comments.
use issues_api_testbed.Prelude.Int.{ℤ, pos, negsuc}
use issues_api_testbed.Prelude.{
  ℕ, Bool, ◌&&◌, Option, none, some, List, [], ◌∷◌, ◌++◌, Text, text, is_empty, leb, if◌then◌else◌,
  ◌≡◌, refl, true, arith,
}
use issues_api_testbed.Python.{Json, str, arr, obj, num, Fields, field, end, to_list, truthy}
use issues_api_testbed.Python.Str.{decimal}
use issues_api_testbed.Errors.{
  Result, ok, raise, crash, app, AppError, error, Headers, set_header, not_found_error, type_error,
  ◌>>=◌, only_crashes,
}
use issues_api_testbed.Schemas.{
  IssueCreate, IssuePatch, CommentCreate, dump_create, to_github_payload, Pydantic, Issue, Comment,
  is_pull_request, to_issue, to_comment, to_comment-only_crashes,
}
use issues_api_testbed.Http.{Response, issue, comment, comments}
use issues_api_testbed.Github
use issues_api_testbed.Github.{Floats, Repository, Upstream, GitHubResult}
use issues_api_testbed.Pagination.{Urls, max_per_page, rewrite_link_header}

-- What the handlers read of `Settings`, the libraries that they call, and GitHub for the length of
-- one request.
pub record Services : Type 1 where
  pub floats : Floats
  pub repo : Repository
  pub up : Upstream floats
  pub pydantic : Pydantic
  pub urls : Urls
  pub cache_enabled : Bool

abbrev pub issues_path : Text
issues_path = text "/issues"

not_found : ℕ → AppError
not_found number =
    error not_found_error
      (text "Issue #" ++ decimal number ++ text " does not exist in this repository.")
      (obj (field (text "issue_number") (num number) end))

-- `f"{ISSUES_PATH}/{number}/comments"`
abbrev pub comments_path : ℕ → Text
comments_path number = issues_path ++ text "/" ++ decimal number ++ text "/comments"

-- `str(i)`
abbrev decimal_ℤ : ℤ → Text
decimal_ℤ (pos n) = decimal n
decimal_ℤ (negsuc n) = b'-' ∷ decimal (ℕ.suc n)

-- `IssueNumber`
unfoldable pub parse_number : ℤ → Option ℕ
parse_number (pos n) = if leb 1 n then some n else none
parse_number (negsuc n) = none

-- `Query(ge=1)` and `Query(ge=1, le=MAX_PER_PAGE)`
unfoldable pub parse_page : ℤ → Option ℕ
parse_page (pos n) = if leb 1 n then some n else none
parse_page (negsuc n) = none

unfoldable pub parse_per_page : ℤ → Option ℕ
parse_per_page (pos n) = if leb 1 n && leb n max_per_page then some n else none
parse_per_page (negsuc n) = none

-- `if value: response.headers[name] = value`
abbrev pub header_set : Text → Option Text → Headers → Headers
header_set name none headers = headers
header_set name (some v) headers = if is_empty v then headers else set_header name v headers

-- the two headers that tell the page
abbrev pub paged : ℕ → ℕ → Headers → Headers
paged page per_page headers =
    set_header (text "X-Per-Page") (decimal per_page)
      (set_header (text "X-Page") (decimal page) headers)

char_list : Text → List Json
char_list [] = []
char_list (c ∷ s) = str (c ∷ []) ∷ char_list s

key_list : Fields → List Json
key_list end = []
key_list (field k v d) = str k ∷ key_list d

iterated : Json → Result (List Json)
iterated (arr xs) = ok (to_list xs)
iterated (obj d) = ok (key_list d)
iterated (str s) = ok (char_list s)
iterated _ = raise (crash type_error)

-- `list(value or [])`
unfoldable pub list_of : Json → Result (List Json)
unfolding iterated char_list key_list
list_of value = if truthy value then iterated value else ok []

pub list_of-only_crashes : (value : Json) → only_crashes (list_of value) ≡ true
unfolding list_of iterated only_crashes
list_of-only_crashes value = ground arith

module _ (sv : Services) where
  open sv use {floats, repo, up, pydantic, urls}

  -- `to_issue`, unless the payload is a pull request
  unfoldable pub issue_or_404 : ℕ → GitHubResult → Result Issue
  unfolding not_found
  issue_or_404 number result = do
    pull_request ← is_pull_request result.payload
    if pull_request then raise (app (not_found number)) else to_issue pydantic result.payload

  unfoldable pub create_issue : IssueCreate → Result Response
  create_issue payload = do
    result ← Github.create_issue repo floats up (dump_create payload)
    created ← to_issue pydantic result.payload
    ok (record {
      status = 201;
      headers = (text "Location", issues_path ++ text "/" ++ decimal_ℤ created.number) ∷ [];
      body = issue created;
    })

  unfoldable pub get_issue : ℕ → Result Response
  unfolding issue_or_404
  get_issue number = do
    result ← Github.get_issue repo floats up number
    found ← issue_or_404 number result
    ok (record { status = 200; headers = []; body = issue found })

  unfoldable pub update_issue : ℕ → IssuePatch → Result Response
  unfolding issue_or_404
  update_issue number payload = do
    result ← Github.update_issue repo floats up number (to_github_payload payload)
    updated ← issue_or_404 number result
    ok (record { status = 200; headers = []; body = issue updated })

  unfoldable pub create_comment : ℕ → CommentCreate → Result Response
  create_comment number payload = do
    result ← Github.create_comment repo floats up number payload.body
    created ← to_comment pydantic result.payload (some (pos number))
    ok (record {
      status = 201;
      headers = (text "Location", comments_path number) ∷ [];
      body = comment created;
    })

  unfoldable pub comments_of : ℕ → List Json → Result (List Comment)
  comments_of number [] = ok []
  comments_of number (item ∷ items) = do
    c ← to_comment pydantic item (some (pos number))
    rest ← comments_of number items
    ok (c ∷ rest)

  unfoldable pub list_comments : ℕ → ℕ → ℕ → Result Response
  unfolding comments_of
  list_comments number page per_page = do
    result ←
        Github.list_comments repo floats up number
          (field (text "page") (num page) (field (text "per_page") (num per_page) end))
    forwarded_link ← rewrite_link_header urls (Github.link result) (comments_path number)
    items ← list_of result.payload
    found ← comments_of number items
    ok (record {
      status = 200;
      headers = paged page per_page (header_set (text "Link") forwarded_link []);
      body = comments found;
    })

  pub comments_of-only_crashes :
      (number : ℕ) (items : List Json) → only_crashes (comments_of number items) ≡ true
  unfolding comments_of only_crashes
  comments_of-only_crashes number [] = refl
  comments_of-only_crashes number (item ∷ items) = ground (
    arith,
    to_comment-only_crashes pydantic item (some (pos number)),
    comments_of-only_crashes number items,
  )
