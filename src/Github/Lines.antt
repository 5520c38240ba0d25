-- ===== src/Github/Lines.antt =====
-- What `_request` logs of a call, and the calls that the six methods make.
use issues_api_testbed.Prelude.{ℕ, ◌≡◌, refl, none, some, List, [], ◌∷◌, ◌++◌, Text, text}
use issues_api_testbed.Python.{Json, str, obj, num, Fields, field, end}
use issues_api_testbed.Errors.{Result, opt_str}
use issues_api_testbed.Logging.Lines.{Line, info, warning, line}
use issues_api_testbed.Github.Types.{
  Floats, Call, Outcome, replied, timeout, transport, failed, GitHubResult, Repository, Upstream,
}
use issues_api_testbed.Github.Defs.{request}
use issues_api_testbed.Github.Calls.{
  call, issue_path, repo_path, create_issue, get_issue, update_issue, create_comment, list_comments,
}

abbrev pub create_issue_call : Repository → Json → Call
create_issue_call repo payload =
    call repo (text "POST") (repo_path repo ++ text "/issues") (some payload) none []

abbrev pub get_issue_call : Repository → ℕ → Call
get_issue_call repo number = call repo (text "GET") (issue_path repo number []) none none []

abbrev pub update_issue_call : Repository → ℕ → Json → Call
update_issue_call repo number payload =
    call repo (text "PATCH") (issue_path repo number []) (some payload) none []

abbrev pub create_comment_call : Repository → ℕ → Text → Call
create_comment_call repo number body =
    call repo (text "POST") (issue_path repo number (text "/comments"))
      (some (obj (field (text "body") (str body) end))) none []

abbrev pub list_comments_call : Repository → ℕ → Fields → Call
list_comments_call repo number params =
    call repo (text "GET") (issue_path repo number (text "/comments")) none (some params) []

-- the lines of `_request` for the outcome of a call, with the milliseconds that it took
unfoldable pub call_lines : Json → Call → Outcome → List Line
call_lines duration_ms c timeout =
    line warning (text "github_timeout")
      (field (text "method") (str c.method) (field (text "path") (str c.path) end))
    ∷ []
call_lines duration_ms c (transport name) =
    line warning (text "github_transport_error") (
      field (text "method") (str c.method)
        (field (text "path") (str c.path) (field (text "error") (str name) end)))
    ∷ []
call_lines duration_ms c (failed x) = []
call_lines duration_ms c (replied r) =
    line info (text "github_call") (
      field (text "method") (str c.method) (
        field (text "path") (str c.path) (
          field (text "status_code") (num r.status_code) (
            field (text "duration_ms") duration_ms (
              field (text "rate_limit_remaining")
                (opt_str (r.header (text "x-ratelimit-remaining"))) end)))))
    ∷ []

-- the calls are those that the methods make
module _ (repo : Repository) (fl : Floats) (up : Upstream fl) where
  abbrev sends : Call → Result GitHubResult
  sends c = request fl up.time (up.send c)

  create_issue-sends : (j : Json) → create_issue repo fl up j ≡ sends (create_issue_call repo j)
  unfolding create_issue
  create_issue-sends j = refl

  get_issue-sends : (n : ℕ) → get_issue repo fl up n ≡ sends (get_issue_call repo n)
  unfolding get_issue
  get_issue-sends n = refl

  update_issue-sends :
      (n : ℕ) (j : Json) → update_issue repo fl up n j ≡ sends (update_issue_call repo n j)
  unfolding update_issue
  update_issue-sends n j = refl

  create_comment-sends :
      (n : ℕ) (b : Text) → create_comment repo fl up n b ≡ sends (create_comment_call repo n b)
  unfolding create_comment
  create_comment-sends n b = refl

  list_comments-sends :
      (n : ℕ) (d : Fields) → list_comments repo fl up n d ≡ sends (list_comments_call repo n d)
  unfolding list_comments
  list_comments-sends n d = refl
