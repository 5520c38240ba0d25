-- ===== src/Github/Calls.antt =====
-- The six calls of the client, as the HTTP requests that they make.
use issues_api_testbed.Prelude.{
  ℕ, Bool, Option, none, some, [], ◌∷◌, ◌++◌, Text, text, is_empty, ◌==◌, nat_eq, if◌then◌else◌,
}
use issues_api_testbed.Python.{Json, str, obj, Fields, field, end}
use issues_api_testbed.Python.Str.{decimal}
use issues_api_testbed.Errors.{Result, Headers, set_header}
use issues_api_testbed.Github.Types.{Floats, GitHubResult, Call, Repository, Upstream}
use issues_api_testbed.Github.Defs.{request}

abbrev pub etag : GitHubResult → Option Text
etag r = r.header (text "etag")

abbrev pub link : GitHubResult → Option Text
link r = r.header (text "link")

abbrev pub not_modified : GitHubResult → Bool
not_modified r = r.status_code == 304

unfoldable pub repo_path : Repository → Text
repo_path repo = text "/repos/" ++ repo.github_owner ++ text "/" ++ repo.github_repo

-- `headers.update(extra)`
update : Headers → Headers → Headers
update headers [] = headers
update headers ((name, value) ∷ extra) = update (set_header name value headers) extra

-- `_headers`
unfoldable pub client_headers : Repository → Headers → Headers
unfolding update
client_headers repo extra =
    update
      ((text "Accept", text "application/vnd.github+json")
        ∷ (text "X-GitHub-Api-Version", repo.github_api_version)
        ∷ (text "Authorization", text "Bearer " ++ repo.github_token)
        ∷ (text "User-Agent", text "issues-api-testbed")
        ∷ [])
      extra

-- `f"{self._repo_path}/issues/{number}"` and what stands behind it
abbrev pub issue_path : Repository → ℕ → Text → Text
issue_path repo number rest = repo_path repo ++ text "/issues/" ++ decimal number ++ rest

-- `{"If-None-Match": etag} if etag else None`
abbrev pub conditional : Option Text → Headers
conditional none = []
conditional (some e) = if is_empty e then [] else (text "If-None-Match", e) ∷ []

module _ (repo : Repository) where
  abbrev pub call : Text → Text → Option Json → Option Fields → Headers → Call
  call method path json params extra = record {
    method = method;
    path = path;
    json = json;
    params = params;
    headers = client_headers repo extra;
  }

  unfoldable pub list_call : Fields → Option Text → Call
  list_call params etag =
      call (text "GET") (repo_path repo ++ text "/issues") none (some params) (conditional etag)

  module _ (fl : Floats) (up : Upstream fl) where
    abbrev run : Call → Result GitHubResult
    run c = request fl up.time (up.send c)

    unfoldable pub create_issue : Json → Result GitHubResult
    create_issue payload =
        run (call (text "POST") (repo_path repo ++ text "/issues") (some payload) none [])

    unfoldable pub list_issues : Fields → Option Text → Result GitHubResult
    list_issues params etag = run (list_call params etag)

    unfoldable pub get_issue : ℕ → Result GitHubResult
    get_issue number = run (call (text "GET") (issue_path repo number []) none none [])

    unfoldable pub update_issue : ℕ → Json → Result GitHubResult
    update_issue number payload =
        run (call (text "PATCH") (issue_path repo number []) (some payload) none [])

    unfoldable pub create_comment : ℕ → Text → Result GitHubResult
    create_comment number body = run (
        call (text "POST") (issue_path repo number (text "/comments"))
          (some (obj (field (text "body") (str body) end))) none [])

    unfoldable pub list_comments : ℕ → Fields → Result GitHubResult
    list_comments number params =
        run (call (text "GET") (issue_path repo number (text "/comments")) none (some params) [])
