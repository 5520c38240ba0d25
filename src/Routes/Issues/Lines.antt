-- ===== src/Routes/Issues/Lines.antt =====
-- What the issue routes log, in order: the line of the call of GitHub, and their own.
use issues_api_testbed.Prelude.{
  ℕ, Bool, true, not, ◌&&◌, Option, none, some, List, [], ◌∷◌, ◌++◌, Text, text, text_eq, nat_eq,
  pair_eq, is_empty, if◌then◌else◌,
}
use issues_api_testbed.Python.{Json, str, int, num, field, end}
use issues_api_testbed.Errors.{Result, ok, raise, ◌>>=◌}
use issues_api_testbed.Schemas.{
  IssueCreate, IssuePatch, CommentCreate, dump_create, to_github_payload, to_issue, to_comment,
  filter_value,
}
use issues_api_testbed.Prelude.Int.{pos}
use issues_api_testbed.Cache.{CachedList, CacheKey}
use issues_api_testbed.Cache.Lines.{set_lines}
use issues_api_testbed.Logging.Lines.{Line, info, line}
use issues_api_testbed.Github
use issues_api_testbed.Github.{Call, GitHubResult, list_call}
use issues_api_testbed.Github.Lines.{
  create_issue_call, get_issue_call, update_issue_call, create_comment_call, list_comments_call,
  call_lines,
}
use issues_api_testbed.Routes.Issues.Defs.{Services, issue_or_404}
use issues_api_testbed.Routes.Issues.Listing.{
  ListQuery, Cache, cache_key, nonempty, is_text, list_params, wanted_etag, entry_of, look_up,
}

-- the lines behind a step that has not failed
unfoldable pub then_lines {ℓ} : {A : Type ℓ} → Result A → (A → List Line) → List Line
then_lines (ok a) f = f a
then_lines (raise e) f = []

-- the milliseconds that the call of GitHub takes, and Python's `str` of a key of the cache
module _ (sv : Services) (duration_ms : Json) (show : CacheKey → Text) where
  open sv use {floats, repo, up, pydantic, cache_enabled}

  unfoldable pub called : Call → List Line
  called c = call_lines duration_ms c (up.send c)

  unfoldable pub create_issue_lines : IssueCreate → List Line
  unfolding called
  create_issue_lines payload =
      called (create_issue_call repo (dump_create payload))
      ++ then_lines
          (do
            result ← Github.create_issue repo floats up (dump_create payload)
            to_issue pydantic result.payload)
          (λ created.
            line info (text "issue_created") (field (text "issue_number") (int created.number) end)
            ∷ [])

  unfoldable pub get_issue_lines : ℕ → List Line
  unfolding called
  get_issue_lines number = called (get_issue_call repo number)

  unfoldable pub update_issue_lines : ℕ → IssuePatch → List Line
  unfolding called
  update_issue_lines number payload =
      called (update_issue_call repo number (to_github_payload payload))
      ++ then_lines
          (do
            result ← Github.update_issue repo floats up number (to_github_payload payload)
            issue_or_404 sv number result)
          (λ updated.
            line info (text "issue_updated") (
              field (text "issue_number") (int updated.number)
                (field (text "new_state") (str updated.state) end))
            ∷ [])

  unfoldable pub create_comment_lines : ℕ → CommentCreate → List Line
  unfolding called
  create_comment_lines number payload =
      called (create_comment_call repo number payload.body)
      ++ then_lines
          (do
            result ← Github.create_comment repo floats up number payload.body
            to_comment pydantic result.payload (some (pos number)))
          (λ created.
            line info (text "comment_created") (
              field (text "issue_number") (num number)
                (field (text "comment_id") (int created.id) end))
            ∷ [])

  unfoldable pub list_comments_lines : ℕ → ℕ → ℕ → List Line
  unfolding called
  list_comments_lines number page per_page = called (
      list_comments_call repo number
        (field (text "page") (num page) (field (text "per_page") (num per_page) end)))

  -- a page of GitHub's, where it is cached
  unfoldable pub missed_lines : ListQuery → Result CachedList → Cache → List Line
  missed_lines q (raise e) c = []
  missed_lines q (ok entry) c =
      if cache_enabled && not (is_empty entry.etag)
      then set_lines show (cache_key q) entry c
      else []

  unfoldable pub served_lines :
      ListQuery → Option CachedList → Bool → GitHubResult → Cache → List Line
  unfolding missed_lines
  served_lines q (some entry) true result c =
      line info (text "issues_served_from_cache")
        (field (text "state") (str (filter_value q.state)) (field (text "page") (num q.page) end))
      ∷ []
  served_lines q _ _ result c = missed_lines q (entry_of result) c

  -- behind the call of `github.list_issues`
  unfoldable pub answered_lines : ListQuery → Option CachedList → GitHubResult → Cache → List Line
  unfolding served_lines
  answered_lines q cached result c = elim (nonempty q.if_none_match) [
    | some e ↦
        if Github.not_modified result && is_text (wanted_etag q.if_none_match cached) e
        then []
        else served_lines q cached (Github.not_modified result) result c
    | none ↦ served_lines q cached (Github.not_modified result) result c
  ]

  unfoldable pub list_issues_lines : ListQuery → Cache → List Line
  unfolding called answered_lines
  list_issues_lines q c =
      let (cached, c') = look_up sv q c in
      called (list_call repo (list_params q) (wanted_etag q.if_none_match cached))
      ++ then_lines
          (Github.list_issues repo floats up (list_params q) (wanted_etag q.if_none_match cached))
          (λ result. answered_lines q cached result c')
