-- ===== src/App/Documented/IssueRoutes.antt =====
-- The responses of the issue routes.
use issues_api_testbed.Prelude.Int.{pos}
use issues_api_testbed.Prelude.{ℕ, ◌≡◌, refl, true, Option, some, arith, inl, inr, text, Text}
use issues_api_testbed.Errors.{not_found_error, Result-cases, ok, app, crash, only_crashes}
use issues_api_testbed.Github
use issues_api_testbed.Github.{
  Floats, Outcome, replied, timeout, transport, request, map_error, retry_after_seconds,
  GitHubResult,
}
use issues_api_testbed.Http.Bodies.{rendered}
use issues_api_testbed.Cache.{CachedList}
use issues_api_testbed.Python.{num, field, end}
use issues_api_testbed.Pagination.{rewrite_link_header, rewrite_link_header-only_crashes}
use issues_api_testbed.Schemas.{
  IssueCreate, IssuePatch, CommentCreate, dump_create, to_github_payload, to_issue, to_comment,
  is_pull_request-only_crashes, to_issue-only_crashes, to_comment-only_crashes,
}
use issues_api_testbed.Routes.Issues
use issues_api_testbed.Routes.Issues.{Services}
use issues_api_testbed.Routes.Issues.Answers.{answered-cases}
use issues_api_testbed.App.Documented.Tame.{
  github_error, is_expected, is_tame, is_answer, is_answer-bind, tame_of_only_crashes,
}
use issues_api_testbed.Contract.Responses.{Operation, is_documented, documented}
use issues_api_testbed.Contract.Fits.{class_code-is_code}
use issues_api_testbed.App.Documented.Raised.{request-is_tame}
use issues_api_testbed.App.Documented.Pages.{
  issue_is_documented, issues_are_documented, comment_is_documented, comments_are_documented,
}

module _ (sv : Services) where
  open sv use {floats, repo, up, pydantic, urls}

  issue_or_404-is_tame :
      (n : ℕ) (r : GitHubResult) → is_tame github_error (Issues.issue_or_404 sv n r) ≡ true
  unfolding Issues.issue_or_404 is_tame is_expected only_crashes
  issue_or_404-is_tame n r = ground (
    arith,
    is_pull_request-only_crashes r.payload,
    to_issue-only_crashes pydantic r.payload,
    class_code-is_code not_found_error,
  )

  pub create_issue-is_answer :
      (payload : IssueCreate)
      → is_answer Operation.create_issue (Issues.create_issue sv payload) ≡ true
  unfolding Issues.create_issue Github.create_issue documented
  create_issue-is_answer payload =
      is_answer-bind Operation.create_issue
        (Github.create_issue repo floats up (dump_create payload)) _
        (request-is_tame floats up.time _)
        λ r.
          is_answer-bind Operation.create_issue (to_issue pydantic r.payload) _
            (tame_of_only_crashes _ _ (to_issue-only_crashes pydantic r.payload))
            λ i. issue_is_documented Operation.create_issue _ _ i refl

  pub get_issue-is_answer : (n : ℕ) → is_answer Operation.get_issue (Issues.get_issue sv n) ≡ true
  unfolding Issues.get_issue Github.get_issue documented
  get_issue-is_answer n =
      is_answer-bind Operation.get_issue (Github.get_issue repo floats up n) _
        (request-is_tame floats up.time _)
        λ r.
          is_answer-bind Operation.get_issue (Issues.issue_or_404 sv n r) _
            (issue_or_404-is_tame n r) λ i. issue_is_documented Operation.get_issue _ _ i refl

  pub update_issue-is_answer :
      (n : ℕ) (payload : IssuePatch)
      → is_answer Operation.update_issue (Issues.update_issue sv n payload) ≡ true
  unfolding Issues.update_issue Github.update_issue documented
  update_issue-is_answer n payload =
      is_answer-bind Operation.update_issue
        (Github.update_issue repo floats up n (to_github_payload payload)) _
        (request-is_tame floats up.time _)
        λ r.
          is_answer-bind Operation.update_issue (Issues.issue_or_404 sv n r) _
            (issue_or_404-is_tame n r) λ i. issue_is_documented Operation.update_issue _ _ i refl

  pub create_comment-is_answer :
      (n : ℕ) (payload : CommentCreate)
      → is_answer Operation.create_comment (Issues.create_comment sv n payload) ≡ true
  unfolding Issues.create_comment Github.create_comment documented
  create_comment-is_answer n payload =
      is_answer-bind Operation.create_comment (Github.create_comment repo floats up n payload.body)
        _ (request-is_tame floats up.time _)
        λ r.
          is_answer-bind Operation.create_comment (to_comment pydantic r.payload (some (pos n))) _
            (tame_of_only_crashes _ _ (to_comment-only_crashes pydantic r.payload (some (pos n))))
            λ c. comment_is_documented _ c

  pub list_comments-is_answer :
      (n page per_page : ℕ)
      → is_answer Operation.list_comments (Issues.list_comments sv n page per_page) ≡ true
  unfolding Issues.list_comments Github.list_comments documented
  list_comments-is_answer n page per_page =
      is_answer-bind Operation.list_comments
        (Github.list_comments repo floats up n
          (field (text "page") (num page) (field (text "per_page") (num per_page) end)))
        _ (request-is_tame floats up.time _)
        λ r.
          is_answer-bind Operation.list_comments
            (rewrite_link_header urls (Github.link r) (Issues.comments_path n)) _
            (tame_of_only_crashes _ _
              (rewrite_link_header-only_crashes urls (Github.link r) (Issues.comments_path n)))
            λ l.
              is_answer-bind Operation.list_comments (Issues.list_of r.payload) _
                (tame_of_only_crashes _ _ (Issues.list_of-only_crashes r.payload))
                λ items.
                  is_answer-bind Operation.list_comments (Issues.comments_of sv n items) _
                    (tame_of_only_crashes _ _ (Issues.comments_of-only_crashes sv n items))
                    λ c. comments_are_documented _ c

  page_response-is_answer :
      (q : Issues.ListQuery) (x_cache : Text) (entry : CachedList)
      → is_answer Operation.list_issues (Issues.page_response sv q x_cache entry) ≡ true
  unfolding Issues.page_response
  page_response-is_answer q x_cache entry =
      is_answer-bind Operation.list_issues (rewrite_link_header urls entry.link Issues.issues_path)
        _
        (tame_of_only_crashes _ _
          (rewrite_link_header-only_crashes urls entry.link Issues.issues_path))
        λ l.
          is_answer-bind Operation.list_issues (Issues.issues_of sv entry.entries) _
            (tame_of_only_crashes _ _ (Issues.issues_of-only_crashes sv entry.entries))
            λ is. issues_are_documented _ is

  missed-is_answer :
      (q : Issues.ListQuery) (r : GitHubResult) (c : Issues.Cache)
      → is_answer Operation.list_issues (Issues.missed sv q (Issues.entry_of r) c).0 ≡ true
  unfolding Issues.missed is_answer only_crashes
  missed-is_answer q r c = elim (Result-cases (Issues.entry_of r)) [
    | inl (e, failed) ↦ ground (arith, Issues.entry_of-only_crashes sv r)
    | inr (entry, read) ↦ ground (arith, page_response-is_answer q (text "MISS") entry)
  ]

  answered-is_answer :
      (q : Issues.ListQuery) (cached : Option CachedList) (r : GitHubResult) (c : Issues.Cache)
      → is_answer Operation.list_issues (Issues.answered sv q cached (ok r) c).0 ≡ true
  unfolding Issues.current is_answer is_documented documented rendered
  answered-is_answer q cached r c = elim (answered-cases sv q cached r c) [
    | inl (e, own, same, how) ↦ rw how refl
    | inr (inl (entry, warm, same, asked, how)) ↦
        rw how (page_response-is_answer q (text "HIT") entry)
    | inr (inr how) ↦ rw how (missed-is_answer q r c)
  ]

  asked-is_tame :
      (q : Issues.ListQuery) (cached : Option CachedList)
      → is_tame github_error (
          Github.list_issues repo floats up
            (Issues.list_params q)
            (Issues.wanted_etag q.if_none_match cached))
        ≡ true
  unfolding Github.list_issues
  asked-is_tame q cached = request-is_tame floats up.time _

  pub list_issues-is_answer :
      (q : Issues.ListQuery) (c : Issues.Cache)
      → is_answer Operation.list_issues (Issues.list_issues sv q c).0 ≡ true
  unfolding Issues.list_issues Issues.answered is_answer is_tame
  list_issues-is_answer q c =
      let (cached, c') = Issues.look_up sv q c in
      elim (Result-cases (
        Github.list_issues repo floats up (Issues.list_params q)
          (Issues.wanted_etag q.if_none_match cached))) [
            | inl (app e, failed) ↦
                let tame = asked-is_tame q cached in
                rw (failed, Issues.list_issues) (rw failed at tame)
            | inl (crash e, failed) ↦ rw (failed, Issues.list_issues) refl
            | inr (r, sent) ↦ rw (sent, Issues.list_issues) (answered-is_answer q cached r c')
          ]
