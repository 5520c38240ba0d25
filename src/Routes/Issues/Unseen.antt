-- ===== src/Routes/Issues/Unseen.antt =====
-- The lines of the issue routes under two tokens that GitHub makes no difference between.
use issues_api_testbed.Prelude.{
  ℕ, Bool, true, false, ◌≡◌, refl, Option, none, some, List, ◌++◌, Text, arith,
}
use issues_api_testbed.Python.{Json}
use issues_api_testbed.Errors.{Result, ok, raise}
use issues_api_testbed.Cache.{CachedList, CacheKey}
use issues_api_testbed.Schemas.{
  IssueCreate, IssuePatch, CommentCreate, dump_create, to_github_payload,
}
use issues_api_testbed.Logging.Lines.{Line}
use issues_api_testbed.Github
use issues_api_testbed.Github.{GitHubResult}
use issues_api_testbed.Github.Token.{
  SameAnswers, same_line, create_issue-token, list_issues-token, update_issue-token,
  create_comment-token,
}
use issues_api_testbed.Routes.Issues.Defs.{Services, issue_or_404}
use issues_api_testbed.Routes.Issues.Listing.{ListQuery, Cache, list_params, wanted_etag, look_up}
use issues_api_testbed.Routes.Issues.Token.{under}
use issues_api_testbed.Routes.Issues.Lines.{
  create_issue_lines, get_issue_lines, update_issue_lines, create_comment_lines,
  list_comments_lines, missed_lines, served_lines, answered_lines, list_issues_lines,
}

both : {k l m n : List Line} → k ≡ l → m ≡ n → k ++ m ≡ l ++ n
both h k = rw (h, k) refl

module _ (sv : Services) (a b : Text) (same : SameAnswers sv.up a b) (d : Json)
    (show : CacheKey → Text) where
  open sv use {floats, repo, up, pydantic}

  pub create_issue_lines-under :
      (c : IssueCreate)
      → create_issue_lines (under a sv) d show c ≡ create_issue_lines (under b sv) d show c
  unfolding create_issue_lines Github.repo_path
  create_issue_lines-under c =
      both (same_line repo floats up a b same d _ _ _ none none)
        (rw (create_issue-token repo floats up a b same (dump_create c)) refl)

  pub get_issue_lines-under :
      (n : ℕ) → get_issue_lines (under a sv) d show n ≡ get_issue_lines (under b sv) d show n
  unfolding get_issue_lines Github.repo_path
  get_issue_lines-under n = same_line repo floats up a b same d _ _ none none none

  pub update_issue_lines-under :
      (n : ℕ) (c : IssuePatch)
      → update_issue_lines (under a sv) d show n c ≡ update_issue_lines (under b sv) d show n c
  unfolding update_issue_lines issue_or_404 Github.repo_path
  update_issue_lines-under n c =
      both (same_line repo floats up a b same d _ _ _ none none)
        (rw (update_issue-token repo floats up a b same n (to_github_payload c)) refl)

  pub create_comment_lines-under :
      (n : ℕ) (c : CommentCreate)
      → create_comment_lines (under a sv) d show n c ≡ create_comment_lines (under b sv) d show n c
  unfolding create_comment_lines Github.repo_path
  create_comment_lines-under n c =
      both (same_line repo floats up a b same d _ _ _ none none)
        (rw (create_comment-token repo floats up a b same n c.body) refl)

  pub list_comments_lines-under :
      (n page per_page : ℕ)
      → list_comments_lines (under a sv) d show n page per_page
        ≡ list_comments_lines (under b sv) d show n page per_page
  unfolding list_comments_lines Github.repo_path
  list_comments_lines-under n page per_page = same_line repo floats up a b same d _ _ none _ none

  missed_lines-under :
      (q : ListQuery) (r : Result CachedList) (c : Cache)
      → missed_lines (under a sv) d show q r c ≡ missed_lines (under b sv) d show q r c
  unfolding missed_lines
  missed_lines-under q (raise e) c = refl
  missed_lines-under q (ok entry) c = refl

  served_lines-under :
      (q : ListQuery) (cached : Option CachedList) (hit : Bool) (r : GitHubResult) (c : Cache)
      → served_lines (under a sv) d show q cached hit r c
        ≡ served_lines (under b sv) d show q cached hit r c
  unfolding served_lines
  served_lines-under q none hit r c = missed_lines-under q _ c
  served_lines-under q (some entry) false r c = missed_lines-under q _ c
  served_lines-under q (some entry) true r c = refl

  answered_lines-under :
      (q : ListQuery) (cached : Option CachedList) (r : GitHubResult) (c : Cache)
      → answered_lines (under a sv) d show q cached r c
        ≡ answered_lines (under b sv) d show q cached r c
  unfolding answered_lines
  answered_lines-under q cached r c =
      ground (arith, served_lines-under q cached (Github.not_modified r) r c)

  pub list_issues_lines-under :
      (q : ListQuery) (c : Cache)
      → list_issues_lines (under a sv) d show q c ≡ list_issues_lines (under b sv) d show q c
  unfolding list_issues_lines look_up Github.list_call Github.repo_path
  list_issues_lines-under q c =
      let (cached, c') = look_up sv q c in
      let etag : Option Text = wanted_etag q.if_none_match cached in
      let under_a : GitHubResult → List Line =
        λ r. answered_lines (under a sv) d show q cached r c' in
      let under_b : GitHubResult → List Line =
        λ r. answered_lines (under b sv) d show q cached r c' in
      let alike : under_a ≡ under_b = λ i r. answered_lines-under q cached r c' i in
      both (same_line repo floats up a b same d _ _ none (some (list_params q)) etag)
        (rw (list_issues-token repo floats up a b same (list_params q) etag, alike) refl)
