-- ===== src/Routes/Issues/Token.antt =====
-- The issue routes under two tokens that GitHub makes no difference between.
use issues_api_testbed.Prelude.{
  ℕ, Bool, true, false, ◌≡◌, refl, Option, none, some, List, [], ◌∷◌, Text, text, arith,
}
use issues_api_testbed.Errors.{Result, ok, raise}
use issues_api_testbed.Python.{Json}
use issues_api_testbed.Cache.{CachedList}
use issues_api_testbed.Schemas.{
  IssueCreate, IssuePatch, CommentCreate, dump_create, to_github_payload,
}
use issues_api_testbed.Github.{GitHubResult}
use issues_api_testbed.Github
use issues_api_testbed.Github.Token.{
  with_token, SameAnswers, create_issue-token, list_issues-token, get_issue-token,
  update_issue-token, create_comment-token, list_comments-token,
}
use issues_api_testbed.Routes.Issues.Defs.{
  Services, issue_or_404, comments_of, create_issue, get_issue, update_issue, create_comment,
  list_comments,
}
use issues_api_testbed.Routes.Issues.Listing.{
  ListQuery, Cache, list_params, wanted_etag, filtered, converted, issues_of, page_response,
  remember, missed, served, answered, look_up, list_issues,
}

-- the services under another token
abbrev pub under : Text → Services → Services
under t sv = record sv { repo = with_token t sv.repo }

module _ (sv : Services) (a b : Text) (same : SameAnswers sv.up a b) where
  open sv use {floats, repo, up, pydantic}

  pub create_issue-under :
      (payload : IssueCreate)
      → create_issue (under a sv) payload ≡ create_issue (under b sv) payload
  unfolding create_issue
  create_issue-under payload =
      rw (create_issue-token repo floats up a b same (dump_create payload)) refl

  pub get_issue-under : (n : ℕ) → get_issue (under a sv) n ≡ get_issue (under b sv) n
  unfolding get_issue issue_or_404
  get_issue-under n = rw (get_issue-token repo floats up a b same n) refl

  pub update_issue-under :
      (n : ℕ) (payload : IssuePatch)
      → update_issue (under a sv) n payload ≡ update_issue (under b sv) n payload
  unfolding update_issue issue_or_404
  update_issue-under n payload =
      rw (update_issue-token repo floats up a b same n (to_github_payload payload)) refl

  pub create_comment-under :
      (n : ℕ) (payload : CommentCreate)
      → create_comment (under a sv) n payload ≡ create_comment (under b sv) n payload
  unfolding create_comment
  create_comment-under n payload =
      rw (create_comment-token repo floats up a b same n payload.body) refl

  comments_of-under :
      (n : ℕ) (items : List Json)
      → comments_of (under a sv) n items ≡ comments_of (under b sv) n items
  unfolding comments_of
  comments_of-under n [] = refl
  comments_of-under n (item ∷ items) = rw (comments_of-under n items) refl

  pub list_comments-under :
      (n page per_page : ℕ)
      → list_comments (under a sv) n page per_page ≡ list_comments (under b sv) n page per_page
  unfolding list_comments
  list_comments-under n page per_page =
      let same_comments : comments_of (under a sv) n ≡ comments_of (under b sv) n =
        λ i items. comments_of-under n items i in
      rw (list_comments-token repo floats up a b same n _, same_comments) refl

  converted-under :
      (items : List Json) → converted (under a sv) items ≡ converted (under b sv) items
  unfolding converted
  converted-under [] = refl
  converted-under (item ∷ items) = rw (converted-under items) refl

  filtered-under : (items : List Json) → filtered (under a sv) items ≡ filtered (under b sv) items
  unfolding filtered
  filtered-under [] = refl
  filtered-under (item ∷ items) = rw (filtered-under items) refl

  issues_of-under :
      (entries : List Json) → issues_of (under a sv) entries ≡ issues_of (under b sv) entries
  unfolding issues_of
  issues_of-under entries =
      let same_issues : converted (under a sv) ≡ converted (under b sv) =
        λ i items. converted-under items i in
      rw (filtered-under entries, same_issues) refl

  page_response-under :
      (q : ListQuery) (x_cache : Text) (entry : CachedList)
      → page_response (under a sv) q x_cache entry ≡ page_response (under b sv) q x_cache entry
  unfolding page_response
  page_response-under q x_cache entry = rw (issues_of-under entry.entries) refl

  missed-under :
      (q : ListQuery) (entry : Result CachedList) (c : Cache)
      → missed (under a sv) q entry c ≡ missed (under b sv) q entry c
  unfolding missed remember
  missed-under q (raise e) c = refl
  missed-under q (ok entry) c = rw (page_response-under q (text "MISS") entry) refl

  served-under :
      (q : ListQuery) (cached : Option CachedList) (hit : Bool) (r : GitHubResult) (c : Cache)
      → served (under a sv) q cached hit r c ≡ served (under b sv) q cached hit r c
  unfolding served
  served-under q none hit r c = missed-under q _ c
  served-under q (some entry) false r c = missed-under q _ c
  served-under q (some entry) true r c = rw (page_response-under q (text "HIT") entry) refl

  answered-under :
      (q : ListQuery) (cached : Option CachedList) (r : Result GitHubResult) (c : Cache)
      → answered (under a sv) q cached r c ≡ answered (under b sv) q cached r c
  unfolding answered
  answered-under q cached (raise e) c = refl
  answered-under q cached (ok r) c =
      ground (arith, served-under q cached (Github.not_modified r) r c)

  pub list_issues-under :
      (q : ListQuery) (c : Cache) → list_issues (under a sv) q c ≡ list_issues (under b sv) q c
  unfolding list_issues look_up
  list_issues-under q c =
      let (cached, c') = look_up sv q c in
      rw
        (list_issues-token repo floats up a b same (list_params q)
          (wanted_etag q.if_none_match cached))
        (answered-under q cached _ c')
