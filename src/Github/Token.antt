-- ===== src/Github/Token.antt =====
-- The token of the client: which part of a call it is, and what the client does with it.
use issues_api_testbed.Prelude.{
  ℕ, ◌≡◌, ◌∙◌, refl, ap, Bool-cases, inl, inr, Option, none, some, ◌++◌, Text, text, text_beq,
  is_empty,
}
use issues_api_testbed.Python.{Json, Fields}
use issues_api_testbed.Errors.{set_header}
use issues_api_testbed.Github.Types.{
  Floats, Call, Repository, Upstream, Outcome, replied, timeout, transport, failed,
}
use issues_api_testbed.Github.Lines.{call_lines}
use issues_api_testbed.Github.Defs.{request}
use issues_api_testbed.Github.Calls.{
  call, repo_path, client_headers, conditional, list_call, create_issue, list_issues, get_issue,
  update_issue, create_comment, list_comments,
}

-- the repository under another token, and a call with it
abbrev pub with_token : Text → Repository → Repository
with_token t repo = record repo { github_token = t }

unfoldable pub set_token : Text → Call → Call
set_token t c = record c {
  headers = set_header (text "Authorization") (text "Bearer " ++ t) c.headers;
}

-- the calls carry the token in one header, and nowhere else
conditional_headers :
    (t : Text) (repo : Repository) (etag : Option Text)
    → client_headers (with_token t repo) (conditional etag)
      ≡ set_header
          (text "Authorization")
          (text "Bearer " ++ t)
          (client_headers repo (conditional etag))
unfolding client_headers set_header text text_beq
conditional_headers t repo none = refl
conditional_headers t repo (some e) = elim (Bool-cases (is_empty e)) [
  | inl blank ↦ rw blank refl
  | inr given ↦ rw given refl
]

-- GitHub makes no difference between two tokens
abbrev pub SameAnswers : {fl : Floats} → Upstream fl → Text → Text → Type 0
SameAnswers up a b = (c : Call) → up.send (set_token a c) ≡ up.send (set_token b c)

module _ (repo : Repository) (fl : Floats) (up : Upstream fl) (a b : Text)
    (same : SameAnswers up a b) where
  same_answer :
      (method path : Text) (body : Option Json) (params : Option Fields) (etag : Option Text)
      → request fl up.time
          (up.send (call (with_token a repo) method path body params (conditional etag)))
        ≡ request fl up.time
            (up.send (call (with_token b repo) method path body params (conditional etag)))
  unfolding set_token
  same_answer method path body params etag = ap (request fl up.time) (
      rw (conditional_headers a repo etag, conditional_headers b repo etag)
        (same (call repo method path body params (conditional etag))))

  line_of :
      (d : Json) (method path : Text) (body : Option Json) (params : Option Fields)
      (etag : Option Text) (o : Outcome)
      → call_lines d (call (with_token a repo) method path body params (conditional etag)) o
        ≡ call_lines d (call (with_token b repo) method path body params (conditional etag)) o
  unfolding call_lines
  line_of d method path body params etag timeout = refl
  line_of d method path body params etag (transport name) = refl
  line_of d method path body params etag (failed x) = refl
  line_of d method path body params etag (replied r) = refl

  pub same_line :
      (d : Json) (method path : Text) (body : Option Json) (params : Option Fields)
      (etag : Option Text)
      → call_lines d
          (call (with_token a repo) method path body params (conditional etag))
          (up.send (call (with_token a repo) method path body params (conditional etag)))
        ≡ call_lines d
            (call (with_token b repo) method path body params (conditional etag))
            (up.send (call (with_token b repo) method path body params (conditional etag)))
  unfolding set_token
  same_line d method path body params etag =
      ap (call_lines d _) (
        rw (conditional_headers a repo etag, conditional_headers b repo etag)
          (same (call repo method path body params (conditional etag))))
      ∙ line_of d method path body params etag _

  pub create_issue-token :
      (payload : Json)
      → create_issue (with_token a repo) fl up payload
        ≡ create_issue (with_token b repo) fl up payload
  unfolding create_issue repo_path
  create_issue-token payload = same_answer _ _ (some payload) none none

  pub list_issues-token :
      (params : Fields) (etag : Option Text)
      → list_issues (with_token a repo) fl up params etag
        ≡ list_issues (with_token b repo) fl up params etag
  unfolding list_issues list_call repo_path
  list_issues-token params etag = same_answer _ _ none (some params) etag

  pub get_issue-token :
      (n : ℕ) → get_issue (with_token a repo) fl up n ≡ get_issue (with_token b repo) fl up n
  unfolding get_issue repo_path
  get_issue-token n = same_answer _ _ none none none

  pub update_issue-token :
      (n : ℕ) (payload : Json)
      → update_issue (with_token a repo) fl up n payload
        ≡ update_issue (with_token b repo) fl up n payload
  unfolding update_issue repo_path
  update_issue-token n payload = same_answer _ _ (some payload) none none

  pub create_comment-token :
      (n : ℕ) (body : Text)
      → create_comment (with_token a repo) fl up n body
        ≡ create_comment (with_token b repo) fl up n body
  unfolding create_comment repo_path
  create_comment-token n body = same_answer _ _ _ none none

  pub list_comments-token :
      (n : ℕ) (params : Fields)
      → list_comments (with_token a repo) fl up n params
        ≡ list_comments (with_token b repo) fl up n params
  unfolding list_comments repo_path
  list_comments-token n params = same_answer _ _ none (some params) none
