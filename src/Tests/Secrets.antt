-- ===== src/Tests/Secrets.antt =====
-- An application at work under two tokens.
use issues_api_testbed.Logging.{find-set_header_ne}
use issues_api_testbed.Github.Token.{SameAnswers, set_token}
use issues_api_testbed.Tests.Listed.{github}
use issues_api_testbed.Prelude.{
  ◌++◌, Text, text_eq, text_beq, arith, true, false, ap, ◌≢◌, ◌≡◌, none, [], ◌∷◌, text,
}
use issues_api_testbed.Prelude.Int.{pos}
use issues_api_testbed.Schemas.{IssueState, only}
use issues_api_testbed.App.{get_issues, serve_all, startup, Visit, App}
use issues_api_testbed.App.Secrets.{with_token, responses, responses_hide_token}
use issues_api_testbed.Tests.Samples.{memory}
use issues_api_testbed.Tests.Running.{platform, visit, fresh_app, rows_file}

abbrev pub at_work : App memory.Database
at_work = (startup platform rows_file fresh_app).1

abbrev pub listing : Visit platform
listing = record visit { endpoint = get_issues (only IssueState.opened) none (pos 1) (pos 30) none }

-- it looks at the validator of a call alone
pub github-SameAnswers : (a b : Text) → SameAnswers github a b
unfolding set_token text text_beq
github-SameAnswers a b c = ground (
  arith,
  find-set_header_ne (text "Authorization") (text "If-None-Match") (text "Bearer " ++ a) c.headers
      other,
  find-set_header_ne (text "Authorization") (text "If-None-Match") (text "Bearer " ++ b) c.headers
      other,
)
  where
    other : text "Authorization" ≢ text "If-None-Match"
    other e = let apart : true ≡ false = ap (λ t. text_beq t (text "Authorization")) e in cc apart

responses_hide_token_example :
    (responses platform (visit ∷ listing ∷ []) (with_token (text "t") at_work)
      ≡ responses platform (visit ∷ listing ∷ []) (with_token (text "u") at_work))
    × ((serve_all platform (visit ∷ listing ∷ []) (with_token (text "t") at_work)).cache
        ≡ (serve_all platform (visit ∷ listing ∷ []) (with_token (text "u") at_work)).cache)
    × ((serve_all platform (visit ∷ listing ∷ []) (with_token (text "t") at_work)).store
        ≡ (serve_all platform (visit ∷ listing ∷ []) (with_token (text "u") at_work)).store)
responses_hide_token_example =
    responses_hide_token platform (text "t") (text "u") (visit ∷ listing ∷ []) at_work
      (github-SameAnswers (text "t") (text "u"), (github-SameAnswers (text "t") (text "u"), tt))
