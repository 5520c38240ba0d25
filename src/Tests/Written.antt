-- ===== src/Tests/Written.antt =====
-- The log of the application at work.
use issues_api_testbed.Prelude.{
  map, ◌≡◌, ◌≢◌, refl, true, Option, [], ◌∷◌, some, All, text, text_eq, text_ne, text_beq,
}
use issues_api_testbed.Python.{Json, str, num}
use issues_api_testbed.Errors.{Headers}
use issues_api_testbed.Logging.Carried.{Carries}
use issues_api_testbed.App.{Visit}
use issues_api_testbed.App.Secrets.{with_token}
use issues_api_testbed.App.Logged.{
  untraced, Trace, log, process_log, log-Carries, process_log_hides_token,
}
use issues_api_testbed.Tests.Structlogs.{documented-IsStructlog}
use issues_api_testbed.App.Unrouted.{serve_unrouted, given_headers, unrouted_lem}
use issues_api_testbed.Logging.{request_id_header}
use issues_api_testbed.Cache.{find}
use issues_api_testbed.Http.Bodies.{rendered}
use issues_api_testbed.Contract.Shapes.{fits}
use issues_api_testbed.Contract.Schemas.{error_shape}
use issues_api_testbed.Tests.Running.{platform, visit, fresh_app, rows_file}
use issues_api_testbed.Tests.Secrets.{at_work, listing, github-SameAnswers}

abbrev pub traced : Visit platform → Trace platform
traced v = record {
  visit = v;
  method = text "GET";
  path = text "/issues";
  duration_ms = num 1;
  show = λ k. text "key";
  traceback = λ c. text "Traceback";
  stamps = λ n. text "2026";
}

log-Carries_example :
    All (Carries (text "request_id") (str (text "u"))) (log platform (traced listing) at_work)
log-Carries_example = log-Carries platform documented-IsStructlog (traced listing) at_work

process_log_hides_token_example :
    process_log platform
      (λ n. text "1")
      (λ n. text "2")
      rows_file
      (map (untraced platform) (traced visit ∷ traced listing ∷ []))
      (with_token (text "t") fresh_app)
    ≡ process_log platform
        (λ n. text "1")
        (λ n. text "2")
        rows_file
        (map (untraced platform) (traced visit ∷ traced listing ∷ []))
        (with_token (text "u") fresh_app)
process_log_hides_token_example =
    process_log_hides_token platform (text "t") (text "u") (λ n. text "1") (λ n. text "2") rows_file
      (traced visit ∷ traced listing ∷ []) fresh_app
      (github-SameAnswers (text "t") (text "u"), (github-SameAnswers (text "t") (text "u"), tt))

-- a method that the path does not have
abbrev allowed : Option Headers
allowed = some ((text "Allow", text "GET") ∷ [])

other_header : request_id_header ≢ text "Allow"
unfolding text text_beq
other_header = text_ne _ _ refl

unrouted_lem_example :
    ((serve_unrouted platform visit 405 (text "Method Not Allowed") allowed at_work).0.status ≡ 405)
    × (find
          (text "Allow")
          (serve_unrouted platform visit 405 (text "Method Not Allowed") allowed at_work).0.headers
        ≡ find (text "Allow") (given_headers allowed))
    × (find request_id_header
          (serve_unrouted platform visit 405 (text "Method Not Allowed") allowed at_work).0.headers
        ≡ some (text "u"))
    × ((j : Json) × (rendered
            (serve_unrouted platform visit 405 (text "Method Not Allowed") allowed at_work).0.body
          ≡ some j)
        × (fits error_shape j ≡ true))
    × ((serve_unrouted platform visit 405 (text "Method Not Allowed") allowed at_work).1 ≡ at_work)
unrouted_lem_example =
    unrouted_lem platform visit 405 (text "Method Not Allowed") (text "Allow") allowed at_work
      other_header
