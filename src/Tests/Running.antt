-- ===== src/Tests/Running.antt =====
-- The application, made of given settings, started on a file with one row, and at work.
use issues_api_testbed.Prelude.{
  ◌≡◌, ◌⊎◌, refl, true, text_eq, none, some, [], ◌∷◌, All, Text, text, text_beq,
}
use issues_api_testbed.Prelude.Int.{pos}
use issues_api_testbed.Errors.{AppError, Crash, app, crash, ok, raise, error_body}
use issues_api_testbed.Http.{Request, Response, json}
use issues_api_testbed.Handlers.{unhandled_response}
use issues_api_testbed.Config.Settings.{Given, Settings, validate, IsValidSettings, parse_level}
use issues_api_testbed.Config.Once.{calls, get_settings_once}
use issues_api_testbed.Cache.{find, init}
use issues_api_testbed.Webhooks.{is_supported}
use issues_api_testbed.Logging.{request_id_header}
use issues_api_testbed.Logging.Lines.{configure_logging}
use issues_api_testbed.App.{
  App, Platform, opened, create_app, startup, get_health, get_issues, post_webhook, get_events,
  Visit, tagged, route, serve, serve_all,
}
use issues_api_testbed.App.Sound.{IsSound, serve_all-IsSound}
use issues_api_testbed.App.Lifespan.{create_app_total}
use issues_api_testbed.App.RequestIds.{serve_request_id}
use issues_api_testbed.App.Documented.{fits_contract, operation, responses_fit_contract}
use issues_api_testbed.Schemas.{IssueState, only}
use issues_api_testbed.Tests.Structlogs.{documented}
use issues_api_testbed.Tests.Samples.{memory, memory-IsSqlite, checksum, fixed_codec, event_at}
use issues_api_testbed.Tests.Listed.{whole_seconds, github, services}

abbrev given : Given
given = record {
  github_token = text "t";
  github_owner = text "o";
  github_repo = text "r";
  webhook_secret = text "s";
  github_api_url = none;
  github_api_version = none;
  port = some (pos 80);
  database_url = none;
  log_level = none;
  events_max_limit = none;
  cache_enabled = none;
  cache_max_entries = some (pos 1);
}

abbrev settings : Settings
settings = record {
  github_token = text "t";
  github_owner = text "o";
  github_repo = text "r";
  webhook_secret = text "s";
  github_api_url = text "https://api.github.com";
  github_api_version = text "2022-11-28";
  port = 80;
  database_url = text "sqlite:///./events.db";
  log_level = text "INFO";
  events_max_limit = pos 200;
  cache_enabled = true;
  cache_max_entries = 1;
}

abbrev upper : Text → Text
upper s = s

accepted : validate upper given ≡ some settings
unfolding validate parse_level text text_beq
accepted = refl

-- the environment before its owner is set, and after its secret has changed
abbrev nameless : Given
nameless = record given { github_owner = [] }

abbrev changed : Given
changed = record given { webhook_secret = text "other" }

get_settings_once_example :
    All (λ o. o ≡ none) (calls upper (nameless ∷ given ∷ changed ∷ []) none)
    ⊎ ((s : Settings) × IsValidSettings s
        × All (λ o. (o ≡ none) ⊎ (o ≡ some s)) (calls upper (nameless ∷ given ∷ changed ∷ []) none))
get_settings_once_example = get_settings_once upper (nameless ∷ given ∷ changed ∷ [])

second_call :
    calls upper (nameless ∷ given ∷ changed ∷ []) none ≡ none ∷ some settings ∷ some settings ∷ []
unfolding calls validate parse_level text text_beq
second_call = refl

abbrev pub platform : Platform
platform = record {
  floats = whole_seconds;
  pydantic = services.pydantic;
  urls = services.urls;
  hmac = checksum;
  codec = fixed_codec;
  db = memory;
  errors = [];
  structlog = documented;
}

abbrev pub fresh_app : App memory.Database
fresh_app = record {
  settings = settings;
  cache = record { max_entries = 1; entries = []; hits = 0; misses = 0 };
  github = none;
  store = none;
}

made : create_app settings ≡ ok fresh_app
unfolding create_app init configure_logging text text_beq
made = refl

create_app_total_example :
    (state : App memory.Database) × (create_app settings ≡ ok state)
    × (state.settings ≡ settings)
    × (state.store ≡ none)
create_app_total_example = create_app_total upper given settings accepted

abbrev request : Request
request = record { header = λ name. none; raw_body = b'{' ∷ b'}' ∷ []; request_id = none }

abbrev pub visit : Visit platform
visit = record {
  up = github;
  request = request;
  endpoint = post_webhook;
  fresh = text "u";
  now = text "2";
}

serve_all-IsSound_example : IsSound memory (
    serve_all platform
      (visit
        ∷ record visit { endpoint = get_events (pos 5) }
        ∷ record visit { endpoint = get_issues (only IssueState.opened) none (pos 1) (pos 30) none }
        ∷ [])
      (startup platform (event_at (text "d1") (text "1") ∷ []) fresh_app).1)
serve_all-IsSound_example =
    serve_all-IsSound platform memory-IsSqlite settings fresh_app
      (event_at (text "d1") (text "1") ∷ [])
      (visit
        ∷ record visit { endpoint = get_events (pos 5) }
        ∷ record visit { endpoint = get_issues (only IssueState.opened) none (pos 1) (pos 30) none }
        ∷ [])
      made (refl, tt)

abbrev pub rows_file : memory.Database
rows_file = event_at (text "d1") (text "1") ∷ []

abbrev health : Visit platform
health = record visit { endpoint = get_health }

serve_request_id_example :
    ((r : Response) × ((route platform github
          (text "2")
          (tagged platform health)
          get_health
          fresh_app).0
        ≡ ok r)
      × (find request_id_header (serve platform health fresh_app).0.headers ≡ some (text "u"))
      × ((serve platform health fresh_app).0.status ≡ r.status)
      × ((serve platform health fresh_app).0.body ≡ r.body))
    ⊎ ((e : AppError) × ((route platform github
            (text "2")
            (tagged platform health)
            get_health
            fresh_app).0
          ≡ raise (app e))
        × (find request_id_header (serve platform health fresh_app).0.headers ≡ some (text "u"))
        × ((serve platform health fresh_app).0.status ≡ e.status_code)
        × ((serve platform health fresh_app).0.body
            ≡ json (error_body e.code e.message e.details (some (text "u")))))
    ⊎ ((c : Crash) × ((route platform github
            (text "2")
            (tagged platform health)
            get_health
            fresh_app).0
          ≡ raise (crash c))
        × (find request_id_header (serve platform health fresh_app).0.headers ≡ none)
        × ((serve platform health fresh_app).0 ≡ unhandled_response (some (text "u"))))
serve_request_id_example = serve_request_id platform health fresh_app

responses_fit_contract_example :
    fits_contract
      (operation (get_events (pos 5)))
      (serve platform
        (record visit { endpoint = get_events (pos 5) })
        (serve_all platform (visit ∷ []) (startup platform rows_file fresh_app).1)).0
    ≡ true
unfolding is_supported text text_beq
responses_fit_contract_example =
    responses_fit_contract platform memory-IsSqlite settings fresh_app rows_file (visit ∷ [])
      (record visit { endpoint = get_events (pos 5) }) made (refl, tt)
