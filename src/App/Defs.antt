-- ===== src/App/Defs.antt =====
-- The state of the application, its start and its end, and what the dependencies look up in it.
use issues_api_testbed.Prelude.{Option, none, some, List, [], Text, text}
use issues_api_testbed.Python.{str, obj, Fields, field, end}
use issues_api_testbed.Errors.{Result, ok, raise, or_crash, attribute_error, ◌>>=◌}
use issues_api_testbed.Http.{Response, json}
use issues_api_testbed.Config.{repo_slug, sqlite_path}
use issues_api_testbed.Config.Settings.{Settings}
use issues_api_testbed.Cache.{init}
use issues_api_testbed.Logging.Lines.{Structlog, configure_logging}
use issues_api_testbed.Github.{Floats, Repository, Upstream}
use issues_api_testbed.Pagination.{Urls}
use issues_api_testbed.Schemas.{Pydantic}
use issues_api_testbed.Store.{Sqlite, EventStore, Codec, connect, close}
use issues_api_testbed.Webhooks.{Hmac}
use issues_api_testbed.Routes.Issues
use issues_api_testbed.Routes.Issues.{Cache}
use issues_api_testbed.Routes.Webhooks

-- The libraries that the application calls. `errors` is what pydantic reports of an invalid request.
pub record Platform : Type 1 where
  pub floats : Floats
  pub pydantic : Pydantic
  pub urls : Urls
  pub hmac : Hmac
  pub codec : Codec
  pub db : Sqlite
  pub errors : List Fields
  pub structlog : Structlog

-- whether the client's connections are open
pub data Client : Type 0 where
  opened closed : Client

-- `app.state`; `github` and `store` are not there before the lifespan has begun
pub record App (D : Type 0) : Type 0 where
  pub settings : Settings
  pub cache : Cache
  pub github : Option Client
  pub store : Option (EventStore D)

unfoldable pub create_app : {D : Type 0} → Settings → Result (App D)
create_app settings = do
  level ← configure_logging settings.log_level
  cache ← init settings.cache_max_entries
  ok (record { settings = settings; cache = cache; github = none; store = none })

abbrev pub repository : Settings → Repository
repository s = record {
  github_owner = s.github_owner;
  github_repo = s.github_repo;
  github_token = s.github_token;
  github_api_version = s.github_api_version;
}

-- `healthz`
unfoldable pub healthz : Settings → Response
healthz s = record {
  status = 200;
  headers = [];
  body = json (
      obj (
        field (text "status") (str (text "ok")) (
          field (text "version") (str (text "0.1.0"))
            (field (text "repo") (str (repo_slug s.github_owner s.github_repo)) end))));
}

-- the dependencies
abbrev pub get_settings_dep : {D : Type 0} → App D → Settings
get_settings_dep app = app.settings

abbrev pub get_response_cache : {D : Type 0} → App D → Cache
get_response_cache app = app.cache

unfoldable pub get_github_client : {D : Type 0} → App D → Result Client
get_github_client app = or_crash attribute_error app.github

unfoldable pub get_event_store : {D : Type 0} → App D → Result (EventStore D)
get_event_store app = or_crash attribute_error app.store

abbrev closed_client : Option Client → Option Client
closed_client none = none
closed_client (some c) = some closed

module _ (p : Platform) where
  open p use {floats, pydantic, urls, hmac, codec, db}

  -- `await EventStore(settings.sqlite_path).connect()`
  unfoldable pub open_store : db.Database → Text → Result (EventStore db.Database)
  open_store file url = do
    path ← sqlite_path url
    connect db file (record { path = path; open_on = none })

  -- `lifespan` up to its `yield`, on the content of the file at the store's path
  unfoldable pub startup : db.Database → App db.Database → Result (Unit {0}) × App db.Database
  startup file app = elim (open_store file app.settings.database_url) [
    | raise e ↦ (raise e, record app { github = some opened })
    | ok st ↦ (ok tt, record app { github = some opened; store = some st })
  ]

  abbrev closed_store : Option (EventStore db.Database) → Option (EventStore db.Database)
  closed_store none = none
  closed_store (some s) = some (close db s)

  -- the `finally` of `lifespan`
  unfoldable pub shutdown : App db.Database → App db.Database
  shutdown app = record app { github = closed_client app.github; store = closed_store app.store }

  -- what the routes read of the settings
  abbrev pub issue_services : Settings → Upstream floats → Issues.Services
  issue_services s up = record {
    floats = floats;
    repo = repository s;
    up = up;
    pydantic = pydantic;
    urls = urls;
    cache_enabled = s.cache_enabled;
  }

  abbrev pub hook_services : Settings → Webhooks.Services
  hook_services s = record {
    webhook_secret = s.webhook_secret;
    events_max_limit = s.events_max_limit;
    hmac = hmac;
    codec = codec;
    db = db;
  }
