-- ===== src/Config/Settings.antt =====
-- `Settings` and its validators, on values of the declared types. How they are read from the
-- environment is pydantic-settings'; the float `request_timeout_seconds` goes to httpx alone and is
-- left out.
use issues_api_testbed.Prelude.Int.{ℤ, pos, negsuc}
use issues_api_testbed.Prelude.{
  ℕ, ◌≤◌, ◌≡◌, refl, Bool, true, false, ◌||◌, Option, none, some, arith, Text, text, text_beq,
  is_empty, leb, ◌==◌, text_eq, if◌then◌else◌,
}

-- The values that are given; `none` for one that is left out.
pub record Given : Type 0 where
  pub github_token : Text
  pub github_owner : Text
  pub github_repo : Text
  pub webhook_secret : Text
  pub github_api_url : Option Text
  pub github_api_version : Option Text
  pub port : Option ℤ
  pub database_url : Option Text
  pub log_level : Option Text
  pub events_max_limit : Option ℤ
  pub cache_enabled : Option Bool
  pub cache_max_entries : Option ℤ

pub record Settings : Type 0 where
  pub github_token : Text
  pub github_owner : Text
  pub github_repo : Text
  pub webhook_secret : Text
  pub github_api_url : Text
  pub github_api_version : Text
  pub port : ℕ
  pub database_url : Text
  pub log_level : Text
  pub events_max_limit : ℤ
  pub cache_enabled : Bool
  pub cache_max_entries : ℕ

abbrev or_default {ℓ} : {A : Type ℓ} → A → Option A → A
or_default a none = a
or_default a (some b) = b

-- `min_length=1`
abbrev filled : Text → Option Text
filled s = if is_empty s then none else some s

-- `ge=1`
abbrev positive : ℤ → Option ℕ
positive (pos n) = if leb 1 n then some n else none
positive (negsuc n) = none

-- `le=65535`
abbrev at_most_port : ℕ → Option ℕ
at_most_port n = if leb n 65535 then some n else none

-- `normalized in allowed`
unfoldable pub is_level : Text → Bool
is_level s =
    s == text "CRITICAL"
    || s == text "ERROR"
    || s == text "WARNING"
    || s == text "INFO"
    || s == text "DEBUG"

infixl 5 ◌>>=◌
abbrev ◌>>=◌ {ℓ κ} : {A : Type ℓ} {B : Type κ} → Option A → (A → Option B) → Option B
none >>= f = none
some a >>= f = f a

-- `_upper`, where `upper` is `str.upper`. A validator does not run on a default.
unfoldable pub parse_level : (Text → Text) → Option Text → Option Text
parse_level upper none = some (text "INFO")
parse_level upper (some s) = if is_level (upper s) then some (upper s) else none

unfoldable pub validate : (Text → Text) → Given → Option Settings
unfolding parse_level
validate upper g = do
  github_owner ← filled g.github_owner
  github_repo ← filled g.github_repo
  positive_port ← positive (or_default (pos 8000) g.port)
  port ← at_most_port positive_port
  log_level ← parse_level upper g.log_level
  cache_max_entries ← positive (or_default (pos 128) g.cache_max_entries)
  some (record {
    github_token = g.github_token;
    github_owner = github_owner;
    github_repo = github_repo;
    webhook_secret = g.webhook_secret;
    github_api_url = or_default (text "https://api.github.com") g.github_api_url;
    github_api_version = or_default (text "2022-11-28") g.github_api_version;
    port = port;
    database_url = or_default (text "sqlite:///./events.db") g.database_url;
    log_level = log_level;
    events_max_limit = or_default (pos 200) g.events_max_limit;
    cache_enabled = or_default true g.cache_enabled;
    cache_max_entries = cache_max_entries;
  })

-- `get_settings`, called in an environment, with the settings that `lru_cache` has kept of an
-- earlier call. It keeps what a call returns, and no exception.
unfoldable pub get_settings :
    (Text → Text) → Given → Option Settings → Option Settings × Option Settings
unfolding validate
get_settings upper environment (some kept) = (some kept, some kept)
get_settings upper environment none = let read = validate upper environment in (read, read)

-- what the service may rely on
pub record IsValidSettings (s : Settings) : Type 0 where
  pub owner : is_empty s.github_owner ≡ false
  pub repo : is_empty s.github_repo ≡ false
  pub port_bounds : (1 ≤ s.port) × (s.port ≤ 65535)
  pub level : is_level s.log_level ≡ true
  pub room : 1 ≤ s.cache_max_entries

info_is_level : is_level (text "INFO") ≡ true
unfolding is_level text text_beq
info_is_level = refl

parse_level-is_level :
    (upper : Text → Text) (o : Option Text) (l : Text)
    → parse_level upper o ≡ some l
    → is_level l ≡ true
unfolding parse_level
parse_level-is_level upper none l h = ground (arith, info_is_level)
parse_level-is_level upper (some s) l h = ground arith

-- Accepted settings name an owner and a repository, a port from 1 to 65535, one of the five log
-- levels, and a cache of at least one entry.
pub validate-IsValidSettings :
    (upper : Text → Text) (g : Given) (s : Settings) → validate upper g ≡ some s → IsValidSettings s
unfolding validate
validate-IsValidSettings upper g s h =
    ground (arith, parse_level-is_level upper g.log_level s.log_level)
