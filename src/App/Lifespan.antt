-- ===== src/App/Lifespan.antt =====
-- The start and the end of the application.
use issues_api_testbed.Prelude.{
  ℕ, true, text_beq, text, Option-cases, ◌≡◌, [], inl, inr, refl, none, some, arith, Text,
}
use issues_api_testbed.Errors.{or_crash, ok}
use issues_api_testbed.Config.Settings.{
  Settings, Given, is_level, validate, validate-IsValidSettings,
}
use issues_api_testbed.Cache.{init}
use issues_api_testbed.Logging.Lines.{level_number, configure_logging}
use issues_api_testbed.App.Defs.{App, create_app}

configure_logging_total : (s : Text) → is_level s ≡ true → (n : ℕ) × (configure_logging s ≡ ok n)
unfolding is_level configure_logging or_crash text text_beq
configure_logging_total s h = elim (Option-cases (level_number s)) [
  | inl unknown ↦ absurd (ground arith)
  | inr (n, known) ↦ (n, rw known refl)
]

-- Settings that validate make an application: their level is one that `logging` has, and their cache
-- has room for an entry.
pub create_app_total :
    {D : Type 0} (upper : Text → Text) (g : Given) (s : Settings)
    → validate upper g ≡ some s
    → (state : App D) × (create_app s ≡ ok state) × (state.settings ≡ s) × (state.store ≡ none)
unfolding create_app init
create_app_total upper g s h =
    let room = (validate-IsValidSettings upper g s h).room in
    let (n, level) =
      configure_logging_total s.log_level (validate-IsValidSettings upper g s h).level in
    (
      record {
        settings = s;
        cache = record { max_entries = s.cache_max_entries; entries = []; hits = 0; misses = 0 };
        github = none;
        store = none;
      },
      ground arith,
      refl,
      refl,
    )
