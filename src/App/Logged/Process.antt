-- ===== src/App/Logged/Process.antt =====
-- All that the loggers of the service write in a process: at its start, for the requests that it
-- serves, and at its end.
use issues_api_testbed.Prelude.{
  ℕ, ◌≡◌, refl, inl, inr, some, List, [], ◌∷◌, ◌++◌, map, All, Text, text,
}
use issues_api_testbed.Python.{Json, str, num, field, end}
use issues_api_testbed.Errors.{Exc, Result, Result-cases, ok, raise}
use issues_api_testbed.Config.{repo_slug}
use issues_api_testbed.Config.Settings.{Settings}
use issues_api_testbed.Logging.Lines.{Line, info, line, filtered, rendered}
use issues_api_testbed.Github.Token.{SameAnswers}
use issues_api_testbed.Routes.Issues.Lines.{then_lines}
use issues_api_testbed.App.Defs.{App, Platform, opened, open_store, startup}
use issues_api_testbed.Store.{EventStore}
use issues_api_testbed.App.Secrets.{with_token}
use issues_api_testbed.App.Logged.Defs.{Trace, untraced, logs}
use issues_api_testbed.App.Logged.Secret.{logs_hide_token}

abbrev shutdown_line : Line
shutdown_line = line info (text "shutdown") end

module _ (p : Platform) where
  open p use {db, structlog}

  -- `lifespan` up to its `yield`: its own line, and that of `EventStore.connect`
  unfoldable pub startup_lines : db.Database → Settings → List Line
  unfolding then_lines
  startup_lines file s =
      line info (text "startup") (
        field (text "repo") (str (repo_slug s.github_owner s.github_repo))
          (field (text "port") (num s.port) end))
      ∷ then_lines (open_store p file s.database_url)
          λ st. line info (text "event_store_ready") (field (text "path") (str st.path) end) ∷ []

  -- behind the start: the requests, and the `finally` of `lifespan`
  unfoldable pub served_log :
      (ℕ → Text) → List (Trace p) → Result (Unit {0}) × App db.Database → List Json
  served_log after ts (raise e, started) = []
  served_log after ts (ok _, started) =
      logs p ts started
      ++ rendered structlog after 0 end
          (filtered structlog started.settings.log_level (shutdown_line ∷ []))

  -- The log of a process that starts on a file and serves requests, with the times of the lines of
  -- its start and of its end, which no context goes with.
  unfoldable pub process_log :
      (ℕ → Text) → (ℕ → Text) → db.Database → List (Trace p) → App db.Database → List Json
  unfolding startup_lines served_log
  process_log before after file ts state =
      rendered structlog before 0 end
        (filtered structlog state.settings.log_level (startup_lines file state.settings))
      ++ served_log after ts (startup p file state)

  module _ (file : db.Database) (state : App db.Database) where
    started : EventStore db.Database → App db.Database
    started st = record state { github = some opened; store = some st }

    startup-token :
        (t : Text) (st : EventStore db.Database)
        → open_store p file state.settings.database_url ≡ ok st
        → startup p file (with_token t state) ≡ (ok tt, with_token t (started st))
    unfolding startup started
    startup-token t st made = rw (made, startup) refl

    startup_fails :
        (t : Text) (e : Exc)
        → open_store p file state.settings.database_url ≡ raise e
        → startup p file (with_token t state)
          ≡ (raise e, with_token t (record state { github = some opened }))
    unfolding startup
    startup_fails t e unopened = rw (unopened, startup) refl

  untraced-SameAnswers :
      (a b : Text) (ts : List (Trace p))
      → All (λ t. SameAnswers t.visit.up a b) ts
      → All (λ t. SameAnswers t.visit.up a b) (map (untraced p) ts)
  untraced-SameAnswers a b [] same = tt
  untraced-SameAnswers a b (t ∷ ts) same = (same.0, untraced-SameAnswers a b ts same.1)

  -- For requests whose calls of GitHub are answered, or fail, alike under two tokens, the loggers of
  -- the service write the same lines under the one and the other, from the start of a process to
  -- its end, the texts of tracebacks left out.
  pub process_log_hides_token :
      (a b : Text) (before after : ℕ → Text) (file : db.Database) (ts : List (Trace p))
      (state : App db.Database)
      → All (λ t. SameAnswers t.visit.up a b) ts
      → process_log before after file (map (untraced p) ts) (with_token a state)
        ≡ process_log before after file (map (untraced p) ts) (with_token b state)
  unfolding process_log served_log
  process_log_hides_token a b before after file ts state same =
      elim (Result-cases (open_store p file state.settings.database_url)) [
        | inl (e, unopened) ↦
            rw (startup_fails file state a e unopened, startup_fails file state b e unopened) refl
        | inr (st, made) ↦
            rw
              (
                startup-token file state a st made,
                startup-token file state b st made,
                logs_hide_token p a b (map (untraced p) ts) (started file state st)
                    (untraced-SameAnswers a b ts same),
              )
              refl
      ]
