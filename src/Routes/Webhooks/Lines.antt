-- ===== src/Routes/Webhooks/Lines.antt =====
-- What the webhook routes log.
use issues_api_testbed.Prelude.Int.{pos, min_ℤ}
use issues_api_testbed.Prelude.{ℕ, Option, List, [], ◌∷◌, Text, text, length}
use issues_api_testbed.Python.{Json, bool, str, obj, num, Fields, end, field}
use issues_api_testbed.Errors.{opt_str}
use issues_api_testbed.Logging.Lines.{Line, info, line, Structlog}
use issues_api_testbed.Store.{EventStore, recent}
use issues_api_testbed.Webhooks.{as_log_fields}
use issues_api_testbed.Routes.Issues.Lines.{then_lines}
use issues_api_testbed.Routes.Webhooks.Defs.{Services, Ack}

-- the keyword arguments that a dict makes
abbrev pub arguments : Json → Fields
arguments (obj d) = d
arguments _ = end

-- `_log_delivery`: what it binds, and its line
unfoldable pub delivery_context : Structlog → Ack → Fields → Fields
delivery_context sl a context =
    sl.bind_contextvars (field (text "delivery_id") (str a.delivery_id) end) context

unfoldable pub delivery_line : Ack → Line
unfolding as_log_fields
delivery_line a =
    line info (text "webhook_processed")
      (field (text "duplicate") (bool a.duplicate) (arguments (as_log_fields a.summary)))

module _ (sv : Services) where
  open sv use {events_max_limit, db}

  unfoldable pub list_events_lines : Option Text → ℕ → EventStore db.Database → List Line
  list_events_lines request_id limit store =
      then_lines (recent db (min_ℤ (pos limit) events_max_limit) store) λ es.
        line info (text "events_listed") (
          field (text "count") (num (length es))
            (field (text "request_id") (opt_str request_id) end))
        ∷ []
