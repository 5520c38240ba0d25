-- ===== src/Logging/Lines.antt =====
-- `configure_logging`: what the processors that it lists make of a call of a logger, and which calls
-- the level lets through. structlog is a parameter.
use issues_api_testbed.Prelude.{
  ℕ, ◌+◌, ◌≡◌, ◌≢◌, Bool, Option, none, some, List, [], ◌∷◌, Text, text, if◌then◌else◌, ◌||◌, ◌==◌,
  text_eq,
}
use issues_api_testbed.Errors.{Result, or_crash, attribute_error}
use issues_api_testbed.Python.{Json, obj, Fields, end, lookup}

pub data Level : Type 0 where
  debug info warning error : Level

-- A call of a logger: its method, the event, the keyword arguments, and for `log.exception` the
-- formatted traceback.
pub record Line : Type 0 where
  pub level : Level
  pub event : Text
  pub fields : Fields
  pub traceback : Option Text

abbrev pub line : Level → Text → Fields → Line
line level event fields = record { level = level; event = event; fields = fields; traceback = none }

abbrev pub exception : Text → Text → Line
exception event traceback = record {
  level = error;
  event = event;
  fields = end;
  traceback = some traceback;
}

-- structlog: the dict of an event and its arguments, the processors on such a dict (with the context
-- that is bound, the level of the call, the time and the traceback), the levels that
-- `make_filtering_bound_logger` lets through, and `bind_contextvars`, the new values first
pub record Structlog : Type 0 where
  pub event_dict : Text → Fields → Fields
  pub merge_contextvars : Fields → Fields → Fields
  pub add_log_level : Level → Fields → Fields
  pub time_stamper : Text → Fields → Fields
  pub stack_info_renderer : Fields → Fields
  pub format_exc_info : Option Text → Fields → Fields
  pub is_enabled : Text → Level → Bool
  pub bind_contextvars : Fields → Fields → Fields

-- the value that is there, or else another
abbrev pub or_else : Option Json → Option Json → Option Json
or_else none o = o
or_else (some v) o = some v

-- The documented behaviour: a value of the event wins over one of the context, a new binding over
-- an old one, and each other processor sets or removes its own keys alone.
pub record IsStructlog (sl : Structlog) : Type 0 where
  pub event_dict-others :
      (k event : Text) (d : Fields)
      → k ≢ text "event"
      → lookup k (sl.event_dict event d) ≡ lookup k d
  pub merge-lookup :
      (k : Text) (context d : Fields)
      → lookup k (sl.merge_contextvars context d) ≡ or_else (lookup k d) (lookup k context)
  pub level-others :
      (k : Text) (l : Level) (d : Fields)
      → k ≢ text "level"
      → lookup k (sl.add_log_level l d) ≡ lookup k d
  pub timestamp-others :
      (k stamp : Text) (d : Fields)
      → k ≢ text "timestamp"
      → lookup k (sl.time_stamper stamp d) ≡ lookup k d
  pub stack-others :
      (k : Text) (d : Fields)
      → k ≢ text "stack_info"
      → k ≢ text "stack"
      → lookup k (sl.stack_info_renderer d) ≡ lookup k d
  pub exception-others :
      (k : Text) (traceback : Option Text) (d : Fields)
      → k ≢ text "exc_info"
      → k ≢ text "exception"
      → lookup k (sl.format_exc_info traceback d) ≡ lookup k d
  pub bind-lookup :
      (k : Text) (new context : Fields)
      → lookup k (sl.bind_contextvars new context) ≡ or_else (lookup k new) (lookup k context)

-- the attributes of `logging` that are the numbers of levels
abbrev pub level_number : Text → Option ℕ
level_number s =
    if s == text "CRITICAL" || s == text "FATAL"
    then some 50
    else if s == text "ERROR"
    then some 40
    else if s == text "WARNING" || s == text "WARN"
    then some 30
    else if s == text "INFO"
    then some 20
    else if s == text "DEBUG"
    then some 10
    else if s == text "NOTSET"
    then some 0
    else none

-- `getattr(logging, level)`, the one call of `configure_logging` that fails on a level
unfoldable pub configure_logging : Text → Result ℕ
configure_logging level = or_crash attribute_error (level_number level)

module _ (sl : Structlog) where
  open sl use {
    event_dict, merge_contextvars, add_log_level, time_stamper, stack_info_renderer,
    format_exc_info, is_enabled,
  }

  -- the processors, one after the other
  unfoldable pub processed : Text → Fields → Line → Json
  processed stamp context l = obj (
      format_exc_info l.traceback (
        stack_info_renderer (
          time_stamper stamp
            (add_log_level l.level (merge_contextvars context (event_dict l.event l.fields))))))

  -- the calls that a level lets through
  unfoldable pub filtered : Text → List Line → List Line
  filtered level [] = []
  filtered level (l ∷ ls) =
      let rest = filtered level ls in if is_enabled level l.level then l ∷ rest else rest

  -- the lines that are written, the first at the time `stamps n`
  unfoldable pub rendered : (ℕ → Text) → ℕ → Fields → List Line → List Json
  unfolding processed
  rendered stamps n context [] = []
  rendered stamps n context (l ∷ ls) =
      processed (stamps n) context l ∷ rendered stamps (n + 1) context ls
