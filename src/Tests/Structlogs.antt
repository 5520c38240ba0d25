-- ===== src/Tests/Structlogs.antt =====
-- A structlog that does what its documentation says.
use issues_api_testbed.Prelude.{
  ℕ, ◌≡◌, ◌≢◌, refl, Option, none, some, arith, Text, text, text_eq, leb, ◌==◌, ==_refl, eq_of_==,
  if◌then◌else◌,
}
use issues_api_testbed.Python.{Json, str, Fields, field, end, lookup}
use issues_api_testbed.Logging.Lines.{
  Level, debug, info, warning, error, Structlog, IsStructlog, or_else,
}

-- `d[key] = value`
abbrev assign : Text → Json → Fields → Fields
assign key w end = field key w end
assign key w (field k v d) =
    let rest = assign key w d in if k == key then field k w d else field k v rest

-- `d.update(new)`
abbrev update : Fields → Fields → Fields
update end d = d
update (field k v new) d = assign k v (update new d)

-- `d.setdefault(key, value)`
abbrev set_default : Text → Json → Fields → Fields
set_default key w end = field key w end
set_default key w (field k v d) =
    let rest = set_default key w d in if k == key then field k v d else field k v rest

abbrev merge_contextvars : Fields → Fields → Fields
merge_contextvars end event_dict = event_dict
merge_contextvars (field k v context) event_dict =
    merge_contextvars context (set_default k v event_dict)

abbrev level_name : Level → Text
level_name debug = text "debug"
level_name info = text "info"
level_name warning = text "warning"
level_name error = text "error"

abbrev format_exc_info : Option Text → Fields → Fields
format_exc_info none event_dict = event_dict
format_exc_info (some traceback) event_dict = assign (text "exception") (str traceback) event_dict

abbrev level_number : Text → ℕ
level_number name =
    if name == text "DEBUG"
    then 10
    else if name == text "INFO"
    then 20
    else if name == text "WARNING"
    then 30
    else if name == text "ERROR"
    then 40
    else 50

abbrev number_of : Level → ℕ
number_of debug = 10
number_of info = 20
number_of warning = 30
number_of error = 40

abbrev pub documented : Structlog
documented = record {
  event_dict = λ event d. assign (text "event") (str event) d;
  merge_contextvars = merge_contextvars;
  add_log_level = λ l d. assign (text "level") (str (level_name l)) d;
  time_stamper = λ stamp d. assign (text "timestamp") (str stamp) d;
  stack_info_renderer = λ d. d;
  format_exc_info = format_exc_info;
  is_enabled = λ level l. leb (level_number level) (number_of l);
  bind_contextvars = update;
}

lookup-assign :
    (j k : Text) (w : Json) (d : Fields)
    → lookup k (assign j w d) ≡ (if j == k then some w else lookup k d)
unfolding lookup
lookup-assign j k w end = refl
lookup-assign j k w (field i v d) =
    ground (arith, lookup-assign j k w d, eq_of_== i j, eq_of_== i k, eq_of_== j k, ==_refl k)

lookup-update :
    (k : Text) (new d : Fields) → lookup k (update new d) ≡ or_else (lookup k new) (lookup k d)
unfolding lookup
lookup-update k end d = refl
lookup-update k (field j w new) d =
    ground (arith, lookup-update k new d, lookup-assign j k w (update new d))

lookup-set_default :
    (j k : Text) (w : Json) (d : Fields)
    → lookup k (set_default j w d) ≡ or_else (lookup k d) (if j == k then some w else none)
unfolding lookup
lookup-set_default j k w end = refl
lookup-set_default j k w (field i v d) =
    ground (arith, lookup-set_default j k w d, eq_of_== i j, eq_of_== j k, ==_refl i)

lookup-merge_contextvars :
    (k : Text) (context d : Fields)
    → lookup k (merge_contextvars context d) ≡ or_else (lookup k d) (lookup k context)
unfolding lookup
lookup-merge_contextvars k end d = ground arith
lookup-merge_contextvars k (field j w context) d =
    ground
      (arith, lookup-merge_contextvars k context (set_default j w d), lookup-set_default j k w d)

lookup-assign_ne :
    (j k : Text) (w : Json) (d : Fields) → k ≢ j → lookup k (assign j w d) ≡ lookup k d
lookup-assign_ne j k w d ne = ground (arith, lookup-assign j k w d, eq_of_== j k)

exception_other :
    (k : Text) (t : Option Text) (d : Fields)
    → k ≢ text "exception"
    → lookup k (format_exc_info t d) ≡ lookup k d
exception_other k none d ne = refl
exception_other k (some t) d ne = lookup-assign_ne (text "exception") k (str t) d ne

pub documented-IsStructlog : IsStructlog documented
documented-IsStructlog = record {
  event_dict-others = λ k event d ne. lookup-assign_ne (text "event") k (str event) d ne;
  merge-lookup = lookup-merge_contextvars;
  level-others = λ k l d ne. lookup-assign_ne (text "level") k (str (level_name l)) d ne;
  timestamp-others = λ k stamp d ne. lookup-assign_ne (text "timestamp") k (str stamp) d ne;
  stack-others = λ k d ne other. refl;
  exception-others = λ k t d other ne. exception_other k t d ne;
  bind-lookup = lookup-update;
}
