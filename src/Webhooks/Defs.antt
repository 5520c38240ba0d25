-- ===== src/Webhooks/Defs.antt =====
use issues_api_testbed.Prelude.{
  ℕ, ◌+◌, ◌/◌, ◌%◌, Bool, true, false, ◌&&◌, ◌||◌, Option, none, some, List, [], ◌∷◌, ◌++◌, Text,
  text, is_empty, ◌==◌, text_eq, ltb, leb, if◌then◌else◌,
}
use issues_api_testbed.Python.{
  Json, null, str, arr, obj, field, end, nil, cons, Fields, get, as_str, as_dict, as_int, Integer,
  integer_json,
}
use issues_api_testbed.Errors.{
  Result, ok, raise, crash, or_crash, app, error, reason, unauthorized_error, validation_error,
  type_error, unicode_error, AppError, ◌>>=◌,
}

-- `hmac.new(key, body, hashlib.sha256).hexdigest()`
pub record Hmac : Type 0 where
  pub hexdigest : List ℕ → List ℕ → Text

-- the bytes of one code point
abbrev utf8_char : ℕ → List ℕ
utf8_char c =
    if ltb c 0x80
    then c ∷ []
    else if ltb c 0x800
    then (0xc0 + c / 64) ∷ (0x80 + c % 64) ∷ []
    else if ltb c 0x10000
    then (0xe0 + c / 4096) ∷ (0x80 + c / 64 % 64) ∷ (0x80 + c % 64) ∷ []
    else (0xf0 + c / 262144) ∷ (0x80 + c / 4096 % 64) ∷ (0x80 + c / 64 % 64) ∷ (0x80 + c % 64) ∷ []

-- `s.encode("utf-8")`; a surrogate cannot be encoded
unfoldable pub utf8 : Text → Option (List ℕ)
utf8 [] = some []
utf8 (c ∷ s) = elim (utf8 s) [
  | none ↦ none
  | some rest ↦ if leb 0xd800 c && leb c 0xdfff then none else some (utf8_char c ++ rest)
]

unfoldable pub is_ascii : Text → Bool
is_ascii [] = true
is_ascii (c ∷ s) = ltb c 0x80 && is_ascii s

-- `hmac.compare_digest` on two strings, which must be ASCII
unfoldable pub compare_digest : Text → Text → Result Bool
unfolding is_ascii
compare_digest a b = if is_ascii a && is_ascii b then ok (a == b) else raise (crash type_error)

abbrev pub signature_message : Text
signature_message = text "Missing or invalid webhook signature."

-- the two reasons to refuse a signature
abbrev pub absent : AppError
absent = error unauthorized_error signature_message (reason (text "signature_header_absent"))

abbrev pub mismatch : AppError
mismatch = error unauthorized_error signature_message (reason (text "signature_mismatch"))

module _ (hmac : Hmac) where
  unfoldable pub compute_signature : Text → List ℕ → Result Text
  compute_signature secret body = do
    key ← or_crash unicode_error (utf8 secret)
    ok (text "sha256=" ++ hmac.hexdigest key body)

  -- the part of `verify_signature` behind the test for an absent header
  unfoldable pub verify_header : Text → List ℕ → Text → Result (Unit {0})
  unfolding compute_signature compare_digest
  verify_header secret body header = do
    expected ← compute_signature secret body
    same ← compare_digest expected header
    if same then ok tt else raise (app mismatch)

  unfoldable pub verify_signature : Text → List ℕ → Option Text → Result (Unit {0})
  unfolding verify_header
  verify_signature secret body none = raise (app absent)
  verify_signature secret body (some []) = raise (app absent)
  verify_signature secret body (some (c ∷ s)) = verify_header secret body (c ∷ s)

pub record WebhookSummary : Type 0 where
  pub event : Text
  pub action : Option Text
  pub issue_number : Option Integer
  pub comment_id : Option Integer
  pub sender : Option Text

-- `WebhookSummary.as_log_fields`, over the summary's values
abbrev pub log_int : Option Integer → Json
log_int none = null
log_int (some i) = integer_json i

-- `event in SUPPORTED_EVENTS`
unfoldable pub is_supported : Text → Bool
is_supported event = event == text "issues" || event == text "issue_comment" || event == text "ping"

-- `event in ACTION_REQUIRED_EVENTS`
unfoldable pub needs_action : Text → Bool
needs_action event = event == text "issues" || event == text "issue_comment"

abbrev supported : Json
supported =
    arr (
      cons (str (text "issue_comment")) (cons (str (text "issues")) (cons (str (text "ping")) nil)))

unfoldable pub validate_event : Option Text → Result Text
unfolding is_supported
validate_event none = raise (
    app (
      error validation_error (text "Missing X-GitHub-Event header.")
        (reason (text "event_header_absent"))))
validate_event (some event) =
    if is_empty event
    then raise (
        app (
          error validation_error (text "Missing X-GitHub-Event header.")
            (reason (text "event_header_absent"))))
    else if is_supported event
    then ok event
    else raise (
        app (
          error validation_error (text "Unsupported webhook event '" ++ event ++ text "'.")
            (obj (field (text "event") (str event) (field (text "supported") supported end)))))

-- `payload[outer][inner]` where the outer value is a dict, and `None` where it is not
abbrev pub inner : Text → Text → Fields → Json
inner outer key payload = elim (as_dict (get outer payload)) [ none ↦ null | some d ↦ get key d ]

abbrev is_missing : Option Text → Bool
is_missing none = true
is_missing (some _) = false

unfoldable pub summarize : Text → Fields → Result WebhookSummary
unfolding needs_action
summarize event payload =
    let action = as_str (get (text "action") payload) in
    if needs_action event && is_missing action
    then raise (
        app (
          error validation_error (text "Event '" ++ event ++ text "' requires an 'action' field.") (
            obj (
              field (text "event") (str event)
                (field (text "reason") (str (text "action_missing")) end)))))
    else ok (record {
      event = event;
      action = action;
      issue_number = as_int (inner (text "issue") (text "number") payload);
      comment_id = as_int (inner (text "comment") (text "id") payload);
      sender = as_str (inner (text "sender") (text "login") payload);
    })

-- `as_log_fields`
unfoldable pub as_log_fields : WebhookSummary → Json
as_log_fields s = obj (
    field (text "github_event") (str s.event) (
      field (text "action") (elim s.action [ none ↦ null | some a ↦ str a ])
        (field (text "issue_number") (log_int s.issue_number)
          (field (text "comment_id") (log_int s.comment_id) end))))
