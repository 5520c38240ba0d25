-- ===== src/Replay/Defs.antt =====
-- The script, but for what it prints; the service is a parameter, as the script's HTTP client
-- sees it.
use issues_api_testbed.Prelude.Int.{ℤ, pos, negsuc}
use issues_api_testbed.Prelude.{
  ℕ, zero, suc, Bool, false, ◌&&◌, ◌||◌, Option, none, some, List, [], ◌∷◌, ◌++◌, Text, text,
  is_empty, ◌==◌, nat_eq, text_eq, if◌then◌else◌, length,
}
use issues_api_testbed.Python.{Json, int, str, obj, num, Fields, field, end}
use issues_api_testbed.Python.Str.{strip}
use issues_api_testbed.Errors.{Result, ok, raise, or_crash, unicode_error, Headers, ◌>>=◌, ◌>>◌}
use issues_api_testbed.Http.{Request, EventRecord}
use issues_api_testbed.Cache.{find}
use issues_api_testbed.Webhooks.{Hmac, utf8}

-- the line breaks of `str.splitlines`, but for `\r\n`
abbrev is_break : ℕ → Bool
is_break c =
    c == 10
    || c == 11
    || c == 12
    || c == 13
    || c == 28
    || c == 29
    || c == 30
    || c == 0x85
    || c == 0x2028
    || c == 0x2029

-- `current` is the line so far; `after_cr` tells that the last character was `\r`
splitlines_from : Bool → Text → Text → List Text
splitlines_from after_cr current [] = if is_empty current then [] else current ∷ []
splitlines_from after_cr current (c ∷ s) =
    let more = splitlines_from false (current ++ c ∷ []) s in
    let broken = current ∷ splitlines_from (c == 13) [] s in
    let skipped = splitlines_from false [] s in
    if after_cr && c == 10 then skipped else if is_break c then broken else more

unfoldable pub splitlines : Text → List Text
unfolding splitlines_from
splitlines s = splitlines_from false [] s

-- `line.partition(mark)`, for a mark of one character; `none` where the separator is empty
unfoldable pub partition : ℕ → Text → Option (Text × Text)
partition mark [] = none
partition mark (c ∷ s) =
    if c == mark
    then some ([], s)
    else elim (partition mark s) [ none ↦ none | some (before, after) ↦ some (c ∷ before, after) ]

-- a quotation mark of either kind
abbrev is_quote : ℕ → Bool
is_quote c = c == b'"' || c == 39

drop_quotes : Text → Text
drop_quotes [] = []
drop_quotes (c ∷ s) = let rest = drop_quotes s in if is_quote c then rest else c ∷ s

drop_last_quotes : Text → Text
drop_last_quotes [] = []
drop_last_quotes (c ∷ s) =
    let rest = drop_last_quotes s in if is_empty rest && is_quote c then [] else c ∷ rest

-- `value.strip("'\"")`
unfoldable pub strip_quotes : Text → Text
unfolding drop_quotes drop_last_quotes
strip_quotes s = drop_last_quotes (drop_quotes s)

-- the loop over the lines of `.env`
unfoldable pub secret_in : List Text → Option Text
unfolding partition
secret_in [] = none
secret_in (line ∷ lines) =
    let rest = secret_in lines in
    elim (partition b'=' line) [
      | none ↦ rest
      | some (name, value) ↦
          if strip name == text "WEBHOOK_SECRET" then some (strip_quotes (strip value)) else rest
    ]

-- `load_secret`, on the environment variable and the text of `.env`; `none` is `sys.exit`
unfoldable pub load_secret : Option Text → Option Text → Option Text
load_secret (some (c ∷ s)) env_file = some (c ∷ s)
load_secret _ none = none
load_secret _ (some contents) = secret_in (splitlines contents)

-- the choices of `--event`
pub data EventName : Type 0 where
  issues issue_comment ping : EventName

abbrev pub event_text : EventName → Text
event_text issues = text "issues"
event_text issue_comment = text "issue_comment"
event_text ping = text "ping"

abbrev issue_fields : Text → ℤ → Fields → Fields
issue_fields action issue_number rest = field (text "action") (str action) (
    field (text "issue")
      (obj (
        field (text "number") (int issue_number)
          (field (text "title") (str (text "replayed by scripts/replay_webhook.py")) end)))
      (field (text "sender") (obj (field (text "login") (str (text "replay-script")) end)) rest))

unfoldable pub build_payload : EventName → Text → ℤ → Fields
build_payload ping action issue_number =
    field (text "zen") (str (text "Non-blocking is better than blocking."))
      (field (text "hook_id") (num 1) end)
build_payload issues action issue_number = issue_fields action issue_number end
build_payload issue_comment action issue_number = issue_fields action issue_number (
    field (text "comment")
      (obj (field (text "id") (num 1) (field (text "body") (str (text "replayed")) end))) end)

pub record Args : Type 0 where
  pub event : EventName
  pub action : Text
  pub issue_number : ℤ
  pub times : ℤ
  pub delivery_id : Option Text

-- How the script ends: with an exit status, or with `sys.exit(message)`.
pub data Exit : Type 0 where
  status : ℕ → Exit
  message : Text → Exit

-- The service behind `httpx.Client`, with the state `S`. An answer of `GET /events` is the list of
-- its records.
pub record Client (S : Type 0) : Type 0 where
  pub healthz : S → Bool
  pub post : Request → S → Result ℕ × S
  pub events : ℕ → S → Result (List EventRecord)

-- `args.delivery_id or f"replay-{uuid.uuid4()}"`
abbrev pub chosen_delivery : Option Text → Text → Text
chosen_delivery none uuid = text "replay-" ++ uuid
chosen_delivery (some id) uuid = if is_empty id then text "replay-" ++ uuid else id

abbrev pub signed_headers : EventName → Text → Text → Headers
signed_headers event delivery_id signature =
    (text "X-GitHub-Event", event_text event)
    ∷ (text "X-GitHub-Delivery", delivery_id)
    ∷ (text "X-Hub-Signature-256", signature)
    ∷ (text "Content-Type", text "application/json")
    ∷ []

-- `range(1, times + 1)` has that many elements
abbrev pub rounds : ℤ → ℕ
rounds (pos n) = n
rounds (negsuc n) = 0

unfoldable pub delivery_request : EventName → Text → Text → List ℕ → Request
delivery_request event delivery_id signature raw = record {
  header = λ name. find name (signed_headers event delivery_id signature);
  raw_body = raw;
  request_id = none;
}

-- `[record for record in events if record["id"] == delivery_id]`
unfoldable pub matching : Text → List EventRecord → List EventRecord
matching delivery_id [] = []
matching delivery_id (r ∷ rs) =
    let rest = matching delivery_id rs in if r.id == delivery_id then r ∷ rest else rest

unfoldable pub verdict : Text → List EventRecord → Exit
unfolding matching
verdict delivery_id events =
    if length (matching delivery_id events) == 1 then status 0 else status 1

-- `"sha256=" + hmac.new(secret.encode(), raw, hashlib.sha256).hexdigest()`
unfoldable pub sign : Hmac → Text → List ℕ → Result Text
sign hmac secret raw = do
  key ← or_crash unicode_error (utf8 secret)
  ok (text "sha256=" ++ hmac.hexdigest key raw)

module _ {S : Type 0} (client : Client S) where
  -- the loop over the attempts
  unfoldable pub post_times : ℕ → Request → S → Result (Unit {0}) × S
  post_times zero request s = (ok tt, s)
  post_times (suc n) request s =
      let (answer, s') = client.post request s in
      elim answer [ raise e ↦ (raise e, s') | ok _ ↦ post_times n request s' ]

  -- the part of `main` inside `with httpx.Client`, and the verdict
  unfoldable pub replay : ℕ → Text → Request → S → Result Exit × S
  replay times delivery_id request s =
      if client.healthz s
      then (let (sent, s') = post_times times request s in
          ((do sent; events ← client.events 200 s'; ok (verdict delivery_id events)), s'))
      else (ok (message (text "no service answering")), s)

  -- `main`, on the environment, the text of `.env` and a fresh UUID; `encode` is
  -- `json.dumps(payload).encode()`
  unfoldable pub main :
      Hmac → (Json → List ℕ) → Args → Option Text → Option Text → Text → S → Result Exit × S
  main hmac encode args env env_file uuid s = elim (load_secret env env_file) [
    | none ↦ (ok (message (text "WEBHOOK_SECRET is not set, and no value was found in .env")), s)
    | some secret ↦
        let delivery_id = chosen_delivery args.delivery_id uuid in
        let raw = encode (obj (build_payload args.event args.action args.issue_number)) in
        elim (sign hmac secret raw) [
          | raise e ↦ (raise e, s)
          | ok signature ↦
              replay (rounds args.times) delivery_id
                (delivery_request args.event delivery_id signature raw) s
        ]
  ]
