-- ===== src/Schemas/Projections.antt =====
-- The response models, and the projections of GitHub's objects onto them. What pydantic makes of a
-- value of a declared type is a parameter.
use issues_api_testbed.Prelude.Int.{ℤ}
use issues_api_testbed.Prelude.{
  ◌≡◌, arith, true, Bool, false, ◌||◌, ◌++◌, Option, none, some, List, [], ◌∷◌, Text, text, ◌==◌,
  text_eq, if◌then◌else◌,
}
use issues_api_testbed.Python.{
  Json, null, str, arr, obj, Items, nil, cons, Fields, end, field, lookup, get, truthy, as_str,
  as_dict, num,
}
use issues_api_testbed.Python.Str.{contains}
use issues_api_testbed.Errors.{
  Result, only_crashes, ok, raise, crash, or_crash, type_error, key_error, model_error, ◌>>=◌,
}

-- pydantic's reading of a value at a field of type `int`, `str` or `datetime`; `none` where it
-- raises `ValidationError`. A date is given back as its ISO text.
pub record Pydantic : Type 0 where
  pub read_int : Json → Option ℤ
  pub read_str : Json → Option Text
  pub read_datetime : Json → Option Text

pub record Issue : Type 0 where
  pub number : ℤ
  pub title : Text
  pub body : Option Text
  pub state : Text
  pub labels : List Text
  pub html_url : Text
  pub user : Option Text
  pub comments : ℤ
  pub created_at : Text
  pub updated_at : Text
  pub closed_at : Option Text

pub record Comment : Type 0 where
  pub id : ℤ
  pub body : Text
  pub user : Option Text
  pub html_url : Text
  pub created_at : Text
  pub updated_at : Option Text
  pub issue_number : Option ℤ

has_item : Text → Items → Bool
has_item key nil = false
has_item key (cons (str s) xs) = s == key || has_item key xs
has_item key (cons _ xs) = has_item key xs

has_key : Text → Fields → Bool
has_key key end = false
has_key key (field k v d) = k == key || has_key key d

-- `"pull_request" in payload`, whatever the payload is
unfoldable pub is_pull_request : Json → Result Bool
unfolding has_item has_key
is_pull_request (obj d) = ok (has_key (text "pull_request") d)
is_pull_request (arr xs) = ok (has_item (text "pull_request") xs)
is_pull_request (str s) = ok (contains (text "pull_request") s)
is_pull_request _ = raise (crash type_error)

-- the body of the loop of `_label_names`
unfoldable pub label_name : Json → List Text
label_name (obj d) = elim (as_str (get (text "name") d)) [ none ↦ [] | some name ↦ name ∷ [] ]
label_name (str s) = s ∷ []
label_name _ = []

item_names : Items → List Text
item_names nil = []
item_names (cons x xs) = label_name x ++ item_names xs

key_names : Fields → List Text
key_names end = []
key_names (field k v d) = k ∷ key_names d

char_names : Text → List Text
char_names [] = []
char_names (c ∷ s) = (c ∷ []) ∷ char_names s

-- iteration over a dict is over its keys, over a string over its characters
iterate : Json → Result (List Text)
iterate (arr xs) = ok (item_names xs)
iterate (obj d) = ok (key_names d)
iterate (str s) = ok (char_names s)
iterate _ = raise (crash type_error)

unfoldable pub label_names : Fields → Result (List Text)
unfolding iterate item_names key_names char_names label_name
label_names payload =
    let labels = get (text "labels") payload in if truthy labels then iterate labels else ok []

-- `_login`
label_names-only_crashes : (d : Fields) → only_crashes (label_names d) ≡ true
unfolding only_crashes label_names iterate
label_names-only_crashes d = ground arith

unfoldable pub login : Fields → Option Text
login payload = elim (as_dict (get (text "user") payload)) [
  | none ↦ none
  | some user ↦ as_str (get (text "login") user)
]

-- `payload[key]`
abbrev pub subscript : Text → Fields → Result Json
subscript key d = or_crash key_error (lookup key d)

-- `payload.get(key, default)`
abbrev pub get_default : Text → Json → Fields → Json
get_default key default d = elim (lookup key d) [ none ↦ default | some v ↦ v ]

-- `value or 0`
abbrev pub or_zero : Json → Json
or_zero v = if truthy v then v else num 0

-- a field of type `T | None`
abbrev pub nullable : {A : Type 0} → (Json → Option A) → Json → Result (Option A)
nullable read null = ok none
nullable read v = elim (read v) [ none ↦ raise (crash model_error) | some a ↦ ok (some a) ]

-- `payload[...]` on what is not a dict
abbrev pub dict_of : Json → Result Fields
dict_of (obj d) = ok d
dict_of _ = raise (crash type_error)

module _ (pydantic : Pydantic) where
  open pydantic use {read_int, read_str, read_datetime}

  unfoldable pub to_issue : Json → Result Issue
  to_issue payload = do
    d ← dict_of payload
    number ← subscript (text "number") d
    labels ← label_names d
    created_at ← subscript (text "created_at") d
    updated_at ← subscript (text "updated_at") d
    n ← or_crash model_error (read_int number)
    title ← or_crash model_error (read_str (get_default (text "title") (str []) d))
    body ← nullable read_str (get (text "body") d)
    state ← or_crash model_error (read_str (get_default (text "state") (str (text "open")) d))
    url ← or_crash model_error (read_str (get_default (text "html_url") (str []) d))
    comments ← or_crash model_error (read_int (or_zero (get_default (text "comments") (num 0) d)))
    created ← or_crash model_error (read_datetime created_at)
    updated ← or_crash model_error (read_datetime updated_at)
    closed ← nullable read_datetime (get (text "closed_at") d)
    ok (record {
      number = n;
      title = title;
      body = body;
      state = state;
      labels = labels;
      html_url = url;
      user = login d;
      comments = comments;
      created_at = created;
      updated_at = updated;
      closed_at = closed;
    })

  unfoldable pub to_comment : Json → Option ℤ → Result Comment
  to_comment payload issue_number = do
    d ← dict_of payload
    id ← subscript (text "id") d
    created_at ← subscript (text "created_at") d
    n ← or_crash model_error (read_int id)
    body ← or_crash model_error (read_str (get_default (text "body") (str []) d))
    url ← or_crash model_error (read_str (get_default (text "html_url") (str []) d))
    created ← or_crash model_error (read_datetime created_at)
    updated ← nullable read_datetime (get (text "updated_at") d)
    ok (record {
      id = n;
      body = body;
      user = login d;
      html_url = url;
      created_at = created;
      updated_at = updated;
      issue_number = issue_number;
    })

pub is_pull_request-only_crashes : (j : Json) → only_crashes (is_pull_request j) ≡ true
unfolding is_pull_request only_crashes
is_pull_request-only_crashes j = ground arith

module _ (pydantic : Pydantic) where
  pub to_comment-only_crashes :
      (j : Json) (n : Option ℤ) → only_crashes (to_comment pydantic j n) ≡ true
  unfolding to_comment only_crashes
  to_comment-only_crashes j n = ground arith

  pub to_issue-only_crashes : (j : Json) → only_crashes (to_issue pydantic j) ≡ true
  unfolding to_issue only_crashes
  to_issue-only_crashes (obj d) = ground (arith, label_names-only_crashes d)
  to_issue-only_crashes j = ground arith
