-- ===== src/Schemas/Requests.antt =====
-- The request models: what a JSON body must be to be accepted, and what is passed on for it.
use issues_api_testbed.Prelude.{
  ℕ, ◌≡◌, refl, Bool, true, false, ◌&&◌, ◌||◌, Option, none, some, List, [], ◌∷◌, Text, text,
  is_empty, leb, if◌then◌else◌, length, ◌==◌, nat_eq, text_eq,
}
use issues_api_testbed.Python.{Json, null, str, arr, obj, Items, nil, cons, Fields, end, field, get}
use issues_api_testbed.Python.Str.{strip, is_unicode}

infixl 5 ◌>>=◌
abbrev pub ◌>>=◌ : {A B : Type 0} → Option A → (A → Option B) → Option B
none >>= f = none
some a >>= f = f a

pub bind-eq-some :
    {A B : Type 0} (m : Option A) (f : A → Option B) {b : B}
    → (m >>= f) ≡ some b
    → (a : A) × (m ≡ some a) × (f a ≡ some b)
bind-eq-some none f h = absurd (cc)
bind-eq-some (some a) f h = (a, refl, h)

pub data IssueState : Type 0 where
  opened closed : IssueState

pub data IssueStateFilter : Type 0 where
  only : IssueState → IssueStateFilter
  all : IssueStateFilter

-- the enumerations' values
abbrev pub state_value : IssueState → Text
state_value opened = text "open"
state_value closed = text "closed"

abbrev pub filter_value : IssueStateFilter → Text
filter_value (only s) = state_value s
filter_value all = text "all"

pub record IssueCreate : Type 0 where
  pub title : Text
  pub body : Option Text
  pub labels : Option (List Text)

pub record IssuePatch : Type 0 where
  pub title : Option Text
  pub body : Option Text
  pub state : Option IssueState

pub record CommentCreate : Type 0 where
  pub body : Text

abbrev pub any_eq : Text → List Text → Bool
any_eq k [] = false
any_eq k (a ∷ rest) = k == a || any_eq k rest

-- `extra="forbid"`
unfoldable pub keys_within : List Text → Fields → Bool
keys_within allowed end = true
keys_within allowed (field k v d) = any_eq k allowed && keys_within allowed d

-- `max_length=m`; a `str` with a bound is refused where it has a surrogate on its own
abbrev pub at_most : ℕ → Text → Option Text
at_most m s = if is_unicode s && leb (length s) m then some s else none

-- `min_length=1, max_length=m`, then the validator that strips
unfoldable pub clean_text : ℕ → Text → Option Text
clean_text m s =
    let stripped = strip s in
    if is_unicode s && leb 1 (length s) && leb (length s) m
    then (if is_empty stripped then none else some stripped)
    else none

-- `[label.strip() for label in value if label.strip()]`
unfoldable pub cleaned : List Text → List Text
cleaned [] = []
cleaned (l ∷ ls) = let rest = cleaned ls in if is_empty (strip l) then rest else strip l ∷ rest

-- `max_length=100`, then `_labels_are_clean`
unfoldable pub clean_labels : List Text → Option (List Text)
unfolding cleaned
clean_labels ls =
    if leb (length ls) 100
    then (if length (cleaned ls) == length ls then some (cleaned ls) else none)
    else none

-- a field of type `str | None`: an absent key is `None`
abbrev pub optional : {A : Type 0} → (Text → Option A) → Json → Option (Option A)
optional f null = some none
optional f (str s) = do a ← f s; some (some a)
optional f _ = none

unfoldable pub texts : Items → Option (List Text)
texts nil = some []
texts (cons (str s) xs) = do rest ← texts xs; some (s ∷ rest)
texts (cons _ xs) = none

-- the field of type `list[str] | None`
abbrev pub labels_field : Json → Option (Option (List Text))
labels_field null = some none
labels_field (arr xs) = do ls ← texts xs; cs ← clean_labels ls; some (some cs)
labels_field _ = none

unfoldable pub parse_state : Text → Option IssueState
parse_state s =
    if s == text "open" then some opened else if s == text "closed" then some closed else none

abbrev pub required : {A : Type 0} → (Text → Option A) → Json → Option A
required f (str s) = f s
required f _ = none

unfoldable pub parse_create : Json → Option IssueCreate
parse_create (obj d) =
    if keys_within (text "title" ∷ text "body" ∷ text "labels" ∷ []) d
    then (do
      t ← required (clean_text 256) (get (text "title") d)
      b ← optional (at_most 65536) (get (text "body") d)
      l ← labels_field (get (text "labels") d)
      some (record { title = t; body = b; labels = l }))
    else none
parse_create _ = none

-- `_at_least_one_field`
abbrev pub some_field : IssuePatch → Option IssuePatch
some_field p = elim p.title [
  | some _ ↦ some p
  | none ↦ elim p.body [ some _ ↦ some p | none ↦ elim p.state [ some _ ↦ some p | none ↦ none ] ]
]

unfoldable pub parse_patch : Json → Option IssuePatch
unfolding parse_state
parse_patch (obj d) =
    if keys_within (text "title" ∷ text "body" ∷ text "state" ∷ []) d
    then (do
      t ← optional (clean_text 256) (get (text "title") d)
      b ← optional (at_most 65536) (get (text "body") d)
      s ← optional parse_state (get (text "state") d)
      some_field (record { title = t; body = b; state = s }))
    else none
parse_patch _ = none

unfoldable pub parse_comment : Json → Option CommentCreate
parse_comment (obj d) =
    if keys_within (text "body" ∷ []) d
    then (do b ← required (clean_text 65536) (get (text "body") d); some (record { body = b }))
    else none
parse_comment _ = none

-- one entry of `model_dump(exclude_none=True)`
abbrev pub dump_field : {A : Type 0} → Text → (A → Json) → Option A → Fields → Fields
dump_field key f none rest = rest
dump_field key f (some a) rest = field key (f a) rest

abbrev pub str_list : List Text → Items
str_list [] = nil
str_list (l ∷ ls) = cons (str l) (str_list ls)

-- `payload.model_dump(exclude_none=True)`
unfoldable pub dump_create : IssueCreate → Json
dump_create p = obj (
    field (text "title") (str p.title) (
      dump_field (text "body") str p.body
        (dump_field (text "labels") (λ ls. arr (str_list ls)) p.labels end)))

unfoldable pub to_github_payload : IssuePatch → Json
to_github_payload p = obj (
    dump_field (text "title") str p.title (
      dump_field (text "body") str p.body
        (dump_field (text "state") (λ s. str (state_value s)) p.state end)))
