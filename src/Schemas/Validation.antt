-- ===== src/Schemas/Validation.antt =====
-- What an accepted request body is, and that it is accepted again as it is passed on to GitHub.
use issues_api_testbed.Prelude.{
  subst, ℕ, false, true, ◌≤◌, ◌≡◌, refl, Option, none, some, List, [], ◌∷◌, arith, Text, text,
  text_beq, is_empty, length,
}
use issues_api_testbed.Python.{Json, str, arr, obj, lookup, get}
use issues_api_testbed.Python.Str.{strip, strip_idem, length-strip-le, is_unicode, is_unicode-strip}
use issues_api_testbed.Schemas.Requests.{
  IssueCreate, clean_text, cleaned, clean_labels, keys_within, texts, str_list, parse_create,
  dump_create, optional, required, labels_field, at_most, bind-eq-some,
}

-- not blank, within its bound, and with no blank at either end
pub record IsClean (m : ℕ) (s : Text) : Type 0 where
  pub not_empty : is_empty s ≡ false
  pub bounded : length s ≤ m
  pub unicode : is_unicode s ≡ true
  pub stripped : strip s ≡ s

pub clean_text-IsClean : (m : ℕ) (s : Text) {t : Text} → clean_text m s ≡ some t → IsClean m t
unfolding clean_text
clean_text-IsClean m s h = ground (arith, strip_idem s, length-strip-le s, is_unicode-strip s)

length_pos : (s : Text) → is_empty s ≡ false → 1 ≤ length s
length_pos [] h = cc
length_pos (c ∷ s) h = omega arith

pub clean_text_lem : (m : ℕ) (s : Text) → IsClean m s → clean_text m s ≡ some s
unfolding clean_text
clean_text_lem m s c = ground (arith, length_pos s c.not_empty)

abbrev pub AllClean : List Text → Type 0
AllClean [] = Unit
AllClean (l ∷ ls) = (is_empty l ≡ false) × (strip l ≡ l) × AllClean ls

abbrev pub AreClean : List Text → Type 0
AreClean ls = (length ls ≤ 100) × AllClean ls

abbrev pub OptionAll : {A : Type 0} → (A → Type 0) → Option A → Type 0
OptionAll P none = Unit
OptionAll P (some a) = P a

cleaned-AllClean : (ls : List Text) → AllClean (cleaned ls)
unfolding cleaned
cleaned-AllClean [] = tt
cleaned-AllClean (l ∷ ls) = ground (arith, cleaned-AllClean ls, strip_idem l)

cleaned_lem : (ls : List Text) → AllClean ls → cleaned ls ≡ ls
unfolding cleaned
cleaned_lem [] h = refl
cleaned_lem (l ∷ ls) h = ground (arith, cleaned_lem ls h.2)

clean_labels-AreClean : (ls : List Text) {cs : List Text} → clean_labels ls ≡ some cs → AreClean cs
unfolding clean_labels
clean_labels-AreClean ls {cs} h =
    let e : cleaned ls ≡ cs = ground arith in (ground arith, subst AllClean e (cleaned-AllClean ls))

clean_labels_lem : (ls : List Text) → AreClean ls → clean_labels ls ≡ some ls
unfolding clean_labels
clean_labels_lem ls h = rw (cleaned_lem ls h.1) (ground arith)

texts-str_list : (ls : List Text) → texts (str_list ls) ≡ some ls
unfolding texts
texts-str_list [] = refl
texts-str_list (l ∷ ls) = rw (texts-str_list ls)

-- a text that has an encoding, of a bounded number of characters
abbrev pub IsBounded : ℕ → Text → Type 0
IsBounded m s = (is_unicode s ≡ true) × (length s ≤ m)

-- what the routes may rely on: a title and labels that GitHub will not find blank
pub record IsValidCreate (p : IssueCreate) : Type 0 where
  pub title : IsClean 256 p.title
  pub body : OptionAll (IsBounded 65536) p.body
  pub labels : OptionAll AreClean p.labels

pub required-IsClean :
    (m : ℕ) (j : Json) {t : Text} → required (clean_text m) j ≡ some t → IsClean m t
required-IsClean m (str s) h = clean_text-IsClean m s h
required-IsClean m _ h = cc

pub optional-IsClean :
    (m : ℕ) (j : Json) (t : Option Text)
    → optional (clean_text m) j ≡ some t
    → OptionAll (IsClean m) t
optional-IsClean m j none h = tt
optional-IsClean m (str s) (some t) h = clean_text-IsClean m s (ground arith)
optional-IsClean m _ (some t) h = absurd (cc)

pub optional-at_most :
    (m : ℕ) (j : Json) (t : Option Text)
    → optional (at_most m) j ≡ some t
    → OptionAll (IsBounded m) t
optional-at_most m j none h = tt
optional-at_most m (str s) (some t) h = ground arith
optional-at_most m _ (some t) h = absurd (cc)

labels_field-AreClean :
    (j : Json) (l : Option (List Text)) → labels_field j ≡ some l → OptionAll AreClean l
labels_field-AreClean j none h = tt
labels_field-AreClean (arr xs) (some cs) h =
    let (ls, _, f) = bind-eq-some (texts xs) _ h in clean_labels-AreClean ls (ground arith)
labels_field-AreClean _ (some t) h = absurd (cc)

-- An accepted `POST /issues` body has a title of 1 to 256 characters with no blank at either end,
-- a body of at most 65536 characters, and at most 100 labels, none blank at an end or empty.
pub parse_create-IsValidCreate :
    (j : Json) {p : IssueCreate} → parse_create j ≡ some p → IsValidCreate p
unfolding parse_create
parse_create-IsValidCreate (obj d) {p} h = record {
  title = required-IsClean 256 (get (text "title") d) (ground arith);
  body = optional-at_most 65536 (get (text "body") d) p.body (ground arith);
  labels = labels_field-AreClean (get (text "labels") d) p.labels (ground arith);
}
parse_create-IsValidCreate _ h = absurd (cc)

module _ (t : Text) (c : IsClean 256 t) where
  dump_create_parts :
      (b : Option Text) (l : Option (List Text))
      → OptionAll (IsBounded 65536) b
      → OptionAll AreClean l
      → parse_create (dump_create (record { title = t; body = b; labels = l }))
        ≡ some (record { title = t; body = b; labels = l })
  unfolding parse_create dump_create keys_within text text_beq get lookup
  dump_create_parts none none hb hl = rw (clean_text_lem 256 t c)
  dump_create_parts (some b) none hb hl = rw (clean_text_lem 256 t c) (ground arith)
  dump_create_parts none (some l) hb hl =
      rw (clean_text_lem 256 t c, texts-str_list l, clean_labels_lem l hl)
  dump_create_parts (some b) (some l) hb hl =
      rw (clean_text_lem 256 t c, texts-str_list l, clean_labels_lem l hl) (ground arith)

dump_create_lem : (p : IssueCreate) → IsValidCreate p → parse_create (dump_create p) ≡ some p
dump_create_lem p v = dump_create_parts p.title v.title p.body p.labels v.body v.labels

-- What is sent to GitHub for an accepted issue is accepted again as the same issue.
pub parse_create-dump_create :
    (j : Json) {p : IssueCreate} → parse_create j ≡ some p → parse_create (dump_create p) ≡ some p
parse_create-dump_create j {p} h = dump_create_lem p (parse_create-IsValidCreate j h)
