-- ===== src/Contract/Fields.antt =====
-- The fields of the request bodies, as the service reads them and as the contract has them.
use issues_api_testbed.Prelude.{
  ℕ, ◌≤◌, ◌≡◌, ◌≢◌, refl, Bool, true, false, not, ◌&&◌, ◌||◌, Option, none, some, List, [], ◌∷◌,
  arith, Text, is_empty, length, leb, ◌==◌, nat_eq, text_eq, Option-cases, inl, inr,
}
use issues_api_testbed.Python.{Json, null, str, arr, obj, Items, nil, cons, Fields, field, end, get}
use issues_api_testbed.Python.Str.{strip, length-strip-le, is_unicode}
use issues_api_testbed.Schemas
use issues_api_testbed.Schemas.{
  ◌>>=◌, IssueCreate, CommentCreate, any_eq, keys_within, texts, cleaned, clean_text, clean_labels,
  labels_field, parse_create, parse_patch, parse_comment,
}
use issues_api_testbed.Contract.Shapes.{
  sized, max_items, or_null, among, each, count_items, no_other, fits,
}

abbrev pub accepted {ℓ} : {A : Type ℓ} → Option A → Bool
accepted none = false
accepted (some a) = true

-- a text of white space alone
abbrev pub blank : Json → Bool
blank (str s) = is_empty (strip s)
blank _ = false

abbrev pub any_blank : Items → Bool
any_blank nil = false
any_blank (cons x xs) = blank x || any_blank xs

abbrev pub blank_label : Json → Bool
blank_label (arr xs) = any_blank xs
blank_label _ = false

-- the value of a key, `null` where it is missing
abbrev pub at : Text → Json → Json
at key (obj d) = get key d
at key _ = null

any_eq-among : (k : Text) (ks : List Text) → any_eq k ks ≡ among k ks
any_eq-among k [] = refl
any_eq-among k (j ∷ ks) = rw (any_eq-among k ks) refl

pub keys_within-no_other : (ks : List Text) (d : Fields) → keys_within ks d ≡ no_other ks d
unfolding keys_within
keys_within-no_other ks end = refl
keys_within-no_other ks (field k v d) = rw (any_eq-among k ks, keys_within-no_other ks d) refl

-- not a text with a surrogate on its own
abbrev pub encodable : Json → Bool
encodable (str s) = is_unicode s
encodable _ = true

pub required_text :
    (m : ℕ) (j : Json)
    → accepted (Schemas.required (clean_text m) j)
      ≡ (fits (sized 1 (some m)) j && not (blank j) && encodable j)
unfolding fits clean_text
required_text m (str s) = ground arith
required_text m _ = refl

pub optional_text :
    (m : ℕ) (j : Json)
    → accepted (Schemas.optional (Schemas.at_most m) j)
      ≡ (fits (or_null (sized 0 (some m))) j && encodable j)
unfolding fits
optional_text m (str s) = ground arith
optional_text m _ = refl

-- the texts of a list
abbrev none_blank : Option (List Text) → Bool
none_blank none = false
none_blank (some ls) = length (cleaned ls) == length ls

length-cleaned-le : (ls : List Text) → length (cleaned ls) ≤ length ls
unfolding cleaned
length-cleaned-le [] = omega arith
length-cleaned-le (l ∷ ls) = ground (arith, length-cleaned-le ls)

not_blank : (s : Text) → is_empty (strip s) ≡ false → 1 ≤ length s
not_blank s h = ground (arith, length-strip-le s, longer (strip s))
  where
    longer : (t : Text) → is_empty t ≡ false → 1 ≤ length t
    longer [] h = absurd (cc)
    longer (c ∷ t) h = omega arith

each_label :
    (xs : Items) → none_blank (texts xs) ≡ (each (fits (sized 1 none)) xs && not (any_blank xs))
unfolding fits texts cleaned
each_label nil = refl
each_label (cons (str s) xs) = elim (Option-cases (texts xs)) [
  | inl bad ↦ ground (arith, each_label xs, not_blank s)
  | inr (ls, good) ↦ ground (arith, each_label xs, not_blank s, length-cleaned-le ls)
]
each_label (cons _ xs) = refl

length-texts : (xs : Items) (ls : List Text) → texts xs ≡ some ls → length ls ≡ count_items xs
unfolding texts
length-texts nil ls h = ground arith
length-texts (cons (str s) xs) ls h = elim (Option-cases (texts xs)) [
  | inl bad ↦ absurd (ground arith)
  | inr (rest, good) ↦ ground (arith, length-texts xs rest good)
]
length-texts (cons _ xs) ls h = absurd (cc)

fits_labels :
    (xs : Items)
    → fits (or_null (max_items 100 (sized 1 none))) (arr xs)
      ≡ (leb (count_items xs) 100 && each (fits (sized 1 none)) xs)
unfolding fits
fits_labels xs = refl

other_labels :
    (j : Json)
    → ((xs : Items) → j ≢ arr xs)
    → accepted (labels_field j)
      ≡ (fits (or_null (max_items 100 (sized 1 none))) j && not (blank_label j))
unfolding fits
other_labels (arr xs) ne = absurd (ne xs refl)
other_labels _ ne = refl

pub labels :
    (j : Json)
    → accepted (labels_field j)
      ≡ (fits (or_null (max_items 100 (sized 1 none))) j && not (blank_label j))
unfolding clean_labels
labels (arr xs) = elim (Option-cases (texts xs)) [
  | inl bad ↦ ground (arith, each_label xs, fits_labels xs)
  | inr (ls, good) ↦ ground (arith, each_label xs, fits_labels xs, length-texts xs ls good)
]
labels j = other_labels j λ xs e. cc
