-- ===== src/Contract/Shapes.antt =====
-- The part of JSON Schema that the contract uses.
use issues_api_testbed.Prelude.{
  ℕ, ◌+◌, leb, length, Bool, true, false, ◌&&◌, ◌||◌, Option, none, some, List, [], ◌∷◌, Text, ◌==◌,
  text_eq,
}
use issues_api_testbed.Prelude.Int.{pos}
use issues_api_testbed.Python.{
  end, field, Json, null, int, str, arr, obj, Items, nil, cons, Fields, lookup,
}

mutual
  pub data Shape : Type 0 where
    anything words whole : Shape
    -- `enum`
    one_of : List Text → Shape
    -- `type: […, "null"]`
    or_null : Shape → Shape
    list_of : Shape → Shape
    object_of : Members → Shape
    -- `minimum` of an integer
    at_least : ℕ → Shape
    -- `minLength` and `maxLength` of a string
    sized : ℕ → Option ℕ → Shape
    -- `maxItems` of an array
    max_items : ℕ → Shape → Shape
    -- `minProperties`, with `additionalProperties: false`
    closed_object_of : ℕ → Members → Shape

  pub data Members : Type 0 where
    no_more : Members
    required optional : Text → Shape → Members → Members

abbrev pub among : Text → List Text → Bool
among s [] = false
among s (t ∷ ts) = s == t || among s ts

abbrev pub each : (Json → Bool) → Items → Bool
each p nil = true
each p (cons x xs) = p x && each p xs

-- whether a property that may be missing passes
abbrev pub unless_missing : (Json → Bool) → Option Json → Bool
unless_missing p none = true
unless_missing p (some v) = p v

abbrev pub if_present : (Json → Bool) → Option Json → Bool
if_present p none = false
if_present p (some v) = p v

abbrev pub names : Members → List Text
names no_more = []
names (required name shape members) = name ∷ names members
names (optional name shape members) = name ∷ names members

-- no property but those
abbrev pub no_other : List Text → Fields → Bool
no_other allowed end = true
no_other allowed (field k v d) = among k allowed && no_other allowed d

abbrev pub size : Fields → ℕ
size end = 0
size (field k v d) = 1 + size d

abbrev pub count_items : Items → ℕ
count_items nil = 0
count_items (cons x xs) = 1 + count_items xs

abbrev pub within : ℕ → Option ℕ → ℕ → Bool
within lo none n = leb lo n
within lo (some hi) n = leb lo n && leb n hi

-- the same shape with no `minimum`
abbrev mutual
  pub loosened : Shape → Shape
  loosened (at_least n) = whole
  loosened (or_null shape) = or_null (loosened shape)
  loosened (list_of shape) = list_of (loosened shape)
  loosened (object_of members) = object_of (loosened_members members)
  loosened (max_items n shape) = max_items n (loosened shape)
  loosened (closed_object_of n members) = closed_object_of n (loosened_members members)
  loosened shape = shape

  pub loosened_members : Members → Members
  loosened_members no_more = no_more
  loosened_members (required name shape members) =
      required name (loosened shape) (loosened_members members)
  loosened_members (optional name shape members) =
      optional name (loosened shape) (loosened_members members)

unfoldable mutual
  pub fits : Shape → Json → Bool
  fits anything j = true
  fits words (str s) = true
  fits whole (int i) = true
  fits (at_least n) (int (pos m)) = leb n m
  fits (one_of names) (str s) = among s names
  fits (or_null shape) null = true
  fits (or_null shape) j = fits shape j
  fits (list_of shape) (arr xs) = each (fits shape) xs
  fits (object_of members) (obj d) = fits_members members d
  fits (sized lo hi) (str s) = within lo hi (length s)
  fits (max_items n shape) (arr xs) = leb (count_items xs) n && each (fits shape) xs
  fits (closed_object_of n members) (obj d) =
      leb n (size d) && no_other (names members) d && fits_members members d
  fits _ _ = false

  pub fits_members : Members → Fields → Bool
  fits_members no_more d = true
  fits_members (required name shape members) d =
      if_present (fits shape) (lookup name d) && fits_members members d
  fits_members (optional name shape members) d =
      unless_missing (fits shape) (lookup name d) && fits_members members d
