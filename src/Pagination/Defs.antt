-- ===== src/Pagination/Defs.antt =====
-- `parse_link_header`. The two regular expressions are written out as the matches they make.
use issues_api_testbed.Prelude.{
  ℕ, ◌+◌, ◌-◌, Bool, false, not, ◌&&◌, ◌||◌, Option, none, some, List, [], ◌∷◌, ◌++◌, Text,
  is_empty, ◌==◌, nat_eq, text_eq, if◌then◌else◌, ◌≡◌, refl, true, arith,
}
use issues_api_testbed.Python.Str.{strip, lstrip, is_space}
use issues_api_testbed.Errors.{
  Result, ok, raise, crash, attribute_error, ◌>>=◌, only_crashes, only_crashes-bind,
}

-- the loop of `_split_segments`, at its `depth` and `current`
unfoldable pub split_from : ℕ → Text → Text → List Text
split_from depth current [] = if is_empty current then [] else current ∷ []
split_from depth current (c ∷ s) =
    let d = if c == b'<' then depth + 1 else if c == b'>' then depth - 1 else depth in
    let closed = split_from d [] s in
    let longer = split_from d (current ++ c ∷ []) s in
    if c == b',' && d == 0 then current ∷ closed else longer

unfoldable pub split_segments : Text → List Text
unfolding split_from
split_segments value = split_from 0 [] value

-- the longest prefix with no `mark`, and what stands behind the mark; `none` if there is none
unfoldable pub until : ℕ → Text → Option (Text × Text)
until mark [] = none
until mark (c ∷ s) = elim (until mark s) [
  | none ↦ if c == mark then some ([], s) else none
  | some (before, after) ↦ if c == mark then some ([], s) else some (c ∷ before, after)
]

-- `\s*;\s*(?P<params>.*)` on what stands behind the `>`
abbrev after_semicolon : Text → Option Text
after_semicolon [] = none
after_semicolon (c ∷ s) = if c == b';' then some (lstrip s) else none

abbrev segment_parts : Option (Text × Text) → Option (Text × Text)
segment_parts none = none
segment_parts (some (url, rest)) = elim (after_semicolon (lstrip rest)) [
  | none ↦ none
  | some params ↦ some (url, params)
]

-- `_LINK_SEGMENT.match`: the groups `url` and `params`
unfoldable pub match_segment : Text → Option (Text × Text)
unfolding until lstrip
match_segment [] = none
match_segment (c ∷ s) = if c == b'<' then segment_parts (until b'>' s) else none

-- which group of `_REL_PARAM` took part in the match
pub data Rel : Type 0 where
  quoted bare : Text → Rel

abbrev in_bare : ℕ → Bool
in_bare c = not (is_space c || c == b';' || c == b',')

-- `[^\s;,]+`, as far as it goes
unfoldable pub bare_prefix : Text → Text
bare_prefix [] = []
bare_prefix (c ∷ s) = let rest = bare_prefix s in if in_bare c then c ∷ rest else []

abbrev bare_rel : Text → Option Rel
bare_rel s = if is_empty (bare_prefix s) then none else some (bare (bare_prefix s))

-- `(?:"(?P<quoted>[^"]*)"|(?P<bare>[^\s;,]+))`
unfoldable pub match_value : Text → Option Rel
unfolding until bare_prefix
match_value [] = none
match_value (c ∷ s) =
    if c == b'"'
    then elim (until b'"' s) [ none ↦ bare_rel (c ∷ s) | some (name, _) ↦ some (quoted name) ]
    else bare_rel (c ∷ s)

abbrev match_equals : Text → Option Rel
match_equals [] = none
match_equals (c ∷ s) = if c == b'=' then match_value (lstrip s) else none

-- a letter, in either case
abbrev is_letter : ℕ → ℕ → Bool
is_letter lower c = c == lower || c + 32 == lower

-- `_REL_PARAM` at the start of the text
unfoldable pub match_rel : Text → Option Rel
unfolding match_value lstrip
match_rel (r ∷ e ∷ l ∷ s) =
    if is_letter b'r' r && is_letter b'e' e && is_letter b'l' l
    then match_equals (lstrip s)
    else none
match_rel _ = none

-- `_REL_PARAM.search`
unfoldable pub search_rel : Text → Option Rel
unfolding match_rel
search_rel [] = none
search_rel (c ∷ s) = elim (match_rel (c ∷ s)) [ none ↦ search_rel s | some r ↦ some r ]

-- `(group("quoted") or group("bare")).strip()`
abbrev rel_name : Rel → Result Text
rel_name (quoted []) = raise (crash attribute_error)
rel_name (quoted (c ∷ s)) = ok (strip (c ∷ s))
rel_name (bare s) = ok (strip s)

abbrev pub has_rel : Text → List (Text × Text) → Bool
has_rel rel [] = false
has_rel rel ((r, _) ∷ links) = r == rel || has_rel rel links

-- the body of the loop of `parse_link_header`
unfoldable pub add_link : List (Text × Text) → Text → Result (List (Text × Text))
unfolding match_segment search_rel
add_link links segment = elim (match_segment (strip segment)) [
  | none ↦ ok links
  | some (raw_url, params) ↦ elim (search_rel params) [
    | none ↦ ok links
    | some r ↦ (do
      rel ← rel_name r
      ok (
          if (not (is_empty rel) && not (is_empty (strip raw_url))) && not (has_rel rel links)
          then links ++ (rel, strip raw_url) ∷ []
          else links))
  ]
]

unfoldable pub add_links : List (Text × Text) → List Text → Result (List (Text × Text))
add_links links [] = ok links
add_links links (segment ∷ segments) = do more ← add_link links segment; add_links more segments

-- `{rel: url}`, in the order of insertion
unfoldable pub parse_link_header : Option Text → Result (List (Text × Text))
unfolding add_links split_segments
parse_link_header none = ok []
parse_link_header (some value) =
    if is_empty (strip value) then ok [] else add_links [] (split_segments value)

add_link-only_crashes :
    (links : List (Text × Text)) (segment : Text) → only_crashes (add_link links segment) ≡ true
unfolding add_link only_crashes
add_link-only_crashes links segment = ground arith

add_links-only_crashes :
    (segments : List Text) (links : List (Text × Text))
    → only_crashes (add_links links segments) ≡ true
unfolding add_links only_crashes
add_links-only_crashes [] links = refl
add_links-only_crashes (s ∷ segments) links =
    only_crashes-bind (add_link links s) (λ more. add_links more segments)
      (add_link-only_crashes links s) (add_links-only_crashes segments)

pub parse_link_header-only_crashes :
    (value : Option Text) → only_crashes (parse_link_header value) ≡ true
unfolding parse_link_header only_crashes
parse_link_header-only_crashes none = refl
parse_link_header-only_crashes (some v) =
    ground (arith, add_links-only_crashes (split_segments v) [])
