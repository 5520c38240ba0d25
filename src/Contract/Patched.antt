-- ===== src/Contract/Patched.antt =====
-- The patches that the contract has are accepted.
use issues_api_testbed.Prelude.{
  ◌≡◌, ◌≢◌, refl, true, false, ◌&&◌, ◌||◌, Option, none, some, List, [], ◌∷◌, arith, Text, text,
  leb, ◌==◌, nat_eq, text_eq, Bool-cases, inl, inr,
}
use issues_api_testbed.Python
use issues_api_testbed.Python.{Json, str, obj, Fields, field, end, lookup, get}
use issues_api_testbed.Python.Str.{strip}
use issues_api_testbed.Schemas
use issues_api_testbed.Schemas.{
  IssuePatch, IssueState, opened, closed, keys_within, clean_text, parse_state, parse_patch,
  some_field,
}
use issues_api_testbed.Contract.Shapes.{
  Shape, Members, sized, one_of, size, optional, no_other, unless_missing, fits, fits_members,
}
use issues_api_testbed.Contract.Schemas.{issue_patch_shape}
use issues_api_testbed.Contract.Fields.{accepted, blank, encodable, at, keys_within-no_other}
use issues_api_testbed.Contract.Accepted.{fits_closed, fits_other, fits_no_more}

abbrev patch_keys : List Text
patch_keys = text "title" ∷ text "body" ∷ text "state" ∷ []

abbrev states : List Text
states = text "open" ∷ text "closed" ∷ []

fits_if_there :
    (k : Text) (shape : Shape) (ms : Members) (d : Fields)
    → fits_members (optional k shape ms) d
      ≡ (unless_missing (fits shape) (lookup k d) && fits_members ms d)
unfolding fits
fits_if_there k shape ms d = refl

fits_patch :
    (d : Fields)
    → fits issue_patch_shape (obj d) ≡ (
        leb 1 (size d)
        && no_other patch_keys d
        && unless_missing (fits (sized 1 (some 256))) (lookup (text "title") d)
        && unless_missing (fits (sized 0 (some 65536))) (lookup (text "body") d)
        && unless_missing (fits (one_of states)) (lookup (text "state") d))
fits_patch d =
    rw (fits_closed, fits_if_there, fits_if_there, fits_if_there, fits_no_more) (ground arith)

fits_patch_other : (j : Json) → ((d : Fields) → j ≢ obj d) → fits issue_patch_shape j ≡ false
fits_patch_other j ne = fits_other 1 _ j ne

-- one of the keys is there
some_key :
    (d : Fields)
    → (leb 1 (size d) && no_other patch_keys d) ≡ true
    → (accepted (lookup (text "title") d)
        || accepted (lookup (text "body") d)
        || accepted (lookup (text "state") d))
      ≡ true
unfolding lookup
some_key end h = absurd (ground arith)
some_key (field k v d) h = ground arith

-- a field is read, and is there if its key is
abbrev IsRead : {A : Type 0} → Option (Option A) → Option Json → Type 0
IsRead {A} r o = (x : Option A) × (r ≡ some x) × (accepted x ≡ accepted o)

title-IsRead :
    (o : Option Json)
    → unless_missing (fits (sized 1 (some 256))) o ≡ true
    → blank (Python.or_null o) ≡ false
    → encodable (Python.or_null o) ≡ true
    → IsRead (Schemas.optional (clean_text 256) (Python.or_null o)) o
unfolding fits clean_text
title-IsRead none h b u = (none, refl, refl)
title-IsRead (some (str s)) h b u = (some (strip s), ground arith, refl)
title-IsRead (some _) h b u = absurd (cc)

body-IsRead :
    (o : Option Json)
    → unless_missing (fits (sized 0 (some 65536))) o ≡ true
    → encodable (Python.or_null o) ≡ true
    → IsRead (Schemas.optional (Schemas.at_most 65536) (Python.or_null o)) o
unfolding fits
body-IsRead none h u = (none, refl, refl)
body-IsRead (some (str s)) h u = (some s, ground arith, refl)
body-IsRead (some _) h u = absurd (cc)

state-IsRead :
    (o : Option Json)
    → unless_missing (fits (one_of states)) o ≡ true
    → IsRead (Schemas.optional parse_state (Python.or_null o)) o
unfolding fits parse_state
state-IsRead none h = (none, refl, refl)
state-IsRead (some (str s)) h = elim (Bool-cases (s == text "open")) [
  | inl is_open ↦ (some opened, ground arith, refl)
  | inr other ↦ (some closed, ground arith, refl)
]
state-IsRead (some _) h = absurd (cc)

some_field-accepted :
    (t b : Option Text) (s : Option IssueState)
    → (accepted t || accepted b || accepted s) ≡ true
    → accepted (some_field (record { title = t; body = b; state = s })) ≡ true
some_field-accepted (some t) b s h = refl
some_field-accepted none (some b) s h = refl
some_field-accepted none none (some s) h = refl
some_field-accepted none none none h = absurd (cc)

-- `PATCH /issues/{number}` accepts every body that fits `IssuePatch` of openapi.yaml and has no
-- title of white space alone, and no lone surrogate in title or body.
pub parse_patch-fits :
    (j : Json)
    → fits issue_patch_shape j ≡ true
    → blank (at (text "title") j) ≡ false
    → encodable (at (text "title") j) ≡ true
    → encodable (at (text "body") j) ≡ true
    → accepted (parse_patch j) ≡ true
unfolding parse_patch get
parse_patch-fits (obj d) h b titled bodied =
    let known : keys_within patch_keys d ≡ true =
      ground (arith, fits_patch d, keys_within-no_other patch_keys d) in
    let (t, title, there) =
      title-IsRead (lookup (text "title") d) (ground (arith, fits_patch d)) b titled in
    let (c, body, there') =
      body-IsRead (lookup (text "body") d) (ground (arith, fits_patch d)) bodied in
    let (s, state, there'') =
      state-IsRead (lookup (text "state") d) (ground (arith, fits_patch d)) in
    rw (known, title, body, state)
      (some_field-accepted t c s
        (rw (there, there', there'') (some_key d (ground (arith, fits_patch d)))))
parse_patch-fits j h b titled bodied = absurd (ground (arith, fits_patch_other j λ d e. cc))
