-- ===== src/Contract/Accepted.antt =====
-- The request bodies that the service accepts, and those that the contract has.
use issues_api_testbed.Prelude.{
  ℕ, ◌≡◌, ◌≢◌, refl, true, false, not, ◌&&◌, Option, none, some, [], ◌∷◌, arith, Text, text, leb,
  nat_eq, text_eq, Option-cases, Bool-cases, inl, inr,
}
use issues_api_testbed.Python.{Json, obj, Fields, lookup, get}
use issues_api_testbed.Schemas
use issues_api_testbed.Schemas.{
  ◌>>=◌, IssueCreate, CommentCreate, any_eq, keys_within, texts, cleaned, clean_text, clean_labels,
  labels_field, parse_create, parse_patch, parse_comment,
}
use issues_api_testbed.Contract.Shapes.{
  Shape, Members, names, size, no_more, closed_object_of, required, optional, sized, max_items,
  or_null, no_other, fits, fits_members,
}
use issues_api_testbed.Contract.Schemas.{issue_create_shape, comment_create_shape}
use issues_api_testbed.Contract.Fields.{
  accepted, blank, blank_label, encodable, at, required_text, optional_text, labels,
  keys_within-no_other,
}

-- what the contract asks of an object, key by key
pub fits_closed :
    (n : ℕ) (ms : Members) (d : Fields)
    → fits (closed_object_of n ms) (obj d)
      ≡ (leb n (size d) && no_other (names ms) d && fits_members ms d)
unfolding fits
fits_closed n ms d = refl

fits-required :
    (k : Text) (lo m : ℕ) (ms : Members) (d : Fields)
    → fits_members (required k (sized lo (some m)) ms) d
      ≡ (fits (sized lo (some m)) (get k d) && fits_members ms d)
unfolding fits get
fits-required k lo m ms d = elim (Option-cases (lookup k d)) [
  | inl missing ↦ rw missing refl
  | inr (v, there) ↦ rw there refl
]

fits-optional :
    (k : Text) (shape : Shape) (ms : Members) (d : Fields)
    → fits_members (optional k (or_null shape) ms) d
      ≡ (fits (or_null shape) (get k d) && fits_members ms d)
unfolding fits get
fits-optional k shape ms d = elim (Option-cases (lookup k d)) [
  | inl missing ↦ rw missing refl
  | inr (v, there) ↦ rw there refl
]

pub fits_other :
    (n : ℕ) (ms : Members) (j : Json)
    → ((d : Fields) → j ≢ obj d)
    → fits (closed_object_of n ms) j ≡ false
unfolding fits
fits_other n ms (obj d) ne = absurd (ne d refl)
fits_other n ms _ ne = refl

pub fits_no_more : (d : Fields) → fits_members no_more d ≡ true
unfolding fits
fits_no_more d = refl

fits_create :
    (d : Fields)
    → fits issue_create_shape (obj d) ≡ (
        no_other (text "title" ∷ text "body" ∷ text "labels" ∷ []) d
        && fits (sized 1 (some 256)) (get (text "title") d)
        && fits (or_null (sized 0 (some 65536))) (get (text "body") d)
        && fits (or_null (max_items 100 (sized 1 none))) (get (text "labels") d))
fits_create d =
    rw (fits_closed, fits-required, fits-optional, fits-optional, fits_no_more) (ground arith)

fits_comment :
    (d : Fields)
    → fits comment_create_shape (obj d)
      ≡ (no_other (text "body" ∷ []) d && fits (sized 1 (some 65536)) (get (text "body") d))
fits_comment d = rw (fits_closed, fits-required, fits_no_more) (ground arith)

-- three fields, one after the other
accepted_all :
    {A B C D : Type 0} (x : Option A) (y : Option B) (z : Option C) (f : A → B → C → D)
    → accepted (x >>= λ a. y >>= λ b. z >>= λ c. some (f a b c))
      ≡ (accepted x && accepted y && accepted z)
accepted_all none y z f = refl
accepted_all (some a) none z f = refl
accepted_all (some a) (some b) none f = refl
accepted_all (some a) (some b) (some c) f = refl

-- `POST /issues` accepts the bodies that fit `IssueCreate` of openapi.yaml and have neither a title
-- nor a label of white space alone, and no lone surrogate in title or body, and no others.
pub parse_create-fits :
    (j : Json)
    → accepted (parse_create j) ≡ (
        fits issue_create_shape j
        && not (blank (at (text "title") j))
        && not (blank_label (at (text "labels") j))
        && encodable (at (text "title") j)
        && encodable (at (text "body") j))
unfolding parse_create
parse_create-fits (obj d) =
    elim (Bool-cases (keys_within (text "title" ∷ text "body" ∷ text "labels" ∷ []) d)) [
      | inl known ↦ ground (
        arith,
        fits_create d,
        keys_within-no_other (text "title" ∷ text "body" ∷ text "labels" ∷ []) d,
        accepted_all {D = IssueCreate} (Schemas.required (clean_text 256) (get (text "title") d))
            (Schemas.optional (Schemas.at_most 65536) (get (text "body") d))
            (labels_field (get (text "labels") d))
            (λ t b l. record { title = t; body = b; labels = l }),
        required_text 256 (get (text "title") d),
        optional_text 65536 (get (text "body") d),
        labels (get (text "labels") d),
      )
      | inr other ↦ ground (
        arith,
        fits_create d,
        keys_within-no_other (text "title" ∷ text "body" ∷ text "labels" ∷ []) d,
      )
    ]
parse_create-fits j = rw (fits_other 0 _ j λ d e. cc) refl

-- `POST /issues/{number}/comments` accepts the bodies that fit `CommentCreate` of openapi.yaml and
-- are not of white space alone and have no lone surrogate, and no others.
pub parse_comment-fits :
    (j : Json)
    → accepted (parse_comment j) ≡ (
        fits comment_create_shape j
        && not (blank (at (text "body") j))
        && encodable (at (text "body") j))
unfolding parse_comment
parse_comment-fits (obj d) = ground (
  arith,
  fits_comment d,
  keys_within-no_other (text "body" ∷ []) d,
  required_text 65536 (get (text "body") d),
)
parse_comment-fits j = rw (fits_other 0 _ j λ d e. cc) refl
