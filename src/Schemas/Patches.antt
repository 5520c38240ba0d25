-- ===== src/Schemas/Patches.antt =====
-- `IssuePatch` and `CommentCreate`: what an accepted body is, and its way through to GitHub.
use issues_api_testbed.Prelude.{
  ◌≡◌, ◌≢◌, ◌⊎◌, refl, Option, none, some, arith, Text, text, text_beq,
}
use issues_api_testbed.Python.{Json, obj, lookup, get}
use issues_api_testbed.Schemas.Requests.{
  IssueState, opened, closed, IssuePatch, CommentCreate, keys_within, some_field, parse_patch,
  to_github_payload, parse_comment,
}
use issues_api_testbed.Schemas.Validation.{
  IsClean, IsBounded, OptionAll, clean_text_lem, required-IsClean, optional-IsClean,
  optional-at_most,
}

pub record IsValidPatch (p : IssuePatch) : Type 0 where
  pub title : OptionAll (IsClean 256) p.title
  pub body : OptionAll (IsBounded 65536) p.body
  pub present : (p.title ≢ none) ⊎ (p.body ≢ none) ⊎ (p.state ≢ none)

some_field-present :
    (p q : IssuePatch)
    → some_field p ≡ some q
    → (p ≡ q) × ((p.title ≢ none) ⊎ (p.body ≢ none) ⊎ (p.state ≢ none))
some_field-present p q h = ground arith

-- An accepted `PATCH /issues/{number}` body has at least one of its three fields; a title is 1 to
-- 256 characters with no blank at either end, and a body at most 65536 characters.
parse_patch-IsValidPatch : (j : Json) {p : IssuePatch} → parse_patch j ≡ some p → IsValidPatch p
unfolding parse_patch
parse_patch-IsValidPatch (obj d) {p} h = record {
  title = optional-IsClean 256 (get (text "title") d) p.title (ground arith);
  body = optional-at_most 65536 (get (text "body") d) p.body (ground arith);
  present = ground arith;
}
parse_patch-IsValidPatch _ h = absurd (cc)

patch_parts :
    (t b : Option Text) (s : Option IssueState)
    → IsValidPatch (record { title = t; body = b; state = s })
    → parse_patch (to_github_payload (record { title = t; body = b; state = s }))
      ≡ some (record { title = t; body = b; state = s })
unfolding parse_patch to_github_payload keys_within text text_beq get lookup
patch_parts none none none v = absurd (ground arith)
patch_parts none none (some opened) v = refl
patch_parts none none (some closed) v = refl
patch_parts none (some b) none v = ground arith
patch_parts none (some b) (some opened) v = ground arith
patch_parts none (some b) (some closed) v = ground arith
patch_parts (some t) none none v = rw (clean_text_lem 256 t v.title)
patch_parts (some t) none (some opened) v = rw (clean_text_lem 256 t v.title)
patch_parts (some t) none (some closed) v = rw (clean_text_lem 256 t v.title)
patch_parts (some t) (some b) none v = rw (clean_text_lem 256 t v.title) (ground arith)
patch_parts (some t) (some b) (some opened) v = rw (clean_text_lem 256 t v.title) (ground arith)
patch_parts (some t) (some b) (some closed) v = rw (clean_text_lem 256 t v.title) (ground arith)

to_github_payload_lem :
    (p : IssuePatch) → IsValidPatch p → parse_patch (to_github_payload p) ≡ some p
to_github_payload_lem p v = patch_parts p.title p.body p.state v

-- What is sent to GitHub for an accepted patch is accepted again as the same patch.
pub parse_patch-to_github_payload :
    (j : Json) {p : IssuePatch}
    → parse_patch j ≡ some p
    → parse_patch (to_github_payload p) ≡ some p
parse_patch-to_github_payload j {p} h = to_github_payload_lem p (parse_patch-IsValidPatch j h)

-- An accepted comment is 1 to 65536 characters with no blank at either end.
parse_comment-IsClean :
    (j : Json) {p : CommentCreate} → parse_comment j ≡ some p → IsClean 65536 p.body
unfolding parse_comment
parse_comment-IsClean (obj d) {p} h = required-IsClean 65536 (get (text "body") d) (ground arith)
parse_comment-IsClean _ h = absurd (cc)
