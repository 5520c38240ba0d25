-- ===== src/Tests/Bodies.antt =====
-- Request bodies, and headers written and read.
use issues_api_testbed.Prelude.{
  List, is_empty, subst, sym, inl, inr, true, false, not, ◌&&◌, ◌≡◌, refl, none, some, [], ◌∷◌,
  ◌++◌, arith, Text, text, text_beq,
}
use issues_api_testbed.Python.{null, Json, str, obj, field, end, get, lookup}
use issues_api_testbed.Python.Str.{strip, is_unicode}
use issues_api_testbed.Errors.{ok}
use issues_api_testbed.Contract.Shapes.{fits}
use issues_api_testbed.Contract.Schemas.{
  issue_create_shape, issue_patch_shape, comment_create_shape,
}
use issues_api_testbed.Contract.Fields.{accepted, blank, blank_label, encodable, at}
use issues_api_testbed.Contract.Accepted.{parse_create-fits, parse_comment-fits}
use issues_api_testbed.Contract.Patched.{parse_patch-fits}
use issues_api_testbed.Schemas.{
  parse_state, IssueCreate, IssuePatch, opened, clean_text, keys_within, parse_create, dump_create,
  parse_patch, parse_comment, to_github_payload,
}
use issues_api_testbed.Schemas.Patches.{parse_patch-to_github_payload}
use issues_api_testbed.Schemas.Validation.{parse_create-dump_create}
use issues_api_testbed.Pagination.{parse_link_header, render_all, join, Urls, rewrite_link_header}
use issues_api_testbed.Python.Str.{is_space}
use issues_api_testbed.Pagination.Segments.{All}
use issues_api_testbed.Pagination.Forwarded.{
  IsUrlencode, visible, retargeted, none_left, rewrite_link_header-Retargets,
}
use issues_api_testbed.Pagination.Segments.{IsLink}
use issues_api_testbed.Pagination.Targets.{Given, given_here, Given-first_value, PointsTo}

abbrev body_json : Json
body_json = obj (field (text "title") (str (text " bug ")) end)

abbrev bug : IssueCreate
bug = record { title = text "bug"; body = none; labels = none }

parsed : parse_create body_json ≡ some bug
unfolding parse_create clean_text is_unicode keys_within get lookup strip text text_beq
parsed = refl

parse_create-dump_create_example : parse_create (dump_create bug) ≡ some bug
parse_create-dump_create_example = parse_create-dump_create body_json parsed

abbrev reopen : IssuePatch
reopen = record { title = none; body = none; state = some opened }

abbrev patch_json : Json
patch_json = obj (field (text "state") (str (text "open")) end)

patch_parsed : parse_patch patch_json ≡ some reopen
unfolding parse_patch keys_within get lookup text text_beq
patch_parsed = refl

parse_create-fits_example : accepted (parse_create body_json) ≡ (
    fits issue_create_shape body_json
    && not (blank (at (text "title") body_json))
    && not (blank_label (at (text "labels") body_json))
    && encodable (at (text "title") body_json)
    && encodable (at (text "body") body_json))
parse_create-fits_example = parse_create-fits body_json

patch_fits : fits issue_patch_shape patch_json ≡ true
unfolding fits lookup text text_beq
patch_fits = refl

patch_titled : blank (at (text "title") patch_json) ≡ false
unfolding get lookup text text_beq
patch_titled = refl

parse_patch-fits_example : accepted (parse_patch patch_json) ≡ true
unfolding get lookup text text_beq
parse_patch-fits_example = parse_patch-fits patch_json patch_fits patch_titled refl refl

parse_patch-to_github_payload_example : parse_patch (to_github_payload reopen) ≡ some reopen
parse_patch-to_github_payload_example = parse_patch-to_github_payload patch_json patch_parsed

abbrev comment_json : Json
comment_json = obj (field (text "body") (str (text "me too")) end)

parse_comment-fits_example : accepted (parse_comment comment_json) ≡ (
    fits comment_create_shape comment_json
    && not (blank (at (text "body") comment_json))
    && encodable (at (text "body") comment_json))
parse_comment-fits_example = parse_comment-fits comment_json

-- `null` is taken for a field that is missing, which the contract does not have
abbrev null_title : Json
null_title = obj (field (text "title") null (field (text "state") (str (text "open")) end))

null_title-accepted :
    (fits issue_patch_shape null_title ≡ false) × (accepted (parse_patch null_title) ≡ true)
unfolding fits parse_patch parse_state keys_within get lookup text text_beq
null_title-accepted = (refl, refl)

abbrev next : Text × Text
next = (text "next", text "/issues?page=2,3")

next-IsLink : IsLink next
unfolding strip text
next-IsLink = ground arith

abbrev last : Text × Text
last = (text "last", text "/issues?page=5")

last-IsLink : IsLink last
unfolding strip text
last-IsLink = ground arith

-- every query asks for the second page
abbrev second_page : Urls
second_page = record {
  query = λ url. some ((text "page", text "2" ∷ []) ∷ []);
  urlencode = λ q. text "page=2";
}

second_page-IsUrlencode : IsUrlencode second_page
unfolding text is_space
second_page-IsUrlencode = record {
  all_visible = λ q. (refl, (refl, (refl, (refl, (refl, (refl, tt))))));
}

abbrev base : Text
base = text "/issues"

base_visible : All visible base
unfolding text is_space
base_visible = (refl, (refl, (refl, (refl, (refl, (refl, (refl, tt)))))))

abbrev here : Text
here = base ++ b'?' ∷ text "page=2"

abbrev only_page : List (Text × List Text)
only_page = (text "page", text "2" ∷ []) ∷ []

no_size : ¬ ((v : Text) × Given (text "per_page") only_page v)
unfolding text text_beq
no_size (v, g) =
    let (first, full) = Given-first_value g in
    let here : is_empty [] ≡ false = subst (λ x. is_empty x ≡ false) (sym first) full in absurd (cc)

points_here : PointsTo second_page base only_page here
unfolding text text_beq
points_here = (
  (text "page", text "2") ∷ [],
  [],
  inl (text "2", given_here refl, refl),
  inr (no_size, refl),
  refl,
)

rewrite_link_header-Retargets_example :
    (header : Text) × (rewrite_link_header second_page
        (some (join (render_all (next ∷ last ∷ []))))
        base
      ≡ ok (some header))
    × (parse_link_header (some header) ≡ ok ((text "next", here) ∷ (text "last", here) ∷ []))
unfolding text text_beq
rewrite_link_header-Retargets_example =
    rewrite_link_header-Retargets second_page base second_page-IsUrlencode base_visible refl next
      (text "next", here) (last ∷ []) ((text "last", here) ∷ []) (next-IsLink, (last-IsLink, tt))
      (refl, (refl, tt)) (retargeted refl points_here (retargeted refl points_here none_left))
