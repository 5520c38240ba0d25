-- ===== src/Contract/Fits.antt =====
-- The response models and the error envelope fit the schemas of the contract.
use issues_api_testbed.Prelude.{
  All, ◌≡◌, refl, true, Option, List, [], ◌∷◌, map, arith, Text, text, text_beq,
}
use issues_api_testbed.Python.{Json, arr, lookup, to_items}
use issues_api_testbed.Errors.{
  error_body, ErrorClass, class_code, app_error, validation_error, unauthorized_error,
  forbidden_error, not_found_error, rate_limited_error, upstream_unavailable_error,
}
use issues_api_testbed.Schemas.{Issue, Comment}
use issues_api_testbed.Http.{EventRecord}
use issues_api_testbed.Http.Bodies.{dump_issue, dump_comment, dump_event, texts}
use issues_api_testbed.Contract.Schemas.{
  issue_shape, comment_shape, event_shape, error_shape, is_code,
}
use issues_api_testbed.Webhooks.{is_supported}
use issues_api_testbed.Routes.Webhooks.Supported.{IsListed}
use issues_api_testbed.Contract.Shapes.{Shape, words, list_of, fits, loosened}

texts-fits : (ss : List Text) → fits (list_of words) (texts ss) ≡ true
unfolding fits
texts-fits [] = refl
texts-fits (s ∷ ss) = texts-fits ss

pub dump_issue-fits : (i : Issue) → fits (loosened issue_shape) (dump_issue i) ≡ true
unfolding fits dump_issue lookup text text_beq
dump_issue-fits i = ground (arith, texts-fits i.labels)

pub dump_comment-fits : (c : Comment) → fits (loosened comment_shape) (dump_comment c) ≡ true
unfolding fits dump_comment lookup text text_beq
dump_comment-fits c = ground arith

pub dump_event-fits :
    (e : EventRecord)
    → is_supported e.event ≡ true
    → fits (loosened event_shape) (dump_event e) ≡ true
unfolding fits dump_event is_supported lookup text text_beq
dump_event-fits e h = ground arith

pub event_list-fits :
    (es : List EventRecord)
    → All IsListed es
    → fits (loosened (list_of event_shape)) (arr (to_items (map dump_event es))) ≡ true
unfolding fits
event_list-fits [] h = refl
event_list-fits (e ∷ es) h = rw (dump_event-fits e h.0) (event_list-fits es h.1)

pub error_body-fits :
    (code message : Text) (details : Json) (id : Option Text)
    → is_code code ≡ true
    → fits error_shape (error_body code message details id) ≡ true
unfolding is_code fits error_body lookup text text_beq
error_body-fits code message details id h = ground arith

pub list-fits :
    {A : Type 0} (shape : Shape) (dump : A → Json)
    → ((a : A) → fits shape (dump a) ≡ true)
    → (xs : List A) → fits (list_of shape) (arr (to_items (map dump xs))) ≡ true
unfolding fits
list-fits shape dump h [] = refl
list-fits shape dump h (x ∷ xs) = rw (h x) (list-fits shape dump h xs)

pub class_code-is_code : (c : ErrorClass) → is_code (class_code c) ≡ true
unfolding is_code text text_beq
class_code-is_code app_error = refl
class_code-is_code validation_error = refl
class_code-is_code unauthorized_error = refl
class_code-is_code forbidden_error = refl
class_code-is_code not_found_error = refl
class_code-is_code rate_limited_error = refl
class_code-is_code upstream_unavailable_error = refl

pub upstream_error-is_code : is_code (text "upstream_error") ≡ true
unfolding is_code text text_beq
upstream_error-is_code = refl

pub internal_error-is_code : is_code (text "internal_error") ≡ true
unfolding is_code text text_beq
internal_error-is_code = refl
