-- ===== src/Contract/Schemas.antt =====
-- `components/schemas` of the contract, and the body of `healthz`: types, required properties,
-- enumerations and bounds. A `format`, which JSON Schema takes for an annotation, is left out.
use issues_api_testbed.Prelude.{none, some, Bool, List, [], ◌∷◌, Text, text}
use issues_api_testbed.Contract.Shapes.{
  sized, max_items, closed_object_of, Shape, anything, words, whole, at_least, one_of, or_null,
  list_of, object_of, no_more, required, optional, among,
}

abbrev pub issue_shape : Shape
issue_shape = object_of (
    required (text "number") (at_least 1) (
      required (text "title") words (
        optional (text "body") (or_null words) (
          required (text "state") words (
            required (text "labels") (list_of words) (
              required (text "html_url") words (
                optional (text "user") (or_null words) (
                  required (text "comments") (at_least 0) (
                    required (text "created_at") words (
                      required (text "updated_at") words
                        (optional (text "closed_at") (or_null words) no_more)))))))))))

abbrev pub comment_shape : Shape
comment_shape = object_of (
    required (text "id") whole (
      required (text "body") words (
        optional (text "user") (or_null words) (
          required (text "html_url") words (
            required (text "created_at") words (
              optional (text "updated_at") (or_null words)
                (optional (text "issue_number") (or_null whole) no_more)))))))

abbrev pub event_names : List Text
event_names = text "issues" ∷ text "issue_comment" ∷ text "ping" ∷ []

abbrev pub event_shape : Shape
event_shape = object_of (
    required (text "id") words (
      required (text "event") (one_of event_names) (
        optional (text "action") (or_null words) (
          optional (text "issue_number") (or_null whole)
            (required (text "timestamp") words no_more)))))

abbrev pub error_codes : List Text
error_codes =
    text "validation_error"
    ∷ text "unauthorized"
    ∷ text "forbidden"
    ∷ text "not_found"
    ∷ text "method_not_allowed"
    ∷ text "rate_limited"
    ∷ text "upstream_error"
    ∷ text "upstream_unavailable"
    ∷ text "internal_error"
    ∷ text "http_error"
    ∷ []

-- the enumeration of `ErrorDetail.code`
unfoldable pub is_code : Text → Bool
is_code code = among code error_codes

abbrev pub error_shape : Shape
error_shape = object_of (
    required (text "error")
      (object_of (
        required (text "code") (one_of error_codes) (
          required (text "message") words (
            optional (text "details") anything
              (optional (text "request_id") (or_null words) no_more)))))
      no_more)

abbrev pub health_shape : Shape
health_shape = object_of (
    required (text "status") (one_of (text "ok" ∷ []))
      (required (text "version") words (required (text "repo") words no_more)))

-- the request bodies
abbrev pub issue_create_shape : Shape
issue_create_shape = closed_object_of 0 (
    required (text "title") (sized 1 (some 256)) (
      optional (text "body") (or_null (sized 0 (some 65536)))
        (optional (text "labels") (or_null (max_items 100 (sized 1 none))) no_more)))

abbrev pub issue_patch_shape : Shape
issue_patch_shape = closed_object_of 1 (
    optional (text "title") (sized 1 (some 256)) (
      optional (text "body") (sized 0 (some 65536))
        (optional (text "state") (one_of (text "open" ∷ text "closed" ∷ [])) no_more)))

abbrev pub comment_create_shape : Shape
comment_create_shape = closed_object_of 0 (required (text "body") (sized 1 (some 65536)) no_more)
