-- ===== src/Tests/Described.antt =====
-- The OpenAPI description of one route.
use issues_api_testbed.Prelude.{◌≡◌, refl, inr, none, some, text, text_beq}
use issues_api_testbed.Python.{str, obj, Fields, end, field, lookup}
use issues_api_testbed.Errors.{ok}
use issues_api_testbed.App.OpenApi.{
  remove_key, replace, without_422, clean_operation, clean_operations, clean_path, clean_paths,
  clean_schema, openapi,
}
use issues_api_testbed.App.OpenApi.Stripped.{
  AllValues, IsPath, SameElsewhere, Pointwise, CleanedPath, openapi_lem,
}

abbrev responses : Fields
responses =
    field (text "200") (str (text "ok")) (field (text "422") (str (text "Validation Error")) end)

abbrev paths : Fields
paths =
    field (text "/issues")
      (obj (field (text "post") (obj (field (text "responses") (obj responses) end)) end)) end

abbrev schema : Fields
schema = field (text "info") (str (text "v")) (field (text "paths") (obj paths) end)

paths_there : lookup (text "paths") schema ≡ some (obj paths)
unfolding lookup text text_beq
paths_there = refl

paths_shaped : AllValues IsPath paths
unfolding lookup text text_beq
paths_shaped = ((inr (responses, refl), tt), tt)

-- 422 is gone, and 200 is not
described :
    (openapi schema none).0
    ≡ ok (
        field (text "info") (str (text "v")) (
          field
            (text "paths")
            (obj (
              field
                (text "/issues")
                (obj (
                  field
                    (text "post")
                    (obj (
                      field
                        (text "responses")
                        (obj (field (text "200") (str (text "ok")) end))
                        end))
                    end))
                end))
            end))
unfolding openapi clean_schema clean_paths clean_path clean_operations clean_operation without_422
    remove_key replace lookup text text_beq
described = refl

openapi_lem_example :
    (out : Fields) × (openapi schema none ≡ (ok out, some out))
    × SameElsewhere (text "paths") schema out
    × (paths' : Fields) × (lookup (text "paths") out ≡ some (obj paths'))
    × Pointwise CleanedPath paths paths'
    × (openapi end (some out) ≡ (ok out, some out))
openapi_lem_example =
    openapi_lem (text "info") (str (text "v")) (field (text "paths") (obj paths) end) paths end
      paths_there paths_shaped
