-- ===== src/App/OpenApi/Defs.antt =====
-- The loops over the schema, which is a dict that they change in place. `get_openapi` is FastAPI's,
-- and the schema that it makes an argument.
use issues_api_testbed.Prelude.{Option, none, some, Text, text, ◌==◌, text_eq, if◌then◌else◌}
use issues_api_testbed.Python.{Json, obj, arr, Fields, end, field, lookup}
use issues_api_testbed.Errors.{Result, ok, raise, crash, type_error, attribute_error, ◌>>=◌}

-- `d.pop(key, None)`
unfoldable pub remove_key : Text → Fields → Fields
remove_key key end = end
remove_key key (field k v d) =
    let rest = remove_key key d in if k == key then rest else field k v rest

-- `d` with another value at a key that it has
unfoldable pub replace : Text → Json → Fields → Fields
replace key w end = end
replace key w (field k v d) =
    let rest = replace key w d in if k == key then field k w d else field k v rest

-- `responses.pop("422", None)`, where a list has a `pop` of its own
unfoldable pub without_422 : Json → Result Json
without_422 (obj d) = ok (obj (remove_key (text "422") d))
without_422 (arr xs) = raise (crash type_error)
without_422 _ = raise (crash attribute_error)

-- `if isinstance(operation, dict): operation.get("responses", {}).pop("422", None)`
unfoldable pub clean_operation : Json → Result Json
clean_operation (obj d) = elim (lookup (text "responses") d) [
  | none ↦ ok (obj d)
  | some responses ↦ (do left ← without_422 responses; ok (obj (replace (text "responses") left d)))
]
clean_operation v = ok v

-- `for operation in operations.values()`
unfoldable pub clean_operations : Fields → Result Fields
clean_operations end = ok end
clean_operations (field method operation rest) = do
  cleaned ← clean_operation operation
  others ← clean_operations rest
  ok (field method cleaned others)

unfoldable pub clean_path : Json → Result Json
clean_path (obj operations) = do cleaned ← clean_operations operations; ok (obj cleaned)
clean_path _ = raise (crash attribute_error)

-- `for operations in paths.values()`
unfoldable pub clean_paths : Fields → Result Fields
clean_paths end = ok end
clean_paths (field path operations rest) = do
  cleaned ← clean_path operations
  others ← clean_paths rest
  ok (field path cleaned others)

-- `schema.get("paths", {}).values()`, and the loops
unfoldable pub clean_schema : Fields → Result Fields
clean_schema schema = elim (lookup (text "paths") schema) [
  | none ↦ ok schema
  | some (obj paths) ↦ (do
    cleaned ← clean_paths paths
    ok (replace (text "paths") (obj cleaned) schema))
  | some _ ↦ raise (crash attribute_error)
]

-- what is kept in `app.openapi_schema`
abbrev pub kept : Result Fields → Option Fields → Option Fields
kept (ok schema) before = some schema
kept (raise e) before = before

-- `_schema_without_auto_422`, with `app.openapi_schema` and the schema that `get_openapi` makes
unfoldable pub openapi : Fields → Option Fields → Result Fields × Option Fields
openapi generated (some (field k v d)) = (ok (field k v d), some (field k v d))
openapi generated openapi_schema =
    (clean_schema generated, kept (clean_schema generated) openapi_schema)
