-- ===== src/Errors.antt =====
-- app/errors.py: the exception classes and the error envelope, and Python's exceptions as values.
use issues_api_testbed.Python.{Json, null, str, obj, field, end}
use issues_api_testbed.Prelude.{
  ℕ, ◌≡◌, refl, Bool, true, false, ◌⊎◌, inl, inr, Option, none, some, List, [], ◌∷◌, Text, text,
  ◌==◌, text_eq, if◌then◌else◌,
}

abbrev pub Headers : Type 0
Headers = List (Text × Text)

-- `headers[name] = value`
unfoldable pub set_header : Text → Text → Headers → Headers
set_header name value [] = (name, value) ∷ []
set_header name value ((n, v) ∷ rest) =
    if n == name then (name, value) ∷ rest else (n, v) ∷ set_header name value rest

pub data ErrorClass : Type 0 where
  app_error validation_error unauthorized_error forbidden_error : ErrorClass
  not_found_error rate_limited_error upstream_unavailable_error : ErrorClass

-- the class attribute `status_code`
abbrev pub class_status : ErrorClass → ℕ
class_status app_error = 500
class_status validation_error = 400
class_status unauthorized_error = 401
class_status forbidden_error = 403
class_status not_found_error = 404
class_status rate_limited_error = 429
class_status upstream_unavailable_error = 503

-- the class attribute `code`
abbrev pub class_code : ErrorClass → Text
class_code app_error = text "internal_error"
class_code validation_error = text "validation_error"
class_code unauthorized_error = text "unauthorized"
class_code forbidden_error = text "forbidden"
class_code not_found_error = text "not_found"
class_code rate_limited_error = text "rate_limited"
class_code upstream_unavailable_error = text "upstream_unavailable"

pub record AppError : Type 0 where
  pub status_code : ℕ
  pub code : Text
  pub message : Text
  pub details : Json
  pub headers : Headers

abbrev pub override {ℓ} : {A : Type ℓ} → Option A → A → A
override none a = a
override (some b) a = b

-- `AppError.__init__`
abbrev pub init : ErrorClass → Text → Option ℕ → Option Text → Json → Headers → AppError
init c message status_code code details headers = record {
  status_code = override status_code (class_status c);
  code = override code (class_code c);
  message = message;
  details = details;
  headers = headers;
}

-- `Class(message, details=details)`
abbrev pub error : ErrorClass → Text → Json → AppError
error c message details = init c message none none details []

-- Exceptions that no code of the service raises on purpose.
pub data Crash : Type 0 where
  type_error key_error attribute_error value_error overflow_error unicode_error : Crash
  runtime_error database_error model_error : Crash

pub data Exc : Type 0 where
  app : AppError → Exc
  crash : Crash → Exc

pub data Result {ℓ} (A : Type ℓ) : Type ℓ where
  ok : A → Result A
  raise : Exc → Result A

infixl 5 ◌>>=◌ ◌>>◌
abbrev pub ◌>>=◌ {ℓ κ} : {A : Type ℓ} {B : Type κ} → Result A → (A → Result B) → Result B
ok a >>= f = f a
raise e >>= f = raise e

abbrev pub ◌>>◌ {ℓ} : {B : Type ℓ} → Result (Unit {0}) → Result B → Result B
m >> k = m >>= λ _. k

-- a step that fails with a Python exception where an operation has no value
abbrev pub or_crash {ℓ} : {A : Type ℓ} → Crash → Option A → Result A
or_crash c none = raise (crash c)
or_crash c (some a) = ok a

pub Result-cases {ℓ} :
    {A : Type ℓ} (r : Result A) → ((e : Exc) × (r ≡ raise e)) ⊎ ((a : A) × (r ≡ ok a))
Result-cases (ok a) = inr (a, refl)
Result-cases (raise e) = inl (e, refl)

-- no exception of the service's own classes
unfoldable pub only_crashes {ℓ} : {A : Type ℓ} → Result A → Bool
only_crashes (raise (app e)) = false
only_crashes _ = true

pub only_crashes-bind {ℓ κ} :
    {A : Type ℓ} {B : Type κ} (x : Result A) (f : A → Result B)
    → only_crashes x ≡ true
    → ((a : A) → only_crashes (f a) ≡ true)
    → only_crashes (x >>= f) ≡ true
unfolding only_crashes
only_crashes-bind (ok a) f h k = k a
only_crashes-bind (raise (crash c)) f h k = refl
only_crashes-bind (raise (app e)) f h k = h

abbrev pub opt_str : Option Text → Json
opt_str none = null
opt_str (some s) = str s

-- `{"reason": reason}`
abbrev pub reason : Text → Json
reason why = obj (field (text "reason") (str why) end)

unfoldable pub error_body : Text → Text → Json → Option Text → Json
error_body code message details request_id = obj (
    field (text "error")
      (obj (
        field (text "code") (str code) (
          field (text "message") (str message)
            (field (text "details") details (field (text "request_id") (opt_str request_id) end)))))
      end)
