-- ===== src/Python.antt =====
-- The Python values that the service handles without a model of their own: decoded JSON, with the
-- operations of `dict`, `isinstance` and `bool()` that app/ applies to it. `null` is `None`.
pub mod Str
use issues_api_testbed.Prelude.Int.{ℤ, pos, is_nonzero}
use issues_api_testbed.Prelude.{
  ℕ, Bool, true, false, not, Option, none, some, List, [], ◌∷◌, Text, is_empty, ◌==◌, text_eq,
  if◌then◌else◌,
}

-- A float is what it prints as, and whether it is nonzero.
pub record Real : Type 0 where
  pub repr : Text
  pub nonzero : Bool

mutual
  pub data Json : Type 0 where
    null : Json
    bool : Bool → Json
    int : ℤ → Json
    real : Real → Json
    str : Text → Json
    arr : Items → Json
    obj : Fields → Json

  pub data Items : Type 0 where
    nil : Items
    cons : Json → Items → Items

  pub data Fields : Type 0 where
    end : Fields
    field : Text → Json → Fields → Fields

abbrev pub num : ℕ → Json
num n = int (pos n)

abbrev pub to_list : Items → List Json
to_list nil = []
to_list (cons x xs) = x ∷ to_list xs

abbrev pub to_items : List Json → Items
to_items [] = nil
to_items (x ∷ xs) = cons x (to_items xs)

-- `d.get(key)` where the absence of the key matters
unfoldable pub lookup : Text → Fields → Option Json
lookup key end = none
lookup key (field k v d) = if k == key then some v else lookup key d

abbrev pub or_null : Option Json → Json
or_null none = null
or_null (some v) = v

-- `d.get(key)`
unfoldable pub get : Text → Fields → Json
get key d = or_null (lookup key d)

-- `bool(value)`
unfoldable pub truthy : Json → Bool
truthy null = false
truthy (bool b) = b
truthy (int i) = is_nonzero i
truthy (real r) = r.nonzero
truthy (str s) = not (is_empty s)
truthy (arr nil) = false
truthy (arr (cons _ _)) = true
truthy (obj end) = false
truthy (obj (field _ _ _)) = true

-- `value if isinstance(value, str) else None`, and so on
unfoldable pub as_str : Json → Option Text
as_str (str s) = some s
as_str _ = none

unfoldable pub as_dict : Json → Option Fields
as_dict (obj d) = some d
as_dict _ = none

-- What is an instance of `int`: a Python `bool` is one too.
pub data Integer : Type 0 where
  exact : ℤ → Integer
  truth : Bool → Integer

unfoldable pub as_int : Json → Option Integer
as_int (int i) = some (exact i)
as_int (bool b) = some (truth b)
as_int _ = none

-- its number, and its JSON
abbrev pub integer_value : Integer → ℤ
integer_value (exact i) = i
integer_value (truth b) = pos (if b then 1 else 0)

abbrev pub integer_json : Integer → Json
integer_json (exact i) = int i
integer_json (truth b) = bool b

-- `d | {key: value}` for a key that `d` does not have
unfoldable pub append_field : Text → Json → Fields → Fields
append_field key v end = field key v end
append_field key v (field k w d) = field k w (append_field key v d)
