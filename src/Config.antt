-- ===== src/Config.antt =====
-- app/config.py: the values that `Settings` derives.
pub mod Settings
pub mod Once
use issues_api_testbed.Prelude.{
  ◌≡◌, ◌↔◌, refl, arith, Text, text, true, [], ◌∷◌, ◌++◌, drop, length, if◌then◌else◌, nat_eq,
  text_eq, eq_of_==,
}
use issues_api_testbed.Python.Str.{starts_with}
use issues_api_testbed.Errors.{Result, ok, raise, crash, value_error}

abbrev pub sqlite_prefix : Text
sqlite_prefix = text "sqlite:///"

-- `repo_slug`
abbrev pub repo_slug : Text → Text → Text
repo_slug github_owner github_repo = github_owner ++ text "/" ++ github_repo

-- `sqlite_path`
unfoldable pub sqlite_path : Text → Result Text
sqlite_path database_url =
    if starts_with database_url sqlite_prefix
    then ok (drop (length sqlite_prefix) database_url)
    else raise (crash value_error)

starts_with-append : (p s : Text) → starts_with (p ++ s) p ≡ true
unfolding starts_with
starts_with-append [] s = refl
starts_with-append (c ∷ p) s = ground (arith, starts_with-append p s)

drop-append : (p s : Text) → drop (length p) (p ++ s) ≡ s
drop-append [] s = refl
drop-append (c ∷ p) s = drop-append p s

append-drop : (p s : Text) → starts_with s p ≡ true → p ++ drop (length p) s ≡ s
unfolding starts_with
append-drop [] s h = refl
append-drop (c ∷ p) [] h = absurd (ground arith)
append-drop (c ∷ p) (d ∷ s) h = ground (arith, append-drop p s, eq_of_== c d)

-- The path of the store is what stands behind `sqlite:///` in the database URL, and a URL of any
-- other form has none.
pub sqlite_path_iff :
    (database_url path : Text)
    → (sqlite_path database_url ≡ ok path) ↔ (database_url ≡ sqlite_prefix ++ path)
unfolding sqlite_path
sqlite_path_iff database_url path = (
  λ h. ground (arith, append-drop sqlite_prefix database_url),
  λ e.
      rw (e, starts_with-append sqlite_prefix path, drop-append sqlite_prefix path, sqlite_path)
        refl,
)
