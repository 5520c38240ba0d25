-- ===== src/Config/Once.antt =====
-- What calls of `get_settings` return in one process.
use issues_api_testbed.Prelude.{
  ◌≡◌, ◌⊎◌, inl, inr, refl, Option, Option-cases, none, some, List, [], ◌∷◌, All, Text,
}
use issues_api_testbed.Config.Settings.{
  Given, Settings, validate, get_settings, IsValidSettings, validate-IsValidSettings,
}

-- calls in a row, each with the environment that it finds
unfoldable pub calls : (Text → Text) → List Given → Option Settings → List (Option Settings)
unfolding get_settings
calls upper [] kept = []
calls upper (environment ∷ later) kept =
    let (answer, kept') = get_settings upper environment kept in answer ∷ calls upper later kept'

calls-kept :
    (upper : Text → Text) (gs : List Given) (s : Settings)
    → All (λ o. (o ≡ none) ⊎ (o ≡ some s)) (calls upper gs (some s))
unfolding calls
calls-kept upper [] s = tt
calls-kept upper (g ∷ gs) s = (inr refl, calls-kept upper gs s)

-- However often `get_settings` is called, and whatever becomes of the environment, the calls that
-- return give one and the same settings, and these are within the bounds.
pub get_settings_once :
    (upper : Text → Text) (environments : List Given)
    → All (λ o. o ≡ none) (calls upper environments none)
      ⊎ ((s : Settings) × IsValidSettings s
          × All (λ o. (o ≡ none) ⊎ (o ≡ some s)) (calls upper environments none))
unfolding calls
get_settings_once upper [] = inl tt
get_settings_once upper (g ∷ gs) = elim (Option-cases (validate upper g)) [
  | inr (s, read) ↦ inr (
    s,
    validate-IsValidSettings upper g s read,
    rw (read, calls) (inr refl, calls-kept upper gs s),
  )
  | inl refused ↦ elim (get_settings_once upper gs) [
    | inl never ↦ inl (rw (refused, calls) (refl, never))
    | inr (s, valid, h) ↦ inr (s, valid, rw (refused, calls) (inl refl, h))
  ]
]
