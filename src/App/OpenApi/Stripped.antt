-- ===== src/App/OpenApi/Stripped.antt =====
-- What the description loses: the response 422 of each operation, and nothing else.
use issues_api_testbed.Prelude.{
  ◌≡◌, ◌≢◌, ◌⊎◌, refl, inl, inr, Option, none, some, arith, Text, text, text_eq, eq_of_==,
}
use issues_api_testbed.Python.{
  Json, null, bool, int, real, str, obj, arr, Fields, end, field, lookup,
}
use issues_api_testbed.Errors.{ok}
use issues_api_testbed.App.OpenApi.Defs.{
  remove_key, replace, without_422, clean_operation, clean_operations, clean_path, clean_paths,
  clean_schema, openapi,
}

lookup-remove_key : (k : Text) (d : Fields) → lookup k (remove_key k d) ≡ none
unfolding lookup remove_key
lookup-remove_key k end = refl
lookup-remove_key k (field j v d) = ground (arith, lookup-remove_key k d)

lookup-remove_key_ne : (k j : Text) (d : Fields) → j ≢ k → lookup j (remove_key k d) ≡ lookup j d
unfolding lookup remove_key
lookup-remove_key_ne k j end ne = refl
lookup-remove_key_ne k j (field i v d) ne =
    ground (arith, lookup-remove_key_ne k j d ne, eq_of_== i k, eq_of_== i j)

lookup-replace :
    (k : Text) (w v : Json) (d : Fields) → lookup k d ≡ some v → lookup k (replace k w d) ≡ some w
unfolding lookup replace
lookup-replace k w v end h = cc
lookup-replace k w v (field j u d) h = ground (arith, lookup-replace k w v d)

lookup-replace_ne :
    (k j : Text) (w : Json) (d : Fields) → j ≢ k → lookup j (replace k w d) ≡ lookup j d
unfolding lookup replace
lookup-replace_ne k j w end ne = refl
lookup-replace_ne k j w (field i v d) ne =
    ground (arith, lookup-replace_ne k j w d ne, eq_of_== i k, eq_of_== i j)

-- the same responses, but for 422
abbrev pub SameResponses : Fields → Fields → Type 0
SameResponses d d' =
    (lookup (text "422") d' ≡ none)
    × ((code : Text) → code ≢ text "422" → lookup code d' ≡ lookup code d)

-- the responses of an operation, and what becomes of them
abbrev pub Stripped : Option Json → Option Json → Type 0
Stripped o o' =
    ((o ≡ none) × (o' ≡ none))
    ⊎ ((r : Fields) × (r' : Fields) × (o ≡ some (obj r))
        × (o' ≡ some (obj r'))
        × SameResponses r r')

-- the same dict, but for what stands at one key
abbrev pub SameElsewhere : Text → Fields → Fields → Type 0
SameElsewhere key d d' = (k : Text) → k ≢ key → lookup k d' ≡ lookup k d

abbrev pub Cleaned : Json → Json → Type 0
Cleaned (obj d) (obj d') =
    SameElsewhere (text "responses") d d'
    × Stripped (lookup (text "responses") d) (lookup (text "responses") d')
Cleaned (obj d) _ = ⊥
Cleaned v v' = v' ≡ v

-- the same keys in the same order, with related values
abbrev pub Pointwise : (Json → Json → Type 0) → Fields → Fields → Type 0
Pointwise R end end = Unit
Pointwise R (field k v d) (field k' v' d') = (k' ≡ k) × R v v' × Pointwise R d d'
Pointwise R _ _ = ⊥

abbrev pub CleanedPath : Json → Json → Type 0
CleanedPath (obj d) (obj d') = Pointwise Cleaned d d'
CleanedPath _ _ = ⊥

-- what the loops need: dicts of dicts, whose operations have a dict of responses or none
abbrev pub IsOperation : Json → Type 0
IsOperation (obj d) =
    (lookup (text "responses") d ≡ none)
    ⊎ ((r : Fields) × (lookup (text "responses") d ≡ some (obj r)))
IsOperation _ = Unit

abbrev pub AllValues : (Json → Type 0) → Fields → Type 0
AllValues P end = Unit
AllValues P (field k v d) = P v × AllValues P d

abbrev pub IsPath : Json → Type 0
IsPath (obj d) = AllValues IsOperation d
IsPath _ = ⊥

other_operation :
    (v : Json)
    → Cleaned v v
    → clean_operation v ≡ ok v
    → (v' : Json) × (clean_operation v ≡ ok v') × Cleaned v v'
other_operation v c h = (v, h, c)

clean_operation_lem :
    (v : Json) → IsOperation v → (v' : Json) × (clean_operation v ≡ ok v') × Cleaned v v'
unfolding clean_operation without_422
clean_operation_lem (obj d) (inl missing) =
    (obj d, rw (missing, clean_operation) refl, ((λ k ne. refl), inl (missing, missing)))
clean_operation_lem (obj d) (inr (r, there)) = (
  obj (replace (text "responses") (obj (remove_key (text "422") r)) d),
  rw (there, clean_operation) refl,
  (
    (λ k ne. lookup-replace_ne (text "responses") k _ d ne),
    inr (
      r,
      remove_key (text "422") r,
      there,
      lookup-replace (text "responses") _ (obj r) d there,
      (lookup-remove_key (text "422") r, λ code ne. lookup-remove_key_ne (text "422") code r ne),
    ),
  ),
)
clean_operation_lem null h = (null, refl, refl)
clean_operation_lem (bool b) h = (bool b, refl, refl)
clean_operation_lem (int i) h = (int i, refl, refl)
clean_operation_lem (real x) h = (real x, refl, refl)
clean_operation_lem (str s) h = (str s, refl, refl)
clean_operation_lem (arr xs) h = (arr xs, refl, refl)

clean_operations_lem :
    (d : Fields)
    → AllValues IsOperation d
    → (d' : Fields) × (clean_operations d ≡ ok d') × Pointwise Cleaned d d'
unfolding clean_operations
clean_operations_lem end h = (end, refl, tt)
clean_operations_lem (field k v d) h =
    let (v', here, c) = clean_operation_lem v h.0 in
    let (d', rest, cs) = clean_operations_lem d h.1 in
    (field k v' d', rw (here, rest) refl, (refl, c, cs))

clean_paths_lem :
    (d : Fields)
    → AllValues IsPath d
    → (d' : Fields) × (clean_paths d ≡ ok d') × Pointwise CleanedPath d d'
unfolding clean_paths clean_path
clean_paths_lem end h = (end, refl, tt)
clean_paths_lem (field k (obj operations) d) h =
    let (operations', here, c) = clean_operations_lem operations h.0 in
    let (d', rest, cs) = clean_paths_lem d h.1 in
    (field k (obj operations') d', rw (here, rest) refl, (refl, c, cs))
clean_paths_lem (field k _ d) h = elim h.0 [ ]

-- a description that is kept is the answer
kept_answer :
    (anew : Fields) (k : Text) (v : Json) (d : Fields) (w : Json)
    → openapi anew (some (replace (text "paths") w (field k v d)))
      ≡ (ok (replace (text "paths") w (field k v d)), some (replace (text "paths") w (field k v d)))
unfolding openapi replace
kept_answer anew k v d w = ground arith

-- For a schema of paths that are dicts of operations, the description has the same paths and the same
-- operations; the responses of an operation are without 422 and otherwise the same, and all else
-- is as it was. It is kept, and from then on it is the answer whatever would be made anew.
pub openapi_lem :
    (k : Text) (v : Json) (d paths anew : Fields)
    → lookup (text "paths") (field k v d) ≡ some (obj paths)
    → AllValues IsPath paths
    → (out : Fields) × (openapi (field k v d) none ≡ (ok out, some out))
      × SameElsewhere (text "paths") (field k v d) out
      × (paths' : Fields) × (lookup (text "paths") out ≡ some (obj paths'))
      × Pointwise CleanedPath paths paths'
      × (openapi anew (some out) ≡ (ok out, some out))
unfolding openapi clean_schema
openapi_lem k v d paths anew there shaped =
    let (paths', cleaned, related) = clean_paths_lem paths shaped in
    (
      replace (text "paths") (obj paths') (field k v d),
      rw (there, cleaned, clean_schema) refl,
      (λ j ne. lookup-replace_ne (text "paths") j _ (field k v d) ne),
      paths',
      lookup-replace (text "paths") _ (obj paths) (field k v d) there,
      related,
      kept_answer anew k v d (obj paths'),
    )
