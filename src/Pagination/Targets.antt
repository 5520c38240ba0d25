-- ===== src/Pagination/Targets.antt =====
-- What is left of an upstream URL's query, described without the code of `rewrite_link_header`.
use issues_api_testbed.Prelude.{
  ◌≡◌, ◌≢◌, ◌⊎◌, refl, sym, subst, ap, ◌∙◌, inl, inr, false, List, [], ◌∷◌, ◌++◌, append-nil, arith,
  Text, text, is_empty, ◌==◌, text_eq, ==_refl, ==_of_ne, eq_of_==, Bool-cases,
}
use issues_api_testbed.Pagination.Rewriting.{Urls, first_value, keep, forwarded, suffix}

-- the parameter has this value first, and the value is not empty
pub data Given (key : Text) : List (Text × List Text) → Text → Type 0 where
  given_here :
      {v : Text} {vs : List Text} {q : List (Text × List Text)}
      → is_empty v ≡ false
      → Given key ((key, v ∷ vs) ∷ q) v
  given_later :
      {k v : Text} {vs : List Text} {q : List (Text × List Text)}
      → k ≢ key
      → Given key q v
      → Given key ((k, vs) ∷ q) v

-- what a query leaves of one parameter: its first value, unless that is missing or empty
abbrev pub Leaves : List (Text × List Text) → Text → List (Text × Text) → Type 0
Leaves q key kept =
    ((v : Text) × Given key q v × (kept ≡ (key, v) ∷ []))
    ⊎ (¬ ((v : Text) × Given key q v) × (kept ≡ []))

-- the path of the service, with a query where one is left
abbrev pub IsTarget : Urls → Text → List (Text × Text) → Text → Type 0
IsTarget urls base_path [] target = target ≡ base_path
IsTarget urls base_path (f ∷ fs) target = target ≡ base_path ++ b'?' ∷ urls.urlencode (f ∷ fs)

-- `page` goes first, then `per_page`, and nothing else
abbrev pub PointsTo : Urls → Text → List (Text × List Text) → Text → Type 0
PointsTo urls base_path q target =
    (pages sizes : List (Text × Text)) × Leaves q (text "page") pages
    × Leaves q (text "per_page") sizes
    × IsTarget urls base_path (pages ++ sizes) target

pub Given-first_value :
    {key v : Text} {q : List (Text × List Text)}
    → Given key q v
    → (first_value key q ≡ v) × (is_empty v ≡ false)
Given-first_value {key} (given_here full) = (rw (==_refl key) refl, full)
Given-first_value {key} (given_later {k} {vs = []} other g) =
    let (first, full) = Given-first_value g in (rw (==_of_ne k key other) first, full)
Given-first_value {key} (given_later {k} {vs = w ∷ ws} other g) =
    let (first, full) = Given-first_value g in (rw (==_of_ne k key other) first, full)

ne_of_== : (k key : Text) → (k == key) ≡ false → k ≢ key
ne_of_== k key other same = ground (arith, ==_refl key)

first_value-Given :
    (key v : Text) (q : List (Text × List Text))
    → first_value key q ≡ v
    → is_empty v ≡ false
    → Given key q v
first_value-Given key v [] h full = absurd (ground arith)
first_value-Given key v ((k, []) ∷ q) h full = elim (Bool-cases (k == key)) [
  | inl same ↦ absurd (ground arith)
  | inr other ↦ given_later (ne_of_== k key other) (first_value-Given key v q (ground arith) full)
]
first_value-Given key v ((k, w ∷ ws) ∷ q) h full = elim (Bool-cases (k == key)) [
  | inl same ↦
      let first : w ≡ v = ground arith in
      subst (λ x. Given key ((x, w ∷ ws) ∷ q) v) (sym (eq_of_== k key same))
        (subst (λ x. Given key ((key, x ∷ ws) ∷ q) v) (sym first) (given_here full))
  | inr other ↦ given_later (ne_of_== k key other) (first_value-Given key v q (ground arith) full)
]

Leaves-keep :
    (q : List (Text × List Text)) (key : Text) (kept rest : List (Text × Text))
    → Leaves q key kept
    → keep key q rest ≡ kept ++ rest
Leaves-keep q key kept rest (inl (v, g, e)) =
    let (first, full) = Given-first_value g in rw (e, first, full) refl
Leaves-keep q key kept rest (inr (missing, e)) = elim (Bool-cases (is_empty (first_value key q))) [
  | inl blank ↦ rw (e, blank) refl
  | inr full ↦
      absurd (missing (first_value key q, first_value-Given key (first_value key q) q refl full))
]

IsTarget-suffix :
    (urls : Urls) (base_path : Text) (q : List (Text × List Text)) (kept : List (Text × Text))
    (target : Text)
    → forwarded q ≡ kept
    → IsTarget urls base_path kept target
    → target ≡ base_path ++ suffix urls q
unfolding suffix
IsTarget-suffix urls base_path q [] target e h = h ∙ sym (rw (e, suffix) (append-nil base_path))
IsTarget-suffix urls base_path q (f ∷ fs) target e h = h ∙ rw (e, suffix) refl

-- what the code makes of a query is what the description says
pub PointsTo-suffix :
    (urls : Urls) (base_path : Text) (q : List (Text × List Text)) (target : Text)
    → PointsTo urls base_path q target
    → target ≡ base_path ++ suffix urls q
unfolding forwarded
PointsTo-suffix urls base_path q target (pages, sizes, page, size, there) =
    IsTarget-suffix urls base_path q (pages ++ sizes) target
      (Leaves-keep q (text "page") pages _ page
        ∙ ap (λ s. pages ++ s) (Leaves-keep q (text "per_page") sizes [] size ∙ append-nil sizes))
      there
