-- ===== src/Pagination/Rewriting.antt =====
-- `rewrite_link_header`. `urllib.parse` is a parameter.
use issues_api_testbed.Prelude.{
  ℕ, Option, none, some, List, [], ◌∷◌, ◌++◌, Text, text, is_empty, ◌==◌, text_eq, if◌then◌else◌,
  ◌≡◌, refl, true, arith,
}
use issues_api_testbed.Errors.{
  Result, ok, or_crash, value_error, ◌>>=◌, only_crashes, only_crashes-bind,
}
use issues_api_testbed.Pagination.Defs.{parse_link_header, parse_link_header-only_crashes}

abbrev pub max_per_page : ℕ
max_per_page = 100

abbrev pub default_per_page : ℕ
default_per_page = 30

pub record Urls : Type 0 where
  -- `parse_qs(urlsplit(url).query)`; `none` is `ValueError`
  pub query : Text → Option (List (Text × List Text))
  pub urlencode : List (Text × Text) → Text

-- `query.get(key) and query[key][0]`
abbrev pub first_value : Text → List (Text × List Text) → Text
first_value key [] = []
first_value key ((k, []) ∷ q) = if k == key then [] else first_value key q
first_value key ((k, v ∷ vs) ∷ q) = if k == key then v else first_value key q

abbrev pub keep : Text → List (Text × List Text) → List (Text × Text) → List (Text × Text)
keep key q rest = if is_empty (first_value key q) then rest else (key, first_value key q) ∷ rest

-- the dict comprehension over `("page", "per_page")`
unfoldable pub forwarded : List (Text × List Text) → List (Text × Text)
forwarded q = keep (text "page") q (keep (text "per_page") q [])

-- `f'<{target}>; rel="{rel}"'`
unfoldable pub render_link : Text × Text → Text
render_link (rel, target) = b'<' ∷ (target ++ (text ">; rel=\"" ++ (rel ++ b'"' ∷ [])))

-- `", ".join(rendered)`
unfoldable pub join : List Text → Text
join [] = []
join (s ∷ []) = s
join (s ∷ t ∷ rest) = s ++ (b',' ∷ b' ' ∷ join (t ∷ rest))

abbrev pub render_all : List (Text × Text) → List Text
render_all [] = []
render_all (l ∷ links) = render_link l ∷ render_all links

module _ (urls : Urls) where
  -- `f"?{urlencode(forwarded)}" if forwarded else ""`
  unfoldable pub suffix : List (Text × List Text) → Text
  suffix q = elim (forwarded q) [ [] ↦ [] | f ∷ fs ↦ b'?' ∷ urls.urlencode (f ∷ fs) ]

  -- the links of this service that stand for the upstream ones
  unfoldable pub retarget : Text → List (Text × Text) → Result (List (Text × Text))
  unfolding suffix
  retarget base_path [] = ok []
  retarget base_path ((rel, url) ∷ links) = do
    q ← or_crash value_error (urls.query url)
    rest ← retarget base_path links
    ok ((rel, base_path ++ suffix q) ∷ rest)

  abbrev rendered : List (Text × Text) → Option Text
  rendered [] = none
  rendered (l ∷ links) = some (join (render_all (l ∷ links)))

  unfoldable pub rewrite_link_header : Option Text → Text → Result (Option Text)
  unfolding retarget
  rewrite_link_header value base_path = do
    links ← parse_link_header value
    targets ← retarget base_path links
    ok (rendered targets)

  retarget-only_crashes :
      (base_path : Text) (links : List (Text × Text))
      → only_crashes (retarget base_path links) ≡ true
  unfolding retarget only_crashes
  retarget-only_crashes base_path [] = refl
  retarget-only_crashes base_path (l ∷ links) =
      ground (arith, retarget-only_crashes base_path links)

  pub rewrite_link_header-only_crashes :
      (value : Option Text) (base_path : Text)
      → only_crashes (rewrite_link_header value base_path) ≡ true
  unfolding rewrite_link_header only_crashes
  rewrite_link_header-only_crashes value base_path =
      only_crashes-bind (parse_link_header value) _ (parse_link_header-only_crashes value) λ links.
        only_crashes-bind (retarget base_path links) _ (retarget-only_crashes base_path links)
          λ t. refl
