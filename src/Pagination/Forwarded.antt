-- ===== src/Pagination/Forwarded.antt =====
-- What `rewrite_link_header` makes of the links of an upstream header.
use issues_api_testbed.Prelude.{
  ℕ, ◌≡◌, refl, ap, sym, subst, ◌∙◌, ◌⊎◌, inl, inr, arith, Bool, true, false, not, ◌&&◌, ◌||◌, some,
  List, [], ◌∷◌, ◌++◌, Text, is_empty, ◌==◌, text_eq, nat_eq,
}
use issues_api_testbed.Python.Str.{is_space, strip, lstrip, rstrip}
use issues_api_testbed.Errors.{ok}
use issues_api_testbed.Pagination.Defs.{parse_link_header, has_rel}
use issues_api_testbed.Pagination.Rewriting.{
  Urls, forwarded, suffix, join, render_all, retarget, rewrite_link_header,
}
use issues_api_testbed.Pagination.Targets.{PointsTo, PointsTo-suffix}
use issues_api_testbed.Pagination.Segments.{All, inside, IsLink}
use issues_api_testbed.Pagination.RoundTrip.{AllLinks, RelsDistinct, parse_link_header-join}

-- neither an angle bracket nor white space
abbrev pub visible : ℕ → Bool
visible c = inside c && not (is_space c)

-- `urlencode` writes letters, digits and a few marks, all else as `%` and two digits
pub record IsUrlencode (urls : Urls) : Type 0 where
  pub all_visible : (q : List (Text × Text)) → All visible (urls.urlencode q)

visible-inside : (s : Text) → All visible s → All inside s
visible-inside [] h = tt
visible-inside (c ∷ s) h = (ground (arith, h.0), visible-inside s h.1)

visible-append : (s t : Text) → All visible s → All visible t → All visible (s ++ t)
visible-append [] t h k = k
visible-append (c ∷ s) t h k = (h.0, visible-append s t h.1 k)

lstrip-visible : (s : Text) → All visible s → lstrip s ≡ s
unfolding lstrip
lstrip-visible [] h = refl
lstrip-visible (c ∷ s) h = let seen : visible c ≡ true = h.0 in ground arith

rstrip-visible : (s : Text) → All visible s → rstrip s ≡ s
unfolding rstrip
rstrip-visible [] h = refl
rstrip-visible (c ∷ s) h =
    let seen : visible c ≡ true = h.0 in
    let rest : rstrip s ≡ s = rstrip-visible s h.1 in ground arith

strip-visible : (s : Text) → All visible s → strip s ≡ s
unfolding strip
strip-visible s h = rw (lstrip-visible s h) (rstrip-visible s h)

abbrev rels : List (Text × Text) → List Text
rels [] = []
rels (l ∷ links) = l.0 ∷ rels links

abbrev stands_in : Text → List Text → Bool
stands_in rel [] = false
stands_in rel (r ∷ rs) = r == rel || stands_in rel rs

has_rel-stands_in :
    (rel : Text) (links : List (Text × Text)) → has_rel rel links ≡ stands_in rel (rels links)
has_rel-stands_in rel [] = refl
has_rel-stands_in rel ((r, url) ∷ links) = rw (has_rel-stands_in rel links) refl

rels-append :
    (links : List (Text × Text)) (l m : Text × Text) (others : List (Text × Text))
    → l.0 ≡ m.0
    → rels links ≡ rels others
    → rels (links ++ l ∷ []) ≡ rels (others ++ m ∷ [])
rels-append [] l m [] e h = ap (λ r. r ∷ []) e
rels-append [] l m (o ∷ others) e h = absurd (cc)
rels-append (k ∷ links) l m [] e h = absurd (cc)
rels-append (k ∷ links) l m (o ∷ others) e h =
    let first : k.0 ≡ o.0 = cc in
    let rest : rels links ≡ rels others = cc in rw (first, rels-append links l m others e rest) refl

not_empty_append : (s t : Text) → is_empty s ≡ false → is_empty (s ++ t) ≡ false
not_empty_append [] t h = absurd (cc)
not_empty_append (c ∷ s) t h = refl

List-cases :
    (xs : List (Text × Text))
    → (xs ≡ []) ⊎ ((x : Text × Text) × (rest : List (Text × Text)) × (xs ≡ x ∷ rest))
List-cases [] = inl refl
List-cases (x ∷ xs) = inr (x, xs, refl)

module _ (urls : Urls) (base_path : Text) where
  -- the links of this service that stand for the upstream ones: the same relations, each with the
  -- path of this service and what its query leaves of `page` and `per_page`
  pub data Retargets : List (Text × Text) → List (Text × Text) → Type 0 where
    none_left : Retargets [] []
    retargeted :
        {rel url target : Text} {q : List (Text × List Text)} {links targets : List (Text × Text)}
        → urls.query url ≡ some q
        → PointsTo urls base_path q target
        → Retargets links targets
        → Retargets ((rel, url) ∷ links) ((rel, target) ∷ targets)

  -- the same with the code's query
  data Rewrites : List (Text × Text) → List (Text × Text) → Type 0 where
    none_rewritten : Rewrites [] []
    rewritten :
        {rel url : Text} {q : List (Text × List Text)} {links targets : List (Text × Text)}
        → urls.query url ≡ some q
        → Rewrites links targets
        → Rewrites ((rel, url) ∷ links) ((rel, base_path ++ suffix urls q) ∷ targets)

  Retargets-Rewrites :
      {links targets : List (Text × Text)} → Retargets links targets → Rewrites links targets
  Retargets-Rewrites none_left = none_rewritten
  Retargets-Rewrites (retargeted {rel} {url} {target} {q} {links} {targets} read points h) =
      subst (λ t. Rewrites ((rel, url) ∷ links) ((rel, t) ∷ targets))
        (sym (PointsTo-suffix urls base_path q target points))
        (rewritten read (Retargets-Rewrites h))

  retarget-Rewrites :
      {links targets : List (Text × Text)}
      → Rewrites links targets
      → retarget urls base_path links ≡ ok targets
  unfolding retarget
  retarget-Rewrites none_rewritten = refl
  retarget-Rewrites (rewritten read h) = rw (read, retarget-Rewrites h) refl

  distinct-Rewrites :
      {links targets : List (Text × Text)}
      → Rewrites links targets
      → (before others : List (Text × Text)) → rels before ≡ rels others
      → RelsDistinct before links
      → RelsDistinct others targets
  distinct-Rewrites none_rewritten before others e d = tt
  distinct-Rewrites (rewritten {rel} {url} {q} read h) before others e d = (
    has_rel-stands_in rel others
        ∙ ap (stands_in rel) (sym e)
        ∙ sym (has_rel-stands_in rel before)
        ∙ d.0,
    distinct-Rewrites h (before ++ (rel, url) ∷ [])
        (others ++ (rel, base_path ++ suffix urls q) ∷ [])
        (rels-append before (rel, url) (rel, base_path ++ suffix urls q) others refl e) d.1,
  )

  suffix-cases :
      (q : List (Text × List Text))
      → (suffix urls q ≡ [])
        ⊎ ((kept : List (Text × Text)) × (suffix urls q ≡ b'?' ∷ urls.urlencode kept))
  unfolding suffix
  suffix-cases q = elim (List-cases (forwarded q)) [
    | inl none ↦ inl (rw (none, suffix) refl)
    | inr (f, fs, kept) ↦ inr (f ∷ fs, rw (kept, suffix) refl)
  ]

  module _ (law : IsUrlencode urls) (path_visible : All visible base_path)
      (path_given : is_empty base_path ≡ false) where
    visible-suffix : (q : List (Text × List Text)) → All visible (suffix urls q)
    unfolding is_space
    visible-suffix q = elim (suffix-cases q) [
      | inl bare ↦ rw bare tt
      | inr (kept, asked) ↦ rw asked (refl, law.all_visible kept)
    ]

    retargeted-IsLink :
        (rel url : Text) (q : List (Text × List Text))
        → IsLink (rel, url)
        → IsLink (rel, base_path ++ suffix urls q)
    retargeted-IsLink rel url q h =
        let seen : All visible (base_path ++ suffix urls q) =
          visible-append base_path (suffix urls q) path_visible (visible-suffix q) in
        record {
          rel_plain = h.rel_plain;
          rel_not_empty = h.rel_not_empty;
          rel_stripped = h.rel_stripped;
          url_inside = visible-inside _ seen;
          url_not_empty = not_empty_append base_path (suffix urls q) path_given;
          url_stripped = strip-visible _ seen;
        }

    links-Rewrites :
        {links targets : List (Text × Text)}
        → Rewrites links targets
        → AllLinks links
        → AllLinks targets
    links-Rewrites none_rewritten h = tt
    links-Rewrites (rewritten {rel} {url} {q} read r) h =
        (retargeted-IsLink rel url q h.0, links-Rewrites r h.1)

    -- A header of links whose parts can stand in one, with each relation once, is forwarded as a
    -- header that reads back as the same relations in the same order, each with the path of this
    -- service and the first values that are not empty of `page` and `per_page` in its query, if the
    -- path is a visible text and `urlencode` writes such texts.
    pub rewrite_link_header-Retargets :
        (l m : Text × Text) (links targets : List (Text × Text))
        → AllLinks (l ∷ links)
        → RelsDistinct [] (l ∷ links)
        → Retargets (l ∷ links) (m ∷ targets)
        → (header : Text) × (rewrite_link_header urls
              (some (join (render_all (l ∷ links))))
              base_path
            ≡ ok (some header))
          × (parse_link_header (some header) ≡ ok (m ∷ targets))
    unfolding rewrite_link_header
    rewrite_link_header-Retargets l m links targets fine once r =
        let w : Rewrites (l ∷ links) (m ∷ targets) = Retargets-Rewrites r in
        (
          join (render_all (m ∷ targets)),
          rw (parse_link_header-join l links fine once, retarget-Rewrites w) refl,
          parse_link_header-join m targets (links-Rewrites w fine)
              (distinct-Rewrites w [] [] refl once),
        )
