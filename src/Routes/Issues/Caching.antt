-- ===== src/Routes/Issues/Caching.antt =====
-- `GET /issues`: the cache changes what a request costs, and not what it answers.
use issues_api_testbed.Prelude.{
  ℕ, ◌≡◌, ◌⊎◌, inl, inr, refl, sym, ap, subst, ◌∙◌, true, false, Option, none, some, [], ◌∷◌, arith,
  Text, text, text_beq, Option-cases, pair_eq, text_eq, nat_eq, ==_refl,
}
use issues_api_testbed.Errors.{Result, Result-cases, ok, raise, Headers, set_header}
use issues_api_testbed.Http.{Response, Body}
use issues_api_testbed.Cache.{CachedList, find, get, record_hit}
use issues_api_testbed.Cache.Lru.{get_miss, get_hit}
use issues_api_testbed.Github
use issues_api_testbed.Github.{GitHubResult}
use issues_api_testbed.Routes.Issues.Defs.{Services}
use issues_api_testbed.Routes.Issues.Listing.{
  ListQuery, Cache, cache_key, list_params, wanted_etag, nonempty, entry_of, issues_of,
  page_response, look_up, list_issues,
}

-- the value of a header of a response
abbrev pub header : Text → Headers → Option Text
header name headers = find name headers

-- what a client reads of an answer: the status, the body, and the two headers of a page
abbrev pub shown : Result Response → Result (ℕ × Body × Option Text × Option Text)
shown (raise e) = raise e
shown (ok r) = ok (r.status, r.body, header (text "ETag") r.headers, header (text "Link") r.headers)

module _ (sv : Services) where
  open sv use {floats, repo, up, cache_enabled}

  -- the call to GitHub for a query, with a validator or without
  abbrev pub upstream : ListQuery → Option Text → Result GitHubResult
  upstream q etag = Github.list_issues repo floats up (list_params q) etag

  -- The page does not depend on what `X-Cache` reports.
  shown-page_response :
      (q : ListQuery) (x y : Text) (entry : CachedList)
      → shown (page_response sv q x entry) ≡ shown (page_response sv q y entry)
  unfolding page_response set_header text text_beq find
  shown-page_response q x y entry = ground arith

  -- A caller's own validator wins over the cached one, and a `304` to it is passed on as `304`
  -- with that validator, with no entry of the cache changed.
  own_validator :
      (q : ListQuery) (c : Cache) (e : Text) (r : GitHubResult)
      → nonempty q.if_none_match ≡ some e
      → upstream q (some e) ≡ ok r
      → Github.not_modified r ≡ true
      → list_issues sv q c ≡ (
        ok (record { status = 304; headers = (text "ETag", e) ∷ []; body = Body.empty }),
        (look_up sv q c).1,
      )
  unfolding list_issues wanted_etag
  own_validator q c e r h u m = ground (arith, ==_refl e)

  -- the handler with the cache switched off
  abbrev pub without_cache : Services
  without_cache = record sv { cache_enabled = false }

  -- a failure, or a response other than `304`
  abbrev pub IsFresh : Result GitHubResult → Type 0
  IsFresh (raise e) = Unit
  IsFresh (ok r) = Github.not_modified r ≡ false

  -- GitHub keeps its promise for a cached page: its validator is answered as the request without
  -- one, and not with `304`, or it is answered with `304`, and then the request without one would
  -- give the cached page.
  abbrev pub IsCurrent : ListQuery → CachedList → Type 0
  IsCurrent q entry =
      ((upstream q (some entry.etag) ≡ upstream q none) × IsFresh (upstream q none))
      ⊎ ((r : GitHubResult) × (upstream q (some entry.etag) ≡ ok r)
          × (Github.not_modified r ≡ true)
          × (s : GitHubResult) × (upstream q none ≡ ok s)
          × (entry_of s ≡ ok entry))

  page_response-without_cache :
      (q : ListQuery) (x : Text) (entry : CachedList)
      → page_response without_cache q x entry ≡ page_response sv q x entry
  unfolding page_response issues_of
  page_response-without_cache q x entry = refl

  fetched : ListQuery → Result GitHubResult → Result Response
  fetched q (raise e) = raise e
  fetched q (ok r) = elim (entry_of r) [
    | raise e ↦ raise e
    | ok entry ↦ page_response sv q (text "MISS") entry
  ]

  list_issues-without_cache :
      (q : ListQuery) (c : Cache)
      → nonempty q.if_none_match ≡ none
      → (list_issues without_cache q c).0 ≡ fetched q (upstream q none)
  unfolding list_issues wanted_etag fetched
  list_issues-without_cache q c h = elim (Result-cases (upstream q none)) [
    | inl (e, failed) ↦ ground arith
    | inr (r, done) ↦ elim (Result-cases (entry_of r)) [
      | inl (e, failed) ↦ ground arith
      | inr (entry, kept) ↦ ground (arith, page_response-without_cache q (text "MISS") entry)
    ]
  ]

  list_issues_miss :
      (q : ListQuery) (c : Cache)
      → nonempty q.if_none_match ≡ none
      → cache_enabled ≡ true
      → find (cache_key q) c.entries ≡ none
      → (list_issues sv q c).0 ≡ fetched q (upstream q none)
  unfolding list_issues wanted_etag fetched
  list_issues_miss q c h on gone = ground (arith, get_miss (cache_key q) c gone)

  list_issues_changed :
      (q : ListQuery) (c : Cache) (entry : CachedList)
      → nonempty q.if_none_match ≡ none
      → cache_enabled ≡ true
      → find (cache_key q) c.entries ≡ some entry
      → upstream q (some entry.etag) ≡ upstream q none
      → IsFresh (upstream q none)
      → (list_issues sv q c).0 ≡ fetched q (upstream q none)
  unfolding list_issues wanted_etag fetched
  list_issues_changed q c entry h on there same new = elim (Result-cases (upstream q none)) [
    | inl (x, failed) ↦ ground (arith, get_hit (cache_key q) entry c there)
    | inr (r, done) ↦ ground (arith, get_hit (cache_key q) entry c there, subst IsFresh done new)
  ]

  -- A `304` to the validator of the cached page is a hit: the cached page is served, the hit is
  -- counted, and nothing is stored.
  list_issues_hit :
      (q : ListQuery) (c : Cache) (entry : CachedList) (r : GitHubResult)
      → nonempty q.if_none_match ≡ none
      → cache_enabled ≡ true
      → find (cache_key q) c.entries ≡ some entry
      → upstream q (some entry.etag) ≡ ok r
      → Github.not_modified r ≡ true
      → list_issues sv q c
        ≡ (page_response sv q (text "HIT") entry, record_hit (get (cache_key q) c).1)
  unfolding list_issues wanted_etag
  list_issues_hit q c entry r h on there u m = ground (arith, get_hit (cache_key q) entry c there)

  -- The cache does not change what a caller without a validator gets: with a cache whose page for
  -- the query is current, or with none for it, the answer has the status, the body and the `ETag` and `Link` headers that
  -- it has with the cache switched off.
  pub cache_is_transparent :
      (q : ListQuery) (c : Cache)
      → nonempty q.if_none_match ≡ none
      → cache_enabled ≡ true
      → ((entry : CachedList) → find (cache_key q) c.entries ≡ some entry → IsCurrent q entry)
      → shown (list_issues sv q c).0 ≡ shown (list_issues without_cache q c).0
  unfolding fetched
  cache_is_transparent q c h on honest = elim (Option-cases (find (cache_key q) c.entries)) [
    | inl gone ↦ ap shown (list_issues_miss q c h on gone ∙ sym (list_issues-without_cache q c h))
    | inr (entry, there) ↦ elim (honest entry there) [
      | inl (same, new) ↦ ap shown (
          list_issues_changed q c entry h on there same new ∙ sym (list_issues-without_cache q c h))
      | inr (r, u, m, s, full, kept) ↦
          ap (λ (p : Result Response × Cache). shown p.0)
            (list_issues_hit q c entry r h on there u m)
          ∙ shown-page_response q (text "HIT") (text "MISS") entry
          ∙ ap shown (sym (list_issues-without_cache q c h ∙ rw (full, kept, fetched) refl))
    ]
  ]
