-- ===== src/Routes/Issues/Listing.antt =====
-- `list_issues`, with the two layers of conditional requests.
use issues_api_testbed.Prelude.{
  nat_eq, text_eq, pair_eq, ℕ, Bool, true, false, not, ◌&&◌, Option, none, some, List, [], ◌∷◌,
  Text, text, text_beq, is_empty, ◌≡◌, refl, arith, if◌then◌else◌,
}
use issues_api_testbed.Python.{Json, str, num, Fields, field, end}
use issues_api_testbed.Errors.{Result, ok, raise, ◌>>=◌, only_crashes, only_crashes-bind}
use issues_api_testbed.Schemas.{
  IssueStateFilter, filter_value, Issue, is_pull_request, to_issue, is_pull_request-only_crashes,
  to_issue-only_crashes,
}
use issues_api_testbed.Http.{Response, empty, issues}
use issues_api_testbed.Cache.{
  ResponseCache, CachedList, CacheKey, get, set, record_hit, record_miss,
}
use issues_api_testbed.Github
use issues_api_testbed.Github.{GitHubResult}
use issues_api_testbed.Pagination.{rewrite_link_header, rewrite_link_header-only_crashes}
use issues_api_testbed.Routes.Issues.Defs.{
  Services, issues_path, header_set, paged, list_of, list_of-only_crashes,
}

-- the validated query parameters, and the header `If-None-Match`
pub record ListQuery : Type 0 where
  pub state : IssueStateFilter
  pub labels : Option Text
  pub page : ℕ
  pub per_page : ℕ
  pub if_none_match : Option Text

abbrev pub or_empty : Option Text → Text
or_empty none = []
or_empty (some s) = s

-- `None` for a header that is absent or empty
abbrev pub nonempty : Option Text → Option Text
nonempty none = none
nonempty (some s) = if is_empty s then none else some s

abbrev pub cache_key : ListQuery → CacheKey
cache_key q = ((filter_value q.state, or_empty q.labels), (q.page, q.per_page))

unfoldable pub list_params : ListQuery → Fields
list_params q = field (text "state") (str (filter_value q.state)) (
    field (text "page") (num q.page) (
      field (text "per_page") (num q.per_page)
        (elim (nonempty q.labels) [ none ↦ end | some l ↦ field (text "labels") (str l) end ])))

abbrev etag_of : Option CachedList → Option Text
etag_of none = none
etag_of (some c) = some c.etag

-- `if_none_match or (cached.etag if cached else None)`
unfoldable pub wanted_etag : Option Text → Option CachedList → Option Text
wanted_etag if_none_match cached = elim (nonempty if_none_match) [
  | none ↦ etag_of cached
  | some e ↦ some e
]

-- `conditional_etag == if_none_match`
abbrev pub is_text : Option Text → Text → Bool
is_text none e = false
is_text (some w) e = text_beq w e

abbrev pub Cache : Type 0
Cache = ResponseCache CacheKey CachedList

-- the entry that a response makes
unfoldable pub entry_of : GitHubResult → Result CachedList
entry_of result = do
  items ← list_of result.payload
  ok (record { etag = or_empty (Github.etag result); entries = items; link = Github.link result })

module _ (sv : Services) where
  open sv use {floats, repo, up, pydantic, urls, cache_enabled}

  -- `[to_issue(item) for item in items if not is_pull_request(item)]`; the filter comes first
  unfoldable pub filtered : List Json → Result (List Json)
  filtered [] = ok []
  filtered (item ∷ items) = do
    pull_request ← is_pull_request item
    rest ← filtered items
    ok (if pull_request then rest else item ∷ rest)

  unfoldable pub converted : List Json → Result (List Issue)
  converted [] = ok []
  converted (item ∷ items) = do i ← to_issue pydantic item; rest ← converted items; ok (i ∷ rest)

  unfoldable pub issues_of : List Json → Result (List Issue)
  unfolding filtered converted
  issues_of entries = do items ← filtered entries; converted items

  filtered-only_crashes : (items : List Json) → only_crashes (filtered items) ≡ true
  unfolding filtered only_crashes
  filtered-only_crashes [] = refl
  filtered-only_crashes (item ∷ items) =
      ground (arith, is_pull_request-only_crashes item, filtered-only_crashes items)

  converted-only_crashes : (items : List Json) → only_crashes (converted items) ≡ true
  unfolding converted only_crashes
  converted-only_crashes [] = refl
  converted-only_crashes (item ∷ items) =
      ground (arith, to_issue-only_crashes pydantic item, converted-only_crashes items)

  pub issues_of-only_crashes : (items : List Json) → only_crashes (issues_of items) ≡ true
  unfolding issues_of
  issues_of-only_crashes items =
      only_crashes-bind (filtered items) converted (filtered-only_crashes items)
        converted-only_crashes

  -- the response for a page, from the line `if entry.etag` on
  unfoldable pub page_response : ListQuery → Text → CachedList → Result Response
  page_response q x_cache entry = do
    forwarded_link ← rewrite_link_header urls entry.link issues_path
    found ← issues_of entry.entries
    ok (record {
      status = 200;
      headers = paged q.page q.per_page (
          header_set (text "Link") forwarded_link
            (header_set (text "ETag") (some entry.etag) ((text "X-Cache", x_cache) ∷ [])));
      body = issues found;
    })

  pub page_response-only_crashes :
      (q : ListQuery) (x_cache : Text) (entry : CachedList)
      → only_crashes (page_response q x_cache entry) ≡ true
  unfolding page_response only_crashes
  page_response-only_crashes q x_cache entry =
      only_crashes-bind (rewrite_link_header urls entry.link issues_path) _
        (rewrite_link_header-only_crashes urls entry.link issues_path)
        λ l.
          only_crashes-bind (issues_of entry.entries) _ (issues_of-only_crashes entry.entries)
            λ i. refl

  -- `if settings.cache_enabled and entry.etag: cache.set(key, entry)`
  unfoldable pub remember : ListQuery → CachedList → Cache → Cache
  remember q entry c =
      if cache_enabled && not (is_empty entry.etag) then set (cache_key q) entry c else c

  pub entry_of-only_crashes : (result : GitHubResult) → only_crashes (entry_of result) ≡ true
  unfolding entry_of only_crashes
  entry_of-only_crashes result =
      only_crashes-bind (list_of result.payload) _ (list_of-only_crashes result.payload) λ e. refl

  unfoldable pub missed : ListQuery → Result CachedList → Cache → Result Response × Cache
  missed q (raise e) c = (raise e, c)
  missed q (ok entry) c = (page_response q (text "MISS") entry, remember q entry (record_miss c))

  -- a `304` to the validator of a cached page, or a page
  unfoldable pub served :
      ListQuery → Option CachedList → Bool → GitHubResult → Cache → Result Response × Cache
  served q (some entry) true result c = (page_response q (text "HIT") entry, record_hit c)
  served q _ _ result c = missed q (entry_of result) c

  unfoldable pub current : Text → Response
  current etag = record { status = 304; headers = (text "ETag", etag) ∷ []; body = empty }

  -- the handler behind the call of `github.list_issues`
  unfoldable pub answered :
      ListQuery → Option CachedList → Result GitHubResult → Cache → Result Response × Cache
  unfolding served missed current
  answered q cached (raise e) c = (raise e, c)
  answered q cached (ok result) c = elim (nonempty q.if_none_match) [
    | some e ↦
        if Github.not_modified result && is_text (wanted_etag q.if_none_match cached) e
        then (ok (current e), c)
        else served q cached (Github.not_modified result) result c
    | none ↦ served q cached (Github.not_modified result) result c
  ]

  -- `cache.get(key) if settings.cache_enabled else None`
  unfoldable pub look_up : ListQuery → Cache → Option CachedList × Cache
  look_up q c = if cache_enabled then get (cache_key q) c else (none, c)

  unfoldable pub list_issues : ListQuery → Cache → Result Response × Cache
  unfolding answered served missed current look_up remember
  list_issues q c =
      let (cached, c') = look_up q c in
      answered q cached
        (Github.list_issues repo floats up (list_params q) (wanted_etag q.if_none_match cached)) c'
