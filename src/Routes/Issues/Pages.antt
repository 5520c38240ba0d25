-- ===== src/Routes/Issues/Pages.antt =====
-- What a page of `list_issues` shows.
use issues_api_testbed.Prelude.{
  ◌≡◌, ◌∙◌, ◌⊎◌, inl, inr, refl, sym, ap, subst, arith, true, false, Bool-cases, Option, none, some,
  ◌≢◌, is_empty, text_beq, text_eq, text_ne, List, [], ◌∷◌, Text, text,
}
use issues_api_testbed.Python.{Json}
use issues_api_testbed.Errors.{Result, Result-cases, ok, raise}
use issues_api_testbed.Schemas.{Pydantic, Issue, is_pull_request, to_issue}
use issues_api_testbed.Python.Str.{decimal}
use issues_api_testbed.Errors.{Headers}
use issues_api_testbed.Http.{Response, Body}
use issues_api_testbed.Cache.{CachedList, find}
use issues_api_testbed.Logging.{find-set_header, find-set_header_ne}
use issues_api_testbed.Pagination.{rewrite_link_header}
use issues_api_testbed.Github
use issues_api_testbed.Github.{GitHubResult}
use issues_api_testbed.Routes.Issues.Defs.{Services, issues_path, header_set, paged}
use issues_api_testbed.Routes.Issues.Listing.{
  ListQuery, Cache, list_params, nonempty, wanted_etag, entry_of, filtered, converted, issues_of,
  page_response, current, answered, look_up, list_issues,
}
use issues_api_testbed.Routes.Issues.Answers.{answered-cases, missed-page}

-- The issues of a list of items, in order: an item that is a pull request is left out, and any other
-- is what `to_issue` makes of it.
pub data Lists (pydantic : Pydantic) : List Json → List Issue → Type 0 where
  no_items : Lists pydantic [] []
  hidden :
      {item : Json} {items : List Json} {shown : List Issue}
      → is_pull_request item ≡ ok true
      → Lists pydantic items shown
      → Lists pydantic (item ∷ items) shown
  listed :
      {item : Json} {items : List Json} {i : Issue} {shown : List Issue}
      → is_pull_request item ≡ ok false
      → to_issue pydantic item ≡ ok i
      → Lists pydantic items shown
      → Lists pydantic (item ∷ items) (i ∷ shown)

module _ (sv : Services) where
  open sv use {floats, repo, up, pydantic, urls}

  filtered-Lists :
      (items kept : List Json) (shown : List Issue)
      → filtered sv items ≡ ok kept
      → converted sv kept ≡ ok shown
      → Lists pydantic items shown
  unfolding filtered converted
  filtered-Lists [] kept shown h k =
      let none_kept : [] ≡ kept = cc in
      let none_shown : [] ≡ shown = ground arith in
      subst (λ x. Lists pydantic [] x) none_shown no_items
  filtered-Lists (item ∷ items) kept shown h k = elim (Result-cases (is_pull_request item)) [
    | inl (e, failed) ↦ absurd (ground arith)
    | inr (pr, tested) ↦ elim (Result-cases (filtered sv items)) [
      | inl (e, failed) ↦ absurd (ground arith)
      | inr (rest, done) ↦ elim (Bool-cases pr) [
        | inl pull ↦
            let same : rest ≡ kept = ground arith in
            hidden (tested ∙ ap ok pull) (filtered-Lists items kept shown (done ∙ ap ok same) k)
        | inr other ↦
            let first : (item ∷ rest) ≡ kept = ground arith in
            let k' : converted sv (item ∷ rest) ≡ ok shown = ap (converted sv) first ∙ k in
            elim (Result-cases (to_issue pydantic item)) [
              | inl (e, failed) ↦ absurd (ground arith)
              | inr (i, made) ↦ elim (Result-cases (converted sv rest)) [
                | inl (e, failed) ↦ absurd (ground arith)
                | inr (more, conv) ↦
                    let all : (i ∷ more) ≡ shown = ground arith in
                    subst (λ x. Lists pydantic (item ∷ items) x) all
                      (listed (tested ∙ ap ok other) made
                        (filtered-Lists items rest more done conv))
              ]
            ]
      ]
    ]
  ]

  issues_of-Lists :
      (items : List Json) (shown : List Issue)
      → issues_of sv items ≡ ok shown
      → Lists pydantic items shown
  unfolding issues_of
  issues_of-Lists items shown h = elim (Result-cases (filtered sv items)) [
    | inl (e, failed) ↦ absurd (ground arith)
    | inr (kept, done) ↦ filtered-Lists items kept shown done (ground arith)
  ]

  find-header_set_ne :
      (name other : Text) (v : Option Text) (headers : Headers)
      → name ≢ other
      → find other (header_set name v headers) ≡ find other headers
  find-header_set_ne name other none headers ne = refl
  find-header_set_ne name other (some v) headers ne = elim (Bool-cases (is_empty v)) [
    | inl blank ↦ rw blank refl
    | inr given ↦ rw given (find-set_header_ne name other v headers ne)
  ]

  -- a page of a query, made of an entry: its status, its issues, and the headers that tell the page
  -- and how the cache was used
  pub record IsPage (q : ListQuery) (x_cache : Text) (entry : CachedList) (out : Response)
      : Type 0 where
    pub status : out.status ≡ 200
    pub shown : List Issue
    pub body : out.body ≡ Body.issues shown
    pub lists : Lists pydantic entry.entries shown
    pub page : find (text "X-Page") out.headers ≡ some (decimal q.page)
    pub per_page : find (text "X-Per-Page") out.headers ≡ some (decimal q.per_page)
    pub cache : find (text "X-Cache") out.headers ≡ some x_cache

  -- the headers of a page
  abbrev page_headers : ListQuery → Text → Option Text → CachedList → Headers
  page_headers q x_cache forwarded_link entry = paged q.page q.per_page (
      header_set (text "Link") forwarded_link
        (header_set (text "ETag") (some entry.etag) ((text "X-Cache", x_cache) ∷ [])))

  find-x_cache :
      (q : ListQuery) (x_cache : Text) (l : Option Text) (entry : CachedList)
      → find (text "X-Cache") (page_headers q x_cache l entry) ≡ some x_cache
  unfolding find text text_beq
  find-x_cache q x_cache l entry =
      find-set_header_ne (text "X-Per-Page") (text "X-Cache") (decimal q.per_page) _
        (text_ne _ _ refl)
      ∙ find-set_header_ne (text "X-Page") (text "X-Cache") (decimal q.page) _ (text_ne _ _ refl)
      ∙ find-header_set_ne (text "Link") (text "X-Cache") l _ (text_ne _ _ refl)
      ∙ find-header_set_ne (text "ETag") (text "X-Cache") (some entry.etag) _ (text_ne _ _ refl)

  find-page :
      (q : ListQuery) (x_cache : Text) (l : Option Text) (entry : CachedList)
      → find (text "X-Page") (page_headers q x_cache l entry) ≡ some (decimal q.page)
  unfolding text text_beq
  find-page q x_cache l entry =
      find-set_header_ne (text "X-Per-Page") (text "X-Page") (decimal q.per_page) _
        (text_ne _ _ refl)
      ∙ find-set_header (text "X-Page") (decimal q.page) _

  page_response-IsPage :
      (q : ListQuery) (x_cache : Text) (entry : CachedList) (out : Response)
      → page_response sv q x_cache entry ≡ ok out
      → IsPage q x_cache entry out
  unfolding page_response
  page_response-IsPage q x_cache entry out h =
      elim (Result-cases (rewrite_link_header urls entry.link issues_path)) [
        | inl (e, failed) ↦ absurd (ground arith)
        | inr (l, linked) ↦ elim (Result-cases (issues_of sv entry.entries)) [
          | inl (e, failed) ↦ absurd (ground arith)
          | inr (shown, made) ↦
              let page : Response = record {
                status = 200;
                headers = page_headers q x_cache l entry;
                body = Body.issues shown;
              } in
              let same : page ≡ out = ground arith in
              subst (λ x. IsPage q x_cache entry x) same
                (record {
                  status = refl;
                  shown = shown;
                  body = refl;
                  lists = issues_of-Lists entry.entries shown made;
                  page = find-page q x_cache l entry;
                  per_page = find-set_header (text "X-Per-Page") (decimal q.per_page) _;
                  cache = find-x_cache q x_cache l entry;
                })
        ]
      ]

  -- A response of `list_issues` is the `304` to the caller's own validator, or the page of its query:
  -- the page shows the issues of the cached entry, or of what GitHub has just sent, in their order
  -- and without the pull requests, and its headers have the number and the size of the page and tell
  -- which of the two it is.
  pub list_issues-IsPage :
      (q : ListQuery) (c : Cache) (out : Response)
      → (list_issues sv q c).0 ≡ ok out
      → ((e : Text) × (nonempty q.if_none_match ≡ some e) × (out ≡ current sv e))
        ⊎ ((entry : CachedList) × ((look_up sv q c).0 ≡ some entry)
            × IsPage q (text "HIT") entry out)
        ⊎ ((r : GitHubResult) × (entry : CachedList) × (Github.list_issues repo floats up
                (list_params q)
                (wanted_etag q.if_none_match (look_up sv q c).0)
              ≡ ok r)
            × (entry_of r ≡ ok entry)
            × IsPage q (text "MISS") entry out)
  unfolding list_issues
  list_issues-IsPage q c out h =
      let (cached, c') = look_up sv q c in
      let asked : Result GitHubResult =
        Github.list_issues repo floats up (list_params q) (wanted_etag q.if_none_match cached) in
      elim (Result-cases asked) [
        | inl (e, failed) ↦
            let broken : raise e ≡ ok out =
              unfold answered in ap (λ x. (answered sv q cached x c').0) (sym failed) ∙ h in
            absurd (cc)
        | inr (r, sent) ↦
            let answer : (answered sv q cached (ok r) c').0 ≡ ok out =
              ap (λ x. (answered sv q cached x c').0) (sym sent) ∙ h in
            elim (answered-cases sv q cached r c') [
              | inl (e, own, same, done) ↦
                  let sent_back : ok (current sv e) ≡ ok out = ap (λ x. x.0) (sym done) ∙ answer in
                  inl (e, own, cc)
              | inr (inl (entry, warm, same, validated, done)) ↦ inr (
                  inl (
                    entry,
                    warm,
                    page_response-IsPage q (text "HIT") entry out
                        (ap (λ x. x.0) (sym done) ∙ answer),
                  ))
              | inr (inr done) ↦
                  let (entry, made, page) =
                    missed-page sv q r c' out (ap (λ x. x.0) (sym done) ∙ answer) in
                  inr (
                    inr (r, entry, sent, made, page_response-IsPage q (text "MISS") entry out page))
            ]
      ]
