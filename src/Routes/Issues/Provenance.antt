-- ===== src/Routes/Issues/Provenance.antt =====
-- Calls of `list_issues` that overlap: where the pages come from that they cache and serve.
use issues_api_testbed.Prelude.{
  ◌≡◌, ap, sym, subst, ◌∙◌, ◌⊎◌, inl, inr, refl, ◌&&◌, not, is_empty, true, Bool-cases, Option,
  Option-cases, none, some, List, [], ◌∷◌, arith, Text, text, text_eq, nat_eq, pair_eq,
}
use issues_api_testbed.Errors.{Result, Result-cases, ok}
use issues_api_testbed.Http.{Response}
use issues_api_testbed.Cache.{CachedList, CacheKey, find, get, record_hit, record_miss}
use issues_api_testbed.Cache.Lru.{IsValid, get_miss, get_hit}
use issues_api_testbed.Cache.Entries.{
  AllEntries, AllEntries-mono, AllEntries-find, get-AllEntries, set-AllEntries, get-IsValid,
  set-IsValid,
}
use issues_api_testbed.Github
use issues_api_testbed.Github.{GitHubResult}
use issues_api_testbed.Routes.Issues.Defs.{Services}
use issues_api_testbed.Routes.Issues.Listing.{
  ListQuery, Cache, cache_key, nonempty, wanted_etag, entry_of, page_response, remember, missed,
  current, answered, look_up,
}
use issues_api_testbed.Routes.Issues.Answers.{answered-cases, missed-page}
use issues_api_testbed.Routes.Issues.Interleaved.{
  Pending, Server, Takes, first, later, begin, finish, abort, Step, begins, finishes, aborts, Reach,
  here, next,
}

-- GitHub has given the page to a query with the key.
abbrev pub Given : List (ListQuery × GitHubResult) → CacheKey → CachedList → Type 0
Given [] k entry = ⊥
Given ((q, r) ∷ log) k entry = ((cache_key q ≡ k) × (entry_of r ≡ ok entry)) ⊎ Given log k entry

abbrev pub GivenOption : List (ListQuery × GitHubResult) → CacheKey → Option CachedList → Type 0
GivenOption log k none = Unit
GivenOption log k (some entry) = Given log k entry

abbrev pub AllPending : List (ListQuery × GitHubResult) → List Pending → Type 0
AllPending log [] = Unit
AllPending log (p ∷ ps) = GivenOption log (cache_key p.query) p.cached × AllPending log ps

-- The cache is valid, and its pages and those that the waiting calls hold are GitHub's.
pub record IsSound (s : Server) : Type 0 where
  pub valid : IsValid s.cache
  pub entries : AllEntries (Given s.log) s.cache.entries
  pub pending : AllPending s.log s.pending

GivenOption-cons :
    (x : ListQuery × GitHubResult) (log : List (ListQuery × GitHubResult)) (k : CacheKey)
    (o : Option CachedList)
    → GivenOption log k o
    → GivenOption (x ∷ log) k o
GivenOption-cons (q, r) log k none h = tt
GivenOption-cons (q, r) log k (some entry) h = inr h

AllPending-cons :
    (x : ListQuery × GitHubResult) (log : List (ListQuery × GitHubResult)) (ps : List Pending)
    → AllPending log ps
    → AllPending (x ∷ log) ps
AllPending-cons x log [] h = tt
AllPending-cons x log (p ∷ ps) h =
    (GivenOption-cons x log (cache_key p.query) p.cached h.0, AllPending-cons x log ps h.1)

taken :
    {p : Pending} {ps rest : List Pending} (log : List (ListQuery × GitHubResult))
    → Takes p ps rest
    → AllPending log ps
    → GivenOption log (cache_key p.query) p.cached × AllPending log rest
taken log first h = h
taken log (later t) h = let (mine, others) = taken log t h.1 in (mine, (h.0, others))

module _ (sv : Services) where
  open sv use {cache_enabled}

  -- the part of soundness that is about the cache
  abbrev Holds : List (ListQuery × GitHubResult) → Cache → Type 0
  Holds log c = IsValid c × AllEntries (Given log) c.entries

  get-Holds :
      (log : List (ListQuery × GitHubResult)) (k : CacheKey) (c : Cache)
      → Holds log c
      → Holds log (get k c).1
  get-Holds log k c h = (get-IsValid k c h.0, get-AllEntries (Given log) k c h.1)

  look_up-Holds :
      (log : List (ListQuery × GitHubResult)) (q : ListQuery) (c : Cache)
      → Holds log c
      → Holds log (look_up sv q c).1 × GivenOption log (cache_key q) (look_up sv q c).0
  unfolding look_up
  look_up-Holds log q c h = elim (Bool-cases cache_enabled) [
    | inr off ↦ rw off (h, tt)
    | inl on ↦ elim (Option-cases (find (cache_key q) c.entries)) [
      | inl gone ↦ rw (on, get_miss (cache_key q) c gone) (h, tt)
      | inr (entry, there) ↦ rw on (
        get-Holds log (cache_key q) c h,
        rw (get_hit (cache_key q) entry c there)
            (AllEntries-find (Given log) (cache_key q) entry c.entries h.1 there),
      )
    ]
  ]

  remember-Holds :
      (log : List (ListQuery × GitHubResult)) (q : ListQuery) (entry : CachedList) (c : Cache)
      → Holds log c
      → Given log (cache_key q) entry
      → Holds log (remember sv q entry c)
  unfolding remember
  remember-Holds log q entry c h g =
      elim (Bool-cases (cache_enabled && not (is_empty entry.etag))) [
        | inl kept ↦ rw kept (
          set-IsValid (cache_key q) entry c h.0,
          set-AllEntries (Given log) (cache_key q) entry c h.1 g,
        )
        | inr passed ↦ rw passed h
      ]

  hit-Holds :
      (log : List (ListQuery × GitHubResult)) (c : Cache) → Holds log c → Holds log (record_hit c)
  hit-Holds log c (v, h) =
      (record { positive = v.positive; bounded = v.bounded; distinct = v.distinct }, h)

  miss-Holds :
      (log : List (ListQuery × GitHubResult)) (c : Cache) → Holds log c → Holds log (record_miss c)
  miss-Holds log c (v, h) =
      (record { positive = v.positive; bounded = v.bounded; distinct = v.distinct }, h)

  cons-Holds :
      (x : ListQuery × GitHubResult) (log : List (ListQuery × GitHubResult)) (c : Cache)
      → Holds log c
      → Holds (x ∷ log) c
  cons-Holds (q, r) log c h =
      (h.0, AllEntries-mono (Given log) (Given ((q, r) ∷ log)) (λ k v g. inr g) c.entries h.1)

  missed-Holds :
      (log : List (ListQuery × GitHubResult)) (q : ListQuery) (r : GitHubResult) (c : Cache)
      → Holds log c
      → Holds ((q, r) ∷ log) (missed sv q (entry_of r) c).1
  unfolding missed
  missed-Holds log q r c h = elim (Result-cases (entry_of r)) [
    | inl (e, failed) ↦ rw failed (cons-Holds (q, r) log c h)
    | inr (entry, made) ↦ rw made (
        remember-Holds ((q, r) ∷ log) q entry (record_miss c)
          (miss-Holds ((q, r) ∷ log) c (cons-Holds (q, r) log c h)) (inl (refl, made)))
  ]

  answered-Holds :
      (log : List (ListQuery × GitHubResult)) (q : ListQuery) (cached : Option CachedList)
      (r : GitHubResult) (c : Cache)
      → Holds log c
      → Holds ((q, r) ∷ log) (answered sv q cached (ok r) c).1
  answered-Holds log q cached r c h = elim (answered-cases sv q cached r c) [
    | inl (e, own, same, done) ↦ rw done (cons-Holds (q, r) log c h)
    | inr (inl (entry, warm, same, sent, done)) ↦
        rw done (hit-Holds ((q, r) ∷ log) c (cons-Holds (q, r) log c h))
    | inr (inr done) ↦ rw done (missed-Holds log q r c h)
  ]

  Step-IsSound : {s t : Server} → Step sv s t → IsSound s → IsSound t
  unfolding begin finish abort answered
  Step-IsSound {s} (begins q) h =
      let (c, found) = look_up-Holds s.log q s.cache (h.valid, h.entries) in
      record { valid = c.0; entries = c.1; pending = (found, h.pending) }
  Step-IsSound {s} (finishes p rest r t) h =
      let c = answered-Holds s.log p.query p.cached r s.cache (h.valid, h.entries) in
      record {
        valid = c.0;
        entries = c.1;
        pending = AllPending-cons (p.query, r) s.log rest (taken s.log t h.pending).1;
      }
  Step-IsSound {s} (aborts p rest e t) h = record {
    valid = h.valid;
    entries = h.entries;
    pending = (taken s.log t h.pending).1;
  }

  -- However calls of `list_issues` overlap on one cache, and whatever GitHub answers to each, if it
  -- was so at the start: the cache stays within its bound with distinct keys, and each of its pages is one that GitHub gave
  -- to a query with the same state, labels, page and page size.
  pub Reach-IsSound : {s t : Server} → Reach sv s t → IsSound s → IsSound t
  Reach-IsSound here h = h
  Reach-IsSound (next r st) h = Step-IsSound st (Reach-IsSound r h)

  -- Where a response to a waiting call comes from, GitHub having answered `r` to it.
  abbrev pub IsTraced : List (ListQuery × GitHubResult) → Pending → GitHubResult → Response → Type 0
  IsTraced log p r out =
      ((e : Text) × (nonempty p.query.if_none_match ≡ some e)
        × (Github.not_modified r ≡ true)
        × (out ≡ current sv e))
      ⊎ ((entry : CachedList) × (Github.not_modified r ≡ true)
          × (wanted_etag p.query.if_none_match p.cached ≡ some entry.etag)
          × Given log (cache_key p.query) entry
          × (page_response sv p.query (text "HIT") entry ≡ ok out))
      ⊎ ((entry : CachedList) × (entry_of r ≡ ok entry)
          × (page_response sv p.query (text "MISS") entry ≡ ok out))

  -- From a state that is sound, however calls overlap, a response to one of them is `304` to its own validator, or a cached
  -- page that GitHub gave to a query with the same key and whose validator GitHub has just
  -- confirmed, or the page that GitHub has just sent.
  pub response-IsTraced :
      {s t : Server} {p : Pending} {rest : List Pending} (r : GitHubResult) (out : Response)
      → IsSound s
      → Reach sv s t
      → Takes p t.pending rest
      → (answered sv p.query p.cached (ok r) t.cache).0 ≡ ok out
      → IsTraced t.log p r out
  response-IsTraced {s} {t} {p} r out start run turn done =
      let mine = (taken t.log turn (Reach-IsSound run start).pending).0 in
      elim (answered-cases sv p.query p.cached r t.cache) [
        | inl (e, own, same, how) ↦ inl (e, own, same, ground arith)
        | inr (inl (entry, warm, same, sent, how)) ↦ inr (
            inl (
              entry,
              same,
              sent,
              subst (GivenOption t.log (cache_key p.query)) warm mine,
              ap (λ (x : Result Response × Cache). x.0) (sym how) ∙ done,
            ))
        | inr (inr how) ↦ inr (
            inr (
              missed-page sv p.query r t.cache out
                (ap (λ (x : Result Response × Cache). x.0) (sym how) ∙ done)))
      ]
