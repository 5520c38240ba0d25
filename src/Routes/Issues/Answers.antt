-- ===== src/Routes/Issues/Answers.antt =====
-- What `list_issues` does with GitHub's answer, and what a call leaves of the cache.
use issues_api_testbed.Prelude.{
  ℕ, ◌≡◌, ◌∙◌, ◌⊎◌, inl, inr, ◌&&◌, not, is_empty, true, Bool-cases, Option, Option-cases, some,
  arith, Text, text, text_eq, nat_eq, pair_eq, ==_refl,
}
use issues_api_testbed.Errors.{Result, Result-cases, ok, raise}
use issues_api_testbed.Http.{Response}
use issues_api_testbed.Cache.{CachedList, CacheKey, record_hit, record_miss}
use issues_api_testbed.Cache.Lru.{IsValid, Call, get_key, set_key, hit, miss, step}
use issues_api_testbed.Cache.Entries.{step-IsValid}
use issues_api_testbed.Github
use issues_api_testbed.Github.{GitHubResult}
use issues_api_testbed.Routes.Issues.Defs.{Services}
use issues_api_testbed.Routes.Issues.Listing.{
  ListQuery, Cache, cache_key, list_params, nonempty, wanted_etag, entry_of, page_response,
  remember, missed, served, current, answered, look_up, list_issues,
}

-- valid, within the bound `n`
abbrev pub IsBounded : ℕ → Cache → Type 0
IsBounded n c = IsValid c × (c.max_entries ≡ n)

step-IsBounded :
    (n : ℕ) (a : Call CacheKey CachedList) (c : Cache) → IsBounded n c → IsBounded n (step c a)
step-IsBounded n a c h = let (v, room) = step-IsValid c a h.0 in (v, room ∙ h.1)

module _ (sv : Services) where
  open sv use {floats, repo, up, cache_enabled}

  -- the three ways in which an answer of GitHub is answered
  pub answered-cases :
      (q : ListQuery) (cached : Option CachedList) (r : GitHubResult) (c : Cache)
      → ((e : Text) × (nonempty q.if_none_match ≡ some e)
          × (Github.not_modified r ≡ true)
          × (answered sv q cached (ok r) c ≡ (ok (current sv e), c)))
        ⊎ ((entry : CachedList) × (cached ≡ some entry)
            × (Github.not_modified r ≡ true)
            × (wanted_etag q.if_none_match cached ≡ some entry.etag)
            × (answered sv q cached (ok r) c
                ≡ (page_response sv q (text "HIT") entry, record_hit c)))
        ⊎ (answered sv q cached (ok r) c ≡ missed sv q (entry_of r) c)
  unfolding answered served wanted_etag
  answered-cases q cached r c = elim (Bool-cases (Github.not_modified r)) [
    | inr new ↦ inr (inr (ground arith))
    | inl same ↦ elim (Option-cases (nonempty q.if_none_match)) [
      | inr (e, own) ↦ inl (e, own, same, ground (arith, ==_refl e))
      | inl none_sent ↦ elim (Option-cases cached) [
        | inl cold ↦ inr (inr (ground arith))
        | inr (entry, warm) ↦ inr (inl (entry, warm, same, ground arith, ground arith))
      ]
    ]
  ]

  pub missed-page :
      (q : ListQuery) (r : GitHubResult) (c : Cache) (out : Response)
      → (missed sv q (entry_of r) c).0 ≡ ok out
      → (entry : CachedList) × (entry_of r ≡ ok entry)
        × (page_response sv q (text "MISS") entry ≡ ok out)
  unfolding missed
  missed-page q r c out h = elim (Result-cases (entry_of r)) [
    | inl (e, failed) ↦ absurd (ground arith)
    | inr (entry, made) ↦ (entry, made, ground arith)
  ]

  look_up-IsBounded :
      (n : ℕ) (q : ListQuery) (c : Cache) → IsBounded n c → IsBounded n (look_up sv q c).1
  unfolding look_up step
  look_up-IsBounded n q c h = elim (Bool-cases cache_enabled) [
    | inl on ↦ rw on (step-IsBounded n (get_key (cache_key q)) c h)
    | inr off ↦ rw off h
  ]

  missed-IsBounded :
      (n : ℕ) (q : ListQuery) (e : Result CachedList) (c : Cache)
      → IsBounded n c
      → IsBounded n (missed sv q e c).1
  unfolding missed remember step
  missed-IsBounded n q (raise e) c h = h
  missed-IsBounded n q (ok entry) c h =
      elim (Bool-cases (cache_enabled && not (is_empty entry.etag))) [
        | inl kept ↦ rw kept (
            step-IsBounded n (set_key (cache_key q) entry) (record_miss c)
              (step-IsBounded n miss c h))
        | inr passed ↦ rw passed (step-IsBounded n miss c h)
      ]

  answered-IsBounded :
      (n : ℕ) (q : ListQuery) (cached : Option CachedList) (r : Result GitHubResult) (c : Cache)
      → IsBounded n c
      → IsBounded n (answered sv q cached r c).1
  unfolding step
  answered-IsBounded n q cached (raise e) c h = unfold answered in h
  answered-IsBounded n q cached (ok r) c h = elim (answered-cases q cached r c) [
    | inl (e, own, same, done) ↦ rw done h
    | inr (inl (entry, warm, same, sent, done)) ↦ rw done (step-IsBounded n hit c h)
    | inr (inr done) ↦ rw done (missed-IsBounded n q (entry_of r) c h)
  ]

  -- A call leaves a valid cache valid, with its bound.
  pub list_issues-IsBounded :
      (n : ℕ) (q : ListQuery) (c : Cache) → IsBounded n c → IsBounded n (list_issues sv q c).1
  list_issues-IsBounded n q c h =
      unfold list_issues in
      answered-IsBounded n q (look_up sv q c).0
        (Github.list_issues repo floats up (list_params q)
          (wanted_etag q.if_none_match (look_up sv q c).0))
        (look_up sv q c).1 (look_up-IsBounded n q c h)
