-- ===== src/Routes/Issues/Interleaved.antt =====
-- Several calls of `list_issues` on one cache. A call gives way to the others where it awaits
-- GitHub, between `cache.get` and what it does with the answer.
use issues_api_testbed.Prelude.{Option, List, ◌∷◌}
use issues_api_testbed.Errors.{Exc, ok, raise}
use issues_api_testbed.Cache.{CachedList}
use issues_api_testbed.Github.{GitHubResult}
use issues_api_testbed.Routes.Issues.Defs.{Services}
use issues_api_testbed.Routes.Issues.Listing.{ListQuery, Cache, answered, look_up}

-- a call that waits for GitHub, with the page that it found in the cache
pub record Pending : Type 0 where
  pub query : ListQuery
  pub cached : Option CachedList

-- The cache, the calls that wait, and what GitHub has answered so far, to which query.
pub record Server : Type 0 where
  pub cache : Cache
  pub pending : List Pending
  pub log : List (ListQuery × GitHubResult)

-- one of several waiting calls, and the others
pub data Takes (p : Pending) : List Pending → List Pending → Type 0 where
  first : {ps : List Pending} → Takes p (p ∷ ps) ps
  later : {x : Pending} {ps qs : List Pending} → Takes p ps qs → Takes p (x ∷ ps) (x ∷ qs)

module _ (sv : Services) where
  -- the call, up to its `await`
  unfoldable pub begin : ListQuery → Server → Server
  begin q s = record s {
    cache = (look_up sv q s.cache).1;
    pending = record { query = q; cached = (look_up sv q s.cache).0 } ∷ s.pending;
  }

  -- the rest of the call, on GitHub's answer
  unfoldable pub finish : Pending → List Pending → GitHubResult → Server → Server
  finish p rest r s = record s {
    cache = (answered sv p.query p.cached (ok r) s.cache).1;
    pending = rest;
    log = (p.query, r) ∷ s.log;
  }

  -- the rest of the call, where the client raises
  unfoldable pub abort : Pending → List Pending → Exc → Server → Server
  abort p rest e s = record s {
    cache = (answered sv p.query p.cached (raise e) s.cache).1;
    pending = rest;
  }

  pub data Step (s : Server) : Server → Type 0 where
    begins : (q : ListQuery) → Step s (begin q s)
    finishes :
        (p : Pending) (rest : List Pending) (r : GitHubResult)
        → Takes p s.pending rest
        → Step s (finish p rest r s)
    aborts :
        (p : Pending) (rest : List Pending) (e : Exc)
        → Takes p s.pending rest
        → Step s (abort p rest e s)

  pub data Reach (s : Server) : Server → Type 0 where
    here : Reach s s
    next : {t u : Server} → Reach s t → Step t u → Reach s u
