-- ===== src/Tests/Cached.antt =====
-- The cache, over numbers for keys and entries.
use issues_api_testbed.Prelude.{ℕ, ◌≡◌, refl, List, [], ◌∷◌, nat_eq}
use issues_api_testbed.Cache.Order.{latest}
use issues_api_testbed.Cache.{ResponseCache, init, get, set}
use issues_api_testbed.Cache.Lru.{
  IsValid, Tracks, Call, get_key, set_key, step, run, history, run-Tracks, run-IsValid,
}

abbrev fresh : ResponseCache ℕ ℕ
fresh = record { max_entries = 2; entries = []; hits = 0; misses = 0 }

abbrev calls : List (Call ℕ ℕ)
calls = set_key 1 10 ∷ set_key 2 20 ∷ get_key 1 ∷ set_key 3 30 ∷ []

abbrev full : ResponseCache ℕ ℕ
full = record fresh { entries = (1, 10) ∷ (2, 20) ∷ [] }

-- the entry that was used least recently goes
run_example : (run fresh calls).entries ≡ (1, 10) ∷ (3, 30) ∷ []
unfolding run step get set
run_example = refl

run-Tracks_example : Tracks 2 (history 2 [] calls) (run fresh calls)
run-Tracks_example =
    run-Tracks 2 calls [] fresh
      (record { room = refl; window = unfold latest in refl; distinct = tt })

run-IsValid_example : IsValid (run fresh calls) × ((run fresh calls).max_entries ≡ 2)
unfolding init
run-IsValid_example = run-IsValid {V = ℕ} 2 calls refl
