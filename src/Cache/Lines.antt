-- ===== src/Cache/Lines.antt =====
-- What `set` logs: a line for each entry that it drops.
use issues_api_testbed.Prelude.{
  ◌≡◌, refl, ap, inl, inr, ℕ, List, [], ◌∷◌, ◌++◌, map, Text, text, ltb, length, if◌then◌else◌,
  Bool-cases, HasEq,
}
use issues_api_testbed.Python.{str, field, end}
use issues_api_testbed.Logging.Lines.{Line, debug, line}
use issues_api_testbed.Cache.Defs.{ResponseCache, set_item, move_to_end, evict, set}

-- what `popitem(last=False)` takes out, one after the other
unfoldable pub evicted : {A : Type 0} → ℕ → List A → List A
evicted max_entries [] = []
evicted max_entries (x ∷ d) =
    let rest = evicted max_entries d in if ltb max_entries (length (x ∷ d)) then x ∷ rest else []

pub evicted-evict :
    {A : Type 0} (max_entries : ℕ) (d : List A) → evicted max_entries d ++ evict max_entries d ≡ d
unfolding evicted evict
evicted-evict max_entries [] = refl
evicted-evict max_entries (x ∷ d) = elim (Bool-cases (ltb max_entries (length (x ∷ d)))) [
  | inl over ↦ rw over (ap (λ r. x ∷ r) (evicted-evict max_entries d))
  | inr within ↦ rw within refl
]

module _ {K V : Type 0} ⦃e : HasEq K⦄ (show : K → Text) where
  -- `show` is Python's `str` of a key
  abbrev eviction : K × V → Line
  eviction (k, v) = line debug (text "cache_evicted") (field (text "key") (str (show k)) end)

  -- the entries from which `set` drops the first ones
  abbrev grown : K → V → ResponseCache K V → List (K × V)
  grown key entry c = move_to_end key (set_item key entry c.entries)

  unfoldable pub set_lines : K → V → ResponseCache K V → List Line
  unfolding evicted
  set_lines key entry c = map eviction (evicted c.max_entries (grown key entry c))

  -- What is dropped and what is left are all that was there.
  set-lines_parts :
      (key : K) (entry : V) (c : ResponseCache K V)
      → evicted c.max_entries (grown key entry c) ++ (set key entry c).entries ≡ grown key entry c
  unfolding set
  set-lines_parts key entry c = evicted-evict c.max_entries (grown key entry c)
