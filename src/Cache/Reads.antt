-- ===== src/Cache/Reads.antt =====
-- What a `get` of the cache returns, right after a `set` and after another `get`.
use issues_api_testbed.Prelude.{
  ◌≤◌, ◌<◌, ◌≡◌, ◌≢◌, ◌⊎◌, inl, inr, refl, sym, ap, ◌∙◌, none, some, [], ◌∷◌, arith, HasEq,
  ==_of_ne, Option-cases, length, length-append,
}
use issues_api_testbed.Cache.Defs.{ResponseCache, find, del, get, set}
use issues_api_testbed.Cache.Order.{
  touch, evict_all, find-touch, length-del_found, length-del-le, find-evict_last, find-del_self,
}
use issues_api_testbed.Cache.Lru.{get_miss, get_hit, set-entries}

module _ {K V : Type 0} ⦃e : HasEq K⦄ where
  get_lem : (k : K) (c : ResponseCache K V) → (get k c).0 ≡ find k c.entries
  unfolding get
  get_lem k c = ground arith

  -- Right after a `set` on a cache with room for one entry or more, a `get` of its key returns the entry.
  get-set_self :
      (k : K) (v : V) (c : ResponseCache K V) → 1 ≤ c.max_entries → (get k (set k v c)).0 ≡ some v
  get-set_self k v c p =
      get_lem k (set k v c)
      ∙ ap (find k) (set-entries k v c)
      ∙ find-evict_last c.max_entries k v (del k c.entries) p (find-del_self k c.entries)

  touch-fits :
      (k : K) (v : V) (c : ResponseCache K V)
      → length c.entries ≤ c.max_entries
      → ((find k c.entries ≢ none) ⊎ (length c.entries < c.max_entries))
      → length (touch k v c.entries) ≤ c.max_entries
  touch-fits k v c fits (inr space) =
      omega (arith, length-append (del k c.entries) ((k, v) ∷ []), length-del-le k c.entries)
  touch-fits k v c fits (inl there) = elim (Option-cases (find k c.entries)) [
    | inl gone ↦ absurd (there gone)
    | inr (w, found) ↦
        omega (
          arith,
          length-append (del k c.entries) ((k, v) ∷ []),
          length-del_found k w c.entries found,
        )
  ]

  -- In a cache within its bound, a `set` changes the entry of no other key, where its own key is
  -- there or the cache has room.
  get-set_ne :
      (k j : K) (v : V) (c : ResponseCache K V)
      → length c.entries ≤ c.max_entries
      → k ≢ j
      → ((find k c.entries ≢ none) ⊎ (length c.entries < c.max_entries))
      → (get j (set k v c)).0 ≡ (get j c).0
  get-set_ne k j v c fits ne room =
      get_lem j (set k v c)
      ∙ ap (find j) (
          set-entries k v c
          ∙ evict_all c.max_entries (touch k v c.entries) (touch-fits k v c fits room))
      ∙ find-touch k j v c.entries
      ∙ rw (==_of_ne k j ne) (sym (get_lem j c))

  -- A `get` changes what no later `get` returns.
  find-get : (k j : K) (c : ResponseCache K V) → find j (get k c).1.entries ≡ find j c.entries
  find-get k j c = elim (Option-cases (find k c.entries)) [
    | inl gone ↦ rw (get_miss k c gone) refl
    | inr (v, found) ↦
        rw (get_hit k v c found) (ground (arith, find-touch k j v c.entries, e.beq_iff k j))
  ]
