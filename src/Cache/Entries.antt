-- ===== src/Cache/Entries.antt =====
-- What every operation of the cache keeps: the bound, the distinct keys, and any property of the
-- single entries.
use issues_api_testbed.Prelude.{
  ℕ, ◌≡◌, refl, sym, ◌∙◌, subst, some, List, [], ◌∷◌, ◌++◌, arith, HasEq, ◌==◌, eq_of_==,
  Bool-cases, inl, inr, ltb, length, Option-cases,
}
use issues_api_testbed.Cache.Defs.{ResponseCache, find, del, evict, get, set}
use issues_api_testbed.Cache.Order.{evict_all, evict-latest, evict-latest}
use issues_api_testbed.Cache.Lru.{
  IsValid, Call, get_key, set_key, step, Tracks, step-Tracks, Tracks-IsValid, get_miss, get_hit,
  set-entries,
}

module _ {K V : Type 0} ⦃e : HasEq K⦄ where
  -- one call keeps a cache valid, with its bound
  pub step-IsValid :
      (c : ResponseCache K V) (a : Call K V)
      → IsValid c
      → IsValid (step c a) × ((step c a).max_entries ≡ c.max_entries)
  step-IsValid c a v =
      let start : Tracks c.max_entries c.entries c = record {
        room = refl;
        window =
            sym (evict_all c.max_entries c.entries v.bounded)
            ∙ evict-latest c.max_entries c.entries;
        distinct = v.distinct;
      } in
      let t = step-Tracks c.max_entries c.entries c a start in
      (Tracks-IsValid c.max_entries _ (step c a) v.positive t, t.room)

  pub get-IsValid : (k : K) (c : ResponseCache K V) → IsValid c → IsValid (get k c).1
  unfolding step
  get-IsValid k c v = (step-IsValid c (get_key k) v).0

  pub set-IsValid : (k : K) (v : V) (c : ResponseCache K V) → IsValid c → IsValid (set k v c)
  unfolding step
  set-IsValid k w c v = (step-IsValid c (set_key k w) v).0

-- every entry has the property, for its key
abbrev pub AllEntries : {K V : Type 0} → (K → V → Type 0) → List (K × V) → Type 0
AllEntries P [] = Unit
AllEntries P ((k, v) ∷ d) = P k v × AllEntries P d

pub AllEntries-mono :
    {K V : Type 0} (P Q : K → V → Type 0)
    → ((k : K) (v : V) → P k v → Q k v)
    → (d : List (K × V)) → AllEntries P d
    → AllEntries Q d
AllEntries-mono P Q f [] h = tt
AllEntries-mono P Q f ((k, v) ∷ d) h = (f k v h.0, AllEntries-mono P Q f d h.1)

module _ {K V : Type 0} ⦃e : HasEq K⦄ (P : K → V → Type 0) where
  pub AllEntries-find :
      (k : K) (v : V) (d : List (K × V)) → AllEntries P d → find k d ≡ some v → P k v
  unfolding find
  AllEntries-find k v [] h f = absurd (cc)
  AllEntries-find k v ((j, w) ∷ d) h f = elim (Bool-cases (j == k)) [
    | inl same ↦ subst (λ (x : K × V). P x.0 x.1) (ground (arith, eq_of_== j k)) h.0
    | inr other ↦ AllEntries-find k v d h.1 (ground arith)
  ]

  AllEntries-append :
      (d : List (K × V)) (k : K) (v : V) → AllEntries P d → P k v → AllEntries P (d ++ (k, v) ∷ [])
  AllEntries-append [] k v h p = (p, tt)
  AllEntries-append (x ∷ d) k v h p = (h.0, AllEntries-append d k v h.1 p)

  AllEntries-del : (k : K) (d : List (K × V)) → AllEntries P d → AllEntries P (del k d)
  unfolding del
  AllEntries-del k [] h = tt
  AllEntries-del k ((j, w) ∷ d) h = elim (Bool-cases (j == k)) [
    | inl same ↦ rw same (AllEntries-del k d h.1)
    | inr other ↦ rw other (h.0, AllEntries-del k d h.1)
  ]

  AllEntries-evict : (n : ℕ) (d : List (K × V)) → AllEntries P d → AllEntries P (evict n d)
  unfolding evict
  AllEntries-evict n [] h = tt
  AllEntries-evict n (x ∷ d) h = elim (Bool-cases (ltb n (length (x ∷ d)))) [
    | inl over ↦ rw over (AllEntries-evict n d h.1)
    | inr fits ↦ rw fits h
  ]

  pub get-AllEntries :
      (k : K) (c : ResponseCache K V) → AllEntries P c.entries → AllEntries P (get k c).1.entries
  get-AllEntries k c h = elim (Option-cases (find k c.entries)) [
    | inl gone ↦ rw (get_miss k c gone) h
    | inr (v, found) ↦ rw (get_hit k v c found) (
        AllEntries-append (del k c.entries) k v (AllEntries-del k c.entries h)
          (AllEntries-find k v c.entries h found))
  ]

  pub set-AllEntries :
      (k : K) (v : V) (c : ResponseCache K V)
      → AllEntries P c.entries
      → P k v
      → AllEntries P (set k v c).entries
  set-AllEntries k v c h p = rw (set-entries k v c) (
      AllEntries-evict c.max_entries _
        (AllEntries-append (del k c.entries) k v (AllEntries-del k c.entries h) p))
