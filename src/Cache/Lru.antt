-- ===== src/Cache/Lru.antt =====
-- The cache against an ideal one that forgets nothing: what it keeps, and what it evicts.
use issues_api_testbed.Prelude.{
  ℕ, ◌≤◌, ◌≡◌, inl, inr, refl, sym, ap, ◌∙◌, none, some, List, [], ◌∷◌, arith, HasEq, Option-cases,
  length, length-append,
}
use issues_api_testbed.Errors.{ok}
use issues_api_testbed.Cache.Defs.{
  ResponseCache, find, del, evict, init, get, set, record_hit, record_miss, clear,
}
use issues_api_testbed.Cache.Order.{
  KeysDistinct, touch, length-evict, latest, evict-latest, evict_all, touch-KeysDistinct,
  evict-KeysDistinct, move_to_end-set_item, evict-touch-evict, length-del_found,
}

pub record IsValid {K V : Type 0} ⦃e : HasEq K⦄ (c : ResponseCache K V) : Type 0 where
  pub positive : 1 ≤ c.max_entries
  pub bounded : length c.entries ≤ c.max_entries
  pub distinct : KeysDistinct c.entries

-- the calls of the cache's methods
pub data Call (K V : Type 0) : Type 0 where
  get_key : K → Call K V
  set_key : K → V → Call K V
  hit miss reset : Call K V

module _ {K V : Type 0} ⦃e : HasEq K⦄ where
  unfoldable pub step : ResponseCache K V → Call K V → ResponseCache K V
  step c (get_key k) = (get k c).1
  step c (set_key k v) = set k v c
  step c hit = record_hit c
  step c miss = record_miss c
  step c reset = clear c

  unfoldable pub run : ResponseCache K V → List (Call K V) → ResponseCache K V
  run c [] = c
  run c (a ∷ calls) = run (step c a) calls

  -- the ideal cache: every entry ever stored, the last used last; a `get` is a use of the key if
  -- the key is among the last `n` entries
  unfoldable pub note : ℕ → List (K × V) → Call K V → List (K × V)
  note n h (get_key k) = elim (find k (latest n h)) [ none ↦ h | some v ↦ touch k v h ]
  note n h (set_key k v) = touch k v h
  note n h hit = h
  note n h miss = h
  note n h reset = []

  unfoldable pub history : ℕ → List (K × V) → List (Call K V) → List (K × V)
  history n h [] = h
  history n h (a ∷ calls) = history n (note n h a) calls

  pub record Tracks (n : ℕ) (h : List (K × V)) (c : ResponseCache K V) : Type 0 where
    pub room : c.max_entries ≡ n
    pub window : c.entries ≡ latest n h
    pub distinct : KeysDistinct h

  pub get_miss : (k : K) (c : ResponseCache K V) → find k c.entries ≡ none → get k c ≡ (none, c)
  unfolding get
  get_miss k c h = ground arith

  pub get_hit :
      (k : K) (v : V) (c : ResponseCache K V)
      → find k c.entries ≡ some v
      → get k c ≡ (some v, record c { entries = touch k v c.entries })
  unfolding get
  get_hit k v c h = ground arith

  pub set-max_entries :
      (k : K) (v : V) (c : ResponseCache K V) → (set k v c).max_entries ≡ c.max_entries
  unfolding set
  set-max_entries k v c = refl

  pub set-entries :
      (k : K) (v : V) (c : ResponseCache K V)
      → (set k v c).entries ≡ evict c.max_entries (touch k v c.entries)
  set-entries k v c =
      unfold set in ap (λ d. evict c.max_entries d) (move_to_end-set_item k v c.entries)

  -- a use of a key that is among the last `n` entries
  touch-evict :
      (n : ℕ) (k : K) (v : V) (h : List (K × V))
      → KeysDistinct h
      → find k (evict n h) ≡ some v
      → touch k v (evict n h) ≡ evict n (touch k v h)
  touch-evict n k v h d found =
      sym (
        evict_all n (touch k v (evict n h)) (
          omega (
            arith,
            length-append (del k (evict n h)) ((k, v) ∷ []),
            length-del_found k v (evict n h) found,
            length-evict n h,
          )))
      ∙ evict-touch-evict n k v h d

  touch-latest :
      (n : ℕ) (k : K) (v : V) (h : List (K × V))
      → KeysDistinct h
      → find k (latest n h) ≡ some v
      → touch k v (latest n h) ≡ latest n (touch k v h)
  touch-latest n k v h d found =
      ap (touch k v) (sym (evict-latest n h))
      ∙ touch-evict n k v h d (ap (find k) (evict-latest n h) ∙ found)
      ∙ evict-latest n (touch k v h)

  evict-touch-latest :
      (n : ℕ) (k : K) (v : V) (h : List (K × V))
      → KeysDistinct h
      → evict n (touch k v (latest n h)) ≡ latest n (touch k v h)
  evict-touch-latest n k v h d =
      ap (λ w. evict n (touch k v w)) (sym (evict-latest n h))
      ∙ evict-touch-evict n k v h d
      ∙ evict-latest n (touch k v h)

  pub step-Tracks :
      (n : ℕ) (h : List (K × V)) (c : ResponseCache K V) (a : Call K V)
      → Tracks n h c
      → Tracks n (note n h a) (step c a)
  unfolding step note
  step-Tracks n h c (get_key k) t = elim (Option-cases (find k (latest n h))) [
    | inl gone ↦ rw (gone, note) (rw (get_miss k c (ap (find k) t.window ∙ gone), step) t)
    | inr (v, found) ↦
        rw (found, note)
          (rw (get_hit k v c (ap (find k) t.window ∙ found), step)
            (record {
              room = t.room;
              window = ap (touch k v) t.window ∙ touch-latest n k v h t.distinct found;
              distinct = touch-KeysDistinct k v h t.distinct;
            }))
  ]
  step-Tracks n h c (set_key k v) t = record {
    room = set-max_entries k v c ∙ t.room;
    window = rw (set-entries k v c, t.room, t.window) (evict-touch-latest n k v h t.distinct);
    distinct = touch-KeysDistinct k v h t.distinct;
  }
  step-Tracks n h c hit t = record { room = t.room; window = t.window; distinct = t.distinct }
  step-Tracks n h c miss t = record { room = t.room; window = t.window; distinct = t.distinct }
  step-Tracks n h c reset t = record {
    room = t.room;
    window = unfold evict in evict-latest n [];
    distinct = tt;
  }

  -- From a cache that holds the last `n` entries of a history, whatever calls are made, it holds
  -- the last `n` entries of the longer history, in order of use: what goes is always the entry that
  -- was used least recently.
  pub run-Tracks :
      (n : ℕ) (calls : List (Call K V)) (h : List (K × V)) (c : ResponseCache K V)
      → Tracks n h c
      → Tracks n (history n h calls) (run c calls)
  unfolding run history
  run-Tracks n [] h c t = t
  run-Tracks n (a ∷ calls) h c t =
      run-Tracks n calls (note n h a) (step c a) (step-Tracks n h c a t)

  pub Tracks-IsValid :
      (n : ℕ) (h : List (K × V)) (c : ResponseCache K V) → 1 ≤ n → Tracks n h c → IsValid c
  Tracks-IsValid n h c p t = record {
    positive = rw t.room p;
    bounded = rw (t.window ∙ sym (evict-latest n h), t.room) (omega (arith, length-evict n h));
    distinct = rw (t.window ∙ sym (evict-latest n h)) (evict-KeysDistinct n h t.distinct);
  }

  init-Tracks : (n : ℕ) {c : ResponseCache K V} → init n ≡ ok c → (1 ≤ n) × Tracks n [] c
  unfolding init evict
  init-Tracks n {c} h = (
    ground arith,
    record {
      room = ground arith;
      window = ground (arith, evict-latest {A = K × V} n []);
      distinct = tt;
    },
  )

  -- A cache that the constructor made never holds more entries than its bound, and never two for
  -- one key, whatever calls are made on it.
  pub run-IsValid :
      (n : ℕ) (calls : List (Call K V)) {c : ResponseCache K V}
      → init n ≡ ok c
      → IsValid (run c calls) × ((run c calls).max_entries ≡ n)
  run-IsValid n calls {c} h =
      let (p, start) = init-Tracks n h in
      let t = run-Tracks n calls [] c start in
      (Tracks-IsValid n (history n [] calls) (run c calls) p t, t.room)
