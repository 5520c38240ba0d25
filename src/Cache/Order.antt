-- ===== src/Cache/Order.antt =====
-- The ordered dictionary: what each operation does to the order of the entries.
use issues_api_testbed.Prelude.{
  ℕ, suc, ◌-◌, ◌+◌, ◌≤◌, ◌≡◌, inl, inr, refl, sym, ◌∙◌, none, some, List, [], ◌∷◌, ◌++◌, arith,
  HasEq, ◌==◌, ==_refl, ltb, if◌then◌else◌, Bool-cases, length, length-append, min, drop,
}
use issues_api_testbed.Cache.Defs.{find, del, set_item, move_to_end, evict}

module _ {A : Type 0} where
  pub length-evict : (n : ℕ) (d : List A) → length (evict n d) ≡ min n (length d)
  unfolding evict
  length-evict n [] = omega arith
  length-evict n (x ∷ d) = ground (arith, length-evict n d)

  pub evict_all : (n : ℕ) (d : List A) → length d ≤ n → evict n d ≡ d
  unfolding evict
  evict_all n [] h = refl
  evict_all n (x ∷ d) h = ground arith

  pub evict-cons : (n : ℕ) (x : A) (d : List A) → n ≤ length d → evict n (x ∷ d) ≡ evict n d
  unfolding evict
  evict-cons n x d h = ground arith

  -- the last `n` of a list, all of it where there are fewer
  unfoldable pub latest : ℕ → List A → List A
  latest n d = drop (length d - n) d

  latest-cons : (n m : ℕ) (x : A) (d : List A) → m ≡ suc n → drop m (x ∷ d) ≡ drop n d
  latest-cons n m x d h = rw h refl

  drop-zero : (m : ℕ) (d : List A) → m ≡ 0 → drop m d ≡ d
  drop-zero m d h = rw h refl

  -- what eviction keeps is the last `n`
  pub evict-latest : (n : ℕ) (d : List A) → evict n d ≡ latest n d
  unfolding evict latest
  evict-latest n [] = sym (drop-zero (0 - n) [] (omega arith))
  evict-latest n (x ∷ d) = elim (Bool-cases (ltb n (length (x ∷ d)))) [
    | inl over ↦ rw over (
        evict-latest n d ∙ sym (latest-cons (length d - n) (length (x ∷ d) - n) x d (ground arith)))
    | inr fits ↦ rw fits (sym (drop-zero (length (x ∷ d) - n) (x ∷ d) (ground arith)))
  ]

module _ {K V : Type 0} ⦃e : HasEq K⦄ where
  -- the entry of a key that was just used
  abbrev pub touch : K → V → List (K × V) → List (K × V)
  touch k v d = del k d ++ (k, v) ∷ []

  abbrev pub KeysDistinct : List (K × V) → Type 0
  KeysDistinct [] = Unit
  KeysDistinct (x ∷ d) = (find x.0 d ≡ none) × KeysDistinct d

  pub find-del :
      (k j : K) (d : List (K × V)) → find j (del k d) ≡ (if k == j then none else find j d)
  unfolding find del
  find-del k j [] = ground arith
  find-del k j (x ∷ d) =
      ground (arith, find-del k j d, e.beq_iff x.0 k, e.beq_iff x.0 j, e.beq_iff k j)

  pub find-append :
      (k j : K) (v : V) (d : List (K × V))
      → find j (d ++ (k, v) ∷ [])
        ≡ elim (find j d) [ none ↦ (if k == j then some v else none) | some w ↦ some w ]
  unfolding find
  find-append k j v [] = refl
  find-append k j v (x ∷ d) = ground (arith, find-append k j v d)

  pub find-touch :
      (k j : K) (v : V) (d : List (K × V))
      → find j (touch k v d) ≡ (if k == j then some v else find j d)
  find-touch k j v d = ground (arith, find-append k j v (del k d), find-del k j d)

  del-KeysDistinct : (k : K) (d : List (K × V)) → KeysDistinct d → KeysDistinct (del k d)
  unfolding del
  del-KeysDistinct k [] h = tt
  del-KeysDistinct k (x ∷ d) h = ground (arith, del-KeysDistinct k d h.1, find-del k x.0 d)

  append-KeysDistinct :
      (k : K) (v : V) (d : List (K × V))
      → KeysDistinct d
      → find k d ≡ none
      → KeysDistinct (d ++ (k, v) ∷ [])
  unfolding find
  append-KeysDistinct k v [] h n = (refl, tt)
  append-KeysDistinct k v (x ∷ d) h n = ground (
    arith,
    append-KeysDistinct k v d h.1,
    find-append k x.0 v d,
    e.beq_iff x.0 k,
    e.beq_iff k x.0,
  )

  pub touch-KeysDistinct :
      (k : K) (v : V) (d : List (K × V)) → KeysDistinct d → KeysDistinct (touch k v d)
  touch-KeysDistinct k v d h =
      append-KeysDistinct k v (del k d) (del-KeysDistinct k d h)
        (rw (find-del k k d, ==_refl k) refl)

  pub evict-KeysDistinct : (n : ℕ) (d : List (K × V)) → KeysDistinct d → KeysDistinct (evict n d)
  unfolding evict
  evict-KeysDistinct n [] h = tt
  evict-KeysDistinct n (x ∷ d) h = elim (Bool-cases (ltb n (length (x ∷ d)))) [
    | inl over ↦ rw over (evict-KeysDistinct n d h.1)
    | inr fits ↦ rw fits h
  ]

  del_missing : (k : K) (d : List (K × V)) → find k d ≡ none → del k d ≡ d
  unfolding find del
  del_missing k [] h = refl
  del_missing k (x ∷ d) h = ground (arith, del_missing k d)

  length-del : (k : K) (d : List (K × V)) → KeysDistinct d → length d ≤ length (del k d) + 1
  unfolding del
  length-del k [] h = omega arith
  length-del k (x ∷ d) h = ground (arith, length-del k d h.1, del_missing k d, e.beq_iff x.0 k)

  pub length-del-le : (k : K) (d : List (K × V)) → length (del k d) ≤ length d
  unfolding del
  length-del-le k [] = omega arith
  length-del-le k (x ∷ d) = ground (arith, length-del-le k d)

  pub length-del_found :
      (k : K) (v : V) (d : List (K × V)) → find k d ≡ some v → length (del k d) + 1 ≤ length d
  unfolding find del
  length-del_found k v [] h = absurd (cc)
  length-del_found k v (x ∷ d) h = ground (arith, length-del_found k v d, length-del-le k d)

  find-set_item : (k : K) (v : V) (d : List (K × V)) → find k (set_item k v d) ≡ some v
  unfolding find set_item
  find-set_item k v [] = ground (arith, e.beq_iff k k)
  find-set_item k v (x ∷ d) = ground (arith, find-set_item k v d, e.beq_iff x.0 k)

  del-set_item : (k : K) (v : V) (d : List (K × V)) → del k (set_item k v d) ≡ del k d
  unfolding del set_item
  del-set_item k v [] = ground (arith, e.beq_iff k k)
  del-set_item k v (x ∷ d) = ground (arith, del-set_item k v d, e.beq_iff x.0 k)

  -- an assignment and a move to the end are one use of the key
  pub move_to_end-set_item :
      (k : K) (v : V) (d : List (K × V)) → move_to_end k (set_item k v d) ≡ touch k v d
  unfolding move_to_end
  move_to_end-set_item k v d = ground (arith, find-set_item k v d, del-set_item k v d)

  evict-touch-cons :
      (n : ℕ) (k : K) (v : V) (x : K × V) (h : List (K × V))
      → KeysDistinct h
      → n ≤ length h
      → evict n (touch k v (x ∷ h)) ≡ evict n (touch k v h)
  unfolding del
  evict-touch-cons n k v x h d le = elim (Bool-cases (x.0 == k)) [
    | inl same ↦ rw same refl
    | inr other ↦ rw other (
        evict-cons n x (touch k v h)
          (omega (arith, length-del k h d, length-append (del k h) ((k, v) ∷ []))))
  ]

  -- to keep `n` entries, the last `n` are all that a use needs to see
  pub evict-touch-evict :
      (n : ℕ) (k : K) (v : V) (h : List (K × V))
      → KeysDistinct h
      → evict n (touch k v (evict n h)) ≡ evict n (touch k v h)
  evict-touch-evict n k v [] d = unfold evict in refl
  evict-touch-evict n k v (x ∷ h) d = elim (Bool-cases (ltb n (length (x ∷ h)))) [
    | inr fits ↦ rw (evict_all n (x ∷ h) (ground arith)) refl
    | inl over ↦
        rw (evict-cons n x h (ground arith))
          (evict-touch-evict n k v h d.1 ∙ sym (evict-touch-cons n k v x h d.1 (ground arith)))
  ]

  pub find-del_self : (k : K) (d : List (K × V)) → find k (del k d) ≡ none
  find-del_self k d = rw (find-del k k d, ==_refl k) refl

  -- the entry used last is never evicted
  pub find-evict_last :
      (n : ℕ) (k : K) (v : V) (d : List (K × V))
      → 1 ≤ n
      → find k d ≡ none
      → find k (evict n (d ++ (k, v) ∷ [])) ≡ some v
  unfolding find evict
  find-evict_last n k v [] p h = ground (arith, e.beq_iff k k)
  find-evict_last n k v (x ∷ d) p h =
      ground (arith, find-evict_last n k v d, find-append k k v d, e.beq_iff k k)
