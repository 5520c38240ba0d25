-- ===== src/Cache/Defs.antt =====
-- The cache over any keys with an equality test. Entries are in the order of the `OrderedDict`,
-- the least recently used first.
use issues_api_testbed.Prelude.{
  ℕ, ◌+◌, Option, none, some, List, [], ◌∷◌, ◌++◌, Text, text, HasEq, ◌==◌, ltb, if◌then◌else◌,
  length,
}
use issues_api_testbed.Python.{Json, obj, num, field, end}
use issues_api_testbed.Errors.{Result, ok, raise, crash, value_error}

-- (state, labels, page, per_page)
abbrev pub CacheKey : Type 0
CacheKey = (Text × Text) × (ℕ × ℕ)

pub record CachedList : Type 0 where
  pub etag : Text
  pub entries : List Json
  pub link : Option Text

module _ {K V : Type 0} ⦃e : HasEq K⦄ where
  -- `d.get(key)`
  unfoldable pub find : K → List (K × V) → Option V
  find key [] = none
  find key ((k, v) ∷ d) = if k == key then some v else find key d

  -- `del d[key]`
  unfoldable pub del : K → List (K × V) → List (K × V)
  del key [] = []
  del key ((k, v) ∷ d) = let rest = del key d in if k == key then rest else (k, v) ∷ rest

  -- `d[key] = value`: in place for a key that is there
  unfoldable pub set_item : K → V → List (K × V) → List (K × V)
  set_item key value [] = (key, value) ∷ []
  set_item key value ((k, v) ∷ d) =
      let rest = set_item key value d in if k == key then (k, value) ∷ d else (k, v) ∷ rest

  -- `d.move_to_end(key)`, of a key that is there
  unfoldable pub move_to_end : K → List (K × V) → List (K × V)
  unfolding find del
  move_to_end key d = elim (find key d) [ none ↦ d | some v ↦ del key d ++ (key, v) ∷ [] ]

-- `while len(d) > max_entries: d.popitem(last=False)`
unfoldable pub evict : {A : Type 0} → ℕ → List A → List A
evict max_entries [] = []
evict max_entries (x ∷ d) =
    let rest = evict max_entries d in if ltb max_entries (length (x ∷ d)) then rest else x ∷ d

pub record ResponseCache (K V : Type 0) : Type 0 where
  pub max_entries : ℕ
  pub entries : List (K × V)
  pub hits : ℕ
  pub misses : ℕ

unfoldable pub init : {K V : Type 0} → ℕ → Result (ResponseCache K V)
init max_entries =
    if ltb max_entries 1
    then raise (crash value_error)
    else ok (record { max_entries = max_entries; entries = []; hits = 0; misses = 0 })

module _ {K V : Type 0} ⦃e : HasEq K⦄ where
  unfoldable pub get : K → ResponseCache K V → Option V × ResponseCache K V
  unfolding find move_to_end
  get key c = elim (find key c.entries) [
    | none ↦ (none, c)
    | some entry ↦ (some entry, record c { entries = move_to_end key c.entries })
  ]

  unfoldable pub set : K → V → ResponseCache K V → ResponseCache K V
  unfolding set_item move_to_end evict
  set key entry c = record c {
    entries = evict c.max_entries (move_to_end key (set_item key entry c.entries));
  }

module _ {K V : Type 0} where
  abbrev pub record_hit : ResponseCache K V → ResponseCache K V
  record_hit c = record c { hits = c.hits + 1 }

  abbrev pub record_miss : ResponseCache K V → ResponseCache K V
  record_miss c = record c { misses = c.misses + 1 }

  abbrev pub clear : ResponseCache K V → ResponseCache K V
  clear c = record c { entries = [] }

  -- `__len__`
  abbrev pub size : ResponseCache K V → ℕ
  size c = length c.entries

  unfoldable pub stats : ResponseCache K V → Json
  stats c = obj (
      field (text "entries") (num (size c))
        (field (text "hits") (num c.hits) (field (text "misses") (num c.misses) end)))
