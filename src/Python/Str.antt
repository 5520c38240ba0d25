-- ===== src/Python/Str.antt =====
-- The methods of `str` that app/ calls: `strip`, `in`, `startswith` and `str(n)`.
use issues_api_testbed.Prelude.{
  ℕ, zero, suc, ◌+◌, ◌≤◌, ◌/◌, ◌%◌, ◌≡◌, refl, ap, Bool, true, false, not, ◌&&◌, ◌||◌, inl, inr, [],
  ◌∷◌, arith, Text, is_empty, ◌==◌, nat_eq, leb, ltb, if◌then◌else◌, Bool-cases, length,
}

abbrev between : ℕ → ℕ → ℕ → Bool
between lo hi c = leb lo c && leb c hi

-- `c.isspace()`
unfoldable pub is_space : ℕ → Bool
is_space c =
    between 9 13 c
    || between 28 32 c
    || c == 0x85
    || c == 0xa0
    || c == 0x1680
    || between 0x2000 0x200a c
    || between 0x2028 0x2029 c
    || c == 0x202f
    || c == 0x205f
    || c == 0x3000

unfoldable pub lstrip : Text → Text
lstrip [] = []
lstrip (c ∷ s) = let rest = lstrip s in if is_space c then rest else c ∷ s

unfoldable pub rstrip : Text → Text
rstrip [] = []
rstrip (c ∷ s) = let rest = rstrip s in if is_empty rest && is_space c then [] else c ∷ rest

-- `s.strip()`
unfoldable pub strip : Text → Text
unfolding lstrip rstrip is_space
strip s = rstrip (lstrip s)

unfoldable pub starts_with : Text → Text → Bool
starts_with s [] = true
starts_with [] (p ∷ ps) = false
starts_with (c ∷ s) (p ∷ ps) = c == p && starts_with s ps

-- `part in s`
unfoldable pub contains : Text → Text → Bool
unfolding starts_with
contains part [] = is_empty part
contains part (c ∷ s) = starts_with (c ∷ s) part || contains part s

-- the decimal digits of `n`, in front of `rest`
digits_onto : ℕ → ℕ → Text → Text
digits_onto zero n rest = rest
digits_onto (suc fuel) n rest =
    let d = (b'0' + n % 10) ∷ rest in
    let more = digits_onto fuel (n / 10) d in if ltb n 10 then d else more

-- `str(n)`; a number has at most `n + 1` digits
unfoldable pub decimal : ℕ → Text
unfolding digits_onto
decimal n = digits_onto (suc n) n []

rstrip_idem : (s : Text) → rstrip (rstrip s) ≡ rstrip s
unfolding rstrip
rstrip_idem [] = refl
rstrip_idem (c ∷ s) = elim (Bool-cases (is_empty (rstrip s) && is_space c)) [
  | inl gone ↦ rw (gone, rstrip) refl
  | inr kept ↦ rw kept (rw (rstrip_idem s, kept) refl)
]

lstrip_idem : (s : Text) → lstrip (lstrip s) ≡ lstrip s
unfolding lstrip
lstrip_idem [] = refl
lstrip_idem (c ∷ s) = ground (arith, lstrip_idem s)

length-lstrip-le : (s : Text) → length (lstrip s) ≤ length s
unfolding lstrip
length-lstrip-le [] = omega arith
length-lstrip-le (c ∷ s) = ground (arith, length-lstrip-le s)

length-rstrip-le : (s : Text) → length (rstrip s) ≤ length s
unfolding rstrip
length-rstrip-le [] = omega arith
length-rstrip-le (c ∷ s) = ground (arith, length-rstrip-le s)

-- a text that starts with a blank is longer than what is left of it
lstrip_fixed : (c : ℕ) (s : Text) → lstrip (c ∷ s) ≡ c ∷ s → is_space c ≡ false
unfolding lstrip
lstrip_fixed c s h = elim (Bool-cases (is_space c)) [
  | inl blank ↦ absurd (omega (arith, length-lstrip-le s, ap (length {A = ℕ}) (rw blank at h)))
  | inr letter ↦ letter
]

-- dropping the blanks at the end uncovers none at the start
lstrip-rstrip : (s : Text) → lstrip s ≡ s → lstrip (rstrip s) ≡ rstrip s
unfolding lstrip rstrip
lstrip-rstrip [] h = refl
lstrip-rstrip (c ∷ s) h = ground (arith, lstrip_fixed c s h)

pub strip_idem : (s : Text) → strip (strip s) ≡ strip s
strip_idem s = unfold strip in rw (lstrip-rstrip (lstrip s) (lstrip_idem s), rstrip_idem)

-- no surrogate on its own: the texts that have an encoding
unfoldable pub is_unicode : Text → Bool
is_unicode [] = true
is_unicode (c ∷ s) = not (leb 0xd800 c && leb c 0xdfff) && is_unicode s

is_unicode-lstrip : (s : Text) → is_unicode s ≡ true → is_unicode (lstrip s) ≡ true
unfolding lstrip is_unicode
is_unicode-lstrip [] h = refl
is_unicode-lstrip (c ∷ s) h = ground (arith, is_unicode-lstrip s)

is_unicode-rstrip : (s : Text) → is_unicode s ≡ true → is_unicode (rstrip s) ≡ true
unfolding rstrip is_unicode
is_unicode-rstrip [] h = refl
is_unicode-rstrip (c ∷ s) h = ground (arith, is_unicode-rstrip s)

pub is_unicode-strip : (s : Text) → is_unicode s ≡ true → is_unicode (strip s) ≡ true
is_unicode-strip s h = unfold strip in is_unicode-rstrip (lstrip s) (is_unicode-lstrip s h)

pub length-strip-le : (s : Text) → length (strip s) ≤ length s
length-strip-le s = unfold strip in omega (arith, length-rstrip-le (lstrip s), length-lstrip-le s)
