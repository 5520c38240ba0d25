-- ===== src/Store/Clock.antt =====
-- `datetime.now(UTC).isoformat()`, the time that a row gets.
use issues_api_testbed.Prelude.{
  ℕ, ◌+◌, ◌/◌, ◌%◌, ◌≤◌, ◌<◌, ◌≡◌, refl, Bool, true, ◌&&◌, ◌||◌, ◌∷◌, arith, Text, text, [], ltb,
  ◌==◌, nat_eq, if◌then◌else◌,
}
use issues_api_testbed.Store.Sql.{text_leb}

-- a `datetime` in UTC
pub record Moment : Type 0 where
  pub year : ℕ
  pub month : ℕ
  pub day : ℕ
  pub hour : ℕ
  pub minute : ℕ
  pub second : ℕ
  pub microsecond : ℕ

-- the ranges of its fields
pub record IsMoment (m : Moment) : Type 0 where
  pub year : m.year < 10000
  pub month : m.month ≤ 12
  pub day : m.day ≤ 31
  pub hour : m.hour < 24
  pub minute : m.minute < 60
  pub second : m.second < 60
  pub microsecond : m.microsecond < 1000000

-- a number with two, four or six digits, in front of `rest`
pad2 : ℕ → Text → Text
pad2 n rest = (b'0' + n / 10) ∷ (b'0' + n % 10) ∷ rest

pad4 : ℕ → Text → Text
pad4 n rest = pad2 (n / 100) (pad2 (n % 100) rest)

pad6 : ℕ → Text → Text
pad6 n rest = pad2 (n / 10000) (pad4 (n % 10000) rest)

-- the fraction is left out where it is zero
fraction : ℕ → Text → Text
fraction n rest = if n == 0 then rest else b'.' ∷ pad6 n rest

unfoldable pub isoformat : Moment → Text
unfolding pad2 pad4 pad6 fraction
isoformat m = pad4 m.year (
    b'-'
    ∷ pad2 m.month (
        b'-'
        ∷ pad2 m.day (
            b'T'
            ∷ pad2 m.hour (
                b':'
                ∷ pad2 m.minute (b':' ∷ pad2 m.second (fraction m.microsecond (text "+00:00")))))))

-- first by `a` and `b`, then by `rest`
abbrev pub first_by : ℕ → ℕ → Bool → Bool
first_by a b rest = ltb a b || (a == b && rest)

-- not after
unfoldable pub moment_leb : Moment → Moment → Bool
moment_leb a b = first_by a.year b.year (
    first_by a.month b.month (
      first_by a.day b.day (
        first_by a.hour b.hour (
          first_by a.minute b.minute
            (first_by a.second b.second (first_by a.microsecond b.microsecond true))))))

pad2-leb :
    (a b : ℕ) (s t : Text)
    → a < 100
    → b < 100
    → text_leb (pad2 a s) (pad2 b t) ≡ first_by a b (text_leb s t)
unfolding pad2 text_leb
pad2-leb a b s t h k = ground arith

pad4-leb :
    (a b : ℕ) (s t : Text)
    → a < 10000
    → b < 10000
    → text_leb (pad4 a s) (pad4 b t) ≡ first_by a b (text_leb s t)
unfolding pad4
pad4-leb a b s t h k = ground (
  arith,
  pad2-leb (a / 100) (b / 100) (pad2 (a % 100) s) (pad2 (b % 100) t),
  pad2-leb (a % 100) (b % 100) s t,
)

pad6-leb :
    (a b : ℕ) (s t : Text)
    → a < 1000000
    → b < 1000000
    → text_leb (pad6 a s) (pad6 b t) ≡ first_by a b (text_leb s t)
unfolding pad6
pad6-leb a b s t h k = ground (
  arith,
  pad2-leb (a / 10000) (b / 10000) (pad4 (a % 10000) s) (pad4 (b % 10000) t),
  pad4-leb (a % 10000) (b % 10000) s t,
)

text_leb_refl : (s : Text) → text_leb s s ≡ true
unfolding text_leb
text_leb_refl [] = refl
text_leb_refl (c ∷ s) = ground (arith, text_leb_refl s)

-- a sign, then two digits
sign_pad2-leb :
    (c a b : ℕ) (s t : Text)
    → a < 100
    → b < 100
    → text_leb (c ∷ pad2 a s) (c ∷ pad2 b t) ≡ first_by a b (text_leb s t)
unfolding text_leb
sign_pad2-leb c a b s t h k = ground (arith, pad2-leb a b s t)

-- `+` stands before `.` in the order of texts
fraction-leb :
    (a b : ℕ)
    → a < 1000000
    → b < 1000000
    → text_leb (fraction a (text "+00:00")) (fraction b (text "+00:00")) ≡ first_by a b true
unfolding fraction text_leb text
fraction-leb a b h k =
    ground (arith, pad6-leb a b (text "+00:00") (text "+00:00"), text_leb_refl (text "+00:00"))

-- The texts of two times are in the order of the times.
pub isoformat-leb :
    (a b : Moment) → IsMoment a → IsMoment b → text_leb (isoformat a) (isoformat b) ≡ moment_leb a b
unfolding isoformat moment_leb
isoformat-leb a b h k =
    rw
      (
        pad4-leb a.year b.year _ _ h.year k.year,
        sign_pad2-leb b'-' a.month b.month _ _ (omega (arith, h.month)) (omega (arith, k.month)),
        sign_pad2-leb b'-' a.day b.day _ _ (omega (arith, h.day)) (omega (arith, k.day)),
        sign_pad2-leb b'T' a.hour b.hour _ _ (omega (arith, h.hour)) (omega (arith, k.hour)),
        sign_pad2-leb b':' a.minute b.minute _ _ (omega (arith, h.minute))
            (omega (arith, k.minute)),
        sign_pad2-leb b':' a.second b.second _ _ (omega (arith, h.second))
            (omega (arith, k.second)),
        fraction-leb a.microsecond b.microsecond h.microsecond k.microsecond,
      )
      refl
