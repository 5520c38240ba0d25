-- ===== src/Github/Waiting.antt =====
-- The time to wait of a rate-limited answer, `_retry_after_seconds` in `_map_error`.
use issues_api_testbed.Prelude.Int.{ℤ, pos, negsuc, at_least_one}
use issues_api_testbed.Prelude.{
  ℕ, ◌≤◌, ◌||◌, ◌≡◌, refl, ◌⊎◌, inl, inr, true, false, Option, none, some, [], ◌∷◌, arith, Text,
  text, is_empty, Bool-cases, Option-cases, ◌==◌, text_eq, nat_eq,
}
use issues_api_testbed.Python.{obj, num, append_field}
use issues_api_testbed.Python.Str.{decimal}
use issues_api_testbed.Errors.{ok, raise, crash, overflow_error, AppError}
use issues_api_testbed.Github.Types.{
  Floats, Truncated, whole, not_a_number, infinite, Reply, replied,
}
use issues_api_testbed.Github.Defs.{
  is_rate_limited, seconds, read_seconds, retry_after_seconds, map_error, upstream_details, request,
  rate_limited,
}
use issues_api_testbed.Github.Mapping.{IsMarked, is_rate_limited-IsMarked, limited_429}

-- a rate-limited answer, by the table
abbrev pub IsRateLimited : Reply → Type 0
IsRateLimited r = ((r.status_code ≡ 403) × IsMarked r) ⊎ (r.status_code ≡ 429)

limited_reply :
    (r : Reply)
    → IsRateLimited r
    → (((r.status_code == 403) || (r.status_code == 429)) ≡ true) × (is_rate_limited r ≡ true)
limited_reply r (inr limit) = (ground arith, limited_429 r limit)
limited_reply r (inl (refused, mark)) = elim (is_rate_limited-IsMarked r (ground arith)) [
  | inl (on, there) ↦ (ground arith, on)
  | inr (off, unmarked) ↦ absurd (unmarked mark)
]

module _ (fl : Floats) where
  at_least_one-pos : (i : ℤ) → 1 ≤ at_least_one i
  at_least_one-pos (pos n) = ground arith
  at_least_one-pos (negsuc n) = omega arith

  seconds-pos : (t : Truncated) (n : ℕ) → seconds fl t ≡ ok (some n) → 1 ≤ n
  seconds-pos (whole i) n h = ground (arith, at_least_one-pos i)
  seconds-pos _ n h = absurd (cc)

  read_seconds-pos :
      (f : fl.Float → fl.Float) (o : Option Text) (n : ℕ)
      → read_seconds fl f o ≡ ok (some n)
      → 1 ≤ n
  unfolding read_seconds
  read_seconds-pos f none n h = absurd (cc)
  read_seconds-pos f (some raw) n h = elim (Bool-cases (is_empty raw)) [
    | inl blank ↦ absurd (ground arith)
    | inr filled ↦ elim (Option-cases (fl.parse raw)) [
      | inl unread ↦ absurd (ground arith)
      | inr (x, number) ↦ seconds-pos (fl.truncate (f x)) n (ground arith)
    ]
  ]

  -- The time to wait is at least a second, whatever the headers say.
  pub retry_after_seconds-pos :
      (now : fl.Float) (r : Reply) (n : ℕ) → retry_after_seconds fl now r ≡ ok n → 1 ≤ n
  unfolding retry_after_seconds
  retry_after_seconds-pos now r n h = ground (
    arith,
    read_seconds-pos (λ x. x) (r.header (text "retry-after")) n,
    read_seconds-pos (λ x. fl.minus x now) (r.header (text "x-ratelimit-reset")) n,
  )

  seconds-cases : (t : Truncated) → (t ≡ infinite) ⊎ ((o : Option ℕ) × (seconds fl t ≡ ok o))
  seconds-cases (whole i) = inr (some (at_least_one i), refl)
  seconds-cases not_a_number = inr (none, refl)
  seconds-cases infinite = inl refl

  -- a header that is there and reads as an infinity
  abbrev pub ReadsInfinite : (fl.Float → fl.Float) → Option Text → Type 0
  ReadsInfinite f o =
      (raw : Text) × (x : fl.Float) × (o ≡ some raw)
      × (fl.parse raw ≡ some x)
      × (fl.truncate (f x) ≡ infinite)

  read_seconds-cases :
      (f : fl.Float → fl.Float) (o : Option Text)
      → ((k : Option ℕ) × (read_seconds fl f o ≡ ok k))
        ⊎ ((read_seconds fl f o ≡ raise (crash overflow_error)) × ReadsInfinite f o)
  unfolding read_seconds
  read_seconds-cases f none = inl (none, refl)
  read_seconds-cases f (some raw) = elim (Bool-cases (is_empty raw)) [
    | inl blank ↦ inl (none, rw blank refl)
    | inr filled ↦ elim (Option-cases (fl.parse raw)) [
      | inl unread ↦ inl (none, ground arith)
      | inr (x, number) ↦ elim (seconds-cases (fl.truncate (f x))) [
        | inl endless ↦ inr (ground arith, (raw, x, refl, number, endless))
        | inr (o, counted) ↦ inl (o, ground arith)
      ]
    ]
  ]

  -- one of the two headers for the time to wait reads as an infinity
  abbrev pub HasInfiniteWait : fl.Float → Reply → Type 0
  HasInfiniteWait now r =
      ReadsInfinite (λ x. x) (r.header (text "retry-after"))
      ⊎ ReadsInfinite (λ x. fl.minus x now) (r.header (text "x-ratelimit-reset"))

  retry_after_seconds-cases :
      (now : fl.Float) (r : Reply)
      → ((n : ℕ) × (retry_after_seconds fl now r ≡ ok n))
        ⊎ ((retry_after_seconds fl now r ≡ raise (crash overflow_error)) × HasInfiniteWait now r)
  unfolding retry_after_seconds
  retry_after_seconds-cases now r =
      elim (read_seconds-cases (λ x. x) (r.header (text "retry-after"))) [
        | inr (over, endless) ↦ inr (ground arith, inl endless)
        | inl (some n, wait) ↦ inl (n, ground arith)
        | inl (none, unread) ↦
            elim (read_seconds-cases (λ x. fl.minus x now) (r.header (text "x-ratelimit-reset"))) [
              | inr (over, endless) ↦ inr (ground arith, inr endless)
              | inl (some n, wait) ↦ inl (n, ground arith)
              | inl (none, unset) ↦ inl (60, ground arith)
            ]
      ]

  -- A rate-limited answer, a 429 or a 403 with one of the two signals, becomes an error 429 with the number of seconds to wait, at least one, in
  -- its `Retry-After` header and in its details; or, where a header for the time to wait reads as an
  -- infinity, `OverflowError` is raised.
  pub rate_limited_waits :
      (now : fl.Float) (r : Reply)
      → IsRateLimited r
      → ((n : ℕ) × (e : AppError) × (map_error fl now r ≡ ok e)
          × (1 ≤ n)
          × (e.status_code ≡ 429)
          × (e.headers ≡ (text "Retry-After", decimal n) ∷ [])
          × (e.details
              ≡ obj (append_field (text "retry_after_seconds") (num n) (upstream_details r))))
        ⊎ ((map_error fl now r ≡ raise (crash overflow_error)) × HasInfiniteWait now r)
  unfolding map_error
  rate_limited_waits now r h =
      let (s, l) = limited_reply r h in
      elim (retry_after_seconds-cases now r) [
        | inl (n, waits) ↦ inl (
          n,
          rate_limited fl (upstream_details r) n,
          ground arith,
          retry_after_seconds-pos now r n waits,
          refl,
          refl,
          refl,
        )
        | inr (over, endless) ↦ inr (ground arith, endless)
      ]

  -- A 403 or 429 whose `Retry-After` is not empty and reads as an infinity is not translated:
  -- `OverflowError` escapes from the call, whatever its other headers are.
  pub infinite_retry_after :
      (now x : fl.Float) (r : Reply) (raw : Text)
      → (r.status_code ≡ 403) ⊎ (r.status_code ≡ 429)
      → r.header (text "retry-after") ≡ some raw
      → is_empty raw ≡ false
      → fl.parse raw ≡ some x
      → fl.truncate x ≡ infinite
      → request fl now (replied r) ≡ raise (crash overflow_error)
  unfolding request map_error retry_after_seconds is_rate_limited
  infinite_retry_after now x r raw s h ne p t = ground arith
