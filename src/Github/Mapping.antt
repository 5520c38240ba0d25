-- ===== src/Github/Mapping.antt =====
-- The table of DESIGN.md, "Error mapping", against `_map_error` and `_request`.
use issues_api_testbed.Prelude.{
  ℕ, ◌≤◌, ◌<◌, ◌≡◌, ◌≢◌, ◌⊎◌, inl, inr, true, false, some, arith, Text, text, Bool-cases,
  Option-cases, sym, ap, ◌∙◌, ◌==◌, text_eq, nat_eq, eq_of_==, ==_refl,
}
use issues_api_testbed.Python.Str.{strip}
use issues_api_testbed.Errors.{ok, AppError}
use issues_api_testbed.Github.Types.{Floats, Reply}
use issues_api_testbed.Github.Defs.{is_rate_limited, map_error}

-- The two signals of an exhausted quota: no request remains, or GitHub says how long to wait.
abbrev pub IsExhausted : Reply → Type 0
IsExhausted r =
    (v : Text) × (r.header (text "x-ratelimit-remaining") ≡ some v) × (strip v ≡ text "0")

abbrev pub HasRetryAfter : Reply → Type 0
HasRetryAfter r = (v : Text) × (r.header (text "retry-after") ≡ some v)

abbrev pub IsMarked : Reply → Type 0
IsMarked r = IsExhausted r ⊎ HasRetryAfter r

-- The rows: an upstream response, and the status and code that it becomes.
abbrev pub MapsTo : Reply → ℕ → Text → Type 0
MapsTo r t code =
    ((r.status_code ≡ 401) × (t ≡ 401) × (code ≡ text "unauthorized"))
    ⊎ ((r.status_code ≡ 403) × IsMarked r × (t ≡ 429) × (code ≡ text "rate_limited"))
    ⊎ ((r.status_code ≡ 429) × (t ≡ 429) × (code ≡ text "rate_limited"))
    ⊎ ((r.status_code ≡ 403) × ¬ IsMarked r × (t ≡ 403) × (code ≡ text "forbidden"))
    ⊎ ((r.status_code ≡ 404) × (t ≡ 404) × (code ≡ text "not_found"))
    ⊎ (((r.status_code ≡ 410) ⊎ (r.status_code ≡ 422))
        × (t ≡ 400)
        × (code ≡ text "validation_error"))
    ⊎ ((500 ≤ r.status_code) × (t ≡ 503) × (code ≡ text "upstream_unavailable"))
    ⊎ ((r.status_code < 500)
        × ((r.status_code ≢ 401)
            × (r.status_code ≢ 403)
            × (r.status_code ≢ 404)
            × (r.status_code ≢ 410)
            × (r.status_code ≢ 422)
            × (r.status_code ≢ 429))
        × (t ≡ 502)
        × (code ≡ text "upstream_error"))

-- the code's test for the mark, on a status other than 429
pub is_rate_limited-IsMarked :
    (r : Reply)
    → r.status_code ≢ 429
    → ((is_rate_limited r ≡ true) × IsMarked r) ⊎ ((is_rate_limited r ≡ false) × ¬ IsMarked r)
unfolding is_rate_limited
is_rate_limited-IsMarked r other = elim (Option-cases (r.header (text "retry-after"))) [
  | inr (w, waits) ↦ inl (ground arith, inr (w, waits))
  | inl patient ↦ elim (Option-cases (r.header (text "x-ratelimit-remaining"))) [
    | inl silent ↦ inr (
      ground arith,
      λ m. elim m [ inl (v, given, zero) ↦ absurd (cc) | inr (v, given) ↦ absurd (cc) ],
    )
    | inr (v, left) ↦ elim (Bool-cases (strip v == text "0")) [
      | inl zero ↦ inl (ground arith, inl (v, left, eq_of_== (strip v) (text "0") zero))
      | inr some_left ↦ inr (
        ground arith,
        λ m. elim m [
          | inl (u, given, zero) ↦
              let same : u ≡ v = cc in
              let same_test : strip v ≡ text "0" = sym (ap strip same) ∙ zero in
              absurd (ground (arith, ==_refl (text "0")))
          | inr (u, given) ↦ absurd (cc)
        ],
      )
    ]
  ]
]

-- a 429 is a rate limit whatever its headers are
pub limited_429 : (r : Reply) → r.status_code ≡ 429 → is_rate_limited r ≡ true
unfolding is_rate_limited
limited_429 r h = rw h

module _ (fl : Floats) where
  -- Every error that `_map_error` returns has the status and the code of the table's row for the
  -- upstream status, which for 403 depends on whether `x-ratelimit-remaining` is 0 or a
  -- `Retry-After` is there.
  pub map_error-MapsTo :
      (now : fl.Float) (r : Reply) (e : AppError)
      → map_error fl now r ≡ ok e
      → MapsTo r e.status_code e.code
  unfolding map_error
  map_error-MapsTo now r e h = elim (Bool-cases (r.status_code == 429)) [
    | inl is_429 ↦
        let limit : r.status_code ≡ 429 = ground (arith) in
        inr (
          inr
            (inl (limit, ground (arith, limited_429 r limit), ground (arith, limited_429 r limit))))
    | inr not_429 ↦ elim (is_rate_limited-IsMarked r (ground arith)) [
      | inl (on, mark) ↦ ground arith
      | inr (off, unmarked) ↦ ground arith
    ]
  ]
