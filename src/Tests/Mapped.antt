-- ===== src/Tests/Mapped.antt =====
-- Upstream responses and their translation.
use issues_api_testbed.Prelude.Int.{pos}
use issues_api_testbed.Prelude.{
  ℕ, ◌≤◌, ◌≡◌, ◌⊎◌, inl, inr, refl, none, some, [], ◌∷◌, Text, text, text_beq, ◌==◌, text_eq,
  if◌then◌else◌,
}
use issues_api_testbed.Python.{obj, num, append_field}
use issues_api_testbed.Python.Str.{decimal}
use issues_api_testbed.Errors.{ok, raise, crash, overflow_error, AppError, init, rate_limited_error}
use issues_api_testbed.Github.{
  Floats, Truncated, whole, infinite, Reply, replied, request, is_rate_limited, retry_after_seconds,
  map_error, upstream_details,
}
use issues_api_testbed.Github.Mapping.{MapsTo, map_error-MapsTo}
use issues_api_testbed.Github.Waiting.{HasInfiniteWait, rate_limited_waits, infinite_retry_after}

-- numbers with an infinity; every text but "inf" reads as 30
abbrev numbers : Floats
numbers = record {
  Float = Truncated;
  parse = λ s. if s == text "inf" then some infinite else some (whole (pos 30));
  minus = λ a b. a;
  truncate = λ a. a;
}

abbrev answer : ℕ → Text → Reply
answer status retry_after = record {
  status_code = status;
  header = λ name. if name == text "retry-after" then some retry_after else none;
  content = [];
  json = none;
  reason_phrase = text "Forbidden";
}

abbrev limited : AppError
limited =
    init rate_limited_error (text "GitHub API rate limit exceeded. Retry in 30s.") none none
      (obj (
        append_field (text "retry_after_seconds") (num 30)
          (upstream_details (answer 403 (text "30")))))
      ((text "Retry-After", text "30") ∷ [])

mapped : map_error numbers infinite (answer 403 (text "30")) ≡ ok limited
unfolding map_error is_rate_limited retry_after_seconds decimal text text_beq
mapped = refl

map_error-MapsTo_example : MapsTo (answer 403 (text "30")) limited.status_code limited.code
map_error-MapsTo_example = map_error-MapsTo numbers infinite (answer 403 (text "30")) limited mapped

rate_limited_waits_example :
    ((n : ℕ) × (e : AppError) × (map_error numbers infinite (answer 403 (text "30")) ≡ ok e)
      × (1 ≤ n)
      × (e.status_code ≡ 429)
      × (e.headers ≡ (text "Retry-After", decimal n) ∷ [])
      × (e.details
          ≡ obj (
              append_field
                (text "retry_after_seconds")
                (num n)
                (upstream_details (answer 403 (text "30"))))))
    ⊎ ((map_error numbers infinite (answer 403 (text "30")) ≡ raise (crash overflow_error))
        × HasInfiniteWait numbers infinite (answer 403 (text "30")))
unfolding text text_beq
rate_limited_waits_example =
    rate_limited_waits numbers infinite (answer 403 (text "30")) (inl (refl, inr (text "30", refl)))

-- the only header says "inf"
infinite_retry_after_example :
    request numbers infinite (replied (answer 429 (text "inf"))) ≡ raise (crash overflow_error)
unfolding text text_beq
infinite_retry_after_example =
    infinite_retry_after numbers infinite infinite (answer 429 (text "inf")) (text "inf") (inr refl)
      refl refl refl refl
