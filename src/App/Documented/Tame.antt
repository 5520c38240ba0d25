-- ===== src/App/Documented/Tame.antt =====
-- Results that raise no error but those that an operation answers with.
use issues_api_testbed.Prelude.{ℕ, ◌≡◌, refl, Bool, true, ◌||◌, ◌&&◌, ◌==◌, nat_eq}
use issues_api_testbed.Errors.{Result, ok, raise, app, crash, ◌>>=◌, only_crashes, AppError}
use issues_api_testbed.Http.{Response}
use issues_api_testbed.Contract.Schemas.{is_code}
use issues_api_testbed.Contract.Responses.{
  Operation, receive_webhook, issue_error, hook_error, asks_github, is_documented,
}

-- what the client for GitHub, and the routes on top of it, raise
abbrev pub github_error : ℕ → Bool
github_error s = issue_error s || s == 502

-- the statuses of the errors that an operation raises on purpose
abbrev pub raised_by : Operation → ℕ → Bool
raised_by receive_webhook s = hook_error s
raised_by op s = asks_github op && github_error s

unfoldable pub is_expected : (ℕ → Bool) → AppError → Bool
is_expected raised e = raised e.status_code && is_code e.code

-- an exception that is not a crash is expected
unfoldable pub is_tame {ℓ} : {A : Type ℓ} → (ℕ → Bool) → Result A → Bool
is_tame raised (raise (app e)) = is_expected raised e
is_tame raised _ = true

-- and a response is documented
unfoldable pub is_answer : Operation → Result Response → Bool
is_answer op (ok r) = is_documented op r
is_answer op (raise (app e)) = is_expected (raised_by op) e
is_answer op (raise (crash c)) = true

pub tame_of_only_crashes {ℓ} :
    {A : Type ℓ} (raised : ℕ → Bool) (x : Result A)
    → only_crashes x ≡ true
    → is_tame raised x ≡ true
unfolding is_tame only_crashes
tame_of_only_crashes raised (ok a) h = refl
tame_of_only_crashes raised (raise (app e)) h = absurd cc
tame_of_only_crashes raised (raise (crash c)) h = refl

pub is_tame-bind {ℓ κ} :
    {A : Type ℓ} {B : Type κ} (raised : ℕ → Bool) (x : Result A) (f : A → Result B)
    → is_tame raised x ≡ true
    → ((a : A) → is_tame raised (f a) ≡ true)
    → is_tame raised (x >>= f) ≡ true
unfolding is_tame
is_tame-bind raised (ok a) f h k = k a
is_tame-bind raised (raise (app e)) f h k = h
is_tame-bind raised (raise (crash c)) f h k = refl

-- where the response needs to be documented only for what `x` returns
pub is_answer-bind_ok {ℓ} :
    {A : Type ℓ} (op : Operation) (x : Result A) (f : A → Result Response)
    → is_tame (raised_by op) x ≡ true
    → ((a : A) → x ≡ ok a → is_answer op (f a) ≡ true)
    → is_answer op (x >>= f) ≡ true
unfolding is_tame is_answer
is_answer-bind_ok op (ok a) f h k = k a refl
is_answer-bind_ok op (raise (app e)) f h k = h
is_answer-bind_ok op (raise (crash c)) f h k = refl

pub is_answer-bind {ℓ} :
    {A : Type ℓ} (op : Operation) (x : Result A) (f : A → Result Response)
    → is_tame (raised_by op) x ≡ true
    → ((a : A) → is_answer op (f a) ≡ true)
    → is_answer op (x >>= f) ≡ true
is_answer-bind op x f h k = is_answer-bind_ok op x f h λ a got. k a
