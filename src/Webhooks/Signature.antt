-- ===== src/Webhooks/Signature.antt =====
-- Which deliveries `verify_signature` lets through, and what it answers to the others.
use issues_api_testbed.Prelude.{
  ◌≡◌, ◌≢◌, ◌↔◌, refl, ap, true, false, Option, none, some, List, [], ◌∷◌, ◌++◌, ℕ, arith, Text,
  text, text_beq, is_empty, text_beq_iff, text_ne, ==_refl, text_eq, if◌then◌else◌,
}
use issues_api_testbed.Errors.{Result, ok, raise, crash, app, type_error, error_body}
use issues_api_testbed.Handlers.{error_response}
use issues_api_testbed.Webhooks.Defs.{
  Hmac, absent, mismatch, utf8, is_ascii, verify_header, verify_signature,
}

is_ascii-append : (s t : Text) → is_ascii s ≡ true → is_ascii t ≡ true → is_ascii (s ++ t) ≡ true
unfolding is_ascii
is_ascii-append [] t h k = k
is_ascii-append (c ∷ s) t h k = ground (arith, is_ascii-append s t)

-- the signature that GitHub sends for a body
abbrev pub signature : Hmac → List ℕ → List ℕ → Text
signature hmac key body = text "sha256=" ++ hmac.hexdigest key body

module _ (hmac : Hmac) (hex : (key body : List ℕ) → is_ascii (hmac.hexdigest key body) ≡ true) where
  signature-is_ascii : (key body : List ℕ) → is_ascii (signature hmac key body) ≡ true
  signature-is_ascii key body =
      is_ascii-append (text "sha256=") (hmac.hexdigest key body) (unfold text is_ascii in refl)
        (hex key body)

  -- what is answered to a header that is there
  abbrev pub verdict : Text → Text → Result (Unit {0})
  verdict expected header =
      if is_ascii header
      then (if text_beq expected header then ok tt else raise (app mismatch))
      else raise (crash type_error)

  verify_header-verdict :
      (secret header : Text) (key body : List ℕ)
      → utf8 secret ≡ some key
      → verify_header hmac secret body header ≡ verdict (signature hmac key body) header
  unfolding verify_header
  verify_header-verdict secret header key body e = ground (arith, signature-is_ascii key body)

  -- For a secret that has a UTF-8 form and digests that are ASCII, a header that is present and not
  -- empty is answered by the comparison alone: nothing is raised for the right
  -- signature, 401 for any other ASCII text, and `TypeError` if the header is not ASCII.
  verify_signature-verdict :
      (secret : Text) (c : ℕ) (s : Text) (key body : List ℕ)
      → utf8 secret ≡ some key
      → verify_signature hmac secret body (some (c ∷ s)) ≡ verdict (signature hmac key body) (c ∷ s)
  verify_signature-verdict secret c s key body e =
      unfold verify_signature in verify_header-verdict secret (c ∷ s) key body e

  not_empty : (key body : List ℕ) → signature hmac key body ≢ []
  unfolding text
  not_empty key body e = cc

  verdict_iff :
      (header : Text) (key body : List ℕ)
      → (verdict (signature hmac key body) header ≡ ok tt) ↔ (header ≡ signature hmac key body)
  verdict_iff header key body = (
    λ h. ground (arith, text_beq_iff (signature hmac key body) header),
    λ e. rw (e, signature-is_ascii key body, ==_refl (signature hmac key body)),
  )

  -- For a secret that has a UTF-8 form and digests that are ASCII, `verify_signature` returns
  -- exactly for the signature of the raw body under the secret.
  pub verify_signature_iff :
      (secret : Text) (header : Option Text) (key body : List ℕ)
      → utf8 secret ≡ some key
      → (verify_signature hmac secret body header ≡ ok tt)
        ↔ (header ≡ some (signature hmac key body))
  unfolding verify_signature
  verify_signature_iff secret none key body e = (λ h. absurd (cc), λ h. absurd (cc))
  verify_signature_iff secret (some []) key body e =
      (λ h. absurd (cc), λ h. absurd (not_empty key body (cc)))
  verify_signature_iff secret (some (c ∷ s)) key body e =
      rw (verify_header-verdict secret (c ∷ s) key body e) (
        λ h. ap some ((verdict_iff (c ∷ s) key body).0 h),
        λ h. (verdict_iff (c ∷ s) key body).1 (ground arith),
      )

  reasons_differ : text "signature_header_absent" ≢ text "signature_mismatch"
  unfolding text text_beq
  reasons_differ = text_ne _ _ refl

  -- For a secret that has a UTF-8 form and digests that are ASCII, a missing header and a wrong
  -- ASCII one both get 401, with one message, and with response bodies that
  -- differ: the `details` tell the two apart.
  pub responses_differ :
      (secret header : Text) (key body : List ℕ) (request_id : Option Text)
      → utf8 secret ≡ some key
      → is_ascii header ≡ true
      → is_empty header ≡ false
      → header ≢ signature hmac key body
      → (verify_signature hmac secret body none ≡ raise (app absent))
        × (verify_signature hmac secret body (some header) ≡ raise (app mismatch))
        × (absent.status_code ≡ mismatch.status_code)
        × (absent.message ≡ mismatch.message)
        × ((error_response request_id (app absent)).body
            ≢ (error_response request_id (app mismatch)).body)
  unfolding verify_signature
  responses_differ secret [] key body request_id e a n h = absurd (cc)
  responses_differ secret (c ∷ s) key body request_id e a n h = (
    refl,
    rw (verify_header-verdict secret (c ∷ s) key body e)
        (ground (arith, text_beq_iff (signature hmac key body) (c ∷ s))),
    refl,
    refl,
    unfold error_response error_body in λ q. reasons_differ (cc),
  )
