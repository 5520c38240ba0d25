-- ===== src/Replay/Printed.antt =====
-- What the script prints.
use issues_api_testbed.Prelude.Int.{ℤ, pos, negsuc}
use issues_api_testbed.Prelude.{
  ℕ, zero, suc, ◌+◌, ◌&&◌, ◌≡◌, refl, inl, inr, Option, none, some, List, [], ◌∷◌, ◌++◌, Text, text,
  is_empty, length, ◌==◌, nat_eq, if◌then◌else◌,
}
use issues_api_testbed.Python.{Json, obj}
use issues_api_testbed.Python.Str.{decimal}
use issues_api_testbed.Errors.{Result, Result-cases, ok, raise, ◌>>◌}
use issues_api_testbed.Http.{Request, EventRecord}
use issues_api_testbed.Webhooks.{Hmac}
use issues_api_testbed.Replay.Defs.{
  Args, Client, event_text, build_payload, delivery_request, chosen_delivery, rounds, post_times,
  load_secret, matching, sign, replay, main,
}

-- `str` of an integer
abbrev int_text : ℤ → Text
int_text (pos n) = decimal n
int_text (negsuc n) = b'-' ∷ decimal (suc n)

-- `url.rstrip("/")`
unfoldable pub base_url : Text → Text
base_url [] = []
base_url (c ∷ s) = let rest = base_url s in if is_empty rest && c == b'/' then [] else c ∷ rest

abbrev heading : Text → Text → Args → List Text
heading url delivery_id args =
    (text "service      : " ++ base_url url)
    ∷ (text "delivery id  : " ++ delivery_id)
    ∷ (text "event/action : " ++ event_text args.event ++ text "/" ++ args.action)
    ∷ []
    ∷ []

abbrev attempt_line : ℕ → ℕ → Text
attempt_line attempt status_code =
    text "  attempt " ++ decimal attempt ++ text ": HTTP " ++ decimal status_code

unfoldable pub verdict_lines : ℤ → Text → List EventRecord → List Text
unfolding matching
verdict_lines times delivery_id events =
    let found = length (matching delivery_id events) in
    []
    ∷ (text "deliveries sent            : " ++ int_text times)
    ∷ (text "rows stored for that id    : " ++ decimal found)
    ∷ (if found == 1
        then 10 ∷ text "PASS - repeated deliveries were deduplicated."
        else 10 ∷ text "FAIL - expected exactly 1 stored row, found " ++ decimal found ++ text ".")
    ∷ []

abbrev when_ok : {A : Type 0} → Result A → (A → List Text) → List Text
when_ok (ok x) f = f x
when_ok (raise e) f = []

module _ {S : Type 0} (client : Client S) where
  -- the loop over the attempts, from the given one on
  unfoldable pub attempt_lines : ℕ → ℕ → Request → S → List Text
  attempt_lines attempt zero request s = []
  attempt_lines attempt (suc n) request s =
      let (answer, s') = client.post request s in
      elim answer [
        | raise e ↦ []
        | ok status_code ↦
            attempt_line attempt status_code ∷ attempt_lines (attempt + 1) n request s'
      ]

  unfoldable pub replay_lines : ℤ → Text → Request → S → List Text
  unfolding attempt_lines verdict_lines post_times
  replay_lines times delivery_id request s =
      if client.healthz s
      then (let (sent, s') = post_times client (rounds times) request s in
          attempt_lines 1 (rounds times) request s
          ++ when_ok (do sent; client.events 200 s') (verdict_lines times delivery_id))
      else []

  unfoldable pub printed :
      Hmac → (Json → List ℕ) → Text → Args → Option Text → Option Text → Text → S → List Text
  unfolding base_url replay_lines
  printed hmac encode url args env env_file uuid s = elim (load_secret env env_file) [
    | none ↦ []
    | some secret ↦
        let delivery_id = chosen_delivery args.delivery_id uuid in
        let raw = encode (obj (build_payload args.event args.action args.issue_number)) in
        elim (sign hmac secret raw) [
          | raise e ↦ []
          | ok signature ↦
              heading url delivery_id args
              ++ replay_lines args.times delivery_id
                  (delivery_request args.event delivery_id signature raw) s
        ]
  ]

  module _ (q r : Request) (alike : (s : S) → client.post q s ≡ client.post r s) where
    attempt_lines-alike :
        (attempt n : ℕ) (s : S) → attempt_lines attempt n q s ≡ attempt_lines attempt n r s
    unfolding attempt_lines
    attempt_lines-alike attempt zero s = refl
    attempt_lines-alike attempt (suc n) s = elim (Result-cases (client.post r s).0) [
      | inl (e, failed) ↦ rw (alike s, attempt_lines) (rw (failed, attempt_lines) refl)
      | inr (c, done) ↦
          rw (alike s, attempt_lines)
            (rw (done, attempt_lines)
              (rw (alike s) (rw (attempt_lines-alike (attempt + 1) n (client.post r s).1) refl)))
    ]

    post_times-alike : (n : ℕ) (s : S) → post_times client n q s ≡ post_times client n r s
    unfolding post_times
    post_times-alike zero s = refl
    post_times-alike (suc n) s = elim (Result-cases (client.post r s).0) [
      | inl (e, failed) ↦ rw (alike s, post_times) (rw (failed, post_times) (rw (alike s) refl))
      | inr (c, done) ↦
          rw (alike s, post_times)
            (rw (done, post_times) (rw (alike s) (post_times-alike n (client.post r s).1)))
    ]

    replay_lines-alike :
        (times : ℤ) (id : Text) (s : S) → replay_lines times id q s ≡ replay_lines times id r s
    unfolding replay_lines
    replay_lines-alike times id s =
        rw (attempt_lines-alike 1 (rounds times) s, post_times-alike (rounds times) s) refl

    replay-alike : (n : ℕ) (id : Text) (s : S) → replay client n id q s ≡ replay client n id r s
    unfolding replay
    replay-alike n id s = rw (post_times-alike n s) refl

  -- For two secrets that are found and have a UTF-8 form: if the service answers the delivery with
  -- the signature under the one as it answers that with the signature under the other, the script
  -- prints the same with the one secret and with the other, and ends alike.
  pub secret_not_printed :
      (hmac : Hmac) (encode : Json → List ℕ) (url : Text) (args : Args) (uuid : Text)
      (env env' env_file env_file' : Option Text) (a b sign_a sign_b : Text) (s : S)
      → load_secret env env_file ≡ some a
      → load_secret env' env_file' ≡ some b
      → sign hmac a (encode (obj (build_payload args.event args.action args.issue_number)))
        ≡ ok sign_a
      → sign hmac b (encode (obj (build_payload args.event args.action args.issue_number)))
        ≡ ok sign_b
      → ((s : S)
          → client.post
              (delivery_request args.event
                (chosen_delivery args.delivery_id uuid)
                sign_a
                (encode (obj (build_payload args.event args.action args.issue_number))))
              s
            ≡ client.post
                (delivery_request args.event
                  (chosen_delivery args.delivery_id uuid)
                  sign_b
                  (encode (obj (build_payload args.event args.action args.issue_number))))
                s)
      → (printed hmac encode url args env env_file uuid s
          ≡ printed hmac encode url args env' env_file' uuid s)
        × (main client hmac encode args env env_file uuid s
            ≡ main client hmac encode args env' env_file' uuid s)
  unfolding printed main
  secret_not_printed hmac encode url args uuid env env' env_file env_file' a b sign_a sign_b s found
        found' signed signed' alike =
      (
        rw (found, found', printed)
            (rw (signed, signed') (rw (replay_lines-alike _ _ alike args.times _ s) refl)),
        rw (found, found', main)
            (rw (signed, signed') (replay-alike _ _ alike (rounds args.times) _ s)),
      )
