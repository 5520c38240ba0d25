-- ===== src/Logging/Carried.antt =====
-- What every line carries of the context that is bound.
use issues_api_testbed.Prelude.{
  ℕ, ◌+◌, ◌≡◌, ◌≢◌, ◌⊎◌, inl, inr, none, some, List, [], ◌∷◌, arith, Text, text, All, Bool-cases,
}
use issues_api_testbed.Python.{Json, obj, Fields, lookup}
use issues_api_testbed.Logging.Lines.{Line, Structlog, IsStructlog, processed, filtered, rendered}

-- a key that neither the event nor a processor sets
pub record IsFree (k : Text) : Type 0 where
  pub event : k ≢ text "event"
  pub level : k ≢ text "level"
  pub timestamp : k ≢ text "timestamp"
  pub stack_info : k ≢ text "stack_info"
  pub stack : k ≢ text "stack"
  pub exc_info : k ≢ text "exc_info"
  pub exception : k ≢ text "exception"

-- the arguments of the call have the value, or do not have the key
abbrev pub Agrees : Text → Json → Line → Type 0
Agrees k v l = (lookup k l.fields ≡ none) ⊎ (lookup k l.fields ≡ some v)

-- a line, written, has the value of the key
abbrev pub Carries : Text → Json → Json → Type 0
Carries k v (obj d) = lookup k d ≡ some v
Carries k v _ = ⊥

module _ (sl : Structlog) where
  module _ (law : IsStructlog sl) where
    processed-Carries :
        (k stamp : Text) (v : Json) (context : Fields) (l : Line)
        → IsFree k
        → lookup k context ≡ some v
        → Agrees k v l
        → Carries k v (processed sl stamp context l)
    unfolding processed
    processed-Carries k stamp v context l free bound agrees =
        rw
          (
            law.exception-others k l.traceback _ free.exc_info free.exception,
            law.stack-others k _ free.stack_info free.stack,
            law.timestamp-others k stamp _ free.timestamp,
            law.level-others k l.level _ free.level,
            law.merge-lookup k context (sl.event_dict l.event l.fields),
            law.event_dict-others k l.event l.fields free.event,
          )
          (ground arith)

    -- Every line that is written has the value that the context has for a key, if no call gives the
    -- key another one.
    pub rendered-Carries :
        (k : Text) (v : Json) (stamps : ℕ → Text) (n : ℕ) (context : Fields) (ls : List Line)
        → IsFree k
        → lookup k context ≡ some v
        → All (Agrees k v) ls
        → All (Carries k v) (rendered sl stamps n context ls)
    unfolding rendered
    rendered-Carries k v stamps n context [] free bound h = tt
    rendered-Carries k v stamps n context (l ∷ ls) free bound h = (
      processed-Carries k (stamps n) v context l free bound h.0,
      rendered-Carries k v stamps (n + 1) context ls free bound h.1,
    )

  pub filtered-All :
      (P : Line → Type 0) (level : Text) (ls : List Line) → All P ls → All P (filtered sl level ls)
  unfolding filtered
  filtered-All P level [] h = tt
  filtered-All P level (l ∷ ls) h = elim (Bool-cases (sl.is_enabled level l.level)) [
    | inl loud ↦ rw loud (h.0, filtered-All P level ls h.1)
    | inr quiet ↦ rw quiet (filtered-All P level ls h.1)
  ]
