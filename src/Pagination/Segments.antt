-- ===== src/Pagination/Segments.antt =====
-- How a header is cut into segments: a link is never cut, whatever its target holds.
use issues_api_testbed.Prelude.{
  ==_refl, ℕ, ◌≡◌, refl, ap, ◌∙◌, Bool, true, false, not, ◌||◌, some, [], ◌∷◌, ◌++◌, append-nil,
  append_assoc, arith, Text, text, is_empty, ◌==◌, nat_eq, text_eq,
}
use issues_api_testbed.Python.Str.{rstrip, strip, is_space}
use issues_api_testbed.Pagination.Defs.{until, split_from}
use issues_api_testbed.Pagination.Rewriting.{render_link}

abbrev pub All : (ℕ → Bool) → Text → Type 0
All p [] = Unit
All p (c ∷ s) = (p c ≡ true) × All p s

-- no angle bracket
abbrev pub inside : ℕ → Bool
inside c = not (c == b'<' || c == b'>')

-- no angle bracket, comma or quote
abbrev pub plain : ℕ → Bool
plain c = not ((c == b'<' || c == b'>') || (c == b',' || c == b'"'))

-- A relation and a target that can stand in a header: not empty, with no blank at either end.
pub record IsLink (l : Text × Text) : Type 0 where
  pub rel_plain : All plain l.0
  pub rel_not_empty : is_empty l.0 ≡ false
  pub rel_stripped : strip l.0 ≡ l.0
  pub url_inside : All inside l.1
  pub url_not_empty : is_empty l.1 ≡ false
  pub url_stripped : strip l.1 ≡ l.1

step_plain :
    (c : ℕ) (current rest : Text)
    → plain c ≡ true
    → split_from 0 current (c ∷ rest) ≡ split_from 0 (current ++ c ∷ []) rest
unfolding split_from
step_plain c current rest h = ground arith

step_inside :
    (c : ℕ) (current rest : Text)
    → inside c ≡ true
    → split_from 1 current (c ∷ rest) ≡ split_from 1 (current ++ c ∷ []) rest
unfolding split_from
step_inside c current rest h = ground arith

split_plain :
    (s current rest : Text)
    → All plain s
    → split_from 0 current (s ++ rest) ≡ split_from 0 (current ++ s) rest
split_plain [] current rest h = rw append-nil
split_plain (c ∷ s) current rest h =
    step_plain c current (s ++ rest) h.0
    ∙ split_plain s (current ++ c ∷ []) rest h.1
    ∙ rw append_assoc

split_inside :
    (s current rest : Text)
    → All inside s
    → split_from 1 current (s ++ rest) ≡ split_from 1 (current ++ s) rest
split_inside [] current rest h = rw append-nil
split_inside (c ∷ s) current rest h =
    step_inside c current (s ++ rest) h.0
    ∙ split_inside s (current ++ c ∷ []) rest h.1
    ∙ rw append_assoc

until-append :
    (mark : ℕ) (p : ℕ → Bool) (s rest : Text)
    → ((c : ℕ) → p c ≡ true → (c == mark) ≡ false)
    → All p s
    → until mark (s ++ mark ∷ rest) ≡ some (s, rest)
unfolding until
until-append mark p [] rest apart h = ground (arith, ==_refl mark)
until-append mark p (c ∷ s) rest apart h = rw (until-append mark p s rest apart h.1, apart c h.0)

not_blank : (s : Text) (c : ℕ) → is_empty (s ++ c ∷ []) ≡ false
not_blank [] c = refl
not_blank (d ∷ s) c = refl

pub rstrip_last : (s : Text) (c : ℕ) → is_space c ≡ false → rstrip (s ++ c ∷ []) ≡ s ++ c ∷ []
unfolding rstrip
rstrip_last [] c h = rw h
rstrip_last (d ∷ s) c h = rw (rstrip_last s c h) (ground (arith, not_blank s c))

-- what `render_link` writes behind the target
abbrev tail_of : Text → Text
tail_of rel = text ">; rel=\"" ++ (rel ++ b'"' ∷ [])

pub closing :
    (s : Text) → All inside s → (rest : Text) → until b'>' (s ++ b'>' ∷ rest) ≡ some (s, rest)
closing s h rest = until-append b'>' inside s rest (λ c p. ground arith) h

pub quote :
    (s : Text) → All plain s → (rest : Text) → until b'"' (s ++ b'"' ∷ rest) ≡ some (s, rest)
quote s h rest = until-append b'"' plain s rest (λ c p. ground arith) h

open_link :
    (current s : Text) → split_from 0 current (b'<' ∷ s) ≡ split_from 1 (current ++ b'<' ∷ []) s
unfolding split_from
open_link current s = refl

close_link :
    (current s : Text)
    → split_from 1 current (text ">; rel=\"" ++ s) ≡ split_from 0 (current ++ text ">; rel=\"") s
unfolding split_from text
close_link current s = simp append_assoc

end_link :
    (current s : Text) → split_from 0 current (b'"' ∷ s) ≡ split_from 0 (current ++ b'"' ∷ []) s
unfolding split_from
end_link current s = refl

pub render_link-append :
    (rel url rest : Text)
    → render_link (rel, url) ++ rest ≡ b'<' ∷ (url ++ (text ">; rel=\"" ++ (rel ++ b'"' ∷ rest)))
unfolding render_link
render_link-append rel url rest = simp append_assoc

gathered :
    (rel url current : Text)
    → ((((current ++ b'<' ∷ []) ++ url) ++ text ">; rel=\"") ++ rel) ++ b'"' ∷ []
      ≡ current ++ render_link (rel, url)
unfolding render_link
gathered rel url current = simp append_assoc

-- a link in a header is one segment, wherever it stands
pub split_link :
    (l : Text × Text) (current rest : Text)
    → IsLink l
    → split_from 0 current (render_link l ++ rest) ≡ split_from 0 (current ++ render_link l) rest
split_link (rel, url) current rest h =
    ap (split_from 0 current) (render_link-append rel url rest)
    ∙ open_link current _
    ∙ split_inside url _ _ h.url_inside
    ∙ close_link _ _
    ∙ split_plain rel _ _ h.rel_plain
    ∙ end_link _ rest
    ∙ ap (λ c. split_from 0 c rest) (gathered rel url current)
