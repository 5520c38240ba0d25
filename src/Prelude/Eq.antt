-- ===== src/Prelude/Eq.antt =====
-- Equality tests as an interface, with the instances that the components compare by.
use Prim.Native.Nat.{ℕ}
use mathlib.Core.Path.{◌≡◌, refl, sym, ◌∙◌}
use mathlib.Core.Logic.{◌≢◌, ◌↔◌, inl, inr}
use mathlib.Core.Bool.{Bool, true, false, false≢true, ◌&&◌}
use native.Mathlib.Omega.{arith}
use issues_api_testbed.Prelude.Tests.{nat_beq, nat_beq_iff, Bool-cases}
use issues_api_testbed.Prelude.Texts.{Text, text_beq, text_beq_iff}

pub record HasEq {ℓ} (A : Type ℓ) : Type ℓ where
  pub beq : A → A → Bool
  pub beq_iff : (x y : A) → (beq x y ≡ true) ↔ (x ≡ y)

instance abbrev pub text_eq : HasEq Text
text_eq = record { beq = text_beq; beq_iff = text_beq_iff }

instance abbrev pub nat_eq : HasEq ℕ
nat_eq = record { beq = nat_beq; beq_iff = nat_beq_iff }

module _ {ℓ} {A : Type ℓ} ⦃e : HasEq A⦄ where
  infix 50 ◌==◌
  abbrev pub ◌==◌ : A → A → Bool
  a == b = e.beq a b

  pub ==_refl : (a : A) → (a == a) ≡ true
  ==_refl a = (e.beq_iff a a).1 refl

  pub eq_of_== : (a b : A) → (a == b) ≡ true → a ≡ b
  eq_of_== a b = (e.beq_iff a b).0

  pub ==_of_ne : (a b : A) → a ≢ b → (a == b) ≡ false
  ==_of_ne a b h = elim (Bool-cases (a == b)) [
    | inl same ↦ absurd (h (eq_of_== a b same))
    | inr other ↦ other
  ]

  pub ==_comm : (a b : A) → (a == b) ≡ (b == a)
  ==_comm a b = elim (Bool-cases (a == b)) [
    | inl same ↦ rw (eq_of_== a b same)
    | inr other ↦
        other ∙ sym (==_of_ne b a (λ back. false≢true (sym other ∙ (e.beq_iff a b).1 (sym back))))
  ]

pub pair_beq_iff {ℓ} :
    {A B : Type ℓ} (d : HasEq A) (e : HasEq B) (x y : A × B)
    → ((d.beq x.0 y.0 && e.beq x.1 y.1) ≡ true) ↔ (x ≡ y)
pair_beq_iff d e x y = ground (arith, d.beq_iff x.0 y.0, e.beq_iff x.1 y.1)

instance abbrev pub pair_eq {ℓ} : {A B : Type ℓ} ⦃d : HasEq A⦄ ⦃e : HasEq B⦄ → HasEq (A × B)
pair_eq ⦃d⦄ ⦃e⦄ = record { beq = λ x y. d.beq x.0 y.0 && e.beq x.1 y.1; beq_iff = pair_beq_iff d e }
