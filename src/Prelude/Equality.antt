-- ===== src/Prelude/Equality.antt =====
-- The Boolean `==` of the types that the program compares, as an interface with its law.
use Prim.Native.Nat.{ℕ}
use Prim.Native.String.{String}
use mathlib.Core.Path.{◌≡◌, refl, ap}
use mathlib.Core.Logic.{◌↔◌, ◌≢◌, inl, inr}
use mathlib.Core.Bool.{Bool, true, false}
use native.Mathlib.Omega.{arith}
use text.Mathlib.Text.{◌==◌ as str_eq}
use text.Mathlib.TextEquality.{eq_iff}
use multi_agent_llm_trading.Prelude.Tests.{eqb, eqb_iff, Bool-cases}

infix 50 ◌==◌
pub record Eq {ℓ} (A : Type ℓ) : Type ℓ where
  pub beq : (left right : A) → Bool
  pub beq_iff : (left right : A) → (beq left right ≡ true) ↔ (left ≡ right)

-- `a == b`
abbrev pub ◌==◌ {ℓ} : {A : Type ℓ} ⦃e : Eq A⦄ → A → A → Bool
◌==◌ ⦃e⦄ = e.beq

module _ {ℓ} {A : Type ℓ} ⦃e : Eq A⦄ where
  pub beq_refl : (a : A) → (a == a) ≡ true
  beq_refl a = (e.beq_iff a a).1 refl

  pub eq_of_beq : (a b : A) → (a == b) ≡ true → a ≡ b
  eq_of_beq a b h = (e.beq_iff a b).0 h

  pub beq_ne : (a b : A) → a ≢ b → (a == b) ≡ false
  beq_ne a b h = elim (Bool-cases (a == b)) [
    | inl same ↦ absurd (h (eq_of_beq a b same))
    | inr other ↦ other
  ]

  pub ne_of_beq : (a b : A) → (a == b) ≡ false → a ≢ b
  ne_of_beq a b h same = cc (beq_refl b, h, ap (λ x. x == b) same)

  pub beq_sym : (a b : A) → (a == b) ≡ (b == a)
  beq_sym a b = ground (arith, e.beq_iff a b, e.beq_iff b a)

instance abbrev pub string_eq : Eq String
string_eq = record { beq_iff = eq_iff; beq = str_eq }

pub by_code_iff :
    {A : Type 0} (code : A → ℕ) (inj : (a b : A) → code a ≡ code b → a ≡ b) (a b : A)
    → (eqb (code a) (code b) ≡ true) ↔ (a ≡ b)
by_code_iff code inj a b =
    (λ h. inj a b ((eqb_iff (code a) (code b)).0 h), λ e. (eqb_iff (code a) (code b)).1 (ap code e))

-- The equality of an enumeration whose members are told apart by a number.
abbrev pub by_code : {A : Type 0} (code : A → ℕ) → ((a b : A) → code a ≡ code b → a ≡ b) → Eq A
by_code code inj = record {
  beq = λ a b. eqb (code a) (code b);
  beq_iff = λ a b. by_code_iff code inj a b;
}

instance abbrev pub nat_eq : Eq ℕ
nat_eq = record { beq_iff = eqb_iff; beq = eqb }
