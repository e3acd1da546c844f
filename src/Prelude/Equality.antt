-- ===== src/Prelude/Equality.antt =====
-- Equality tests as an interface, with instances for identifiers and texts.
use Prim.Native.Nat.{ℕ}
use Prim.Native.String.{String}
use mathlib.Core.Path.{◌≡◌, refl, ap, sym, ◌∙◌}
use mathlib.Core.Logic.{◌↔◌}
use mathlib.Core.Bool.{Bool, true}
use mathlib.Core.Option.{Option, some, some-injective}
use text.Mathlib.Text.{◌==◌ as text_eq}
use text.Mathlib.TextEquality.{eq_iff}
use governed_agent_platform.Prelude.Tests.{nat_eq, nat_eq_iff}

pub record Eq {ℓ} (A : Type ℓ) : Type ℓ where
  pub is_equal : A → A → Bool
  pub decides : (x y : A) → (is_equal x y ≡ true) ↔ (x ≡ y)

infix 50 ◌==◌
abbrev pub ◌==◌ {ℓ} : {A : Type ℓ} ⦃e : Eq A⦄ → A → A → Bool
◌==◌ ⦃e⦄ = e.is_equal

instance abbrev pub id_eq : Eq ℕ
id_eq = record { is_equal = nat_eq; decides = nat_eq_iff }

instance abbrev pub string_eq : Eq String
string_eq = record { is_equal = text_eq; decides = eq_iff }

pub eq_self {ℓ} : {A : Type ℓ} ⦃e : Eq A⦄ (a : A) → (a == a) ≡ true
eq_self ⦃e⦄ a = (e.decides a a).1 refl

-- A `StrEnum`: its members are compared by their values, and `decode` is the class called on a
-- value.
module _ {A : Type 0} (encode : A → String) (decode : String → Option A)
    (decode-encode : (a : A) → decode (encode a) ≡ some a) where
  pub encode_injective : (a b : A) → encode a ≡ encode b → a ≡ b
  encode_injective a b p =
      some-injective a b (sym (decode-encode a) ∙ ap decode p ∙ decode-encode b)

  pub encode_iff : (a b : A) → (text_eq (encode a) (encode b) ≡ true) ↔ (a ≡ b)
  encode_iff a b = (
    λ h. encode_injective a b ((eq_iff (encode a) (encode b)).0 h),
    λ p. (eq_iff (encode a) (encode b)).1 (ap encode p),
  )

  abbrev pub enum_eq : Eq A
  enum_eq = record { is_equal = λ a b. text_eq (encode a) (encode b); decides = encode_iff }
