-- ===== src/Prelude/Equality.antt =====
-- Boolean equality as an interface, at the types that the program compares by `==`.
use Prim.Native.Nat.{ℕ}
use Prim.Native.String.{String}
use mathlib.Core.Path.{◌≡◌, refl, ap}
use mathlib.Core.Logic.{◌↔◌}
use mathlib.Core.Bool.{Bool, true, false, ◌&&◌}
use mathlib.Core.Option.{Option, none, some}
use mathlib.Core.List.{List, [], ◌∷◌}
use native.Mathlib.Omega.{arith}
use text.Mathlib.Text.{◌==◌ as str_eq}
use text.Mathlib.TextEquality.{eq_iff}
use byo_firmware_mcp.Prelude.Tests.{eqb, eqb_iff, and_true}

-- What a type needs for `==`: the test, and that it decides equality.
pub record Eq {κ} (T : Type κ) : Type κ where
  pub beq : T → T → Bool
  pub beq_iff : (x y : T) → (beq x y ≡ true) ↔ (x ≡ y)

infix 50 ◌==◌
abbrev pub ◌==◌ {κ} : {T : Type κ} ⦃test : Eq T⦄ (x y : T) → Bool
◌==◌ ⦃test⦄ x y = test.beq x y

module _ {κ} {T : Type κ} ⦃test : Eq T⦄ where
  pub ==_iff : (x y : T) → ((x == y) ≡ true) ↔ (x ≡ y)
  ==_iff x y = test.beq_iff x y

  pub ==_refl : (x : T) → (x == x) ≡ true
  ==_refl x = (test.beq_iff x x).1 refl

instance abbrev pub string_eq : Eq String
string_eq = record { beq_iff = eq_iff; beq = str_eq }

instance abbrev pub nat_eq : Eq ℕ
nat_eq = record { beq_iff = eqb_iff; beq = eqb }

module _ {ℓ κ} {A : Type ℓ} {B : Type κ} ⦃e : Eq A⦄ ⦃f : Eq B⦄ where
  abbrev pub pair_beq : A × B → A × B → Bool
  pair_beq (a, b) (c, d) = e.beq a c && f.beq b d

  pub pair_beq_iff : (p q : A × B) → (pair_beq p q ≡ true) ↔ (p ≡ q)
  pair_beq_iff (a, b) (c, d) = (
    λ h. let (p, q) = and_true _ _ h in λ i. ((e.beq_iff a c).0 p i, (f.beq_iff b d).0 q i),
    λ h. cc (
      (e.beq_iff a c).1 (ap (λ (p : A × B). p.0) h),
      (f.beq_iff b d).1 (ap (λ (p : A × B). p.1) h),
    ),
  )

  instance abbrev pub pair_eq : Eq (A × B)
  pair_eq = record { beq = pair_beq; beq_iff = pair_beq_iff }

module _ {ℓ} {A : Type ℓ} ⦃e : Eq A⦄ where
  abbrev pub option_beq : Option A → Option A → Bool
  option_beq none none = true
  option_beq (some a) (some b) = e.beq a b
  option_beq _ _ = false

  pub option_beq_iff : (p q : Option A) → (option_beq p q ≡ true) ↔ (p ≡ q)
  option_beq_iff none none = (λ h. refl, λ h. refl)
  option_beq_iff (some a) (some b) = ground (arith, e.beq_iff a b)
  option_beq_iff none (some b) = (λ h. cc, λ h. cc)
  option_beq_iff (some a) none = (λ h. cc, λ h. cc)

  instance abbrev pub option_eq : Eq (Option A)
  option_eq = record { beq = option_beq; beq_iff = option_beq_iff }

-- An enumeration, compared by the position of its members.
module _ {ℓ} {A : Type ℓ} (ordinal : A → ℕ) (member : ℕ → A)
    (left_inverse : (a : A) → member (ordinal a) ≡ a) where
  pub enum_beq_iff : (a b : A) → (eqb (ordinal a) (ordinal b) ≡ true) ↔ (a ≡ b)
  enum_beq_iff a b = (
    λ h. cc (ap member ((eqb_iff (ordinal a) (ordinal b)).0 h), left_inverse a, left_inverse b),
    λ h. (eqb_iff (ordinal a) (ordinal b)).1 (ap ordinal h),
  )

  abbrev pub enum_eq : Eq A
  enum_eq = record { beq = λ a b. eqb (ordinal a) (ordinal b); beq_iff = enum_beq_iff }

module _ {ℓ} {A : Type ℓ} ⦃e : Eq A⦄ where
  abbrev pub list_beq : List A → List A → Bool
  list_beq [] [] = true
  list_beq (x ∷ xs) (y ∷ ys) = e.beq x y && list_beq xs ys
  list_beq _ _ = false

  pub list_beq_iff : (xs ys : List A) → (list_beq xs ys ≡ true) ↔ (xs ≡ ys)
  list_beq_iff [] [] = (λ h. refl, λ h. refl)
  list_beq_iff [] (y ∷ ys) = (λ h. cc, λ h. cc)
  list_beq_iff (x ∷ xs) [] = (λ h. cc, λ h. cc)
  list_beq_iff (x ∷ xs) (y ∷ ys) = ground (arith, e.beq_iff x y, list_beq_iff xs ys)

  instance abbrev pub list_eq : Eq (List A)
  list_eq = record { beq = list_beq; beq_iff = list_beq_iff }

abbrev pub bool_number : Bool → ℕ
bool_number true = 1
bool_number false = 0

pub bool_beq_iff : (a b : Bool) → (eqb (bool_number a) (bool_number b) ≡ true) ↔ (a ≡ b)
bool_beq_iff true b = ground arith
bool_beq_iff false b = ground arith

instance abbrev pub bool_eq : Eq Bool
bool_eq = record { beq = λ a b. eqb (bool_number a) (bool_number b); beq_iff = bool_beq_iff }
