-- ===== src/Prelude/Result.antt =====
-- A Python call that returns or raises, the type of the exceptions being a parameter.
use mathlib.Core.Path.{◌≡◌, refl, ap}
use mathlib.Core.Logic.{◌⊎◌, inl, inr}
use mathlib.Core.Bool.{Bool, true, false}

pub data Result {ℓ} (E A : Type ℓ) : Type ℓ where
  ok : A → Result E A
  raise : E → Result E A

infixl 5 ◌>>=◌ ◌>>◌
abbrev pub ◌>>=◌ {ℓ} : {E A B : Type ℓ} → Result E A → (A → Result E B) → Result E B
ok a >>= f = f a
raise e >>= f = raise e

abbrev pub ◌>>◌ {ℓ} : {E A B : Type ℓ} → Result E A → Result E B → Result E B
m >> k = m >>= λ _. k

-- `if not test: raise e`
abbrev pub guard {ℓ} : {E : Type ℓ} → Bool → E → Result E (Unit {ℓ})
guard true e = ok tt
guard false e = raise e

pub Result-cases {ℓ} :
    {E A : Type ℓ} (r : Result E A) → ((a : A) × (r ≡ ok a)) ⊎ ((e : E) × (r ≡ raise e))
Result-cases (ok a) = inl (a, refl)
Result-cases (raise e) = inr (e, refl)

pub ok-injective {ℓ} : {E A : Type ℓ} {x y : A} → ◌≡◌ {A = Result E A} (ok x) (ok y) → x ≡ y
ok-injective h = cc

pub raise-ne-ok {ℓ} : {E A : Type ℓ} {e : E} {x : A} → ◌≡◌ {A = Result E A} (raise e) (ok x) → ⊥
raise-ne-ok h = cc

-- Where a chain returns, so did its first part.
pub >>=-ok {ℓ} :
    {E A B : Type ℓ} (m : Result E A) (f : A → Result E B) (b : B)
    → (m >>= f) ≡ ok b
    → (a : A) × (m ≡ ok a) × (f a ≡ ok b)
>>=-ok (ok a) f b h = (a, refl, h)
>>=-ok (raise e) f b h = absurd (raise-ne-ok h)

pub >>-ok {ℓ} :
    {E A B : Type ℓ} (m : Result E A) (k : Result E B) (b : B)
    → (m >> k) ≡ ok b
    → (a : A) × (m ≡ ok a) × (k ≡ ok b)
>>-ok (ok a) k b h = (a, refl, h)
>>-ok (raise e) k b h = absurd (raise-ne-ok h)

-- A call on shared state that may raise, and what runs after it returns. What was written before a
-- raise stays written.
infixl 5 ◌▷◌
unfoldable pub ◌▷◌ {ℓ} :
    {E A B S : Type ℓ} → Result E A × S → (A → S → Result E B × S) → Result E B × S
x ▷ f = elim x.0 [ ok a ↦ f a x.1 | raise e ↦ (raise e, x.1) ]

module _ {ℓ} {E A B S : Type ℓ} where
  -- Where the whole returns, so did its first part.
  pub ▷-ok :
      (x : Result E A × S) (f : A → S → Result E B × S) (b : B)
      → (x ▷ f).0 ≡ ok b
      → (a : A) × (x.0 ≡ ok a) × ((f a x.1).0 ≡ ok b) × ((x ▷ f) ≡ f a x.1)
  unfolding ◌▷◌
  ▷-ok (ok a, s) f b h = (a, refl, h, refl)
  ▷-ok (raise e, s) f b h = absurd (raise-ne-ok h)

  pub ok-▷ :
      (x : Result E A × S) (f : A → S → Result E B × S) (a : A) → x.0 ≡ ok a → (x ▷ f) ≡ f a x.1
  unfolding ◌▷◌
  ok-▷ (ok a, s) f b h = ap (λ c. f c s) (ok-injective h)
  ok-▷ (raise e, s) f b h = absurd (raise-ne-ok h)

  -- What each part keeps of the state, the whole keeps.
  pub ▷_rule {κ} :
      (P : S → Type κ) (x : Result E A × S) (f : A → S → Result E B × S)
      → P x.1
      → ((a : A) → x.0 ≡ ok a → P x.1 → P (f a x.1).1)
      → P (x ▷ f).1
  unfolding ◌▷◌
  ▷_rule P (ok a, s) f p q = q a refl p
  ▷_rule P (raise e, s) f p q = p
