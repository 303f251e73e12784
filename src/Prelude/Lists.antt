-- ===== src/Prelude/Lists.antt =====
-- Lists under Boolean tests, with predicates by recursion.
use Prim.Native.Nat.{ℕ, suc}
use mathlib.Core.Path.{◌≡◌, refl}
use mathlib.Core.Logic.{◌⊎◌, inl, inr}
use mathlib.Core.List.{List, [], ◌∷◌, ◌++◌, map}
use mathlib.Core.Bool.{Bool, true, false, ◌&&◌, ◌||◌}
use native.Mathlib.Omega.{arith}
use byo_firmware_mcp.Prelude.Tests.{if◌then◌else◌, Bool-cases}

-- `P` holds at every entry, and at some entry.
abbrev pub All {ℓ} : {A : Type ℓ} → (A → Type 0) → List A → Type 0
All P [] = Unit
All P (x ∷ xs) = P x × All P xs

abbrev pub Any {ℓ} : {A : Type ℓ} → (A → Type 0) → List A → Type 0
Any P [] = ⊥
Any P (x ∷ xs) = P x ⊎ Any P xs

module _ {ℓ} {A : Type ℓ} where
  abbrev pub length : List A → ℕ
  length [] = 0
  length (x ∷ xs) = suc (length xs)

  abbrev pub is_nil : List A → Bool
  is_nil [] = true
  is_nil (x ∷ xs) = false

  unfoldable pub filter : (A → Bool) → List A → List A
  filter p [] = []
  filter p (x ∷ xs) = let rest = filter p xs in if p x then x ∷ rest else rest

  unfoldable pub any : (A → Bool) → List A → Bool
  any p [] = false
  any p (x ∷ xs) = p x || any p xs

  unfoldable pub all : (A → Bool) → List A → Bool
  all p [] = true
  all p (x ∷ xs) = p x && all p xs

  pub any→Any : (p : A → Bool) (xs : List A) → any p xs ≡ true → Any (λ x. p x ≡ true) xs
  unfolding any
  any→Any p (x ∷ xs) h = elim (Bool-cases (p x)) [
    | inl e ↦ inl e
    | inr e ↦ inr (any→Any p xs (ground arith))
  ]
  any→Any p [] h = ground arith

  pub Any→any : (p : A → Bool) (xs : List A) → Any (λ x. p x ≡ true) xs → any p xs ≡ true
  unfolding any
  Any→any p [] h = absurd h
  Any→any p (x ∷ xs) (inl e) = rw e
  Any→any p (x ∷ xs) (inr h) = ground (arith, Any→any p xs h)

  pub any_none : (p : A → Bool) (xs : List A) → any p xs ≡ false → All (λ x. p x ≡ false) xs
  unfolding any
  any_none p [] h = tt
  any_none p (x ∷ xs) h = (ground arith, any_none p xs (ground arith))

  pub none_any : (p : A → Bool) (xs : List A) → All (λ x. p x ≡ false) xs → any p xs ≡ false
  unfolding any
  none_any p [] h = refl
  none_any p (x ∷ xs) h = ground (arith, none_any p xs h.1)

  pub All-map : {P Q : A → Type 0} (xs : List A) → ((x : A) → P x → Q x) → All P xs → All Q xs
  All-map [] f h = tt
  All-map (x ∷ xs) f h = (f x h.0, All-map xs f h.1)

  pub Any-map : {P Q : A → Type 0} (xs : List A) → ((x : A) → P x → Q x) → Any P xs → Any Q xs
  Any-map [] f h = h
  Any-map (x ∷ xs) f (inl h) = inl (f x h)
  Any-map (x ∷ xs) f (inr h) = inr (Any-map xs f h)

  -- What every entry has, the entry that `Any` gives has too.
  pub All-Any : (P Q : A → Type 0) (xs : List A) → All P xs → Any Q xs → Any (λ x. P x × Q x) xs
  All-Any P Q [] h k = k
  All-Any P Q (x ∷ xs) h (inl k) = inl (h.0, k)
  All-Any P Q (x ∷ xs) h (inr k) = inr (All-Any P Q xs h.1 k)

  -- A property that no entry has.
  pub All-not-Any : (P : A → Type 0) (xs : List A) → All (λ x. ¬ P x) xs → ¬ Any P xs
  All-not-Any P [] h k = k
  All-not-Any P (x ∷ xs) h (inl k) = h.0 k
  All-not-Any P (x ∷ xs) h (inr k) = All-not-Any P xs h.1 k

  pub Any-filter :
      (P : A → Type 0) (p : A → Bool) (xs : List A)
      → Any P (filter p xs)
      → Any (λ x. (p x ≡ true) × P x) xs
  unfolding filter
  Any-filter P p [] h = h
  Any-filter P p (x ∷ xs) h = elim (Bool-cases (p x)) [
    | inl e ↦ elim (rw e at h) [ inl k ↦ inl (e, k) | inr k ↦ inr (Any-filter P p xs k) ]
    | inr e ↦ inr (Any-filter P p xs (rw e at h))
  ]

  pub filter-Any :
      (P : A → Type 0) (p : A → Bool) (xs : List A)
      → Any (λ x. (p x ≡ true) × P x) xs
      → Any P (filter p xs)
  unfolding filter
  filter-Any P p [] h = h
  filter-Any P p (x ∷ xs) (inl (e, k)) = rw e (inl k)
  filter-Any P p (x ∷ xs) (inr h) = elim (Bool-cases (p x)) [
    | inl e ↦ rw e (inr (filter-Any P p xs h))
    | inr e ↦ rw e (filter-Any P p xs h)
  ]

  pub Any-left : (P : A → Type 0) (xs ys : List A) → Any P xs → Any P (xs ++ ys)
  Any-left P [] ys h = absurd h
  Any-left P (x ∷ xs) ys (inl h) = inl h
  Any-left P (x ∷ xs) ys (inr h) = inr (Any-left P xs ys h)

  pub All-append : (P : A → Type 0) (xs ys : List A) → All P xs → All P ys → All P (xs ++ ys)
  All-append P [] ys h k = k
  All-append P (x ∷ xs) ys h k = (h.0, All-append P xs ys h.1 k)

  pub Any-right : (P : A → Type 0) (xs ys : List A) → Any P ys → Any P (xs ++ ys)
  Any-right P [] ys h = h
  Any-right P (x ∷ xs) ys h = inr (Any-right P xs ys h)

  pub Any-append : (P : A → Type 0) (xs ys : List A) → Any P (xs ++ ys) → Any P xs ⊎ Any P ys
  Any-append P [] ys h = inr h
  Any-append P (x ∷ xs) ys (inl h) = inl (inl h)
  Any-append P (x ∷ xs) ys (inr h) = elim (Any-append P xs ys h) [
    | inl k ↦ inl (inr k)
    | inr k ↦ inr k
  ]

module _ {ℓ κ} {A : Type ℓ} {B : Type κ} where
  pub Any-map_list :
      (P : B → Type 0) (f : A → B) (xs : List A) → Any P (map f xs) → Any (λ x. P (f x)) xs
  Any-map_list P f [] h = h
  Any-map_list P f (x ∷ xs) (inl h) = inl h
  Any-map_list P f (x ∷ xs) (inr h) = inr (Any-map_list P f xs h)

  pub map_list-Any :
      (P : B → Type 0) (f : A → B) (xs : List A) → Any (λ x. P (f x)) xs → Any P (map f xs)
  map_list-Any P f [] h = h
  map_list-Any P f (x ∷ xs) (inl h) = inl h
  map_list-Any P f (x ∷ xs) (inr h) = inr (map_list-Any P f xs h)

module _ {ℓ} {A : Type ℓ} where
  pub filter-filter :
      (p q : A → Bool) (xs : List A) → filter p (filter q xs) ≡ filter (λ x. q x && p x) xs
  unfolding filter
  filter-filter p q [] = refl
  filter-filter p q (x ∷ xs) = elim (Bool-cases (q x)) [
    | inl e ↦ ground (arith, filter-filter p q xs)
    | inr e ↦ ground (arith, filter-filter p q xs)
  ]

module _ {ℓ} {A : Type ℓ} where
  pub filter_congr_All :
      (p q : A → Bool) (xs : List A) → All (λ x. p x ≡ q x) xs → filter p xs ≡ filter q xs
  unfolding filter
  filter_congr_All p q [] h = refl
  filter_congr_All p q (x ∷ xs) h = ground (arith, h.0, filter_congr_All p q xs h.1)

-- Members, at data.
module _ {A : Type 0} where
  abbrev pub Member : A → List A → Type 0
  Member x xs = Any (λ y. x ≡ y) xs

  pub All-Member : (P : A → Type 0) (x : A) (xs : List A) → All P xs → Member x xs → P x
  All-Member P x [] h k = absurd k
  All-Member P x (y ∷ ys) h (inl k) = rw k h.0
  All-Member P x (y ∷ ys) h (inr k) = All-Member P x ys h.1 k

  pub Member-All : (P : A → Type 0) (xs : List A) → ((x : A) → Member x xs → P x) → All P xs
  Member-All P [] h = tt
  Member-All P (x ∷ xs) h = (h x (inl refl), Member-All P xs (λ y k. h y (inr k)))

  pub Any-Member : (P : A → Type 0) (xs : List A) → Any P xs → (x : A) × Member x xs × P x
  Any-Member P [] h = absurd h
  Any-Member P (x ∷ xs) (inl h) = (x, inl refl, h)
  Any-Member P (x ∷ xs) (inr h) = let (y, m, p) = Any-Member P xs h in (y, inr m, p)

  pub Member-Any : (P : A → Type 0) (x : A) (xs : List A) → Member x xs → P x → Any P xs
  Member-Any P x [] m h = absurd m
  Member-Any P x (y ∷ ys) (inl m) h = inl (rw m at h)
  Member-Any P x (y ∷ ys) (inr m) h = inr (Member-Any P x ys m h)

  pub Member-filter :
      (p : A → Bool) (x : A) (xs : List A) → Member x (filter p xs) → Member x xs × (p x ≡ true)
  Member-filter p x xs h =
      let (y, m, (e, q)) = Any-Member _ xs (Any-filter (λ y. x ≡ y) p xs h) in (rw q m, rw q e)

  pub filter-Member :
      (p : A → Bool) (x : A) (xs : List A) → Member x xs → p x ≡ true → Member x (filter p xs)
  filter-Member p x xs m e =
      filter-Any (λ y. x ≡ y) p xs (Member-Any (λ y. (p y ≡ true) × (x ≡ y)) x xs m (e, refl))

  pub filter_congr :
      (p q : A → Bool) (xs : List A)
      → ((x : A) → Member x xs → p x ≡ q x)
      → filter p xs ≡ filter q xs
  unfolding filter
  filter_congr p q [] h = refl
  filter_congr p q (x ∷ xs) h =
      ground (arith, h x (inl refl), filter_congr p q xs (λ y m. h y (inr m)))
