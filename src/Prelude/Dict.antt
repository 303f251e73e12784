-- ===== src/Prelude/Dict.antt =====
-- `dict` of Python as an association list. A write to a key that is there keeps its place.
use mathlib.Core.Path.{◌≡◌, refl, sym, ap, ◌∙◌}
use mathlib.Core.Logic.{inl, inr}
use mathlib.Core.List.{List, [], ◌∷◌}
use mathlib.Core.Option.{Option, none, some}
use native.Mathlib.Omega.{arith}
use byo_firmware_mcp.Prelude.Tests.{if◌then◌else◌, Bool-cases, none-ne-some}
use byo_firmware_mcp.Prelude.Lists.{All}
use byo_firmware_mcp.Prelude.Equality.{Eq, ◌==◌}

abbrev pub Dict {ℓ} : Type ℓ → Type ℓ → Type ℓ
Dict K V = List (K × V)

module _ {ℓ} {K V : Type ℓ} ⦃e : Eq K⦄ where
  unfoldable pub get : Dict K V → K → Option V
  get [] k = none
  get ((j, v) ∷ m) k = if j == k then some v else get m k

  unfoldable pub put : Dict K V → K → V → Dict K V
  put [] k v = (k, v) ∷ []
  put ((j, w) ∷ m) k v = if j == k then (k, v) ∷ m else (j, w) ∷ put m k v

  -- `pop(k, None)`: a key stands in a dict at most once, so every entry with it goes.
  unfoldable pub pop : Dict K V → K → Dict K V
  pop [] k = []
  pop ((j, w) ∷ m) k = let rest = pop m k in if j == k then rest else (j, w) ∷ rest

  pub get-put :
      (m : Dict K V) (k : K) (v : V) (j : K)
      → get (put m k v) j ≡ (if k == j then some v else get m j)
  unfolding get put
  get-put [] k v j = refl
  get-put ((i, w) ∷ m) k v j =
      ground (arith, get-put m k v j, e.beq_iff i k, e.beq_iff i j, e.beq_iff k j)

  pub get-pop : (m : Dict K V) (k j : K) → get (pop m k) j ≡ (if k == j then none else get m j)
  unfolding get pop
  get-pop [] k j = ground arith
  get-pop ((i, w) ∷ m) k j =
      ground (arith, get-pop m k j, e.beq_iff i k, e.beq_iff i j, e.beq_iff k j)

  -- Each key stands once.
  unfoldable pub Unique : Dict K V → Type ℓ
  Unique [] = Unit
  Unique ((k, v) ∷ m) = (get m k ≡ none) × Unique m

  pub Unique-put : (m : Dict K V) (k : K) (v : V) → Unique m → Unique (put m k v)
  unfolding Unique put get
  Unique-put [] k v u = (refl, tt)
  Unique-put ((i, w) ∷ m) k v u = elim (Bool-cases (i == k)) [
    | inl p ↦ rw p (rw (← (e.beq_iff i k).0 p) u)
    | inr p ↦
        rw p
          (ground (arith, get-put m k v i, e.beq_iff k i, e.beq_iff i k, u.0), Unique-put m k v u.1)
  ]

  pub Unique-pop : (m : Dict K V) (k : K) → Unique m → Unique (pop m k)
  unfolding Unique pop get
  Unique-pop [] k u = tt
  Unique-pop ((i, w) ∷ m) k u = elim (Bool-cases (i == k)) [
    | inl p ↦ rw p (Unique-pop m k u.1)
    | inr p ↦ rw p (ground (arith, get-pop m k i, u.0), Unique-pop m k u.1)
  ]

  -- What holds at every entry that a lookup finds holds at every entry.
  pub All-of_get :
      (P : K × V → Type 0) (m : Dict K V)
      → Unique m
      → ((k : K) (v : V) → get m k ≡ some v → P (k, v))
      → All P m
  unfolding Unique get
  All-of_get P [] u f = tt
  All-of_get P ((i, w) ∷ m) u f = (
    f i w (rw ((e.beq_iff i i).1 refl)),
    All-of_get P m u.1 (λ k v h. f k v (elim (Bool-cases (i == k)) [
      | inl p ↦ absurd (none-ne-some (sym u.0 ∙ ap (get m) ((e.beq_iff i k).0 p) ∙ h))
      | inr p ↦ rw p h
    ])),
  )
