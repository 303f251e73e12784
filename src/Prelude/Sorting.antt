-- ===== src/Prelude/Sorting.antt =====
-- `sorted` of Python: a stable sort by a comparison. What holds at some entry is kept.
use Prim.Native.Nat.{Ordering}
use mathlib.Core.Path.{◌≡◌}
use mathlib.Core.Logic.{◌⊎◌, inl, inr}
use mathlib.Core.List.{List, [], ◌∷◌}
use mathlib.Core.Bool.{Bool, true, false}
use native.Mathlib.Omega.{arith}
use byo_firmware_mcp.Prelude.Tests.{if◌then◌else◌, Bool-cases}
use byo_firmware_mcp.Prelude.Lists.{Any, All, All-map, Member, All-Member, Member-All}
use byo_firmware_mcp.Prelude.Equality.{Eq, ◌==◌}

-- The later key decides where the earlier ones agree.
abbrev pub and_then : Ordering → Ordering → Ordering
and_then Ordering.eq o = o
and_then o _ = o

-- `compare a b` is not greater: `a` may stand before `b`.
abbrev pub not_gt : Ordering → Bool
not_gt Ordering.gt = false
not_gt _ = true

module _ {ℓ} {A : Type ℓ} (cmp : A → A → Ordering) where
  unfoldable pub insert_sorted : A → List A → List A
  insert_sorted x [] = x ∷ []
  insert_sorted x (y ∷ ys) =
      let rest = insert_sorted x ys in if not_gt (cmp x y) then x ∷ y ∷ ys else y ∷ rest

  unfoldable pub sorted : List A → List A
  unfolding insert_sorted
  sorted [] = []
  sorted (x ∷ xs) = insert_sorted x (sorted xs)

  module _ (P : A → Type 0) where
    Any-insert_sorted : (x : A) (ys : List A) → P x ⊎ Any P ys → Any P (insert_sorted x ys)
    unfolding insert_sorted
    Any-insert_sorted x [] h = h
    Any-insert_sorted x (y ∷ ys) h = elim (Bool-cases (not_gt (cmp x y))) [
      | inl e ↦ rw e h
      | inr e ↦ rw e (elim h [
        | inl a ↦ inr (Any-insert_sorted x ys (inl a))
        | inr b ↦ elim b [ inl c ↦ inl c | inr d ↦ inr (Any-insert_sorted x ys (inr d)) ]
      ])
    ]

    insert_sorted-Any : (x : A) (ys : List A) → Any P (insert_sorted x ys) → P x ⊎ Any P ys
    unfolding insert_sorted
    insert_sorted-Any x [] h = h
    insert_sorted-Any x (y ∷ ys) h = elim (Bool-cases (not_gt (cmp x y))) [
      | inl e ↦ rw e at h
      | inr e ↦ elim (rw e at h) [
        | inl c ↦ inr (inl c)
        | inr d ↦ elim (insert_sorted-Any x ys d) [ inl a ↦ inl a | inr b ↦ inr (inr b) ]
      ]
    ]

    pub Any-sorted : (xs : List A) → Any P xs → Any P (sorted xs)
    unfolding sorted
    Any-sorted [] h = h
    Any-sorted (x ∷ xs) (inl h) = Any-insert_sorted x (sorted xs) (inl h)
    Any-sorted (x ∷ xs) (inr h) = Any-insert_sorted x (sorted xs) (inr (Any-sorted xs h))

    pub sorted-Any : (xs : List A) → Any P (sorted xs) → Any P xs
    unfolding sorted
    sorted-Any [] h = h
    sorted-Any (x ∷ xs) h = elim (insert_sorted-Any x (sorted xs) h) [
      | inl a ↦ inl a
      | inr b ↦ inr (sorted-Any xs b)
    ]

    All-insert_sorted : (x : A) (ys : List A) → P x → All P ys → All P (insert_sorted x ys)
    unfolding insert_sorted
    All-insert_sorted x [] h k = (h, tt)
    All-insert_sorted x (y ∷ ys) h k = elim (Bool-cases (not_gt (cmp x y))) [
      | inl e ↦ rw e (h, k)
      | inr e ↦ rw e (k.0, All-insert_sorted x ys h k.1)
    ]

    insert_sorted-All : (x : A) (ys : List A) → All P (insert_sorted x ys) → P x × All P ys
    unfolding insert_sorted
    insert_sorted-All x [] h = h
    insert_sorted-All x (y ∷ ys) h = elim (Bool-cases (not_gt (cmp x y))) [
      | inl e ↦ rw e at h
      | inr e ↦
          let k : P y × All P (insert_sorted x ys) = rw e at h in
          let r = insert_sorted-All x ys k.1 in (r.0, (k.0, r.1))
    ]

    pub All-sorted : (xs : List A) → All P xs → All P (sorted xs)
    unfolding sorted
    All-sorted [] h = h
    All-sorted (x ∷ xs) h = All-insert_sorted x (sorted xs) h.0 (All-sorted xs h.1)

    pub sorted-All : (xs : List A) → All P (sorted xs) → All P xs
    unfolding sorted
    sorted-All [] h = h
    sorted-All (x ∷ xs) h = let r = insert_sorted-All x (sorted xs) h in (r.0, sorted-All xs r.1)

-- Every entry is related to all behind it.
abbrev pub Sorted {ℓ} : {A : Type ℓ} → (A → A → Type 0) → List A → Type 0
Sorted R [] = Unit
Sorted R (x ∷ xs) = All (R x) xs × Sorted R xs

-- The sort puts entries in the order of a transitive relation that its comparison decides.
module _ {ℓ} {A : Type ℓ} (cmp : A → A → Ordering) (R : A → A → Type 0)
    (below : (x y : A) → not_gt (cmp x y) ≡ true → R x y)
    (above : (x y : A) → not_gt (cmp x y) ≡ false → R y x)
    (trans : (x y z : A) → R x y → R y z → R x z) where
  Sorted-insert : (x : A) (ys : List A) → Sorted R ys → Sorted R (insert_sorted cmp x ys)
  unfolding insert_sorted
  Sorted-insert x [] h = (tt, tt)
  Sorted-insert x (y ∷ ys) h = elim (Bool-cases (not_gt (cmp x y))) [
    | inl e ↦ rw e ((below x y e, All-map ys (λ z. trans x y z (below x y e)) h.0), h)
    | inr e ↦ rw e (All-insert_sorted cmp (R y) x ys (above x y e) h.0, Sorted-insert x ys h.1)
  ]

  pub Sorted-sorted : (xs : List A) → Sorted R (sorted cmp xs)
  unfolding sorted
  Sorted-sorted [] = tt
  Sorted-sorted (x ∷ xs) = Sorted-insert x (sorted cmp xs) (Sorted-sorted xs)

pub Member-sorted :
    {A : Type 0} (cmp : A → A → Ordering) (x : A) (xs : List A)
    → Member x xs
    → Member x (sorted cmp xs)
Member-sorted cmp x xs =
    All-Member (λ y. Member y (sorted cmp xs)) x xs
      (sorted-All cmp (λ y. Member y (sorted cmp xs)) xs (Member-All _ (sorted cmp xs) (λ y i. i)))

-- `set(xs)`, each entry once, in the order of the last occurrences.
module _ {A : Type 0} ⦃e : Eq A⦄ where
  unfoldable pub contains : A → List A → Bool
  contains x [] = false
  contains x (y ∷ ys) = if x == y then true else contains x ys

  unfoldable pub dedup : List A → List A
  unfolding contains
  dedup [] = []
  dedup (x ∷ xs) = let rest = dedup xs in if contains x rest then rest else x ∷ rest

  contains→Any : (x : A) (ys : List A) → contains x ys ≡ true → Any (λ y. x ≡ y) ys
  unfolding contains
  contains→Any x [] h = ground arith
  contains→Any x (y ∷ ys) h = elim (Bool-cases (x == y)) [
    | inl p ↦ inl ((e.beq_iff x y).0 p)
    | inr p ↦ inr (contains→Any x ys (rw p at h))
  ]

  pub Any→contains : (x : A) (ys : List A) → Any (λ y. x ≡ y) ys → contains x ys ≡ true
  unfolding contains
  Any→contains x [] h = absurd h
  Any→contains x (y ∷ ys) (inl h) = rw ((e.beq_iff x y).1 h)
  Any→contains x (y ∷ ys) (inr h) = ground (arith, Any→contains x ys h)

  All_at : (P : A → Type 0) (x : A) (ys : List A) → All P ys → Any (λ y. x ≡ y) ys → P x
  All_at P x [] h k = absurd k
  All_at P x (y ∷ ys) h (inl k) = rw k h.0
  All_at P x (y ∷ ys) h (inr k) = All_at P x ys h.1 k

  pub dedup-All : (P : A → Type 0) (xs : List A) → All P (dedup xs) → All P xs
  unfolding dedup
  dedup-All P [] h = h
  dedup-All P (x ∷ xs) h = elim (Bool-cases (contains x (dedup xs))) [
    | inl p ↦
        let k : All P (dedup xs) = rw p at h in
        (All_at P x (dedup xs) k (contains→Any x (dedup xs) p), dedup-All P xs k)
    | inr p ↦ let k : P x × All P (dedup xs) = rw p at h in (k.0, dedup-All P xs k.1)
  ]

  pub All-dedup : (P : A → Type 0) (xs : List A) → All P xs → All P (dedup xs)
  unfolding dedup
  All-dedup P [] h = h
  All-dedup P (x ∷ xs) h = elim (Bool-cases (contains x (dedup xs))) [
    | inl p ↦ rw p (All-dedup P xs h.1)
    | inr p ↦ rw p (h.0, All-dedup P xs h.1)
  ]

  pub Member-dedup : (x : A) (xs : List A) → Member x xs → Member x (dedup xs)
  Member-dedup x xs =
      All-Member (λ y. Member y (dedup xs)) x xs
        (dedup-All (λ y. Member y (dedup xs)) xs (Member-All _ (dedup xs) (λ y i. i)))
