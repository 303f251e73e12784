-- ===== src/Safety/Coverage.antt =====
-- `_covered` of safety/regions.py: whether a union of ranges covers a range without a gap.
use byo_firmware_mcp.Prelude.{
  ℕ, ◌≤◌, ◌<◌, max, ◌≡◌, ◌⊎◌, inl, inr, Bool, true, false, ◌||◌, List, [], ◌∷◌, arith, ltb, leb,
  if◌then◌else◌, Any, All, All-map, ◌↔◌, dec_lt,
}
use byo_firmware_mcp.Prelude.Sorting.{sorted, Any-sorted, sorted-Any, not_gt, Sorted, Sorted-sorted}
use byo_firmware_mcp.Safety.Ranges.{AddressRange, compare_ranges, Holds}

-- The loop: `cursor` is the first address that is not yet covered, `end` that of the target.
unfoldable pub covered_from : ℕ → ℕ → List AddressRange → Bool
covered_from cursor end [] = false
covered_from cursor end (r ∷ rs) =
    let skip = covered_from cursor end rs in
    let next = max cursor r.end in
    let advance = covered_from next end rs in
    if leb r.end cursor || leb end r.start
    then skip
    else if ltb cursor r.start
    then false
    else if leb end next
    then true
    else advance

unfoldable pub covered : AddressRange → List AddressRange → Bool
covered target ranges = covered_from target.start target.end (sorted compare_ranges ranges)

abbrev pub StartsBefore : AddressRange → AddressRange → Type 0
StartsBefore a b = a.start ≤ b.start

StartsBefore-below : (a b : AddressRange) → not_gt (compare_ranges a b) ≡ true → a.start ≤ b.start
unfolding compare_ranges
StartsBefore-below a b h = ground arith

StartsBefore-above : (a b : AddressRange) → not_gt (compare_ranges a b) ≡ false → b.start ≤ a.start
unfolding compare_ranges
StartsBefore-above a b h = ground arith

pub Sorted-ranges : (rs : List AddressRange) → Sorted StartsBefore (sorted compare_ranges rs)
Sorted-ranges =
    Sorted-sorted compare_ranges StartsBefore StartsBefore-below StartsBefore-above
      (λ a b c p q. omega arith)

-- One round that ends in acceptance: the range is skipped, or it holds the cursor.
covered_from-step :
    (c t : ℕ) (r : AddressRange) (rs : List AddressRange)
    → covered_from c t (r ∷ rs) ≡ true
    → (covered_from c t rs ≡ true)
      ⊎ ((r.start ≤ c) × (c < r.end) × ((t ≤ r.end) ⊎ (covered_from (max c r.end) t rs ≡ true)))
unfolding covered_from
covered_from-step c t r rs h = ground arith

-- What the loop accepts is covered, address by address.
covered_from_sound :
    (c t : ℕ) (rs : List AddressRange)
    → covered_from c t rs ≡ true
    → (a : ℕ) → c ≤ a
    → a < t
    → Any (Holds a) rs
covered_from_sound c t [] h a p q = unfold covered_from in cc h
covered_from_sound c t (r ∷ rs) h a p q = elim (covered_from-step c t r rs h) [
  | inl k ↦ inr (covered_from_sound c t rs k a p q)
  | inr (lo, hi, inl k) ↦ inl (omega arith)
  | inr (lo, hi, inr k) ↦ elim (dec_lt a r.end) [
    | yes b ↦ inl (omega arith)
    | no b ↦ inr (covered_from_sound (max c r.end) t rs k a (omega arith) q)
  ]
]

-- An address behind every start is in no range.
not_before : (c : ℕ) (rs : List AddressRange) → All (λ q. c < q.start) rs → ¬ Any (Holds c) rs
not_before c [] h k = k
not_before c (r ∷ rs) h (inl k) = omega arith
not_before c (r ∷ rs) h (inr k) = not_before c rs h.1 k

skipped :
    (a : ℕ) (r : AddressRange) (rs : List AddressRange)
    → ¬ Holds a r
    → Any (Holds a) (r ∷ rs)
    → Any (Holds a) rs
skipped a r rs h (inl k) = absurd (h k)
skipped a r rs h (inr k) = k

-- Where every address of the target is in a range, the loop accepts.
covered_from_complete :
    (c t : ℕ) (rs : List AddressRange)
    → c < t
    → Sorted StartsBefore rs
    → ((a : ℕ) → c ≤ a → a < t → Any (Holds a) rs)
    → covered_from c t rs ≡ true
unfolding covered_from
covered_from_complete c t [] p s h = absurd (h c (omega arith) p)
covered_from_complete c t (r ∷ rs) p s h = elim (dec_lt c r.end) [
  | no e ↦
      ground (
        arith,
        covered_from_complete c t rs p s.1 (λ a u v. skipped a r rs (omega arith) (h a u v)),
      )
  | yes e ↦ elim (dec_lt r.start t) [
    | no k ↦ ground (
      arith,
      covered_from_complete c t rs p s.1 (λ a u v. skipped a r rs (omega arith) (h a u v)),
    )
    | yes k ↦ elim (dec_lt c r.start) [
      | yes l ↦
          absurd
            (not_before c (r ∷ rs) (l, All-map rs (λ q m. omega arith) s.0) (h c (omega arith) p))
      | no l ↦ elim (dec_lt r.end t) [
        | no m ↦ ground arith
        | yes m ↦ ground (
          arith,
          covered_from_complete (max c r.end) t rs (omega arith) s.1
              (λ a u v. skipped a r rs (omega arith) (h a (omega arith) v)),
        )
      ]
    ]
  ]
]

-- For a target that is not empty, the scan for gaps answers true exactly when each address of the
-- target lies in one of the ranges.
pub covered_iff :
    (target : AddressRange) (ranges : List AddressRange)
    → target.start < target.end
    → (covered target ranges ≡ true) ↔ ((a : ℕ) → Holds a target → Any (Holds a) ranges)
unfolding covered
covered_iff target ranges p = (
  λ h a k.
      sorted-Any compare_ranges (Holds a) ranges
        (covered_from_sound target.start target.end (sorted compare_ranges ranges) h a k.0 k.1),
  λ h.
      covered_from_complete target.start target.end (sorted compare_ranges ranges) p
        (Sorted-ranges ranges) (λ a u v. Any-sorted compare_ranges (Holds a) ranges (h a (u, v))),
)
