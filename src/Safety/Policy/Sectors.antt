-- ===== src/Safety/Policy/Sectors.antt =====
-- The sectors that `_erase_sectors` of safety/enforce.py answers cover the flashed ranges, touch
-- them, and the loop over them ends.
use native.Mathlib.Nat.{div-add-mod', mod-lt}
use byo_firmware_mcp.Prelude.{
  ℕ, zero, suc, ◌+◌, ◌-◌, ◌≤◌, ◌<◌, ◌≡◌, refl, ◌≢◌, ◌⊎◌, inl, inr, true, false, not, Option, none,
  some, List, [], ◌∷◌, ◌++◌, filter, any, arith, All, All-map, Any, All-append, Any-left, Any-right,
  Member, All-Member, Member-All, Any-Member, Member-Any, filter-Member, Member-filter, Any→any,
  any→Any, any_none, dec_lt,
}
use byo_firmware_mcp.Prelude.Result.{
  ok, raise, ◌>>=◌, >>=-ok, Result-cases, ok-injective, raise-ne-ok,
}
use byo_firmware_mcp.Prelude.Sorting.{
  sorted, dedup, Member-sorted, Member-dedup, All-sorted, All-dedup,
}
use byo_firmware_mcp.Safety.Ranges.{
  AddressRange, IsRange, Holds, overlaps, make_range, from_start_size, compare_ranges, range_eq,
  max_address_exclusive,
}
use byo_firmware_mcp.Safety.Coverage.{covered, covered_iff}
use byo_firmware_mcp.Safety.Geometry.{MapGeometry, GenericMapGeometry}
use byo_firmware_mcp.Safety.Document.{Document, reviewed, generic}
use byo_firmware_mcp.Safety.Policy.Errors.{unfinished, or_region_error}
use byo_firmware_mcp.Safety.Policy.Erase.{
  fully_covered, walk, align, sectors_under, uniform_sectors, uniform_erase, explicit_erase,
  reviewed_erase, generic_erase, erase_sectors, ranges_of_sectors,
}

from_start_size-ok :
    (c n : ℕ) (s : AddressRange)
    → or_region_error (from_start_size c n) ≡ ok s
    → (0 < n) × (s.start ≡ c) × (s.end ≡ c + n) × (c + n ≤ max_address_exclusive)
unfolding from_start_size make_range
from_start_size-ok c n s h = ground arith

-- One round of the loop that returns.
walk-step :
    (fuel c e n : ℕ) (ss : List AddressRange)
    → walk (suc fuel) c e n ≡ ok ss
    → c < e
    → (s : AddressRange) × (or_region_error (from_start_size c n) ≡ ok s)
      × ((rest : List AddressRange) × (walk fuel (c + n) e n ≡ ok rest) × (ss ≡ s ∷ rest))
unfolding walk
walk-step fuel c e n ss h p = ground arith

walk-done :
    (fuel c e n : ℕ) (ss : List AddressRange) → walk fuel c e n ≡ ok ss → ¬ (c < e) → ss ≡ []
unfolding walk
walk-done zero c e n ss h p = ground arith
walk-done (suc fuel) c e n ss h p = ground arith

walk-zero : (c e n : ℕ) (ss : List AddressRange) → walk zero c e n ≡ ok ss → ¬ (c < e)
unfolding walk
walk-zero c e n ss h p = ground arith

walk-Covers :
    (fuel c e n : ℕ) (ss : List AddressRange)
    → walk fuel c e n ≡ ok ss
    → (a : ℕ) → c ≤ a
    → a < e
    → Any (Holds a) ss
walk-Covers zero c e n ss h a p q = absurd (walk-zero c e n ss h (omega arith))
walk-Covers (suc fuel) c e n ss h a p q =
    let (s, es, (rest, er, eq)) = walk-step fuel c e n ss h (omega arith) in
    let (pos, starts, ends, _) = from_start_size-ok c n s es in
    rw eq (elim (dec_lt a (c + n)) [
      | yes l ↦ inl (omega arith)
      | no l ↦ inr (walk-Covers fuel (c + n) e n rest er a (omega arith) q)
    ])

-- Where the first sector ends behind `b`, each sector of the loop does, and starts before the end.
abbrev pub Between : ℕ → ℕ → AddressRange → Type 0
Between b e s = (b < s.end) × (s.start < e) × IsRange s

walk-Between :
    (fuel b c e n : ℕ) (ss : List AddressRange)
    → walk fuel c e n ≡ ok ss
    → b < c + n
    → All (Between b e) ss
walk-Between zero b c e n ss h p = rw (walk-done zero c e n ss h (walk-zero c e n ss h)) tt
walk-Between (suc fuel) b c e n ss h p = elim (dec_lt c e) [
  | no k ↦ rw (walk-done (suc fuel) c e n ss h k) tt
  | yes k ↦
      let (s, es, (rest, er, eq)) = walk-step fuel c e n ss h k in
      let (pos, starts, ends, top) = from_start_size-ok c n s es in
      let here : Between b e s =
        (omega arith, omega arith, record { nonempty = omega arith; bounded = rw ends top }) in
      rw eq (here, walk-Between fuel b (c + n) e n rest er (omega arith))
]

-- Where the fuel reaches the end, the loop does not run out of it.
walk_finishes : (fuel c e n : ℕ) → e ≤ c + fuel → walk fuel c e n ≢ raise unfinished
unfolding walk
walk_finishes zero c e n p h = ground arith
walk_finishes (suc fuel) c e n p h = elim (Result-cases (from_start_size c n)) [
  | inr (x, k) ↦ ground arith
  | inl (s, k) ↦
      let pos : 0 < n = (from_start_size-ok c n s (rw k refl)).0 in
      ground (arith, walk_finishes fuel (c + n) e n (omega arith))
]

-- The sector that the loop starts with holds the start of the range.
align-bounds : (o n a : ℕ) → o ≤ a → 0 < n → (align o n a ≤ a) × (a < align o n a + n)
unfolding align
align-bounds o n a p q =
    (omega (arith, div-add-mod' (a - o) n), omega (arith, div-add-mod' (a - o) n, mod-lt (a - o) q))

-- The sectors hold each address of the ranges, and each of them shares an address with a range.
abbrev pub IsEraseOf : List AddressRange → List AddressRange → Type 0
IsEraseOf ranges sectors =
    ((r : AddressRange) → Member r ranges → (a : ℕ) → Holds a r → Any (Holds a) sectors)
    × All (λ s. Any (λ r. overlaps s r ≡ true) ranges) sectors

sectors_under-step :
    (o n : ℕ) (r : AddressRange) (ss : List AddressRange)
    → sectors_under o n r ≡ ok ss
    → (o ≤ r.start)
      × (0 < n)
      × (walk (r.end - align o n r.start) (align o n r.start) r.end n ≡ ok ss)
unfolding sectors_under
sectors_under-step o n r ss h = ground arith

sectors_under-IsEraseOf :
    (o n : ℕ) (r : AddressRange) (ss : List AddressRange)
    → sectors_under o n r ≡ ok ss
    → ((a : ℕ) → Holds a r → Any (Holds a) ss) × All (λ s. overlaps s r ≡ true) ss
sectors_under-IsEraseOf o n r ss h =
    let (above, pos, walked) = sectors_under-step o n r ss h in
    let (low, high) = align-bounds o n r.start above pos in
    (
      λ a k.
          walk-Covers (r.end - align o n r.start) (align o n r.start) r.end n ss walked a
            (omega arith) k.1,
      All-map ss (λ s b. meets s b.0 b.1)
          (walk-Between (r.end - align o n r.start) r.start (align o n r.start) r.end n ss walked
            high),
    )
  where
    meets : (s : AddressRange) → r.start < s.end → s.start < r.end → overlaps s r ≡ true
    meets s p q = unfold overlaps in ground arith

uniform_sectors-IsEraseOf :
    (o n : ℕ) (rs ss : List AddressRange) → uniform_sectors o n rs ≡ ok ss → IsEraseOf rs ss
unfolding uniform_sectors
uniform_sectors-IsEraseOf o n [] ss h =
    let same : [] ≡ ss = ok-injective h in (λ r i. absurd i, rw (← same) tt)
uniform_sectors-IsEraseOf o n (q ∷ rs) ss h =
    let (xs, ex, hx) =
      >>=-ok (sectors_under o n q) (λ xs. uniform_sectors o n rs >>= λ ys. ok (xs ++ ys)) ss h in
    let (ys, ey, hy) = >>=-ok (uniform_sectors o n rs) (λ ys. ok (xs ++ ys)) ss hx in
    let same : xs ++ ys ≡ ss = ok-injective hy in
    let (cover, touch) = sectors_under-IsEraseOf o n q xs ex in
    let (covers, touches) = uniform_sectors-IsEraseOf o n rs ys ey in
    let both : IsEraseOf (q ∷ rs) (xs ++ ys) = (
      joined xs ys cover covers,
      All-append _ xs ys (All-map xs (λ s m. inl m) touch) (All-map ys (λ s m. inr m) touches),
    ) in
    rw same at both
  where
    joined :
        (xs ys : List AddressRange)
        → ((a : ℕ) → Holds a q → Any (Holds a) xs)
        → ((r : AddressRange) → Member r rs → (a : ℕ) → Holds a r → Any (Holds a) ys)
        → (r : AddressRange) → Member r (q ∷ rs)
        → (a : ℕ) → Holds a r
        → Any (Holds a) (xs ++ ys)
    joined xs ys f g r (inl e) a k = Any-left (Holds a) xs ys (f a (rw e at k))
    joined xs ys f g r (inr i) a k = Any-right (Holds a) xs ys (g r i a k)

sorted_set-IsEraseOf :
    (rs ss : List AddressRange) → IsEraseOf rs ss → IsEraseOf rs (sorted compare_ranges (dedup ss))
sorted_set-IsEraseOf rs ss h = (
  λ r i a k.
      let (s, m, q) = Any-Member (Holds a) ss (h.0 r i a k) in
      Member-Any (Holds a) s _ (Member-sorted compare_ranges s (dedup ss) (Member-dedup s ss m)) q,
  All-sorted compare_ranges _ (dedup ss) (All-dedup _ ss h.1),
)

explicit_erase-step :
    (explicit rs ss : List AddressRange)
    → explicit_erase explicit rs ≡ ok ss
    → (any (λ r. not (fully_covered r explicit)) rs ≡ false)
      × (sorted compare_ranges (dedup (filter (λ s. any (overlaps s) rs) explicit)) ≡ ss)
unfolding explicit_erase
explicit_erase-step explicit rs ss h = ground arith

Holds-overlaps : (a : ℕ) (s r : AddressRange) → Holds a s → Holds a r → overlaps s r ≡ true
unfolding overlaps
Holds-overlaps a s r h k = ground arith

explicit_erase-IsEraseOf :
    (explicit rs ss : List AddressRange) → explicit_erase explicit rs ≡ ok ss → IsEraseOf rs ss
explicit_erase-IsEraseOf explicit rs ss h =
    let (none_open, same) = explicit_erase-step explicit rs ss h in
    let needed : List AddressRange = filter (λ s. any (overlaps s) rs) explicit in
    rw same at (
      sorted_set-IsEraseOf rs needed (
        λ r i a k.
            let closed = All-Member _ r rs (any_none _ rs none_open) i in
            let (s, m, q) = Any-Member (Holds a) explicit (held r a closed k) in
            Member-Any (Holds a) s needed
              (filter-Member (λ x. any (overlaps x) rs) s explicit m
                (Any→any (overlaps s) rs
                  (Member-Any (λ x. overlaps s x ≡ true) r rs i (Holds-overlaps a s r q k))))
              q,
        Member-All _ needed (λ s i.
            any→Any (overlaps s) rs (Member-filter (λ x. any (overlaps x) rs) s explicit i).1),
      ))
  where
    held :
        (r : AddressRange) (a : ℕ)
        → not (fully_covered r explicit) ≡ false
        → Holds a r
        → Any (Holds a) explicit
    held r a e k =
        let full : covered r explicit ≡ true =
          unfold covered in unfold fully_covered in ground arith in
        (covered_iff r explicit (omega arith)).0 full a k

uniform_erase-IsEraseOf :
    (o n : Option ℕ) (rs ss : List AddressRange) → uniform_erase o n rs ≡ ok ss → IsEraseOf rs ss
unfolding uniform_erase
uniform_erase-IsEraseOf (some x) (some y) rs ss h =
    let (zs, made, last) =
      >>=-ok (uniform_sectors x y rs) (λ zs. ok (sorted compare_ranges (dedup zs))) ss h in
    let same : sorted compare_ranges (dedup zs) ≡ ss = ok-injective last in
    rw same at (sorted_set-IsEraseOf rs zs (uniform_sectors-IsEraseOf x y rs zs made))
uniform_erase-IsEraseOf none n rs ss h = absurd (raise-ne-ok h)
uniform_erase-IsEraseOf (some x) none rs ss h = absurd (raise-ne-ok h)

reviewed_erase-cases :
    (g : MapGeometry) (rs ss : List AddressRange)
    → reviewed_erase g rs ≡ ok ss
    → (uniform_erase g.erase_origin g.erase_size rs ≡ ok ss)
      ⊎ (explicit_erase (ranges_of_sectors g.erase_sectors) rs ≡ ok ss)
unfolding reviewed_erase
reviewed_erase-cases g rs ss h = ground arith

generic_erase-step :
    (g : GenericMapGeometry) (rs ss : List AddressRange)
    → generic_erase g rs ≡ ok ss
    → explicit_erase (ranges_of_sectors g.erase_sectors) rs ≡ ok ss
unfolding generic_erase
generic_erase-step g rs ss h = ground arith

-- The sectors that are answered for a flash hold each address of each range to be written, and
-- each of them shares an address with one of the ranges.
pub erase_sectors-IsEraseOf :
    (d : Document) (ranges sectors : List AddressRange)
    → erase_sectors d ranges ≡ ok sectors
    → IsEraseOf ranges sectors
unfolding erase_sectors
erase_sectors-IsEraseOf (generic d) rs ss h =
    explicit_erase-IsEraseOf (ranges_of_sectors d.geometry.erase_sectors) rs ss
      (generic_erase-step d.geometry rs ss h)
erase_sectors-IsEraseOf (reviewed d) rs ss h = elim (reviewed_erase-cases d.geometry rs ss h) [
  | inr k ↦ explicit_erase-IsEraseOf (ranges_of_sectors d.geometry.erase_sectors) rs ss k
  | inl k ↦ uniform_erase-IsEraseOf d.geometry.erase_origin d.geometry.erase_size rs ss k
]

sectors_under_finishes : (o n : ℕ) (r : AddressRange) → sectors_under o n r ≢ raise unfinished
unfolding sectors_under
sectors_under_finishes o n r h =
    ground
      (arith, walk_finishes (r.end - align o n r.start) (align o n r.start) r.end n (omega arith))

uniform_sectors_finish :
    (o n : ℕ) (rs : List AddressRange) → uniform_sectors o n rs ≢ raise unfinished
unfolding uniform_sectors
uniform_sectors_finish o n [] h = ground arith
uniform_sectors_finish o n (r ∷ rs) h =
    ground (arith, sectors_under_finishes o n r, uniform_sectors_finish o n rs)

uniform_erase_finishes :
    (o n : Option ℕ) (rs : List AddressRange) → uniform_erase o n rs ≢ raise unfinished
unfolding uniform_erase
uniform_erase_finishes (some x) (some y) rs h = ground (arith, uniform_sectors_finish x y rs)
uniform_erase_finishes none n rs h = ground arith
uniform_erase_finishes (some x) none rs h = ground arith

-- The loop over the sectors of a range ends on the fuel that it is given, the bytes from the
-- aligned start to the end of the range: the call never runs out.
pub erase_sectors_finishes :
    (d : Document) (ranges : List AddressRange) → erase_sectors d ranges ≢ raise unfinished
unfolding erase_sectors reviewed_erase generic_erase explicit_erase
erase_sectors_finishes (generic d) rs h = ground arith
erase_sectors_finishes (reviewed d) rs h =
    ground (arith, uniform_erase_finishes d.geometry.erase_origin d.geometry.erase_size rs)
