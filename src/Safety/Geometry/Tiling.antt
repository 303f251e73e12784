-- ===== src/Safety/Geometry/Tiling.antt =====
-- What the checks of safety/map_build.py on a geometry give, address by address.
use byo_firmware_mcp.Prelude.{
  ℕ, ◌≤◌, ◌<◌, max, ◌≡◌, refl, ◌↔◌, ◌⊎◌, inl, inr, true, false, List, [], ◌∷◌, arith, eqb, is_nil,
  All, Any, All-map, dec_lt, Bool-cases, true-ne-false, Member, All-Member, Member-All, Member-Any,
  Any-Member,
}
use byo_firmware_mcp.Prelude.Result.{ok, ok-injective, raise-ne-ok}
use byo_firmware_mcp.Prelude.Sorting.{sorted, dedup, Sorted, Member-dedup, All-dedup}
use byo_firmware_mcp.Safety.Ranges.{
  AddressRange, IsRange, Holds, contains, compare_ranges, range_eq,
}
use byo_firmware_mcp.Safety.Coverage.{
  covered, covered_from, covered_iff, StartsBefore, Sorted-ranges,
}
use byo_firmware_mcp.Safety.Geometry.{
  EraseSector, MapGeometry, MapError, covered_by_from, covered_by_ranges, tile, tiles,
  make_explicit, make_geometry, make_uniform, sector_eq,
}

-- Behind the target no range covers anything.
behind :
    (c t : ℕ) (rs : List AddressRange) → All (λ r. t ≤ r.start) rs → covered_from c t rs ≡ false
unfolding covered_from
behind c t [] h = refl
behind c t (r ∷ rs) h = ground (arith, behind c t rs h.1)

-- On sorted ranges the two loops agree.
covered_by_from-covered_from :
    (c t : ℕ) (rs : List AddressRange)
    → c < t
    → Sorted StartsBefore rs
    → covered_by_from c t rs ≡ covered_from c t rs
unfolding covered_by_from covered_from
covered_by_from-covered_from c t [] p s = refl
covered_by_from-covered_from c t (r ∷ rs) p s = elim (dec_lt r.start t) [
  | yes k ↦ elim (dec_lt (max c r.end) t) [
    | yes l ↦ ground (
      arith,
      covered_by_from-covered_from c t rs p s.1,
      covered_by_from-covered_from (max c r.end) t rs l s.1,
    )
    | no l ↦ ground (arith, covered_by_from-covered_from c t rs p s.1)
  ]
  | no k ↦ ground (
    arith,
    covered_by_from-covered_from c t rs p s.1,
    behind c t rs (All-map rs (λ q m. omega arith) s.0),
  )
]

-- The two scans for gaps of safety/regions.py and safety/map_build.py answer alike on every target
-- that is not empty, though only one skips the ranges behind the target and only the other drops
-- repeated ranges.
pub covered_by_ranges_iff :
    (target : AddressRange) (ranges : List AddressRange)
    → target.start < target.end
    → (covered_by_ranges target ranges ≡ true) ↔ ((a : ℕ) → Holds a target → Any (Holds a) ranges)
unfolding covered_by_ranges
covered_by_ranges_iff target ranges p =
    let same : covered_by_ranges target ranges ≡ covered target (dedup ranges) =
      unfold covered in
      covered_by_from-covered_from target.start target.end (sorted compare_ranges (dedup ranges)) p
        (Sorted-ranges (dedup ranges)) in
    (
      λ h a k. undo a ((covered_iff target (dedup ranges) p).0 (rw (← same) h) a k),
      λ h. rw same ((covered_iff target (dedup ranges) p).1 (λ a k. redo a (h a k))),
    )
  where
    undo : (a : ℕ) → Any (Holds a) (dedup ranges) → Any (Holds a) ranges
    undo a h =
        let (r, i, k) = Any-Member (Holds a) (dedup ranges) h in
        Member-Any (Holds a) r ranges
          (All-Member (λ x. Member x ranges) r (dedup ranges)
            (All-dedup (λ x. Member x ranges) ranges (Member-All _ ranges (λ x m. m))) i)
          k

    redo : (a : ℕ) → Any (Holds a) ranges → Any (Holds a) (dedup ranges)
    redo a h =
        let (r, i, k) = Any-Member (Holds a) ranges h in
        Member-Any (Holds a) r (dedup ranges) (Member-dedup r ranges i) k

abbrev pub Ends : EraseSector → EraseSector → Type 0
Ends x y = x.address_range.end ≤ y.address_range.start

abbrev pub HoldsSector : ℕ → EraseSector → Type 0
HoldsSector a s = Holds a s.address_range

tile-step :
    (flash : AddressRange) (c e : ℕ) (s : EraseSector) (ss : List EraseSector)
    → tile flash c (s ∷ ss) ≡ ok e
    → (s.address_range.start ≡ c)
      × (contains flash s.address_range ≡ true)
      × (tile flash s.address_range.end ss ≡ ok e)
unfolding tile
tile-step flash c e s ss h = elim (Bool-cases (eqb s.address_range.start c)) [
  | inr k ↦ absurd (raise-ne-ok (rw k at h))
  | inl k ↦ elim (Bool-cases (contains flash s.address_range)) [
    | inr l ↦ absurd (raise-ne-ok (rw (k, l) at h))
    | inl l ↦ (ground arith, l, rw (k, l) at h)
  ]
]

-- From the cursor on, the sectors hold each address up to where they end.
tile-covers :
    (flash : AddressRange) (c e : ℕ) (ss : List EraseSector)
    → tile flash c ss ≡ ok e
    → (a : ℕ) → c ≤ a
    → a < e
    → Any (HoldsSector a) ss
tile-covers flash c e [] h a p q =
    let same : c ≡ e = ok-injective {E = MapError} (unfold tile in h) in omega arith
tile-covers flash c e (s ∷ ss) h a p q =
    let (at, inside, rest) = tile-step flash c e s ss h in
    elim (dec_lt a s.address_range.end) [
      | yes l ↦ inl (omega arith)
      | no l ↦ inr (tile-covers flash s.address_range.end e ss rest a (omega arith) q)
    ]

tile-inside :
    (flash : AddressRange) (c e : ℕ) (ss : List EraseSector)
    → tile flash c ss ≡ ok e
    → All (λ s. contains flash s.address_range ≡ true) ss
tile-inside flash c e [] h = tt
tile-inside flash c e (s ∷ ss) h =
    let (at, inside, rest) = tile-step flash c e s ss h in
    (inside, tile-inside flash s.address_range.end e ss rest)

-- No sector starts before the cursor, and each ends before the next starts.
tile-ordered :
    (flash : AddressRange) (c e : ℕ) (ss : List EraseSector)
    → tile flash c ss ≡ ok e
    → All (λ s. IsRange s.address_range) ss
    → All (λ s. c ≤ s.address_range.start) ss × Sorted Ends ss
tile-ordered flash c e [] h v = (tt, tt)
tile-ordered flash c e (s ∷ ss) h v =
    let (at, inside, rest) = tile-step flash c e s ss h in
    let (later, sorted_rest) = tile-ordered flash s.address_range.end e ss rest v.1 in
    let proper : s.address_range.start < s.address_range.end = v.0.nonempty in
    ((omega arith, All-map ss (λ x k. omega arith) later), (later, sorted_rest))

-- The sectors hold each address of the flash and no other one, and each ends before the next
-- starts.
abbrev pub Tiles : AddressRange → List EraseSector → Type 0
Tiles flash sectors = ((a : ℕ) → Holds a flash ↔ Any (HoldsSector a) sectors) × Sorted Ends sectors

pub contained : (r s : AddressRange) → contains r s ≡ true → (r.start ≤ s.start) × (s.end ≤ r.end)
unfolding contains
contained r s k = ground arith

tiles-step :
    (flash : AddressRange) (ss : List EraseSector) (u : Unit)
    → tiles flash ss ≡ ok u
    → tile flash flash.start ss ≡ ok flash.end
unfolding tiles
tiles-step flash ss u h = ground arith

inside-Holds :
    (flash : AddressRange) (a : ℕ) (xs : List EraseSector)
    → All (λ s. contains flash s.address_range ≡ true) xs
    → Any (HoldsSector a) xs
    → Holds a flash
inside-Holds flash a [] i q = absurd q
inside-Holds flash a (x ∷ xs) i (inl q) =
    let (le, ge) = contained flash x.address_range i.0 in (omega arith, omega arith)
inside-Holds flash a (x ∷ xs) i (inr q) = inside-Holds flash a xs i.1 q

tiles-Tiles :
    (flash : AddressRange) (ss : List EraseSector) (u : Unit)
    → tiles flash ss ≡ ok u
    → All (λ s. IsRange s.address_range) ss
    → Tiles flash ss
tiles-Tiles flash ss u h v =
    let k : tile flash flash.start ss ≡ ok flash.end = tiles-step flash ss u h in
    (
      λ a. (
        λ q. tile-covers flash flash.start flash.end ss k a q.0 q.1,
        inside-Holds flash a ss (tile-inside flash flash.start flash.end ss k),
      ),
      (tile-ordered flash flash.start flash.end ss k v).1,
    )

make_explicit-step :
    (g h : MapGeometry)
    → make_explicit g ≡ ok h
    → (u : Unit {0}) × (tiles h.physical_flash h.erase_sectors ≡ ok u)
unfolding make_explicit
make_explicit-step g h e = ground arith

make_explicit-Tiles :
    (g h : MapGeometry)
    → make_explicit g ≡ ok h
    → All (λ s. IsRange s.address_range) h.erase_sectors
    → Tiles h.physical_flash h.erase_sectors
make_explicit-Tiles g h e v =
    let (u, k) = make_explicit-step g h e in tiles-Tiles h.physical_flash h.erase_sectors u k v

make_uniform-keeps : (g h : MapGeometry) → make_uniform g ≡ ok h → h ≡ g
unfolding make_uniform
make_uniform-keeps g h e = ground arith

make_geometry-cases :
    (g h : MapGeometry)
    → make_geometry g ≡ ok h
    → (is_nil h.erase_sectors ≡ true) ⊎ (make_explicit g ≡ ok h)
unfolding make_geometry make_uniform
make_geometry-cases g h e = ground arith

-- A reviewed geometry that was built with explicit erase sectors, all of them valid ranges, tiles
-- its flash: an address is in the flash exactly when it is in a sector, and each sector ends
-- before the next starts.
pub make_geometry-Tiles :
    (g h : MapGeometry)
    → make_geometry g ≡ ok h
    → is_nil h.erase_sectors ≡ false
    → All (λ s. IsRange s.address_range) h.erase_sectors
    → Tiles h.physical_flash h.erase_sectors
make_geometry-Tiles g h e n v = elim (make_geometry-cases g h e) [
  | inl k ↦ absurd (true-ne-false k n)
  | inr k ↦ make_explicit-Tiles g h k v
]
