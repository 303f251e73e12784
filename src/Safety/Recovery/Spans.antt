-- ===== src/Safety/Recovery/Spans.antt =====
-- The erase spans and the affected regions that a recovery disclosure of safety/regions.py names.
use native.Mathlib.Nat.{div-add-mod'}
use byo_firmware_mcp.Prelude.{
  ℕ, ◌+◌, ◌-◌, ◌*◌, ◌/◌, ◌%◌, ◌≤◌, ◌<◌, String, ◌≡◌, refl, true, some, List, [], ◌∷◌, arith, any,
  Member, Any→any, filter-Member, Member-Any, dec_lt, ◌==◌, map, inl, inr, ◌⊎◌, Bool,
}
use byo_firmware_mcp.Prelude.Result.{ok, Result-cases, ok-injective, raise-ne-ok}
use byo_firmware_mcp.Prelude.Sorting.{contains as is_in, Member-sorted, Member-dedup}
use byo_firmware_mcp.Safety.Ranges.{AddressRange, IsRange, overlaps}
use byo_firmware_mcp.Safety.Regions.{
  prohibited, application_flash, bootloader_flash, physical_flash, kind_eq, SafetyRegion,
}
use byo_firmware_mcp.Safety.Recovery.{
  RecoveryEraseSpan, RecoveryEraseDisclosure, Geometry, region_eq, uniform_span, explicit_span,
  span_of, compare_affected, is_affected, affected_of, physical_flash_of, spans_of,
  build_recovery_erase_disclosure,
}

-- Whole sectors: from the multiple `a` to the multiple `b` of the sector size `n`.
whole_sectors :
    (n a b : ℕ)
    → 0 < n
    → a < b
    → a % n ≡ 0
    → b % n ≡ 0
    → (a / n * n ≡ a) × ((b / n - 1 + 1) * n ≡ b) × (a / n ≤ b / n - 1)
whole_sectors n a b p l ea eb =
    let fa : a / n * n ≡ a = omega (arith, div-add-mod' a n) in
    let fb : b / n * n ≡ b = omega (arith, div-add-mod' b n) in
    let lt : a / n < b / n = elim (dec_lt (a / n) (b / n)) [
      | yes h ↦ h
      | no h ↦ absurd (below (b / n) (a / n) (omega arith) fa fb)
    ] in
    (fa, rw (step (b / n) (omega arith)) fb, omega arith)
  where
    step : (q : ℕ) → 0 < q → q - 1 + 1 ≡ q
    step q h = omega arith

    below : (q t : ℕ) → q ≤ t → t * n ≡ a → q * n ≡ b → ⊥
    below q t h x y = grind arith

-- A uniform span of a valid range, where it is built, is made of whole sectors: its first sector
-- starts at the start of the range, its last sector ends at the end, and there is at least one.
pub uniform_span_exact :
    (r : AddressRange) (erase_size origin : ℕ) (bank : String) (s : RecoveryEraseSpan)
    → IsRange r
    → uniform_span r (some erase_size) (some origin) bank ≡ ok s
    → (s.address_range ≡ r)
      × (origin + s.first_sector * erase_size ≡ r.start)
      × (origin + (s.last_sector + 1) * erase_size ≡ r.end)
      × (s.first_sector ≤ s.last_sector)
unfolding uniform_span
uniform_span_exact r n o bank s v h =
    let (p, l, ea, eb, e) = inverted in
    let (fa, fb, le) = whole_sectors n (r.start - o) (r.end - o) p (omega (arith, v)) ea eb in
    rw (← e) (refl, omega (arith, fa), omega (arith, fb), le)
  where
    inverted :
        (0 < n)
        × (o ≤ r.start)
        × ((r.start - o) % n ≡ 0)
        × ((r.end - o) % n ≡ 0)
        × (record {
          address_range = r;
          bank = bank;
          first_sector = (r.start - o) / n;
          last_sector = (r.end - o) / n - 1;
        }
            ≡ s)
    inverted = ground arith

-- A span, uniform or explicit, is of the range it was asked for.
span_of-range :
    (geometry : Geometry) (region : SafetyRegion) (s : RecoveryEraseSpan)
    → span_of geometry region ≡ ok s
    → s.address_range ≡ region.address_range
unfolding span_of uniform_span explicit_span
span_of-range geometry region s h = ground arith

spans_of-ranges :
    (geometry : Geometry) (regions : List SafetyRegion) (spans : List RecoveryEraseSpan)
    → spans_of geometry regions ≡ ok spans
    → map (λ s. s.address_range) spans ≡ map (λ g. g.address_range) regions
unfolding spans_of
spans_of-ranges geometry [] spans h = ground arith
spans_of-ranges geometry (g ∷ gs) spans h = elim (Result-cases (span_of geometry g)) [
  | inr (e, f) ↦ absurd (raise-ne-ok (rw f at h))
  | inl (s, f) ↦ elim (Result-cases (spans_of geometry gs)) [
    | inr (e, k) ↦ absurd (raise-ne-ok (rw (f, k) at h))
    | inl (ss, k) ↦
        let both : s ∷ ss ≡ spans = ok-injective (rw (f, k) at h) in
        rw (← both, span_of-range geometry g s f, spans_of-ranges geometry gs ss k)
  ]
]

affected-Member :
    (mapped : List SafetyRegion) (g : SafetyRegion)
    → Member g mapped
    → is_affected (physical_flash_of mapped) g ≡ true
    → Member g (affected_of mapped)
unfolding affected_of
affected-Member mapped g i h =
    Member-sorted compare_affected g _
      (Member-dedup g _ (filter-Member (is_affected (physical_flash_of mapped)) g mapped i h))

disclosure_inverted :
    (mapped : List SafetyRegion) (geometry : Geometry) (mass_erase : Bool)
    (d : RecoveryEraseDisclosure)
    → build_recovery_erase_disclosure mapped geometry mass_erase ≡ ok d
    → (spans_of geometry (physical_flash_of mapped) ≡ ok d.spans)
      × (d.affected_regions ≡ affected_of mapped)
unfolding build_recovery_erase_disclosure
disclosure_inverted mapped geometry mass_erase d h = ground arith

prohibited_affected :
    (flash : List SafetyRegion) (g : SafetyRegion)
    → g.kind ≡ prohibited
    → is_affected flash g ≡ true
unfolding is_affected is_in
prohibited_affected flash g k = rw k

partition_affected :
    (flash : List SafetyRegion) (g : SafetyRegion)
    → (g.kind ≡ application_flash) ⊎ (g.kind ≡ bootloader_flash)
    → any (λ f. overlaps f.address_range g.address_range) flash ≡ true
    → is_affected flash g ≡ true
unfolding is_affected is_in
partition_affected flash g (inl k) o = rw (k, o)
partition_affected flash g (inr k) o = rw (k, o)

flash-touches :
    (mapped : List SafetyRegion) (g f : SafetyRegion)
    → Member f mapped
    → f.kind ≡ physical_flash
    → overlaps f.address_range g.address_range ≡ true
    → any (λ f. overlaps f.address_range g.address_range) (physical_flash_of mapped) ≡ true
unfolding physical_flash_of
flash-touches mapped g f j k o = Any→any _ _ (
    Member-Any (λ f. overlaps f.address_range g.address_range ≡ true) f _
      (filter-Member (λ x. x.kind == physical_flash) f mapped j
        ((kind_eq.beq_iff f.kind physical_flash).1 k))
      o)

-- A recovery disclosure that is built has one span for each physical flash region, in the map's
-- order, of its whole range; it lists each prohibited region of the map, and each application or
-- bootloader partition that overlaps physical flash.
pub disclosure_complete :
    (mapped : List SafetyRegion) (geometry : Geometry) (mass_erase : Bool)
    (d : RecoveryEraseDisclosure)
    → build_recovery_erase_disclosure mapped geometry mass_erase ≡ ok d
    → (map (λ s. s.address_range) d.spans ≡ map (λ g. g.address_range) (physical_flash_of mapped))
      × ((g : SafetyRegion) → Member g mapped → g.kind ≡ prohibited → Member g d.affected_regions)
      × ((g f : SafetyRegion)
          → Member g mapped
          → (g.kind ≡ application_flash) ⊎ (g.kind ≡ bootloader_flash)
          → Member f mapped
          → f.kind ≡ physical_flash
          → overlaps f.address_range g.address_range ≡ true
          → Member g d.affected_regions)
disclosure_complete mapped geometry mass_erase d h =
    let (built, e) = disclosure_inverted mapped geometry mass_erase d h in
    let flash = physical_flash_of mapped in
    (
      spans_of-ranges geometry flash d.spans built,
      λ g i k. rw e (affected-Member mapped g i (prohibited_affected flash g k)),
      λ g f i k j kind o. rw e (
          affected-Member mapped g i
            (partition_affected flash g k (flash-touches mapped g f j kind o))),
    )
