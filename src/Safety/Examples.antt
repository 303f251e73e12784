-- ===== src/Safety/Examples.antt =====
-- A small map of a board, on which the statements about safety/regions.py are exercised.
use byo_firmware_mcp.Prelude.{
  ℕ, ◌+◌, ◌*◌, ◌≤◌, ◌<◌, String, ◌≡◌, refl, ◌≢◌, ◌↔◌, ◌⊎◌, inl, inr, Bool, true, false, List, [],
  ◌∷◌, map, arith, Any, All, Member, filter, any, none, some,
}
use byo_firmware_mcp.Prelude.Result.{ok}
use byo_firmware_mcp.Prelude.Sorting.{sorted, dedup, contains}
use byo_firmware_mcp.Safety.Ranges.{AddressRange, IsRange, Holds, overlaps, compare_ranges}
use byo_firmware_mcp.Safety.Coverage.{covered, covered_from, covered_iff}
use byo_firmware_mcp.Safety.Regions.{
  RegionKind, prohibited, application_flash, bootloader_flash, ram, physical_flash, SafetyRegion,
  build, memory_read, memory_write, flash_application, breakpoint, allowed_kinds, specificity,
  kind_eq,
}
use byo_firmware_mcp.Safety.Map.{
  SafetyMap, mapped_kinds, overlapping, ranges_of, covers_by, highest, most_specific,
  touches_prohibited, classify, executable_contains, refusal, refusal_code, judge, check_from,
  requested_ranges, check,
}
use byo_firmware_mcp.Safety.Recovery.{
  RecoveryEraseSpan, RecoveryEraseDisclosure, Geometry, uniform_span, span_of, spans_of,
  physical_flash_of, is_affected, affected_of, losses_of, compare_affected,
  build_recovery_erase_disclosure,
}
use byo_firmware_mcp.Safety.Recovery.Spans.{uniform_span_exact, disclosure_complete}
use byo_firmware_mcp.Safety.Map.Classify.{
  Touches, CoversBy, classify-prohibited_iff, classify-mapped_iff,
}
use byo_firmware_mcp.Safety.Map.Check.{Permits, IsAllowed, check-IsAllowed_iff, check-refusal_names}
use byo_firmware_mcp.Safety.Map.Contained.{check-mutation_contained, check-read_touching}

abbrev range : ℕ → ℕ → AddressRange
range start end = record { start = start; end = end }

abbrev region : String → RegionKind → AddressRange → Bool → SafetyRegion
region name kind r executable = record {
  name = name;
  kind = kind;
  address_range = r;
  provenance = record { authority = build; source_id = "map"; detail = "linker script" } ∷ [];
  executable = executable;
}

-- Flash in two regions, a prohibited block behind it, and memory.
abbrev board : SafetyMap
board = record {
  regions =
      region "application" application_flash (range 0 4096) true
      ∷ region "more" application_flash (range 4096 8192) true
      ∷ region "options" prohibited (range 8192 8448) false
      ∷ region "sram" ram (range 65536 131072) false
      ∷ [];
}

abbrev image : List AddressRange
image = range 1024 6144 ∷ []

abbrev buffer : List AddressRange
buffer = range 65536 65552 ∷ range 70000 70004 ∷ []

abbrev behind : List AddressRange
behind = range 8440 9000 ∷ []

covered_iff_example :
    (covered (range 1024 6144) (range 4096 8192 ∷ range 0 4096 ∷ []) ≡ true)
    ↔ ((a : ℕ) → Holds a (range 1024 6144) → Any (Holds a) (range 4096 8192 ∷ range 0 4096 ∷ []))
covered_iff_example =
    covered_iff (range 1024 6144) (range 4096 8192 ∷ range 0 4096 ∷ []) (omega arith)

classify-prohibited_iff_example :
    (classify board (range 8000 8200) ≡ prohibited) ↔ Touches board (range 8000 8200)
classify-prohibited_iff_example = classify-prohibited_iff board (range 8000 8200)

image-IsRange : IsRange (range 1024 6144)
image-IsRange = record { nonempty = omega arith; bounded = omega arith }

classify-mapped_iff_example : (classify board (range 1024 6144) ≡ application_flash) ↔ (
    (¬ Touches board (range 1024 6144))
    × CoversBy board (range 1024 6144) application_flash
    × ((j : RegionKind)
        → Member j mapped_kinds
        → CoversBy board (range 1024 6144) j
        → (j ≡ application_flash) ⊎ (specificity j < specificity application_flash)))
classify-mapped_iff_example =
    classify-mapped_iff board (range 1024 6144) application_flash image-IsRange (λ e. ground arith)
      (λ e. ground arith)

check-IsAllowed_iff_example :
    IsAllowed (check board memory_write buffer)
    ↔ ((buffer ≢ []) × All (Permits board memory_write) buffer)
check-IsAllowed_iff_example = check-IsAllowed_iff board memory_write buffer

write_refused :
    check board memory_write (range 8440 9000 ∷ [])
    ≡ ok (refusal memory_write "safety/prohibited" (range 8440 9000) prohibited)
unfolding check check_from requested_ranges judge refusal_code classify touches_prohibited
    overlapping overlaps sorted dedup contains filter any
write_refused = refl

check-refusal_names_example :
    Member (range 8440 9000) behind
    × (memory_write ≡ memory_write)
    × (prohibited ≡ classify board (range 8440 9000))
    × (¬ Permits board memory_write (range 8440 9000))
check-refusal_names_example =
    check-refusal_names board memory_write memory_write behind "safety/prohibited" (range 8440 9000)
      prohibited write_refused

flash-IsAllowed : IsAllowed (check board flash_application image)
unfolding check check_from requested_ranges judge refusal_code classify touches_prohibited
    overlapping overlaps sorted dedup contains filter any covers_by covered covered_from ranges_of
    most_specific highest compare_ranges
flash-IsAllowed = tt

check-mutation_contained_example :
    (k : RegionKind) × (contains k (allowed_kinds flash_application) ≡ true)
    × CoversBy board (range 1024 6144) k
    × (¬ Touches board (range 1024 6144))
check-mutation_contained_example =
    check-mutation_contained board flash_application image (range 1024 6144) (λ e. ground arith)
      flash-IsAllowed (inl refl) image-IsRange

breakpoint-IsAllowed : IsAllowed (check board breakpoint image)
unfolding check check_from requested_ranges judge refusal_code classify touches_prohibited
    overlapping overlaps sorted dedup contains filter any covers_by covered covered_from ranges_of
    most_specific highest executable_contains compare_ranges
breakpoint-IsAllowed = tt

buffer-IsRange : All IsRange buffer
buffer-IsRange = (
  record { nonempty = omega arith; bounded = omega arith },
  (record { nonempty = omega arith; bounded = omega arith }, tt),
)

behind-Touches : All (Touches board) behind
unfolding overlaps
behind-Touches = (inr (inr (inl (refl, refl))), tt)

check-read_touching_example : IsAllowed (check board memory_read behind)
check-read_touching_example = check-read_touching board behind (λ e. ground arith) behind-Touches

abbrev span : RecoveryEraseSpan
span = record { address_range = range 1024 6144; bank = "bank"; first_sector = 1; last_sector = 5 }

whole_sectors : uniform_span (range 1024 6144) (some 1024) (some 0) "bank" ≡ ok span
unfolding uniform_span
whole_sectors = refl

uniform_span_exact_example :
    (span.address_range ≡ range 1024 6144)
    × (0 + span.first_sector * 1024 ≡ 1024)
    × (0 + (span.last_sector + 1) * 1024 ≡ 6144)
    × (span.first_sector ≤ span.last_sector)
uniform_span_exact_example =
    uniform_span_exact (range 1024 6144) 1024 0 "bank" span image-IsRange whole_sectors

abbrev chip : List SafetyRegion
chip =
    region "flash" physical_flash (range 0 8192) false
    ∷ region "boot" bootloader_flash (range 0 2048) true
    ∷ region "options" prohibited (range 8192 8448) false
    ∷ []

abbrev sectors : Geometry
sectors = record { erase_size = some 2048; erase_origin = some 0; sectors = none }

abbrev disclosed : RecoveryEraseDisclosure
disclosed = record {
  spans =
      record { address_range = range 0 8192; bank = "flash"; first_sector = 0; last_sector = 3 }
      ∷ [];
  affected_regions =
      region "boot" bootloader_flash (range 0 2048) true
      ∷ region "flash" physical_flash (range 0 8192) false
      ∷ region "options" prohibited (range 8192 8448) false
      ∷ [];
  all_nonvolatile_erased = false;
  expected_losses =
      "all user data in addressable nonvolatile memory" ∷ "user bootloader firmware"
      ∷ "nonvolatile configuration, protection, provisioning, and user settings" ∷ [];
}

chip-disclosed : build_recovery_erase_disclosure chip sectors false ≡ ok disclosed
unfolding build_recovery_erase_disclosure physical_flash_of spans_of span_of uniform_span
    affected_of is_affected losses_of compare_affected overlaps sorted dedup contains filter any
chip-disclosed = refl

disclosure_complete_example :
    (map (λ s. s.address_range) disclosed.spans
      ≡ map (λ g. g.address_range) (physical_flash_of chip))
    × ((g : SafetyRegion)
        → Member g chip
        → g.kind ≡ prohibited
        → Member g disclosed.affected_regions)
    × ((g f : SafetyRegion)
        → Member g chip
        → (g.kind ≡ application_flash) ⊎ (g.kind ≡ bootloader_flash)
        → Member f chip
        → f.kind ≡ physical_flash
        → overlaps f.address_range g.address_range ≡ true
        → Member g disclosed.affected_regions)
disclosure_complete_example = disclosure_complete chip sectors false disclosed chip-disclosed
