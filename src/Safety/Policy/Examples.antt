-- ===== src/Safety/Policy/Examples.antt =====
-- A small board with a uniform erase geometry and one with explicit sectors, on which the statements
-- about safety/map_build.py and safety/enforce.py are exercised.
use byo_firmware_mcp.Prelude.{
  ℕ, String, ◌≡◌, refl, ◌≢◌, inl, inr, true, false, none, some, List, [], ◌∷◌, arith, Any, any,
  filter,
}
use byo_firmware_mcp.Prelude.Result.{ok, raise}
use byo_firmware_mcp.Prelude.Sorting.{contains as is_in, sorted, dedup, insert_sorted}
use byo_firmware_mcp.Prelude.Text.{is_blank, is_space, lstrip, rstrip, strip}
use byo_firmware_mcp.Safety.Coverage.{covered, covered_from}
use byo_firmware_mcp.Safety.Ranges.{
  AddressRange, overlaps, contains, intersection, make_range, from_start_size, compare_ranges,
}
use byo_firmware_mcp.Safety.Regions.{
  RegionKind, prohibited, application_flash, bootloader_flash, ram, physical_flash, physical_ram,
  SafetyRegion, official_document, reconciled, breakpoint, kind_eq, compare_provenance,
  compare_provenances, make_provenance, make_region,
}
use byo_firmware_mcp.Safety.Map.{
  allowed, compare_bools, compare_regions, conflicts_of, flat_conflicts, make_map,
  partition_prohibited_conflicts, check, check_from, classify, covers_by, executable_contains,
  highest, judge, most_specific, overlapping, ranges_of, refusal_code, requested_ranges,
  touches_prohibited,
}
use byo_firmware_mcp.Safety.Geometry.{
  EraseSector, MapGeometry, make_geometry, is_uniform, make_explicit, tiles, tile, compare_sectors,
}
use byo_firmware_mcp.Safety.Geometry.Tiling.{Tiles, make_geometry-Tiles}
use byo_firmware_mcp.Safety.Document.{
  SafetyMapDocument, GenericSafetyMapDocument, reviewed, make_document, reviewed_map, ranges_with,
  document_error, is_board_id, board_chars, canonical_regions, is_partition, is_built,
  without_conflicts, map_regions, partition_regions, partition_region, ambiguous_overlap,
  ambiguous_pairs, compare_conflicts, conflict_of, conflicts_with, later_pairs, region_conflicts,
  safety_map,
}
use byo_firmware_mcp.Safety.Document.Clear.{make_document-clear}
use byo_firmware_mcp.Safety.Policy.Errors.{unfinished}
use byo_firmware_mcp.Safety.Policy.Erase.{
  erase_sectors, align, explicit_erase, fully_covered, generic_erase, ranges_of_sectors,
  reviewed_erase, sectors_under, uniform_erase, uniform_sectors, walk,
}
use byo_firmware_mcp.Safety.Policy.Sectors.{
  IsEraseOf, erase_sectors-IsEraseOf, erase_sectors_finishes,
}
use byo_firmware_mcp.Safety.Policy.Evidence.{
  BuildRole, application, BuildEvidence, Services, extract_runtime_evidence, collect_some,
  companions, content_ranges, executable_ranges,
}
use byo_firmware_mcp.Safety.Policy.{
  LoadedSafetyMap, load_or, check_flash, check_breakpoint, load, with_map, check_stack, check_one,
  check_contents, check_each, check_reset, flash_ranges,
}
use byo_firmware_mcp.Safety.Policy.Flash.{
  IsAccepted, IsFlashable, check_flash-IsAccepted, check_breakpoint-IsFlashable,
}

abbrev range : ℕ → ℕ → AddressRange
range start end = record { start = start; end = end }

abbrev region : String → RegionKind → AddressRange → SafetyRegion
region name kind r = record {
  name = name;
  kind = kind;
  address_range = r;
  provenance =
      record { authority = official_document; source_id = "manual"; detail = "memory map" } ∷ [];
  executable = false;
}

abbrev device : List SafetyRegion
device =
    region "flash" physical_flash (range 0 64)
    ∷ region "options" prohibited (range 48 64)
    ∷ region "memory" physical_ram (range 128 192)
    ∷ region "sram" ram (range 128 192)
    ∷ []

abbrev sector : ℕ → ℕ → EraseSector
sector start end = record { address_range = range start end; bank = "main" }

abbrev explicit : MapGeometry
explicit = record {
  physical_flash = range 0 64;
  physical_ram = range 128 192;
  erase_origin = none;
  erase_size = none;
  erase_sectors = sector 0 16 ∷ sector 16 32 ∷ sector 32 64 ∷ [];
  erase_available = true;
}

abbrev uniform : MapGeometry
uniform = record {
  physical_flash = range 0 64;
  physical_ram = range 128 192;
  erase_origin = some 0;
  erase_size = some 16;
  erase_sectors = [];
  erase_available = true;
}

abbrev board : SafetyMapDocument
board = record {
  board_id = "demo_board";
  identity = record {
    mcu_part_number = "mcu";
    pyocd_target = "target";
    reviewed_board_type = "demo";
  };
  geometry = uniform;
  partitions = record { application = some (range 16 48); bootloader = some (range 0 16) };
  regions = device;
}

abbrev generic_board : GenericSafetyMapDocument
generic_board = record {
  generic_target = "target";
  geometry = record {
    physical_flash = range 0 64 ∷ [];
    physical_ram = range 128 192 ∷ [];
    erase_sectors = sector 0 16 ∷ sector 16 32 ∷ sector 32 64 ∷ [];
    erase_available = true;
  };
  partitions = record { application = none; bootloader = none };
  regions = device;
}

abbrev build_evidence : BuildEvidence
build_evidence = record {
  flash_partition = none;
  loadable_segments =
      record { load_range = some (range 20 40); runtime_range = range 20 40; executable = true }
      ∷ [];
  hex_ranges = [];
  entry_point = some 22;
  vector_table = some 20;
  initial_stack_pointer = some 160;
  reset_handler = some 22;
}

abbrev bench : Services
bench = record {
  load_current = λ board_id. ok (reviewed board);
  verify = λ document. ok tt;
  digest = λ document. "digest";
  casefold = λ text. text;
  resolve = λ path. path;
  suffix = λ path. ".elf";
  with_suffix = λ path suffix. path;
  is_file = λ path. true;
  extract = λ role elf hex. ok build_evidence;
}

abbrev render : String × String → String
render (first, second) = first

explicit_built : make_geometry explicit ≡ ok explicit
unfolding make_geometry overlaps is_uniform make_explicit tiles tile sorted dedup compare_sectors
    compare_ranges contains
explicit_built = refl

make_geometry-Tiles_example : Tiles (range 0 64) (sector 0 16 ∷ sector 16 32 ∷ sector 32 64 ∷ [])
make_geometry-Tiles_example = make_geometry-Tiles explicit explicit explicit_built refl (
  record { nonempty = omega arith; bounded = omega arith },
  (
    record { nonempty = omega arith; bounded = omega arith },
    (record { nonempty = omega arith; bounded = omega arith }, tt),
  ),
)

board_built : make_document render board ≡ ok board
unfolding is_blank is_space lstrip rstrip strip sorted dedup insert_sorted is_in any filter make_map
    compare_regions compare_bools compare_ranges compare_provenance compare_provenances
    make_provenance make_region partition_region partition_regions map_regions reviewed_map
    safety_map overlaps contains make_document document_error is_board_id board_chars
    canonical_regions is_partition is_built ranges_with without_conflicts ambiguous_overlap
    ambiguous_pairs compare_conflicts conflict_of conflicts_with later_pairs region_conflicts
    conflicts_of flat_conflicts partition_prohibited_conflicts intersection
board_built = refl

abbrev partition : String → RegionKind → AddressRange → SafetyRegion
partition name kind r = record {
  name = name;
  kind = kind;
  address_range = r;
  provenance =
      record {
        authority = reconciled;
        source_id = "reviewed catalog:demo";
        detail = "authoritative deployment partition policy";
      }
      ∷ [];
  executable = false;
}

abbrev application_region : SafetyRegion
application_region = partition "application partition" application_flash (range 16 48)

abbrev options_region : SafetyRegion
options_region = region "options" prohibited (range 48 64)

abbrev board_regions : List SafetyRegion
board_regions =
    partition "bootloader partition" bootloader_flash (range 0 16)
    ∷ region "flash" physical_flash (range 0 64)
    ∷ application_region
    ∷ options_region
    ∷ region "memory" physical_ram (range 128 192)
    ∷ region "sram" ram (range 128 192)
    ∷ []

board_map : reviewed_map board ≡ ok (record { regions = board_regions })
unfolding is_blank is_space lstrip rstrip strip sorted dedup insert_sorted is_in any filter make_map
    compare_regions compare_bools compare_ranges compare_provenance compare_provenances
    make_provenance make_region partition_region partition_regions map_regions reviewed_map
    safety_map overlaps contains
board_map = refl

flash_accepted :
    check_flash bench "demo_board" application "app.elf" "target" none ≡ ok build_evidence
unfolding check_flash is_blank is_space lstrip rstrip strip sorted dedup insert_sorted is_in any
    filter make_map compare_regions compare_bools compare_ranges compare_provenance
    compare_provenances make_provenance make_region partition_region partition_regions map_regions
    reviewed_map safety_map overlaps contains check check_from classify covers_by
    executable_contains highest judge most_specific overlapping ranges_of refusal_code
    requested_ranges touches_prohibited covered covered_from make_range from_start_size
    erase_sectors align explicit_erase fully_covered generic_erase ranges_of_sectors reviewed_erase
    sectors_under uniform_erase uniform_sectors walk extract_runtime_evidence collect_some
    companions content_ranges executable_ranges load_or load with_map check_stack check_one
    check_contents check_each check_reset flash_ranges
flash_accepted = refl

make_document-clear_example : overlaps (range 16 48) (range 48 64) ≡ false
make_document-clear_example =
    make_document-clear render board board (record { regions = board_regions }) application_region
      options_region board_built board_map (inr (inr (inl refl))) (inr (inr (inr (inl refl))))
      (unfold is_in in refl) refl

erased : erase_sectors (reviewed board) (range 20 40 ∷ []) ≡ ok (range 16 32 ∷ range 32 48 ∷ [])
unfolding is_blank is_space lstrip rstrip strip sorted dedup insert_sorted is_in any filter
    erase_sectors align explicit_erase fully_covered generic_erase ranges_of_sectors reviewed_erase
    sectors_under uniform_erase uniform_sectors walk compare_ranges overlaps from_start_size
    make_range covered_from
erased = refl

erase_sectors-IsEraseOf_example : IsEraseOf (range 20 40 ∷ []) (range 16 32 ∷ range 32 48 ∷ [])
erase_sectors-IsEraseOf_example =
    erase_sectors-IsEraseOf (reviewed board) (range 20 40 ∷ []) (range 16 32 ∷ range 32 48 ∷ [])
      erased

erase_sectors_finishes_example :
    erase_sectors (reviewed board) (range 20 40 ∷ []) ≢ raise unfinished
erase_sectors_finishes_example = erase_sectors_finishes (reviewed board) (range 20 40 ∷ [])

check_flash-IsAccepted_example :
    (loaded : LoadedSafetyMap) × (load_or bench "demo_board" none ≡ ok loaded)
    × IsAccepted bench loaded application "app.elf" "target" build_evidence
check_flash-IsAccepted_example =
    check_flash-IsAccepted bench "demo_board" application "app.elf" "target" none build_evidence
      flash_accepted

breakpoint_accepted :
    check_breakpoint bench "demo_board" 24 "app.elf" none
    ≡ ok (allowed breakpoint (range 24 26 ∷ []) (application_flash ∷ []))
unfolding check_breakpoint is_blank is_space lstrip rstrip strip sorted dedup insert_sorted is_in
    any filter make_map compare_regions compare_bools compare_ranges compare_provenance
    compare_provenances make_provenance make_region partition_region partition_regions map_regions
    reviewed_map safety_map overlaps contains check check_from classify covers_by
    executable_contains highest judge most_specific overlapping ranges_of refusal_code
    requested_ranges touches_prohibited covered covered_from make_range from_start_size
    extract_runtime_evidence collect_some companions content_ranges executable_ranges load_or load
    with_map check_stack check_one check_contents check_each check_reset flash_ranges
breakpoint_accepted = refl

check_breakpoint-IsFlashable_example :
    (loaded : LoadedSafetyMap) × (load_or bench "demo_board" none ≡ ok loaded)
    × ((r : AddressRange) × (r.start ≡ 24)
        × (r.end ≡ 26)
        × ((role : BuildRole) × IsFlashable loaded.map role r)
        × ((evidence : BuildEvidence) × (extract_runtime_evidence bench application "app.elf"
              ≡ ok evidence)
            × Any
                (λ s. (s.executable ≡ true) × (contains s.runtime_range r ≡ true))
                evidence.loadable_segments))
check_breakpoint-IsFlashable_example =
    check_breakpoint-IsFlashable bench "demo_board" 24 "app.elf" none
      (allowed breakpoint (range 24 26 ∷ []) (application_flash ∷ [])) breakpoint_accepted

abbrev sector_ranges : List AddressRange
sector_ranges = range 16 32 ∷ range 32 64 ∷ []
