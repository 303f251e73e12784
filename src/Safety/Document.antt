-- ===== src/Safety/Document.antt =====
-- The persisted map of a board in safety/map_build.py: the reviewed document, the generic document,
-- and the map of regions that each stands for. The digests of the sources are left out.
pub mod Clear
use Prim.Native.Nat.{Ordering}
use Prim.Native.Char.{Char, code}
use Prim.Native.String.{compare as compare_text}
use byo_firmware_mcp.Prelude.{
  ℕ, zero, suc, String, ◌≡◌, Bool, true, false, ◌&&◌, ◌||◌, not, Option, none, some, List, [], ◌∷◌,
  ◌++◌, map, filter, any, all, is_nil, ltb, leb, eqb, ◌==◌, if◌then◌else◌, pair_eq, list_eq,
  string_eq,
}
use byo_firmware_mcp.Prelude.Result.{Result, ok, raise, guard, ◌>>=◌, ◌>>◌}
use byo_firmware_mcp.Prelude.Sorting.{and_then, sorted, dedup, contains as is_in}
use byo_firmware_mcp.Prelude.Text.{is_blank, is_empty, strip}
use byo_firmware_mcp.Safety.Ranges.{
  AddressRange, RegionError, overlaps, contains, intersection, range_eq,
}
use byo_firmware_mcp.Safety.Regions.{
  RegionKind, prohibited, application_flash, bootloader_flash, physical_flash, physical_ram, ram,
  rom, rom_bootloader, kind_eq, SourceAuthority, build, reconciled, authority_eq, SafetyRegion,
  make_provenance, make_region,
}
use byo_firmware_mcp.Safety.Map.{
  SafetyMap, make_map, compare_regions, partition_prohibited_conflicts,
}
use byo_firmware_mcp.Safety.Recovery.{region_eq}
use byo_firmware_mcp.Safety.Geometry.{
  MapError, bad_string, bad_board_id, no_regions, partition_in_regions, build_authority,
  flash_mismatch, ram_mismatch, partition_outside, conflicting_regions, MapGeometry,
  GenericMapGeometry, MapPartitions,
}

-- What the construction of a document raises: the file's own error, that of safety/regions.py, or
-- a failed assertion.
pub data DocumentError : Type 0 where
  map_error : MapError → DocumentError
  region_error : RegionError → DocumentError
  assertion : DocumentError

abbrev pub or_region_error : {A : Type 0} → Result RegionError A → Result DocumentError A
or_region_error (ok a) = ok a
or_region_error (raise e) = raise (region_error e)

-- `[a-z0-9_]{1,64}`, matched in full.
abbrev pub is_board_char : Char → Bool
is_board_char ch = let c = code ch in (leb 97 c && leb c 122) || (leb 48 c && leb c 57) || eqb c 95

unfoldable pub board_chars : ℕ → String → Bool
board_chars n Prim.Native.String.[] = true
board_chars n (Prim.Native.String.◌∷◌ c s) = elim n [
  | zero ↦ false
  | suc m ↦ is_board_char c && board_chars m s
]

unfoldable pub is_board_id : String → Bool
is_board_id s = not (is_empty s) && board_chars 64 s

unfoldable pub required_string : String → Result MapError String
required_string value = if is_blank value then raise bad_string else ok (strip value)

pub record MapIdentity : Type 0 where
  pub mcu_part_number : String
  pub pyocd_target : String
  pub reviewed_board_type : String

-- `MapIdentity.__post_init__`.
unfoldable pub make_identity : MapIdentity → Result MapError MapIdentity
make_identity i = do
  part ← required_string i.mcu_part_number
  target ← required_string i.pyocd_target
  board_type ← required_string i.reviewed_board_type
  ok (record { mcu_part_number = part; pyocd_target = target; reviewed_board_type = board_type })

unfoldable pub partition_region :
    String → String → RegionKind → Option AddressRange → Result RegionError (List SafetyRegion)
partition_region board_type name kind none = ok []
partition_region board_type name kind (some partition) = do
  source ←
      make_provenance reconciled (Prim.Native.String.◌++◌ "reviewed catalog:" board_type)
        "authoritative deployment partition policy"
  region ← make_region name kind partition (source ∷ []) false
  ok (region ∷ [])

unfoldable pub partition_regions :
    MapIdentity → MapPartitions → Result RegionError (List SafetyRegion)
partition_regions identity partitions = do
  application ←
      partition_region identity.reviewed_board_type "application partition" application_flash
        partitions.application
  bootloader ←
      partition_region identity.reviewed_board_type "bootloader partition" bootloader_flash
        partitions.bootloader
  ok (application ++ bootloader)

-- The unordered pairs that may nest.
abbrev pub allowed_nesting : List (RegionKind × RegionKind)
allowed_nesting =
    (physical_flash, application_flash)
    ∷ (physical_flash, bootloader_flash)
    ∷ (physical_ram, ram)
    ∷ (rom, rom_bootloader)
    ∷ []

unfoldable pub ambiguous_overlap : SafetyRegion → SafetyRegion → Bool
ambiguous_overlap first second =
    let left = first.kind in
    let right = second.kind in
    if not (overlaps first.address_range second.address_range)
    then false
    else if left == right || left == prohibited || right == prohibited
    then false
    else not (is_in (left, right) allowed_nesting || is_in (right, left) allowed_nesting)

pub record Conflict : Type 0 where
  pub conflict_code : String
  pub names : String × String
  pub overlap : AddressRange

unfoldable pub conflict_of : String → SafetyRegion × SafetyRegion → Result DocumentError Conflict
conflict_of c (first, second) = elim (intersection first.address_range second.address_range) [
  | none ↦ raise assertion
  | some overlap ↦
      ok (record { conflict_code = c; names = (first.name, second.name); overlap = overlap })
]

unfoldable pub conflicts_with :
    String → List (SafetyRegion × SafetyRegion) → Result DocumentError (List Conflict)
conflicts_with c [] = ok []
conflicts_with c (p ∷ ps) =
    let rest = conflicts_with c ps in conflict_of c p >>= λ x. rest >>= λ xs. ok (x ∷ xs)

-- Each entry with those behind it.
unfoldable pub later_pairs : {A : Type 0} → List A → List (A × A)
later_pairs [] = []
later_pairs (x ∷ xs) = map (λ y. (x, y)) xs ++ later_pairs xs

unfoldable pub ambiguous_pairs : List SafetyRegion → List (SafetyRegion × SafetyRegion)
ambiguous_pairs regions = filter (λ p. ambiguous_overlap p.0 p.1) (later_pairs regions)

pub record SafetyMapDocument : Type 0 where
  pub board_id : String
  pub identity : MapIdentity
  pub geometry : MapGeometry
  pub partitions : MapPartitions
  pub regions : List SafetyRegion

unfoldable pub canonical_regions : List SafetyRegion → List SafetyRegion
canonical_regions regions = sorted compare_regions (dedup regions)

unfoldable pub ranges_with : RegionKind → List SafetyRegion → List AddressRange
ranges_with kind regions =
    map (λ region. region.address_range) (filter (λ region. region.kind == kind) regions)

abbrev pub is_outside : AddressRange → Option AddressRange → Bool
is_outside flash none = false
is_outside flash (some partition) = not (contains flash partition)

unfoldable pub is_partition : SafetyRegion → Bool
is_partition region = region.kind == application_flash || region.kind == bootloader_flash

unfoldable pub is_built : SafetyRegion → Bool
is_built region = any (λ p. p.authority == build) region.provenance

-- The tests of `SafetyMapDocument.__post_init__` before that of conflicts, in their order.
unfoldable pub document_error : SafetyMapDocument → List SafetyRegion → Option MapError
document_error d regions =
    if not (is_board_id d.board_id)
    then some bad_board_id
    else if is_nil regions
    then some no_regions
    else if any is_partition regions
    then some partition_in_regions
    else if any is_built regions
    then some build_authority
    else if not (ranges_with physical_flash regions == d.geometry.physical_flash ∷ [])
    then some flash_mismatch
    else if not (ranges_with physical_ram regions == d.geometry.physical_ram ∷ [])
    then some ram_mismatch
    else if is_outside d.geometry.physical_flash d.partitions.application
        || is_outside d.geometry.physical_flash d.partitions.bootloader
    then some partition_outside
    else none

abbrev pub with_regions : SafetyMapDocument → List SafetyRegion → SafetyMapDocument
with_regions d regions = record {
  board_id = d.board_id;
  identity = d.identity;
  geometry = d.geometry;
  partitions = d.partitions;
  regions = regions;
}

unfoldable pub map_regions : SafetyMapDocument → Result RegionError (List SafetyRegion)
map_regions d = do
  partitions ← partition_regions d.identity d.partitions
  ok (d.regions ++ partitions)

-- The property `safety_map` of a reviewed document.
unfoldable pub reviewed_map : SafetyMapDocument → Result RegionError SafetyMap
reviewed_map d = do regions ← map_regions d; make_map regions

-- `render` is Python's `str` of a list of two strings, by which the conflicts are sorted.
module _ (render : String × String → String) where
  unfoldable pub compare_conflicts : Conflict → Conflict → Ordering
  compare_conflicts a b =
      and_then (compare_text a.conflict_code b.conflict_code)
        (compare_text (render a.names) (render b.names))

  unfoldable pub region_conflicts : List SafetyRegion → Result DocumentError (List Conflict)
  region_conflicts typed = if is_nil typed then ok [] else do
    safety ← or_region_error (make_map typed)
    blocked ← conflicts_with "partition_prohibited_overlap" (partition_prohibited_conflicts safety)
    ambiguous ← conflicts_with "ambiguous_region_overlap" (ambiguous_pairs typed)
    ok (sorted compare_conflicts (blocked ++ ambiguous))

  -- The document with its regions in order, once they pass the test of conflicts.
  unfoldable pub without_conflicts : SafetyMapDocument → Result DocumentError SafetyMapDocument
  without_conflicts d = do
    regions ← or_region_error (map_regions d)
    conflicts ← region_conflicts regions
    if is_nil conflicts then ok d else raise (map_error conflicting_regions)

  -- `SafetyMapDocument.__post_init__`.
  unfoldable pub make_document : SafetyMapDocument → Result DocumentError SafetyMapDocument
  make_document d =
      let regions = canonical_regions d.regions in
      elim (document_error d regions) [
        | some e ↦ raise (map_error e)
        | none ↦ without_conflicts (with_regions d regions)
      ]

pub record GenericSafetyMapDocument : Type 0 where
  pub generic_target : String
  pub geometry : GenericMapGeometry
  pub partitions : MapPartitions
  pub regions : List SafetyRegion

-- The two kinds of document that the repository loads.
pub data Document : Type 0 where
  reviewed : SafetyMapDocument → Document
  generic : GenericSafetyMapDocument → Document

abbrev pub target_of : Document → String
target_of (reviewed d) = d.identity.pyocd_target
target_of (generic d) = d.generic_target

abbrev pub partitions_of : Document → MapPartitions
partitions_of (reviewed d) = d.partitions
partitions_of (generic d) = d.partitions

unfoldable pub safety_map : Document → Result RegionError SafetyMap
safety_map (reviewed d) = reviewed_map d
safety_map (generic d) = make_map d.regions
