-- ===== src/Safety/Geometry.antt =====
-- The memory geometry of safety/map_build.py: erase sectors, the reviewed and the generic geometry,
-- and the partitions. A record is what the constructor was called with, or what it built.
pub mod Tiling
use Prim.Native.Nat.{Ordering}
use Prim.Native.String.{compare as compare_text}
use byo_firmware_mcp.Prelude.{
  ℕ, ◌-◌, ◌%◌, max, String, ◌≡◌, Bool, true, false, ◌&&◌, ◌||◌, not, Option, none, some, List, [],
  ◌∷◌, map, any, is_nil, arith, ltb, leb, eqb, Eq, ◌==◌, ◌↔◌, if◌then◌else◌, eq_iff, string_eq,
  bool_eq,
}
use byo_firmware_mcp.Prelude.Result.{Result, ok, raise}
use byo_firmware_mcp.Prelude.Sorting.{and_then, sorted, dedup}
use byo_firmware_mcp.Prelude.Text.{is_blank, strip}
use byo_firmware_mcp.Safety.Ranges.{AddressRange, overlaps, contains, compare_ranges, range_eq}

-- Each place of the file that raises `SafetyMapError`, as far as it is modelled.
pub data MapError : Type 0 where
  bad_string bad_integer bad_board_id memories_overlap unavailable_sectors erase_model : MapError
  bad_uniform unaligned_uniform gap_in_sectors sector_outside flash_not_covered : MapError
  partitions_overlap no_memory flash_overlap ram_overlap sectors_overlap missing_sectors : MapError
  no_regions partition_in_regions build_authority flash_mismatch ram_mismatch : MapError
  partition_outside conflicting_regions stale_authority missing_map : MapError

pub record EraseSector : Type 0 where
  pub address_range : AddressRange
  pub bank : String

-- `__post_init__`: the bank is stripped.
unfoldable pub make_sector : AddressRange → String → Result MapError EraseSector
make_sector address_range bank =
    if is_blank bank
    then raise bad_string
    else ok (record { address_range = address_range; bank = strip bank })

abbrev pub sector_beq : EraseSector → EraseSector → Bool
sector_beq a b = a.address_range == b.address_range && a.bank == b.bank

pub sector_beq_iff : (a b : EraseSector) → (sector_beq a b ≡ true) ↔ (a ≡ b)
sector_beq_iff a b =
    ground (arith, range_eq.beq_iff a.address_range b.address_range, eq_iff a.bank b.bank)

instance abbrev pub sector_eq : Eq EraseSector
sector_eq = record { beq = sector_beq; beq_iff = sector_beq_iff }

-- The order that `dataclass(order=True)` gives.
unfoldable pub compare_sectors : EraseSector → EraseSector → Ordering
compare_sectors a b =
    and_then (compare_ranges a.address_range b.address_range) (compare_text a.bank b.bank)

pub record MapGeometry : Type 0 where
  pub physical_flash : AddressRange
  pub physical_ram : AddressRange
  pub erase_origin : Option ℕ
  pub erase_size : Option ℕ
  pub erase_sectors : List EraseSector
  pub erase_available : Bool

abbrev pub is_some : {A : Type 0} → Option A → Bool
is_some none = false
is_some (some a) = true

unfoldable pub is_uniform : MapGeometry → Bool
is_uniform g = is_some g.erase_origin || is_some g.erase_size

-- The loop over the explicit sectors: each starts at the cursor and stays inside the flash.
unfoldable pub tile : AddressRange → ℕ → List EraseSector → Result MapError ℕ
tile flash cursor [] = ok cursor
tile flash cursor (s ∷ ss) =
    let rest = tile flash s.address_range.end ss in
    if not (eqb s.address_range.start cursor)
    then raise gap_in_sectors
    else if not (contains flash s.address_range)
    then raise sector_outside
    else rest

unfoldable pub tiles : AddressRange → List EraseSector → Result MapError (Unit {0})
tiles flash sectors = elim (tile flash flash.start sectors) [
  | raise e ↦ raise e
  | ok cursor ↦ if eqb cursor flash.end then ok tt else raise flash_not_covered
]

unfoldable pub make_explicit : MapGeometry → Result MapError MapGeometry
make_explicit g =
    let sectors = sorted compare_sectors (dedup g.erase_sectors) in
    elim (tiles g.physical_flash sectors) [
      | raise e ↦ raise e
      | ok _ ↦ ok (record {
        physical_flash = g.physical_flash;
        physical_ram = g.physical_ram;
        erase_origin = g.erase_origin;
        erase_size = g.erase_size;
        erase_sectors = sectors;
        erase_available = g.erase_available;
      })
    ]

-- `%` is called only where the flash does not start before the origin and the size is positive.
unfoldable pub is_unaligned : AddressRange → ℕ → ℕ → Bool
is_unaligned flash origin size =
    ltb flash.start origin
    || not (eqb ((flash.start - origin) % size) 0)
    || not (eqb ((flash.end - origin) % size) 0)

unfoldable pub make_uniform : MapGeometry → Result MapError MapGeometry
make_uniform g = elim g.erase_origin [
  | none ↦ raise bad_integer
  | some origin ↦ elim g.erase_size [
    | none ↦ raise bad_integer
    | some size ↦
        if leb size 0
        then raise bad_uniform
        else if is_unaligned g.physical_flash origin size
        then raise unaligned_uniform
        else ok g
  ]
]

-- `MapGeometry.__post_init__`.
unfoldable pub make_geometry : MapGeometry → Result MapError MapGeometry
make_geometry g =
    let explicit = not (is_nil g.erase_sectors) in
    if overlaps g.physical_flash g.physical_ram
    then raise memories_overlap
    else if not g.erase_available
    then (if is_uniform g || explicit then raise unavailable_sectors else ok g)
    else if is_uniform g == explicit
    then raise erase_model
    else if is_uniform g
    then make_uniform g
    else make_explicit g

pub record MapPartitions : Type 0 where
  pub application : Option AddressRange
  pub bootloader : Option AddressRange

abbrev pub both_overlap : Option AddressRange → Option AddressRange → Bool
both_overlap (some a) (some b) = overlaps a b
both_overlap _ _ = false

-- `MapPartitions.__post_init__`.
unfoldable pub make_partitions :
    Option AddressRange → Option AddressRange → Result MapError MapPartitions
make_partitions application bootloader =
    if both_overlap application bootloader
    then raise partitions_overlap
    else ok (record { application = application; bootloader = bootloader })

-- The loop of `_covered_by_ranges`: ranges behind the target are not skipped.
unfoldable pub covered_by_from : ℕ → ℕ → List AddressRange → Bool
covered_by_from cursor end [] = false
covered_by_from cursor end (r ∷ rs) =
    let skip = covered_by_from cursor end rs in
    let next = max cursor r.end in
    let advance = covered_by_from next end rs in
    if leb r.end cursor
    then skip
    else if ltb cursor r.start
    then false
    else if leb end next
    then true
    else advance

unfoldable pub covered_by_ranges : AddressRange → List AddressRange → Bool
covered_by_ranges requested ranges =
    covered_by_from requested.start requested.end (sorted compare_ranges (dedup ranges))

-- `any(test(left, right) for left, right in zip(rows, rows[1:]))`
unfoldable pub any_adjacent : {A : Type 0} → (A → A → Bool) → List A → Bool
any_adjacent test [] = false
any_adjacent test (x ∷ []) = false
any_adjacent test (x ∷ y ∷ rest) = test x y || any_adjacent test (y ∷ rest)

pub record GenericMapGeometry : Type 0 where
  pub physical_flash : List AddressRange
  pub physical_ram : List AddressRange
  pub erase_sectors : List EraseSector
  pub erase_available : Bool

unfoldable pub memories_meet : List AddressRange → List AddressRange → Bool
memories_meet flash ram = any (λ left. any (λ right. overlaps left right) ram) flash

-- `GenericMapGeometry.__post_init__`.
unfoldable pub make_generic_geometry : GenericMapGeometry → Result MapError GenericMapGeometry
make_generic_geometry g =
    let flash = sorted compare_ranges (dedup g.physical_flash) in
    let ram = sorted compare_ranges (dedup g.physical_ram) in
    let sectors = sorted compare_sectors (dedup g.erase_sectors) in
    if is_nil flash || is_nil ram
    then raise no_memory
    else if any_adjacent overlaps flash
    then raise flash_overlap
    else if any_adjacent overlaps ram
    then raise ram_overlap
    else if memories_meet flash ram
    then raise memories_overlap
    else if not g.erase_available && not (is_nil sectors)
    then raise unavailable_sectors
    else if g.erase_available && is_nil sectors
    then raise missing_sectors
    else if any (λ s. not (covered_by_ranges s.address_range flash)) sectors
    then raise sector_outside
    else if any_adjacent (λ l r. overlaps l.address_range r.address_range) sectors
    then raise sectors_overlap
    else ok (record {
      physical_flash = flash;
      physical_ram = ram;
      erase_sectors = sectors;
      erase_available = g.erase_available;
    })

unfoldable pub contains_flash : GenericMapGeometry → AddressRange → Bool
contains_flash g requested = covered_by_ranges requested g.physical_flash

unfoldable pub contains_ram : GenericMapGeometry → AddressRange → Bool
contains_ram g requested = covered_by_ranges requested g.physical_ram
