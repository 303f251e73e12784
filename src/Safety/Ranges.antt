-- ===== src/Safety/Ranges.antt =====
-- `AddressRange` of src/pyocd_debug_mcp/safety/regions.py, with the errors that the file raises.
-- Endpoints are naturals: a boolean, another type or a negative number is not an endpoint here.
use Prim.Native.Nat.{Ordering, compare}
use byo_firmware_mcp.Prelude.{
  ℕ, ◌+◌, ◌-◌, ◌^◌, ◌≤◌, ◌<◌, min, max, ◌≡◌, Bool, true, ◌&&◌, Option, none, some, arith, ltb, leb,
  Eq, eqb, ◌↔◌, if◌then◌else◌,
}
use byo_firmware_mcp.Prelude.Result.{Result, ok, raise}
use byo_firmware_mcp.Prelude.Sorting.{and_then}

-- Each place of the file that raises `RegionError`.
pub data RegionError : Type 0 where
  bad_endpoints bad_size empty_provenance empty_name unknown_kind no_provenance : RegionError
  bad_executable empty_map no_ranges unaligned_geometry sector_error uncovered_flash : RegionError
  sector_outside no_physical_flash : RegionError

abbrev pub max_address_exclusive : ℕ
max_address_exclusive = 2 ^ 64

pub record AddressRange : Type 0 where
  pub start : ℕ
  pub end : ℕ

-- `__post_init__`: what every constructed range satisfies.
pub record IsRange (r : AddressRange) : Type 0 where
  pub nonempty : r.start < r.end
  pub bounded : r.end ≤ max_address_exclusive

unfoldable pub make_range : ℕ → ℕ → Result RegionError AddressRange
make_range start end =
    if ltb start end && leb end max_address_exclusive
    then ok (record { start = start; end = end })
    else raise bad_endpoints

unfoldable pub from_start_size : ℕ → ℕ → Result RegionError AddressRange
unfolding make_range
from_start_size start size = if leb size 0 then raise bad_size else make_range start (start + size)

unfoldable pub size : AddressRange → ℕ
size r = r.end - r.start

unfoldable pub contains_address : AddressRange → ℕ → Bool
contains_address r address = leb r.start address && ltb address r.end

unfoldable pub contains : AddressRange → AddressRange → Bool
contains self other = leb self.start other.start && leb other.end self.end

unfoldable pub overlaps : AddressRange → AddressRange → Bool
overlaps self other = ltb self.start other.end && ltb other.start self.end

unfoldable pub intersection : AddressRange → AddressRange → Option AddressRange
intersection self other =
    let start = max self.start other.start in
    let end = min self.end other.end in
    if ltb start end then some (record { start = start; end = end }) else none

-- The order that `dataclass(order=True)` gives: by start, then by end.
unfoldable pub compare_ranges : AddressRange → AddressRange → Ordering
compare_ranges a b = and_then (compare a.start b.start) (compare a.end b.end)

abbrev pub range_beq : AddressRange → AddressRange → Bool
range_beq a b = eqb a.start b.start && eqb a.end b.end

pub range_beq_iff : (a b : AddressRange) → (range_beq a b ≡ true) ↔ (a ≡ b)
range_beq_iff a b = ground arith

instance abbrev pub range_eq : Eq AddressRange
range_eq = record { beq = range_beq; beq_iff = range_beq_iff }

-- The address lies in the half-open range.
abbrev pub Holds : ℕ → AddressRange → Type 0
Holds a r = (r.start ≤ a) × (a < r.end)
