-- ===== src/Safety/Policy/Erase.antt =====
-- `_erase_sectors` and `_fully_covered` of safety/enforce.py: the sectors that a flash erases.
use byo_firmware_mcp.Prelude.{
  ℕ, zero, suc, ◌+◌, ◌-◌, ◌*◌, ◌/◌, Bool, not, ◌||◌, Option, some, List, [], ◌∷◌, ◌++◌, map, filter,
  any, is_nil, ltb, eqb, if◌then◌else◌,
}
use byo_firmware_mcp.Prelude.Result.{Result, ok, raise, ◌>>=◌}
use byo_firmware_mcp.Prelude.Sorting.{sorted, dedup}
use byo_firmware_mcp.Safety.Ranges.{
  AddressRange, overlaps, from_start_size, compare_ranges, range_eq,
}
use byo_firmware_mcp.Safety.Coverage.{covered_from}
use byo_firmware_mcp.Safety.Geometry.{EraseSector, MapGeometry, GenericMapGeometry}
use byo_firmware_mcp.Safety.Document.{Document, reviewed, generic}
use byo_firmware_mcp.Safety.Policy.Errors.{
  PolicyError, refused, assertion, division_by_zero, unfinished, or_region_error,
}

-- The loop is that of `_covered` in safety/regions.py.
unfoldable pub fully_covered : AddressRange → List AddressRange → Bool
fully_covered requested sectors =
    covered_from requested.start requested.end (sorted compare_ranges sectors)

abbrev pub put_first :
    Result PolicyError AddressRange
    → Result PolicyError (List AddressRange)
    → Result PolicyError (List AddressRange)
put_first first rest = first >>= λ sector. rest >>= λ sectors. ok (sector ∷ sectors)

-- `while cursor < end`, on fuel: the sectors from the cursor on.
unfoldable pub walk : ℕ → ℕ → ℕ → ℕ → Result PolicyError (List AddressRange)
walk zero cursor end size = if ltb cursor end then raise unfinished else ok []
walk (suc fuel) cursor end size =
    let rest = walk fuel (cursor + size) end size in
    if ltb cursor end then put_first (or_region_error (from_start_size cursor size)) rest else ok []

-- The start of the sector that holds the address.
unfoldable pub align : ℕ → ℕ → ℕ → ℕ
align origin size start = origin + (start - origin) / size * size

-- The sectors of one range; the fuel is the distance that the cursor has to go.
unfoldable pub sectors_under : ℕ → ℕ → AddressRange → Result PolicyError (List AddressRange)
sectors_under origin size requested =
    let first = align origin size requested.start in
    if ltb requested.start origin
    then raise (refused "safety/geometry-incomplete")
    else if eqb size 0
    then raise division_by_zero
    else walk (requested.end - first) first requested.end size

unfoldable pub uniform_sectors : ℕ → ℕ → List AddressRange → Result PolicyError (List AddressRange)
uniform_sectors origin size [] = ok []
uniform_sectors origin size (r ∷ rs) =
    let rest = uniform_sectors origin size rs in
    sectors_under origin size r >>= λ xs. rest >>= λ ys. ok (xs ++ ys)

unfoldable pub uniform_erase :
    Option ℕ → Option ℕ → List AddressRange → Result PolicyError (List AddressRange)
uniform_erase (some origin) (some size) ranges =
    uniform_sectors origin size ranges >>= λ sectors. ok (sorted compare_ranges (dedup sectors))
uniform_erase _ _ ranges = raise assertion

unfoldable pub ranges_of_sectors : List EraseSector → List AddressRange
ranges_of_sectors sectors = map (λ s. s.address_range) sectors

unfoldable pub explicit_erase :
    List AddressRange → List AddressRange → Result PolicyError (List AddressRange)
explicit_erase explicit_sectors ranges =
    let required = filter (λ sector. any (overlaps sector) ranges) explicit_sectors in
    if any (λ requested. not (fully_covered requested explicit_sectors)) ranges
    then raise (refused "safety/geometry-incomplete")
    else ok (sorted compare_ranges (dedup required))

unfoldable pub reviewed_erase :
    MapGeometry → List AddressRange → Result PolicyError (List AddressRange)
reviewed_erase geometry ranges =
    if not geometry.erase_available
    then raise (refused "safety/geometry-incomplete")
    else if is_nil geometry.erase_sectors
    then uniform_erase geometry.erase_origin geometry.erase_size ranges
    else explicit_erase (ranges_of_sectors geometry.erase_sectors) ranges

unfoldable pub generic_erase :
    GenericMapGeometry → List AddressRange → Result PolicyError (List AddressRange)
generic_erase geometry ranges =
    if not geometry.erase_available || is_nil geometry.erase_sectors
    then raise (refused "safety/geometry-incomplete")
    else explicit_erase (ranges_of_sectors geometry.erase_sectors) ranges

unfoldable pub erase_sectors : Document → List AddressRange → Result PolicyError (List AddressRange)
erase_sectors (reviewed d) ranges = reviewed_erase d.geometry ranges
erase_sectors (generic d) ranges = generic_erase d.geometry ranges
