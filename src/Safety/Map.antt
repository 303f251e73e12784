-- ===== src/Safety/Map.antt =====
-- `SafetyMap` of safety/regions.py: classification of a range and the check of an action.
pub mod Contained
pub mod Check
pub mod Classify
use Prim.Native.Nat.{Ordering, compare}
use Prim.Native.String.{compare as compare_text}
use byo_firmware_mcp.Prelude.{
  ℕ, suc, max, String, Bool, true, false, ◌&&◌, not, Option, none, some, List, [], ◌∷◌, ◌++◌, map,
  filter, any, is_nil, ◌==◌, if◌then◌else◌, eqb,
}
use byo_firmware_mcp.Prelude.Result.{Result, ok, raise}
use byo_firmware_mcp.Prelude.Sorting.{and_then, sorted, dedup, contains}
use byo_firmware_mcp.Safety.Ranges.{
  AddressRange, RegionError, empty_map, no_ranges, overlaps, compare_ranges, range_eq,
}
use byo_firmware_mcp.Safety.Coverage.{covered}
use byo_firmware_mcp.Safety.Regions.{
  RegionKind, unknown, prohibited, application_flash, bootloader_flash, ram, peripheral,
  peripheral_read_only, peripheral_write_only, cpu_system, rom_bootloader, physical_flash,
  physical_ram, rom, region_kinds, kind_eq, kind_value, ActionCategory, memory_read, breakpoint,
  action_eq, specificity, allowed_kinds, SafetyRegion, compare_provenances,
}

pub record SafetyMap : Type 0 where
  pub regions : List SafetyRegion

unfoldable pub compare_bools : Bool → Bool → Ordering
compare_bools false true = Ordering.lt
compare_bools true false = Ordering.gt
compare_bools _ _ = Ordering.eq

-- The key of the sort in `SafetyMap.__init__`.
unfoldable pub compare_regions : SafetyRegion → SafetyRegion → Ordering
compare_regions a b = and_then (compare a.address_range.start b.address_range.start) (
    and_then (compare a.address_range.end b.address_range.end) (
      and_then (compare_text (kind_value a.kind) (kind_value b.kind)) (
        and_then (compare_text a.name b.name) (
          and_then (compare_bools a.executable b.executable)
            (compare_provenances a.provenance b.provenance)))))

unfoldable pub make_map : List SafetyRegion → Result RegionError SafetyMap
make_map regions =
    if is_nil regions
    then raise empty_map
    else ok (record { regions = sorted compare_regions regions })

-- The kinds that `classify` looks for coverage by.
abbrev pub mapped_kinds : List RegionKind
mapped_kinds =
    application_flash ∷ bootloader_flash ∷ ram ∷ peripheral ∷ peripheral_read_only
    ∷ peripheral_write_only ∷ cpu_system ∷ rom_bootloader ∷ physical_flash ∷ physical_ram ∷ rom ∷ []

unfoldable pub overlapping : SafetyMap → AddressRange → List SafetyRegion
overlapping m requested = filter (λ region. overlaps region.address_range requested) m.regions

unfoldable pub ranges_of : RegionKind → List SafetyRegion → List AddressRange
ranges_of kind regions =
    map (λ region. region.address_range) (filter (λ region. region.kind == kind) regions)

unfoldable pub covers_by : SafetyMap → AddressRange → RegionKind → Bool
covers_by m requested kind = covered requested (ranges_of kind (overlapping m requested))

-- `max(...)` of the specificities.
unfoldable pub highest : List RegionKind → ℕ
highest [] = 0
highest (k ∷ ks) = max (specificity k) (highest ks)

abbrev pub only : List RegionKind → RegionKind
only (kind ∷ []) = kind
only _ = unknown

-- The one most specific kind among those that cover.
unfoldable pub most_specific : List RegionKind → RegionKind
most_specific covering_kinds =
    only (filter (λ kind. eqb (specificity kind) (highest covering_kinds)) covering_kinds)

unfoldable pub touches_prohibited : SafetyMap → AddressRange → Bool
touches_prohibited m requested = any (λ region. region.kind == prohibited) (overlapping m requested)

unfoldable pub classify : SafetyMap → AddressRange → RegionKind
classify m requested =
    if touches_prohibited m requested
    then prohibited
    else let covering_kinds = filter (covers_by m requested) mapped_kinds in
      if is_nil covering_kinds then unknown else most_specific covering_kinds

unfoldable pub executable_contains : SafetyMap → AddressRange → Bool
executable_contains m requested = covered requested (
    map (λ region. region.address_range)
      (filter (λ region. region.executable && not (region.kind == prohibited)) m.regions))

-- `Allowed` and `Refusal`; the fixed texts of a refusal follow from its code.
pub data CheckResult : Type 0 where
  allowed : ActionCategory → List AddressRange → List RegionKind → CheckResult
  refusal : ActionCategory → String → AddressRange → RegionKind → CheckResult

-- The tests that the loop of `check` makes on one range, in their order.
unfoldable pub refusal_code : ActionCategory → RegionKind → Bool → Option String
refusal_code action classification executable =
    if classification == prohibited && not (action == memory_read)
    then some "safety/prohibited"
    else if classification == unknown
    then some "safety/unknown"
    else if not (contains classification (allowed_kinds action))
    then some "safety/wrong-region-kind"
    else if action == breakpoint && not executable
    then some "safety/not-executable"
    else none

unfoldable pub judge : SafetyMap → ActionCategory → AddressRange → Option String
judge m action requested =
    refusal_code action (classify m requested) (executable_contains m requested)

-- The loop: the first range that fails ends it.
unfoldable pub check_from : SafetyMap → ActionCategory → List AddressRange → Option CheckResult
check_from m action [] = none
check_from m action (requested ∷ rest) = elim (judge m action requested) [
  | none ↦ check_from m action rest
  | some code ↦ some (refusal action code requested (classify m requested))
]

unfoldable pub requested_ranges : List AddressRange → List AddressRange
requested_ranges ranges = sorted compare_ranges (dedup ranges)

unfoldable pub check :
    SafetyMap → ActionCategory → List AddressRange → Result RegionError CheckResult
check m action ranges =
    let requested = requested_ranges ranges in
    if is_nil requested then raise no_ranges else elim (check_from m action requested) [
      | none ↦ ok (allowed action requested (map (classify m) requested))
      | some refused ↦ ok refused
    ]

abbrev pub partition_kinds : List RegionKind
partition_kinds = application_flash ∷ bootloader_flash ∷ ram ∷ []

-- The pairs of one partition with the prohibited regions that it meets.
unfoldable pub conflicts_of : SafetyRegion → List SafetyRegion → List (SafetyRegion × SafetyRegion)
conflicts_of partition blocked =
    map (λ b. (partition, b))
      (filter (λ b. overlaps partition.address_range b.address_range) blocked)

unfoldable pub flat_conflicts :
    List SafetyRegion → List SafetyRegion → List (SafetyRegion × SafetyRegion)
flat_conflicts [] blocked = []
flat_conflicts (p ∷ ps) blocked = conflicts_of p blocked ++ flat_conflicts ps blocked

unfoldable pub partition_prohibited_conflicts : SafetyMap → List (SafetyRegion × SafetyRegion)
partition_prohibited_conflicts m =
    flat_conflicts (filter (λ region. contains region.kind partition_kinds) m.regions)
      (filter (λ region. region.kind == prohibited) m.regions)
