-- ===== src/Safety/Recovery.antt =====
-- The disclosure of a destructive recovery in safety/regions.py: erase spans and losses.
pub mod Spans
use Prim.Native.Nat.{Ordering, compare}
use Prim.Native.String.{compare as compare_text}
use byo_firmware_mcp.Prelude.{
  ℕ, ◌+◌, ◌-◌, ◌*◌, ◌/◌, ◌%◌, ◌≤◌, ◌<◌, min, max, String, ◌≡◌, refl, Bool, true, false, ◌&&◌, ◌||◌,
  not, Option, none, some, List, [], ◌∷◌, ◌++◌, map, filter, any, is_nil, Eq, ◌==◌, ◌↔◌,
  if◌then◌else◌, eqb, ltb, leb, arith, string_eq, list_eq, list_beq_iff, bool_eq, eq_iff,
}
use byo_firmware_mcp.Prelude.Result.{Result, ok, raise, ◌>>=◌}
use byo_firmware_mcp.Prelude.Sorting.{and_then, sorted, dedup, contains as is_in}
use byo_firmware_mcp.Safety.Ranges.{
  AddressRange, RegionError, unaligned_geometry, sector_error, uncovered_flash, sector_outside,
  no_physical_flash, overlaps, contains, range_eq, make_range,
}
use byo_firmware_mcp.Safety.Coverage.{covered}
use byo_firmware_mcp.Safety.Regions.{
  RegionKind, prohibited, application_flash, bootloader_flash, physical_flash, kind_eq, kind_value,
  SafetyRegion, provenance_eq,
}

pub record RecoveryEraseSpan : Type 0 where
  pub address_range : AddressRange
  pub bank : String
  pub first_sector : ℕ
  pub last_sector : ℕ

pub record RecoveryEraseDisclosure : Type 0 where
  pub spans : List RecoveryEraseSpan
  pub affected_regions : List SafetyRegion
  pub all_nonvolatile_erased : Bool
  pub expected_losses : List String

-- A row of the explicit sectors; `none` where the source cannot read a range from it. The bank is
-- stripped, and "unspecified-bank" where the row has none.
pub record SectorRow : Type 0 where
  pub bounds : Option (ℕ × ℕ)
  pub bank : String

-- The geometry of the flash. `none` for a size or an origin that is missing, no integer, or
-- negative; an explicit list of sectors goes first.
pub record Geometry : Type 0 where
  pub erase_size : Option ℕ
  pub erase_origin : Option ℕ
  pub sectors : Option (List SectorRow)

pub uniform_aligned : AddressRange → ℕ → ℕ → Bool
uniform_aligned requested erase_size origin =
    ltb 0 erase_size
    && leb origin requested.start
    && eqb ((requested.start - origin) % erase_size) 0
    && eqb ((requested.end - origin) % erase_size) 0

unfoldable pub uniform_span :
    AddressRange → Option ℕ → Option ℕ → String → Result RegionError RecoveryEraseSpan
unfolding uniform_aligned
uniform_span requested (some erase_size) (some origin) bank =
    if uniform_aligned requested erase_size origin
    then ok (record {
      address_range = requested;
      bank = bank;
      first_sector = (requested.start - origin) / erase_size;
      last_sector = (requested.end - origin) / erase_size - 1;
    })
    else raise unaligned_geometry
uniform_span requested _ _ bank = raise unaligned_geometry

-- A sector with its place in the list.
pub record Sector : Type 0 where
  pub index : ℕ
  pub span : AddressRange
  pub bank : String

unfoldable pub read_sectors : ℕ → List SectorRow → Result RegionError (List Sector)
read_sectors index [] = ok []
read_sectors index (row ∷ rows) =
    let rest = read_sectors (index + 1) rows in
    elim row.bounds [
      | none ↦ raise sector_error
      | some (start, end) ↦ elim (make_range start end) [
        | raise e ↦ raise sector_error
        | ok span ↦ rest >>= λ sectors.
            ok (record { index = index; span = span; bank = row.bank } ∷ sectors)
      ]
    ]

pub least : ℕ → List Sector → ℕ
least n [] = n
least n (s ∷ ss) = min s.index (least n ss)

pub greatest : List Sector → ℕ
greatest [] = 0
greatest (s ∷ ss) = max s.index (greatest ss)

abbrev pub join : List String → String
join [] = ""
join (b ∷ []) = b
join (b ∷ bs) = Prim.Native.String.◌++◌ b (Prim.Native.String.◌++◌ ", " (join bs))

unfoldable pub explicit_span : AddressRange → List SectorRow → Result RegionError RecoveryEraseSpan
explicit_span requested rows = do
  sectors ← read_sectors 0 rows
  let covering = filter (λ s. overlaps s.span requested) sectors
  if is_nil covering || not (covered requested (map (λ s. s.span) covering))
      then raise uncovered_flash
      else if any (λ s. not (contains requested s.span)) covering
      then raise sector_outside
      else ok (record {
        address_range = requested;
        bank = join (sorted compare_text (dedup (map (λ s. s.bank) covering)));
        first_sector = least (greatest covering) covering;
        last_sector = greatest covering;
      })

abbrev pub region_beq : SafetyRegion → SafetyRegion → Bool
region_beq a b =
    a.name == b.name
    && a.kind == b.kind
    && a.address_range == b.address_range
    && a.provenance == b.provenance
    && a.executable == b.executable

pub region_beq_iff : (a b : SafetyRegion) → (region_beq a b ≡ true) ↔ (a ≡ b)
region_beq_iff a b = ground (
  arith,
  eq_iff a.name b.name,
  kind_eq.beq_iff a.kind b.kind,
  range_eq.beq_iff a.address_range b.address_range,
  list_beq_iff a.provenance b.provenance,
  bool_eq.beq_iff a.executable b.executable,
)

instance abbrev pub region_eq : Eq SafetyRegion
region_eq = record { beq = region_beq; beq_iff = region_beq_iff }

abbrev pub nonvolatile_kinds : List RegionKind
nonvolatile_kinds = physical_flash ∷ application_flash ∷ bootloader_flash ∷ prohibited ∷ []

unfoldable pub is_affected : List SafetyRegion → SafetyRegion → Bool
is_affected flash region =
    is_in region.kind nonvolatile_kinds
    && (region.kind == prohibited || any (λ f. overlaps f.address_range region.address_range) flash)

unfoldable pub compare_affected : SafetyRegion → SafetyRegion → Ordering
compare_affected a b = and_then (compare a.address_range.start b.address_range.start) (
    and_then (compare a.address_range.end b.address_range.end) (
      and_then (compare_text (kind_value a.kind) (kind_value b.kind)) (compare_text a.name b.name)))

unfoldable pub physical_flash_of : List SafetyRegion → List SafetyRegion
physical_flash_of regions = filter (λ region. region.kind == physical_flash) regions

unfoldable pub span_of : Geometry → SafetyRegion → Result RegionError RecoveryEraseSpan
span_of geometry region = elim geometry.sectors [
  | some rows ↦ explicit_span region.address_range rows
  | none ↦ uniform_span region.address_range geometry.erase_size geometry.erase_origin region.name
]

unfoldable pub spans_of : Geometry → List SafetyRegion → Result RegionError (List RecoveryEraseSpan)
spans_of geometry [] = ok []
spans_of geometry (region ∷ regions) =
    let rest = spans_of geometry regions in
    span_of geometry region >>= λ span. rest >>= λ spans. ok (span ∷ spans)

unfoldable pub affected_of : List SafetyRegion → List SafetyRegion
affected_of mapped =
    sorted compare_affected (dedup (filter (is_affected (physical_flash_of mapped)) mapped))

pub has_kind : RegionKind → List SafetyRegion → Bool
has_kind kind affected = any (λ region. region.kind == kind) affected

unfoldable pub losses_of : List SafetyRegion → Bool → List String
unfolding has_kind
losses_of affected mass_erase =
    "all user data in addressable nonvolatile memory"
    ∷ ((if mass_erase || has_kind application_flash affected
          then "application firmware" ∷ []
          else [])
        ++ ((if mass_erase || has_kind bootloader_flash affected
              then "user bootloader firmware" ∷ []
              else [])
            ++ (if mass_erase || has_kind prohibited affected
                then "nonvolatile configuration, protection, provisioning, and user settings" ∷ []
                else [])))

unfoldable pub build_recovery_erase_disclosure :
    List SafetyRegion → Geometry → Bool → Result RegionError RecoveryEraseDisclosure
build_recovery_erase_disclosure mapped geometry mass_erase =
    if is_nil (physical_flash_of mapped)
    then raise no_physical_flash
    else spans_of geometry (physical_flash_of mapped) >>= λ spans. ok (record {
      spans = spans;
      affected_regions = affected_of mapped;
      all_nonvolatile_erased = mass_erase;
      expected_losses = losses_of (affected_of mapped) mass_erase;
    })
