-- ===== src/Safety/Regions.antt =====
-- Regions, actions and the tables of safety/regions.py.
use Prim.Native.Nat.{Ordering}
use Prim.Native.String.{compare as compare_text}
use byo_firmware_mcp.Prelude.{
  ℕ, zero, suc, String, ◌≡◌, refl, Bool, true, ◌&&◌, not, List, [], ◌∷◌, is_nil, ◌||◌, eq_iff, Eq,
  ◌==◌, string_eq, pair_eq, enum_eq, if◌then◌else◌, ◌↔◌, arith,
}
use byo_firmware_mcp.Prelude.Result.{Result, ok, raise}
use byo_firmware_mcp.Prelude.Sorting.{and_then, sorted, dedup, contains}
use byo_firmware_mcp.Prelude.Text.{is_blank}
use byo_firmware_mcp.Safety.Ranges.{
  AddressRange, RegionError, empty_provenance, empty_name, unknown_kind, no_provenance,
  bad_executable,
}

pub data RegionKind : Type 0 where
  unknown prohibited application_flash bootloader_flash ram peripheral peripheral_read_only :
      RegionKind
  peripheral_write_only cpu_system rom_bootloader physical_flash physical_ram rom : RegionKind

-- `for kind in RegionKind`: the members in the order of their declaration.
abbrev pub region_kinds : List RegionKind
region_kinds =
    unknown ∷ prohibited ∷ application_flash ∷ bootloader_flash ∷ ram ∷ peripheral
    ∷ peripheral_read_only ∷ peripheral_write_only ∷ cpu_system ∷ rom_bootloader ∷ physical_flash
    ∷ physical_ram ∷ rom ∷ []

pub data ActionCategory : Type 0 where
  memory_read memory_write register_write flash_application flash_bootloader breakpoint :
      ActionCategory

pub data SourceAuthority : Type 0 where
  build device_support official_document reconciled derived : SourceAuthority

abbrev pub kind_ordinal : RegionKind → ℕ
kind_ordinal unknown = 0
kind_ordinal prohibited = 1
kind_ordinal application_flash = 2
kind_ordinal bootloader_flash = 3
kind_ordinal ram = 4
kind_ordinal peripheral = 5
kind_ordinal peripheral_read_only = 6
kind_ordinal peripheral_write_only = 7
kind_ordinal cpu_system = 8
kind_ordinal rom_bootloader = 9
kind_ordinal physical_flash = 10
kind_ordinal physical_ram = 11
kind_ordinal rom = 12

abbrev kind_member : ℕ → RegionKind
kind_member zero = unknown
kind_member (suc zero) = prohibited
kind_member (suc (suc zero)) = application_flash
kind_member (suc (suc (suc zero))) = bootloader_flash
kind_member (suc (suc (suc (suc zero)))) = ram
kind_member (suc (suc (suc (suc (suc zero))))) = peripheral
kind_member (suc (suc (suc (suc (suc (suc zero)))))) = peripheral_read_only
kind_member (suc (suc (suc (suc (suc (suc (suc zero))))))) = peripheral_write_only
kind_member (suc (suc (suc (suc (suc (suc (suc (suc zero)))))))) = cpu_system
kind_member (suc (suc (suc (suc (suc (suc (suc (suc (suc zero))))))))) = rom_bootloader
kind_member (suc (suc (suc (suc (suc (suc (suc (suc (suc (suc zero)))))))))) = physical_flash
kind_member (suc (suc (suc (suc (suc (suc (suc (suc (suc (suc (suc zero))))))))))) = physical_ram
kind_member _ = rom

pub kind_inverse : (k : RegionKind) → kind_member (kind_ordinal k) ≡ k
kind_inverse unknown = refl
kind_inverse _ = refl

instance abbrev pub kind_eq : Eq RegionKind
kind_eq = enum_eq kind_ordinal kind_member kind_inverse

abbrev pub action_ordinal : ActionCategory → ℕ
action_ordinal memory_read = 0
action_ordinal memory_write = 1
action_ordinal register_write = 2
action_ordinal flash_application = 3
action_ordinal flash_bootloader = 4
action_ordinal breakpoint = 5

abbrev action_member : ℕ → ActionCategory
action_member zero = memory_read
action_member (suc zero) = memory_write
action_member (suc (suc zero)) = register_write
action_member (suc (suc (suc zero))) = flash_application
action_member (suc (suc (suc (suc zero)))) = flash_bootloader
action_member _ = breakpoint

pub action_inverse : (k : ActionCategory) → action_member (action_ordinal k) ≡ k
action_inverse memory_read = refl
action_inverse _ = refl

instance abbrev pub action_eq : Eq ActionCategory
action_eq = enum_eq action_ordinal action_member action_inverse

abbrev pub authority_ordinal : SourceAuthority → ℕ
authority_ordinal build = 0
authority_ordinal device_support = 1
authority_ordinal official_document = 2
authority_ordinal reconciled = 3
authority_ordinal derived = 4

abbrev authority_member : ℕ → SourceAuthority
authority_member zero = build
authority_member (suc zero) = device_support
authority_member (suc (suc zero)) = official_document
authority_member (suc (suc (suc zero))) = reconciled
authority_member _ = derived

pub authority_inverse : (k : SourceAuthority) → authority_member (authority_ordinal k) ≡ k
authority_inverse build = refl
authority_inverse _ = refl

instance abbrev pub authority_eq : Eq SourceAuthority
authority_eq = enum_eq authority_ordinal authority_member authority_inverse

-- The strings of the enumerations, which the sorts compare.
abbrev pub kind_value : RegionKind → String
kind_value unknown = "unknown"
kind_value prohibited = "prohibited"
kind_value application_flash = "application_flash"
kind_value bootloader_flash = "bootloader_flash"
kind_value ram = "ram"
kind_value peripheral = "peripheral"
kind_value peripheral_read_only = "peripheral_read_only"
kind_value peripheral_write_only = "peripheral_write_only"
kind_value cpu_system = "cpu_system"
kind_value rom_bootloader = "rom_bootloader"
kind_value physical_flash = "physical_flash"
kind_value physical_ram = "physical_ram"
kind_value rom = "rom"

abbrev pub authority_value : SourceAuthority → String
authority_value build = "build"
authority_value device_support = "device_support"
authority_value official_document = "official_document"
authority_value reconciled = "reconciled"
authority_value derived = "derived"

-- `_SPECIFICITY`
abbrev pub specificity : RegionKind → ℕ
specificity unknown = 0
specificity prohibited = 100
specificity application_flash = 50
specificity bootloader_flash = 50
specificity ram = 50
specificity peripheral = 50
specificity peripheral_read_only = 50
specificity peripheral_write_only = 50
specificity cpu_system = 50
specificity rom_bootloader = 50
specificity physical_flash = 10
specificity physical_ram = 10
specificity rom = 10

-- `_ALLOWED_KINDS`
abbrev pub allowed_kinds : ActionCategory → List RegionKind
allowed_kinds memory_read =
    prohibited ∷ application_flash ∷ bootloader_flash ∷ ram ∷ peripheral ∷ peripheral_read_only
    ∷ cpu_system ∷ rom_bootloader ∷ physical_flash ∷ physical_ram ∷ rom ∷ []
allowed_kinds memory_write = ram ∷ []
allowed_kinds register_write = peripheral ∷ peripheral_write_only ∷ []
allowed_kinds flash_application = application_flash ∷ []
allowed_kinds flash_bootloader = bootloader_flash ∷ []
allowed_kinds breakpoint = application_flash ∷ bootloader_flash ∷ rom ∷ []

pub record Provenance : Type 0 where
  pub authority : SourceAuthority
  pub source_id : String
  pub detail : String

unfoldable pub make_provenance : SourceAuthority → String → String → Result RegionError Provenance
make_provenance authority source_id detail =
    if is_blank source_id || is_blank detail
    then raise empty_provenance
    else ok (record { authority = authority; source_id = source_id; detail = detail })

abbrev pub provenance_beq : Provenance → Provenance → Bool
provenance_beq a b =
    a.authority == b.authority && a.source_id == b.source_id && a.detail == b.detail

pub provenance_beq_iff : (a b : Provenance) → (provenance_beq a b ≡ true) ↔ (a ≡ b)
provenance_beq_iff a b = ground (
  arith,
  authority_eq.beq_iff a.authority b.authority,
  eq_iff a.source_id b.source_id,
  eq_iff a.detail b.detail,
)

instance abbrev pub provenance_eq : Eq Provenance
provenance_eq = record { beq = provenance_beq; beq_iff = provenance_beq_iff }

unfoldable pub compare_provenance : Provenance → Provenance → Ordering
compare_provenance a b =
    and_then (compare_text (authority_value a.authority) (authority_value b.authority))
      (and_then (compare_text a.source_id b.source_id) (compare_text a.detail b.detail))

-- Tuples compare entry by entry, and a prefix comes first.
unfoldable pub compare_provenances : List Provenance → List Provenance → Ordering
unfolding compare_provenance
compare_provenances [] [] = Ordering.eq
compare_provenances [] (q ∷ qs) = Ordering.lt
compare_provenances (p ∷ ps) [] = Ordering.gt
compare_provenances (p ∷ ps) (q ∷ qs) =
    and_then (compare_provenance p q) (compare_provenances ps qs)

pub record SafetyRegion : Type 0 where
  pub name : String
  pub kind : RegionKind
  pub address_range : AddressRange
  pub provenance : List Provenance
  pub executable : Bool

abbrev pub executable_kinds : List RegionKind
executable_kinds = application_flash ∷ bootloader_flash ∷ rom ∷ []

-- The constructor with its `__post_init__`.
unfoldable pub make_region :
    String → RegionKind → AddressRange → List Provenance → Bool → Result RegionError SafetyRegion
make_region name kind address_range provenance executable =
    if is_blank name
    then raise empty_name
    else if kind == unknown
    then raise unknown_kind
    else if is_nil provenance
    then raise no_provenance
    else if executable && not (contains kind executable_kinds)
    then raise bad_executable
    else ok (record {
      name = name;
      kind = kind;
      address_range = address_range;
      provenance = sorted compare_provenance (dedup provenance);
      executable = executable;
    })
