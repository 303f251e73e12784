-- ===== src/Safety/Policy.antt =====
-- `SafetyPolicy` of src/pyocd_debug_mcp/safety/enforce.py: the requests that it builds for the map
-- and the checks before a flash. Loading a document, verifying its authority, the digest and the
-- reading of build artifacts (safety/linker.py) are parameters. The texts of errors are left out.
pub mod Errors
pub mod Erase
pub mod Evidence
pub mod Candidate
pub mod Sectors
pub mod Flash
pub mod Allocation
pub mod Examples
use byo_firmware_mcp.Prelude.{
  ℕ, ◌+◌, ◌-◌, ◌/◌, String, Bool, true, false, not, Option, none, some, List, [], ◌∷◌, ◌++◌, any,
  is_nil, leb, ltb, ◌==◌, if◌then◌else◌, string_eq,
}
use byo_firmware_mcp.Prelude.Result.{Result, ok, raise, guard, ◌>>=◌, ◌>>◌}
use byo_firmware_mcp.Safety.Ranges.{AddressRange, RegionError, from_start_size, contains}
use byo_firmware_mcp.Safety.Regions.{
  ActionCategory, memory_read, memory_write, register_write, flash_application, flash_bootloader,
  breakpoint, RegionKind,
}
use byo_firmware_mcp.Safety.Map.{SafetyMap, CheckResult, allowed, refusal, check}
use byo_firmware_mcp.Safety.Geometry.{MapError, MapPartitions}
use byo_firmware_mcp.Safety.Document.{Document, target_of, partitions_of, safety_map}
use byo_firmware_mcp.Safety.Policy.Errors.{PolicyError, refused, region_error, or_region_error}
use byo_firmware_mcp.Safety.Policy.Erase.{erase_sectors}
use byo_firmware_mcp.Safety.Policy.Evidence.{
  BuildRole, application, bootloader, BuildEvidence, Services, content_ranges, executable_ranges,
  extract_runtime_evidence,
}

pub record LoadedSafetyMap : Type 0 where
  pub document : Document
  pub map : SafetyMap

-- The action that flashes a role, and its partition.
abbrev pub flash_action : BuildRole → ActionCategory
flash_action application = flash_application
flash_action bootloader = flash_bootloader

abbrev pub partition_of : BuildRole → MapPartitions → Option AddressRange
partition_of application p = p.application
partition_of bootloader p = p.bootloader

-- An answer of `SafetyMap.check` in a policy: a refusal is raised, with its own code or a given one.
abbrev pub or_refusal : Result RegionError CheckResult → Result PolicyError CheckResult
or_refusal (ok (allowed action ranges kinds)) = ok (allowed action ranges kinds)
or_refusal (ok (refusal action c requested kind)) = raise (refused c)
or_refusal (raise e) = raise (region_error e)

abbrev pub or_code : String → Result RegionError CheckResult → Result PolicyError CheckResult
or_code c (ok (allowed action ranges kinds)) = ok (allowed action ranges kinds)
or_code c (ok (refusal action _ requested kind)) = raise (refused c)
or_code c (raise e) = raise (region_error e)

abbrev pub require_some : {A : Type 0} → Option A → String → Result PolicyError A
require_some none c = raise (refused c)
require_some (some a) c = ok a

unfoldable pub check_one :
    SafetyMap → ActionCategory → AddressRange → String → Result PolicyError CheckResult
check_one m action requested c = or_code c (check m action (requested ∷ []))

-- A loop that checks range after range.
unfoldable pub check_each :
    SafetyMap → ActionCategory → String → List AddressRange → Result PolicyError (Unit {0})
check_each m action c [] = ok tt
check_each m action c (r ∷ rs) =
    let rest = check_each m action c rs in check_one m action r c >>= λ _. rest

unfoldable pub check_stack : SafetyMap → BuildEvidence → Result PolicyError CheckResult
check_stack m evidence = do
  pointer ← require_some evidence.initial_stack_pointer "safety/vector-stack-invalid"
  guard (leb 4 pointer) (refused "safety/vector-stack-invalid")
  word ← or_region_error (from_start_size (pointer - 4) 4)
  check_one m memory_write word "safety/vector-stack-outside-ram"

unfoldable pub check_reset :
    SafetyMap → ActionCategory → BuildEvidence → Result PolicyError CheckResult
check_reset m action evidence = do
  handler ← require_some evidence.reset_handler "safety/vector-reset-invalid"
  code ← or_region_error (from_start_size handler 2)
  check_one m action code "safety/vector-reset-outside-partition"

-- A range of some bytes at an address, where the evidence has the address.
abbrev pub range_at : Option ℕ → ℕ → Result RegionError (List AddressRange)
range_at none size = ok []
range_at (some address) size = from_start_size address size >>= λ r. ok (r ∷ [])

abbrev pub as_list : {A : Type 0} → Option A → List A
as_list none = []
as_list (some a) = a ∷ []

unfoldable pub flash_ranges : BuildEvidence → Result RegionError (List AddressRange)
flash_ranges evidence = do
  entry ← range_at evidence.entry_point 1
  vectors ← range_at evidence.vector_table 8
  ok (content_ranges evidence ++ as_list evidence.flash_partition ++ entry ++ vectors)

-- The checks of the contents and of the sectors to erase.
unfoldable pub check_contents :
    LoadedSafetyMap → ActionCategory → BuildEvidence → Result PolicyError BuildEvidence
check_contents loaded action evidence = do
  guard (not (is_nil (content_ranges evidence))) (refused "safety/flash-content-missing")
  ranges ← or_region_error (flash_ranges evidence)
  check_each loaded.map action "safety/flash-outside-partition" ranges
  sectors ← erase_sectors loaded.document (content_ranges evidence)
  check_each loaded.map action "safety/erase-sector-outside-partition" sectors
  ok evidence

module _ (services : Services) where
  abbrev or_refresh : {A : Type 0} → Result MapError A → Result PolicyError A
  or_refresh (ok a) = ok a
  or_refresh (raise e) = raise (refused "safety/map-refresh-required")

  unfoldable pub with_map : Document → Result PolicyError LoadedSafetyMap
  with_map document = do
    m ← or_region_error (safety_map document)
    ok (record { document = document; map = m })

  unfoldable pub load : String → Result PolicyError LoadedSafetyMap
  load board_id = do
    document ← or_refresh (services.load_current board_id)
    or_refresh (services.verify document)
    with_map document

  unfoldable pub load_or : String → Option Document → Result PolicyError LoadedSafetyMap
  load_or board_id none = load board_id
  load_or board_id (some document) = with_map document

  unfoldable pub current_aggregate : String → Result PolicyError String
  current_aggregate board_id = do loaded ← load board_id; ok (services.digest loaded.document)

  unfoldable pub check_range :
      String → ActionCategory → AddressRange → Result PolicyError CheckResult
  check_range board_id action requested = do
    loaded ← load board_id
    or_refusal (check loaded.map action (requested ∷ []))

  unfoldable pub check_memory_write : String → ℕ → ℕ → Result PolicyError CheckResult
  check_memory_write board_id address width_bits = do
    requested ← or_region_error (from_start_size address (width_bits / 8))
    check_range board_id memory_write requested

  unfoldable pub check_memory_read : String → ℕ → ℕ → Result PolicyError CheckResult
  check_memory_read board_id address size_bytes = do
    requested ← or_region_error (from_start_size address size_bytes)
    loaded ← load board_id
    or_refusal (check loaded.map memory_read (requested ∷ []))

  unfoldable pub check_register_write : String → ℕ → Result PolicyError CheckResult
  check_register_write board_id address = do
    requested ← or_region_error (from_start_size address 4)
    check_range board_id register_write requested

  -- The bootloader partition is tried where the application's refuses.
  abbrev pub or_bootloader :
      SafetyMap → AddressRange → Result RegionError CheckResult → Result PolicyError CheckResult
  or_bootloader m requested (ok (refusal _ _ _ _)) =
      check_one m flash_bootloader requested "safety/breakpoint-outside-partition"
  or_bootloader m requested other = or_refusal other

  abbrev pub classifications : CheckResult → List RegionKind
  classifications (allowed _ _ kinds) = kinds
  classifications (refusal _ _ _ kind) = kind ∷ []

  unfoldable pub check_breakpoint :
      String → ℕ → String → Option Document → Result PolicyError CheckResult
  check_breakpoint board_id address elf_path document = do
    loaded ← load_or board_id document
    requested ← or_region_error (from_start_size address 2)
    partition ←
        or_bootloader loaded.map requested (check loaded.map flash_application (requested ∷ []))
    evidence ← extract_runtime_evidence services application elf_path
    guard (any (λ region. contains region requested) (executable_ranges evidence))
        (refused "safety/not-executable")
    ok (allowed breakpoint (requested ∷ []) (classifications partition))

  unfoldable pub check_flash :
      String → BuildRole → String → String → Option Document → Result PolicyError BuildEvidence
  check_flash board_id role artifact_path current_target document = do
    loaded ← load_or board_id document
    guard (current_target == target_of loaded.document) (refused "safety/target-mismatch")
    require_some (partition_of role (partitions_of loaded.document))
        "safety/partition-authority-unavailable"
    evidence ← extract_runtime_evidence services role (services.resolve artifact_path)
    check_stack loaded.map evidence
    check_reset loaded.map (flash_action role) evidence
    check_contents loaded (flash_action role) evidence
