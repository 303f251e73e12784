-- ===== src/Safety/Policy/Evidence.antt =====
-- The evidence of a build that safety/linker.py extracts, as far as safety/enforce.py reads it, and
-- the choice of the files to read. Files and the extraction itself are parameters.
use byo_firmware_mcp.Prelude.{
  ℕ, String, Bool, Option, none, some, List, [], ◌∷◌, ◌++◌, map, filter, ◌==◌, string_eq, ◌||◌,
  if◌then◌else◌,
}
use byo_firmware_mcp.Prelude.Result.{Result, ok, raise}
use byo_firmware_mcp.Safety.Ranges.{AddressRange}
use byo_firmware_mcp.Safety.Geometry.{MapError}
use byo_firmware_mcp.Safety.Document.{Document}
use byo_firmware_mcp.Safety.Policy.Errors.{PolicyError, refused}

pub data BuildRole : Type 0 where
  application bootloader : BuildRole

pub record LoadableSegment : Type 0 where
  pub load_range : Option AddressRange
  pub runtime_range : AddressRange
  pub executable : Bool

pub record BuildEvidence : Type 0 where
  pub flash_partition : Option AddressRange
  pub loadable_segments : List LoadableSegment
  pub hex_ranges : List AddressRange
  pub entry_point : Option ℕ
  pub vector_table : Option ℕ
  pub initial_stack_pointer : Option ℕ
  pub reset_handler : Option ℕ

-- What the checks call: the repository of maps and the verifier of their authority, with the
-- errors that the source catches, the digest, `str.casefold`, the paths, and the extraction, which
-- raises an error with a code.
pub record Services : Type 0 where
  pub load_current : String → Result MapError Document
  pub verify : Document → Result MapError (Unit {0})
  pub digest : Document → String
  pub casefold : String → String
  pub resolve : String → String
  pub suffix : String → String
  pub with_suffix : String → String → String
  pub is_file : String → Bool
  pub extract : BuildRole → String → Option String → Result String BuildEvidence

unfoldable pub collect_some : {A : Type 0} → List (Option A) → List A
collect_some [] = []
collect_some (none ∷ rest) = collect_some rest
collect_some (some a ∷ rest) = a ∷ collect_some rest

-- The load ranges of the segments that have one, then those of the HEX file.
unfoldable pub content_ranges : BuildEvidence → List AddressRange
content_ranges e = collect_some (map (λ s. s.load_range) e.loadable_segments) ++ e.hex_ranges

unfoldable pub executable_ranges : BuildEvidence → List AddressRange
executable_ranges e = map (λ s. s.runtime_range) (filter (λ s. s.executable) e.loadable_segments)

module _ (services : Services) where
  abbrev extracted : Result String BuildEvidence → Result PolicyError BuildEvidence
  extracted (ok evidence) = ok evidence
  extracted (raise c) = raise (refused c)

  unfoldable pub companions : String → List String
  companions artifact =
      filter (λ path. services.is_file path)
        (services.with_suffix artifact ".elf" ∷ services.with_suffix artifact ".axf" ∷ [])

  abbrev with_companion : BuildRole → String → List String → Result PolicyError BuildEvidence
  with_companion role artifact (elf ∷ []) = extracted (services.extract role elf (some artifact))
  with_companion role artifact _ = raise (refused "safety/hex-elf-companion-required")

  -- `_extract_runtime_evidence`
  unfoldable pub extract_runtime_evidence : BuildRole → String → Result PolicyError BuildEvidence
  extract_runtime_evidence role artifact =
      let kind = services.casefold (services.suffix artifact) in
      if kind == ".elf" || kind == ".axf"
      then extracted (services.extract role artifact none)
      else if kind == ".hex"
      then with_companion role artifact (companions artifact)
      else raise (refused "safety/flash-artifact-type")
