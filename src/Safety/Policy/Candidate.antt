-- ===== src/Safety/Policy/Candidate.antt =====
-- `check_generic_application_candidate` of safety/enforce.py: the allocation of erase sectors that an
-- artifact defines on a generic map.
use byo_firmware_mcp.Prelude.{
  ℕ, zero, suc, ◌+◌, ◌-◌, min, max, String, Bool, not, Option, none, some, List, [], ◌∷◌, ◌++◌, any,
  is_nil, eqb, ◌==◌, ◌||◌, if◌then◌else◌, string_eq,
}
use byo_firmware_mcp.Prelude.Result.{Result, ok, raise, guard, ◌>>=◌, ◌>>◌}
use byo_firmware_mcp.Safety.Ranges.{AddressRange, from_start_size, range_eq}
use byo_firmware_mcp.Safety.Geometry.{contains_flash, any_adjacent}
use byo_firmware_mcp.Safety.Document.{Document, reviewed, generic, GenericSafetyMapDocument}
use byo_firmware_mcp.Safety.Policy.Errors.{PolicyError, refused, assertion, or_region_error}
use byo_firmware_mcp.Safety.Policy.Erase.{erase_sectors, ranges_of_sectors, fully_covered}
use byo_firmware_mcp.Safety.Policy.Evidence.{
  BuildEvidence, Services, application, content_ranges, extract_runtime_evidence,
}
use byo_firmware_mcp.Safety.Policy.{require_some, check_stack, range_at, load_or}

abbrev pub as_generic : Document → Result PolicyError GenericSafetyMapDocument
as_generic (reviewed d) = raise (refused "safety/partition-authority-unavailable")
as_generic (generic d) = ok d

-- `tuple.index`
unfoldable pub index_of : AddressRange → List AddressRange → Option ℕ
index_of r [] = none
index_of r (x ∷ xs) =
    let rest = index_of r xs in
    if r == x then some 0 else elim rest [ none ↦ none | some i ↦ some (suc i) ]

-- The least and the greatest index of the sectors; `none` where Python raises `ValueError`.
unfoldable pub index_span : List AddressRange → List AddressRange → Option (ℕ × ℕ)
index_span all_sectors [] = none
index_span all_sectors (r ∷ []) = elim (index_of r all_sectors) [
  | none ↦ none
  | some i ↦ some (i, i)
]
index_span all_sectors (r ∷ s ∷ rest) =
    let others = index_span all_sectors (s ∷ rest) in
    elim (index_of r all_sectors) [
      | none ↦ none
      | some i ↦ elim others [ none ↦ none | some (a, b) ↦ some (min i a, max i b) ]
    ]

unfoldable pub drop : ℕ → List AddressRange → List AddressRange
drop zero xs = xs
drop (suc n) [] = []
drop (suc n) (x ∷ xs) = drop n xs

unfoldable pub take : ℕ → List AddressRange → List AddressRange
take zero xs = []
take (suc n) [] = []
take (suc n) (x ∷ xs) = x ∷ take n xs

-- `all_sectors[first : last + 1]`
unfoldable pub slice : ℕ × ℕ → List AddressRange → List AddressRange
slice (first, last) all_sectors = take (last + 1 - first) (drop first all_sectors)

unfoldable pub apart : AddressRange → AddressRange → Bool
apart left right = not (eqb left.end right.start)

-- The contents, the entry and the vectors, and the reset handler, which must be known.
unfoldable pub examined_ranges : BuildEvidence → Result PolicyError (List AddressRange)
examined_ranges evidence = do
  entry ← or_region_error (range_at evidence.entry_point 1)
  vectors ← or_region_error (range_at evidence.vector_table 8)
  handler ← require_some evidence.reset_handler "safety/vector-reset-invalid"
  reset ← or_region_error (from_start_size handler 2)
  ok (content_ranges evidence ++ entry ++ vectors ++ reset ∷ [])

-- The tests on the allocation.
unfoldable pub confirm :
    BuildEvidence
    → List AddressRange
    → List AddressRange
    → Result PolicyError (BuildEvidence × List AddressRange)
confirm evidence examined allocation = do
  guard (not (any_adjacent apart allocation))
      (refused "safety/noncontiguous-application-allocation")
  guard (not (any (λ item. not (fully_covered item allocation)) examined))
      (refused "safety/execution-outside-application-allocation")
  ok (evidence, allocation)

abbrev pub require_span : Option (ℕ × ℕ) → Result PolicyError (ℕ × ℕ)
require_span none = raise assertion
require_span (some bounds) = ok bounds

unfoldable pub allocate :
    GenericSafetyMapDocument
    → BuildEvidence
    → List AddressRange
    → Result PolicyError (BuildEvidence × List AddressRange)
allocate d evidence examined = do
  touched ← erase_sectors (generic d) (content_ranges evidence)
  bounds ← require_span (index_span (ranges_of_sectors d.geometry.erase_sectors) touched)
  confirm evidence examined (slice bounds (ranges_of_sectors d.geometry.erase_sectors))

module _ (services : Services) where
  unfoldable pub check_generic_application_candidate :
      String
      → String
      → String
      → Option Document
      → Result PolicyError (BuildEvidence × List AddressRange)
  check_generic_application_candidate board_id artifact_path current_target document = do
    loaded ← load_or services board_id document
    active ← as_generic loaded.document
    guard (services.casefold current_target == services.casefold active.generic_target)
        (refused "safety/target-mismatch")
    guard (not (not active.geometry.erase_available || is_nil active.geometry.erase_sectors))
        (refused "safety/geometry-incomplete")
    evidence ← extract_runtime_evidence services application artifact_path
    check_stack loaded.map evidence
    guard (not (is_nil (content_ranges evidence))) (refused "safety/flash-content-missing")
    examined ← examined_ranges evidence
    guard (not (any (λ item. not (contains_flash active.geometry item)) examined))
        (refused "safety/flash-outside-physical-device")
    allocate active evidence examined
