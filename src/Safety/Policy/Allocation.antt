-- ===== src/Safety/Policy/Allocation.antt =====
-- What `check_generic_application_candidate` of safety/enforce.py allocates.
use byo_firmware_mcp.Prelude.{ℕ, string_eq, ◌≡◌, List, [], ◌∷◌, Any, Member}
use byo_firmware_mcp.Safety.Ranges.{AddressRange, Holds, range_eq}
use byo_firmware_mcp.Safety.Document.{Document, GenericSafetyMapDocument}
use byo_firmware_mcp.Safety.Policy.Erase.{erase_sectors, ranges_of_sectors}

-- Each range ends where the next starts.
abbrev pub Contiguous : List AddressRange → Type 0
Contiguous [] = Unit
Contiguous (x ∷ []) = Unit
Contiguous (x ∷ y ∷ rest) = (x.end ≡ y.start) × Contiguous (y ∷ rest)

-- Each address of each of the ranges is in the allocation, which is a contiguous run of the erase
-- sectors.
abbrev pub IsAllocation : GenericSafetyMapDocument → List AddressRange → List AddressRange → Type 0
IsAllocation d examined allocation =
    Contiguous allocation
    × ((r : AddressRange)
        → Member r allocation
        → Member r (ranges_of_sectors d.geometry.erase_sectors))
    × ((r : AddressRange) → Member r examined → (a : ℕ) → Holds a r → Any (Holds a) allocation)
