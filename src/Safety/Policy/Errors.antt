-- ===== src/Safety/Policy/Errors.antt =====
-- What the checks of safety/enforce.py raise: `SafetyPolicyError` by its code, or an error that they
-- let through.
use byo_firmware_mcp.Prelude.{String}
use byo_firmware_mcp.Prelude.Result.{Result, ok, raise}
use byo_firmware_mcp.Safety.Ranges.{RegionError}

-- `unfinished` is the end of the fuel of a loop, which the source has no error for.
pub data PolicyError : Type 0 where
  refused : String → PolicyError
  region_error : RegionError → PolicyError
  assertion division_by_zero unfinished : PolicyError

abbrev pub or_region_error : {A : Type 0} → Result RegionError A → Result PolicyError A
or_region_error (ok a) = ok a
or_region_error (raise e) = raise (region_error e)
