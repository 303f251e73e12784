-- ===== src/Kernel/Registry/Examples.antt =====
-- A registry of two tools, on which the statements about kernel/registry.py are exercised.
use byo_firmware_mcp.Prelude.{
  ◌≡◌, refl, true, false, none, some, List, [], ◌∷◌, eq_iff, true-ne-false, string_eq,
}
use byo_firmware_mcp.Prelude.Result.{ok}
use byo_firmware_mcp.Prelude.Dict.{get, put}
use byo_firmware_mcp.Prelude.Sorting.{contains}
use byo_firmware_mcp.Kernel.Registry.{
  ToolDefinition, ToolRegistry, new_registry, prerequisite_of, register, unlock, relock, reset,
  bump_if, boards_of, is_advertised, add, is_unlocked,
}
use byo_firmware_mcp.Kernel.Registry.Consistent.{
  IsConsistent, Call, register_call, unlock_call, apply, run, run-IsConsistent,
}
use byo_firmware_mcp.Kernel.Registry.Locks.{unlock_exact, relock_exact}
use byo_firmware_mcp.Kernel.Registry.Revision.{Tracked, locks-Tracked}

abbrev calls : List Call
calls =
    register_call "flash" true true none
    ∷ register_call "status" false false none
    ∷ unlock_call "flash" "board-1"
    ∷ []

abbrev flash : ToolDefinition
flash = record {
  name = "flash";
  hidden_by_default = true;
  locked_by_default = true;
  prerequisite = some "flash-plan";
}

abbrev status : ToolDefinition
status = record {
  name = "status";
  hidden_by_default = false;
  locked_by_default = false;
  prerequisite = none;
}

-- What these calls lead to.
abbrev tools : ToolRegistry
tools = record {
  definitions = ("flash", flash) ∷ ("status", status) ∷ [];
  unlocked_boards = ("flash", "board-1" ∷ []) ∷ ("status", []) ∷ [];
  list_revision = 2;
}

calls_lead : run new_registry calls ≡ tools
unfolding run apply register prerequisite_of unlock bump_if boards_of is_advertised add contains get
    put
calls_lead = refl

run-IsConsistent_example : IsConsistent (run new_registry calls)
run-IsConsistent_example = run-IsConsistent calls

tools-IsConsistent : IsConsistent tools
tools-IsConsistent = rw (← calls_lead) run-IsConsistent_example

flash_registered : get tools.definitions "flash" ≡ some flash
unfolding get
flash_registered = refl

unlock_exact_example :
    is_unlocked (unlock tools "flash" "board-2").1 "flash" (some "board-2") ≡ ok true
unlock_exact_example =
    unlock_exact tools "flash" "board-2" flash "flash" "board-2" flash_registered
      (λ e. true-ne-false ((eq_iff "board-2" "").1 e) refl)

relock_exact_example :
    is_unlocked (relock tools "flash" "board-1").1 "flash" (some "board-1") ≡ ok false
relock_exact_example = relock_exact tools "flash" "board-1" flash "flash" "board-1" flash_registered

locks-Tracked_example :
    Tracked tools (unlock tools "flash" "board-1").1
    × Tracked tools (relock tools "flash" "board-1").1
    × Tracked tools (reset tools)
locks-Tracked_example = locks-Tracked tools "flash" "board-1" tools-IsConsistent
