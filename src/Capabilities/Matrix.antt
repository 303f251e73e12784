-- ===== src/Capabilities/Matrix.antt =====
-- The inventory of the tier routes, capabilities/matrix.py.
use Prim.Native.String.{[], ◌∷◌, ◌++◌}
use byo_firmware_mcp.Prelude.{
  String, Bool, true, false, ◌||◌, not, Option, none, some, List, [], ◌∷◌, map, filter, ◌==◌,
  string_eq, if◌then◌else◌,
}
use byo_firmware_mcp.Prelude.Dict.{Dict, get}

pub data RouteGuard : Type 0 where
  raw safe direct indirect metadata : RouteGuard

pub record TierRoute : Type 0 where
  pub name : String
  pub guard : RouteGuard
  pub family : Option String
  pub raw_tool : Option String
  pub safe_tool : Option String
  pub requires_plan : Bool
  pub personal_only : Bool

abbrev route :
    String → RouteGuard → Option String → Option String → Option String → Bool → Bool → TierRoute
route name guard family raw_tool safe_tool requires_plan personal_only = record {
  name = name;
  guard = guard;
  family = family;
  raw_tool = raw_tool;
  safe_tool = safe_tool;
  requires_plan = requires_plan;
  personal_only = personal_only;
}

unfoldable pub tier_route_matrix : List TierRoute
tier_route_matrix =
    route "action_batch" indirect (some "batch") none none false false
    ∷ route "board_fix_setup" metadata (some "setup") none none false false
    ∷ route "board_safety_refresh" indirect (some "maintenance") none none false false
    ∷ route "board_setup" metadata (some "setup") none none false false
    ∷ route "board_setup-plan" metadata (some "setup") none none false false
    ∷ route "board_validate" indirect (some "identity-validation") none none false false
    ∷ route "collect_build_artifacts" metadata none none none false false
    ∷ route "connect" direct (some "connection") none none false false
    ∷ route "connect_override" safe (some "connection") none none true false
    ∷ route "connect_override-plan" metadata (some "connection") none none false false
    ∷ route "connect_under_reset" safe (some "connection-under-reset") none none true false
    ∷ route "connect_under_reset-plan" metadata (some "connection-under-reset") none none false
        false
    ∷ route "continue_setup" metadata (some "setup") none none false false
    ∷ route "disconnect" direct (some "connection") none none false false
    ∷ route "downgrade" indirect (some "downgrade") none none false false
    ∷ route "find_symbol" metadata none none none false false
    ∷ route "flash_application" safe (some "flash-application") (some "flash_raw")
        (some "flash_application") true false
    ∷ route "flash_application-plan" metadata (some "flash-application") none none false false
    ∷ route "flash_bootloader" safe (some "flash-bootloader") (some "flash_raw")
        (some "flash_bootloader") true false
    ∷ route "flash_bootloader-plan" metadata (some "flash-bootloader") none none false false
    ∷ route "flash_raw" raw (some "flash") (some "flash_raw") (some "flash_application") false false
    ∷ route "get_board_info" direct (some "board-info") none none false false
    ∷ route "get_capabilities" metadata (some "capability-discovery") none none false false
    ∷ route "get_discovery_hook_contract" metadata none none none false false
    ∷ route "get_setup_status" metadata (some "setup-status") none none false false
    ∷ route "get_state" direct (some "state") none none false false
    ∷ route "halt" direct (some "execution-control") none none false false
    ∷ route "initialization_handshake" metadata (some "capability-discovery") none none false false
    ∷ route "load_setup_tool" metadata (some "setup") none none false false
    ∷ route "read_cpu_register" direct (some "cpu-register-read") none none false false
    ∷ route "read_execution_state" direct (some "execution-control") none none false false
    ∷ route "read_memory_address" safe (some "memory-read") (some "read_memory_raw")
        (some "read_memory_address") true false
    ∷ route "read_memory_address-plan" metadata (some "memory-read") none none false false
    ∷ route "read_memory_raw" raw (some "memory-read") (some "read_memory_raw")
        (some "read_memory_address") false false
    ∷ route "read_memory_symbol" indirect (some "memory-read") none none false false
    ∷ route "read_serial" safe (some "serial-read") (some "read_serial_raw") (some "read_serial")
        true false
    ∷ route "read_serial-plan" metadata (some "serial-read") none none false false
    ∷ route "read_serial_raw" raw (some "serial-read") (some "read_serial_raw") (some "read_serial")
        false false
    ∷ route "refresh_discovery_hooks" metadata none none none false false
    ∷ route "register_remote_probe" metadata none none none false false
    ∷ route "register_write" safe (some "register-write") (some "register_write_raw")
        (some "register_write") true false
    ∷ route "register_write-plan" metadata (some "register-write") none none false false
    ∷ route "register_write_raw" raw (some "register-write") (some "register_write_raw")
        (some "register_write") false false
    ∷ route "remove_breakpoint" direct (some "breakpoint") none none false false
    ∷ route "report_agent_issue" metadata none none none false false
    ∷ route "reset_and_halt" safe (some "reset-halt") (some "reset_and_halt_raw")
        (some "reset_and_halt") true false
    ∷ route "reset_and_halt-plan" metadata (some "reset-halt") none none false false
    ∷ route "reset_and_halt_raw" raw (some "reset-halt") (some "reset_and_halt_raw")
        (some "reset_and_halt") false false
    ∷ route "reset_and_run" direct (some "execution-control") none none false false
    ∷ route "resume" direct (some "execution-control") none none false false
    ∷ route "serial_exchange" safe (some "serial-exchange") (some "serial_exchange_raw")
        (some "serial_exchange") true false
    ∷ route "serial_exchange-plan" metadata (some "serial-exchange") none none false false
    ∷ route "serial_exchange_raw" raw (some "serial-exchange") (some "serial_exchange_raw")
        (some "serial_exchange") false false
    ∷ route "server_health_check" metadata none none none false false
    ∷ route "set_breakpoint" safe (some "breakpoint") (some "set_breakpoint_raw")
        (some "set_breakpoint") true false
    ∷ route "set_breakpoint-plan" metadata (some "breakpoint") none none false false
    ∷ route "set_breakpoint_raw" raw (some "breakpoint") (some "set_breakpoint_raw")
        (some "set_breakpoint") false false
    ∷ route "set_execution_state" safe (some "execution-control") (some "set_execution_state_raw")
        (some "set_execution_state") true false
    ∷ route "set_execution_state-plan" metadata (some "execution-control") none none false false
    ∷ route "set_execution_state_raw" raw (some "execution-control")
        (some "set_execution_state_raw") (some "set_execution_state") false false
    ∷ route "setup_overview" metadata (some "setup") none none false false
    ∷ route "step" direct (some "execution-control") none none false false
    ∷ route "submit_routine_checkin" metadata none none none false true
    ∷ route "target_unlock" safe (some "target-recovery") (some "target_unlock_raw")
        (some "target_unlock") true false
    ∷ route "target_unlock-plan" metadata (some "target-recovery") none none false false
    ∷ route "target_unlock_raw" raw (some "target-recovery") (some "target_unlock_raw")
        (some "target_unlock") false false
    ∷ route "unlock_operator" metadata none none none false false
    ∷ route "unregister_remote_probe" metadata none none none false false
    ∷ route "wait" metadata none none none false false
    ∷ route "write_cpu_register" safe (some "cpu-register-write") (some "write_cpu_register_raw")
        (some "write_cpu_register") true false
    ∷ route "write_cpu_register-plan" metadata (some "cpu-register-write") none none false false
    ∷ route "write_cpu_register_raw" raw (some "cpu-register-write") (some "write_cpu_register_raw")
        (some "write_cpu_register") false false
    ∷ route "write_memory" safe (some "memory-write") (some "write_memory_raw")
        (some "write_memory") true false
    ∷ route "write_memory-plan" metadata (some "memory-write") none none false false
    ∷ route "write_memory_raw" raw (some "memory-write") (some "write_memory_raw")
        (some "write_memory") false false
    ∷ route "write_serial" safe (some "serial-write") (some "write_serial_raw")
        (some "write_serial") true false
    ∷ route "write_serial-plan" metadata (some "serial-write") none none false false
    ∷ route "write_serial_raw" raw (some "serial-write") (some "write_serial_raw")
        (some "write_serial") false false
    ∷ []

unfoldable pub route_by_name : Dict String TierRoute
unfolding tier_route_matrix
route_by_name = map (λ row. (row.name, row)) tier_route_matrix

-- `str.removesuffix`
unfoldable pub removesuffix : String → String → String
removesuffix suffix [] = []
removesuffix suffix (c ∷ s) =
    let rest = removesuffix suffix s in if (c ∷ s) == suffix then [] else c ∷ rest

abbrev pub or_text : Option String → String → String
or_text none default = default
or_text (some s) default = s

abbrev pub raw_tool_of : Option TierRoute → Option String
raw_tool_of none = none
raw_tool_of (some row) = row.raw_tool

abbrev pub safe_tool_of : Option TierRoute → Option String
safe_tool_of none = none
safe_tool_of (some row) = row.safe_tool

unfoldable pub raw_tool_for : String → String
raw_tool_for operation = or_text (raw_tool_of (get route_by_name operation)) (operation ++ "_raw")

unfoldable pub safe_tool_for : String → String
safe_tool_for operation =
    or_text (safe_tool_of (get route_by_name operation)) (removesuffix "_raw" operation)

unfoldable pub applicable_route_names : Bool → List String
unfolding tier_route_matrix
applicable_route_names narrative_logging =
    map (λ row. row.name)
      (filter (λ row. narrative_logging || not row.personal_only) tier_route_matrix)
