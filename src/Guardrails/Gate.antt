-- ===== src/Guardrails/Gate.antt =====
-- `GateManager` of src/pyocd_debug_mcp/guardrails/gate.py. Its one dictionary has keys of three tagged
-- shapes, each with values of one class, so it is three dictionaries here. Times come from outside.
-- A method that strips a text which another method stripped before it gets the same text, so the
-- second strip is left out.
pub mod Mismatch
pub mod Writes
pub mod Stamps
pub mod Closing
pub mod Keyed
pub mod Examples
use byo_firmware_mcp.Prelude.{
  String, ◌++◌, Bool, true, false, ◌&&◌, ◌||◌, not, Option, none, some, List, [], ◌∷◌, map, filter,
  is_nil, any, ◌==◌, string_eq, pair_eq, if◌then◌else◌,
}
use Prim.Native.String.{compare as compare_text}
use byo_firmware_mcp.Prelude.Result.{Result, ok, raise, ◌▷◌}
use byo_firmware_mcp.Prelude.Dict.{Dict, get, put, pop}
use byo_firmware_mcp.Prelude.Sorting.{sorted, dedup}
use byo_firmware_mcp.Prelude.Text.{strip, is_empty}

pub record LiveIdentityStamp : Type 0 where
  pub board_id : String
  pub connection_id : String
  pub probe_identity : String
  pub observed_mcu : String
  pub identity_capability : String
  pub validation_run : String
  pub validated_at : String

pub record SafetyMapStamp : Type 0 where
  pub board_id : String
  pub map_digest : String

pub record ValidationStamp : Type 0 where
  pub live_identity : LiveIdentityStamp
  pub safety_map : SafetyMapStamp

pub record MismatchAllowance : Type 0 where
  pub board_id : String
  pub connection_id : String
  pub probe_identity : String
  pub expected_mcu : String
  pub observed_mcu : String
  pub validation_run : String
  pub recorded_at : String

-- Board, connection, probe, expected and observed MCU.
abbrev pub MismatchKey : Type 0
MismatchKey = String × (String × (String × (String × String)))

pub record GateManager : Type 0 where
  pub identities : Dict String LiveIdentityStamp
  pub maps : Dict String SafetyMapStamp
  pub mismatches : Dict MismatchKey MismatchAllowance
  pub closure_reasons : Dict String String

-- `ValueError`, and `GateRefusal` by its code.
pub data GateError : Type 0 where
  bad_value : GateError
  gate : String → GateError

abbrev pub Outcome : Type 0 → Type 0
Outcome A = Result GateError A × GateManager

-- `_required`
unfoldable pub required_text : String → Result GateError String
required_text value =
    let normalized = strip value in if is_empty normalized then raise bad_value else ok normalized

-- A required text, the state being as it was.
abbrev pub needs : GateManager → String → Outcome String
needs g value = (required_text value, g)

-- `_clear_mismatches_locked` by board, and by connection.
unfoldable pub clear_mismatches_of : (MismatchAllowance → Bool) → GateManager → GateManager
clear_mismatches_of matching g = record g {
  mismatches = filter (λ e. not (matching e.1)) g.mismatches;
}

abbrev pub of_board : String → MismatchAllowance → Bool
of_board board a = a.board_id == board

abbrev pub of_connection : String → MismatchAllowance → Bool
of_connection connection a = a.connection_id == connection

-- The identity and the map of a board are removed.
unfoldable pub drop_board : String → GateManager → GateManager
drop_board board g = record g { identities = pop g.identities board; maps = pop g.maps board }

unfoldable pub close_reason : String → String → GateManager → GateManager
close_reason board reason g = record g { closure_reasons = put g.closure_reasons board reason }

-- `reason.strip() or fallback`
unfoldable pub reason_or : String → String → String
reason_or reason fallback =
    let normalized = strip reason in if is_empty normalized then fallback else normalized

unfoldable pub establish : GateManager → ValidationStamp → GateManager
establish g stamp =
    let board = stamp.live_identity.board_id in
    let g' : GateManager = record g {
      identities = put g.identities board stamp.live_identity;
      maps = put g.maps board stamp.safety_map;
      closure_reasons = pop g.closure_reasons board;
    } in
    clear_mismatches_of (of_board board) g'

unfoldable pub stamp_validation :
    GateManager
    → (board_id connection_id probe_identity observed_mcu validation_run map_digest : String)
    → (identity_capability now : String) → Outcome ValidationStamp
stamp_validation g board_id connection_id probe_identity observed_mcu validation_run map_digest
      capability_text now =
    needs g board_id ▷ λ board g. needs g connection_id ▷ λ connection g.
    needs g probe_identity ▷ λ probe g. needs g observed_mcu ▷ λ observed g.
    needs g capability_text ▷ λ capability g.
    if not (capability == "exact" || capability == "compatible")
    then (raise bad_value, g)
    else needs g validation_run ▷ λ validation g. needs g map_digest ▷ λ digest g.
        let stamp : ValidationStamp = record {
          live_identity = record {
            board_id = board;
            connection_id = connection;
            probe_identity = probe;
            observed_mcu = observed;
            identity_capability = capability;
            validation_run = validation;
            validated_at = now;
          };
          safety_map = record { board_id = board; map_digest = digest };
        } in
        (ok stamp, establish g stamp)

unfoldable pub stamp_of : GateManager → String → Option ValidationStamp
stamp_of g board = elim (get g.identities board) [
  | none ↦ none
  | some identity ↦ elim (get g.maps board) [
    | none ↦ none
    | some safety_map ↦ some (record { live_identity = identity; safety_map = safety_map })
  ]
]

unfoldable pub snapshot : GateManager → String → Outcome (Option ValidationStamp)
snapshot g board_id = needs g board_id ▷ λ board g. (ok (stamp_of g board), g)

-- `clear`, for a board whose text was stripped.
unfoldable pub clear_board : GateManager → String → String → GateManager
clear_board g board reason =
    close_reason board (reason_or reason "gate closed")
      (clear_mismatches_of (of_board board) (drop_board board g))

unfoldable pub clear : GateManager → String → String → Outcome (Option ValidationStamp)
clear g board_id reason =
    needs g board_id ▷ λ board g. (ok (stamp_of g board), clear_board g board reason)

-- The loop of `clear_connection`.
unfoldable pub close_boards : List String → String → GateManager → GateManager
close_boards [] reason g = g
close_boards (board ∷ boards) reason g =
    close_boards boards reason (close_reason board reason (drop_board board g))

-- The boards that it collects.
unfoldable pub boards_on : GateManager → String → List String
boards_on g connection = dedup (
    map (λ e. e.1.board_id) (filter (λ e. e.1.connection_id == connection) g.identities)
    ++ map (λ e. e.1.board_id) (filter (λ e. of_connection connection e.1) g.mismatches))

unfoldable pub clear_connection : GateManager → String → String → Outcome (List String)
clear_connection g connection_id reason = needs g connection_id ▷ λ connection g.
    let boards = boards_on g connection in
    (
      ok (sorted compare_text boards),
      clear_mismatches_of (of_connection connection)
          (close_boards boards (reason_or reason "connection closed") g),
    )

-- The tests of `require_validated` on texts that were stripped.
unfoldable pub validated : GateManager → String → String → Outcome ValidationStamp
validated g board connection = elim (get g.identities board) [
  | none ↦ (raise (gate "gate/validation-required"), g)
  | some identity ↦
      if not (identity.connection_id == connection)
      then (
        raise (gate "gate/connection-changed"),
        clear_board g board "connection identity changed",
      )
      else elim (get g.maps board) [
        | none ↦ (raise (gate "gate/safety-map-unbound"), g)
        | some safety_map ↦ (ok (record { live_identity = identity; safety_map = safety_map }), g)
      ]
]

unfoldable pub require_validated : GateManager → String → String → Outcome ValidationStamp
require_validated g board_id connection_id = needs g board_id ▷ λ board g.
    needs g connection_id ▷ λ connection g. validated g board connection

-- The comparison of the digests; a map that is stale is unbound.
unfoldable pub check_digest : GateManager → ValidationStamp → String → Outcome ValidationStamp
check_digest g stamp current =
    if not (stamp.safety_map.map_digest == current)
    then (
      raise (gate "gate/safety-map-stale"),
      record g { maps = pop g.maps stamp.live_identity.board_id },
    )
    else (ok stamp, g)

unfoldable pub require_write : GateManager → String → String → String → Outcome ValidationStamp
require_write g board_id connection_id current_map_digest =
    require_validated g board_id connection_id ▷ λ stamp g.
    needs g current_map_digest ▷ λ current g. check_digest g stamp current

unfoldable pub refresh_map :
    GateManager → String → String → String → Outcome (Option ValidationStamp)
refresh_map g board connection digest = elim (get g.identities board) [
  | none ↦ (ok none, g)
  | some identity ↦
      if not (identity.connection_id == connection)
      then (ok none, g)
      else (let safety_map : SafetyMapStamp = record { board_id = board; map_digest = digest } in
          (
            ok (some (record { live_identity = identity; safety_map = safety_map })),
            record g { maps = put g.maps board safety_map },
          ))
]

unfoldable pub refresh_map_stamp :
    GateManager → String → String → String → Outcome (Option ValidationStamp)
refresh_map_stamp g board_id connection_id map_digest = needs g board_id ▷ λ board g.
    needs g connection_id ▷ λ connection g.
    needs g map_digest ▷ λ digest g. refresh_map g board connection digest
