-- ===== src/Guardrails/Gate/Mismatch.antt =====
-- Mismatch evidence and the rollback of a validation in guardrails/gate.py.
use byo_firmware_mcp.Prelude.{
  String, Bool, false, ◌&&◌, ◌||◌, Option, none, some, List, [], ◌∷◌, map, filter, any, ◌==◌,
  string_eq, pair_eq, if◌then◌else◌,
}
use byo_firmware_mcp.Prelude.Result.{ok, ◌▷◌}
use byo_firmware_mcp.Prelude.Dict.{get, put}
use byo_firmware_mcp.Guardrails.Gate.{
  GateManager, MismatchAllowance, MismatchKey, Outcome, needs, clear_mismatches_of, of_board,
  drop_board, close_reason,
}

unfoldable pub key_of_allowance : MismatchAllowance → MismatchKey
key_of_allowance a =
    (a.board_id, (a.connection_id, (a.probe_identity, (a.expected_mcu, a.observed_mcu))))

unfoldable pub record_allowance : GateManager → MismatchAllowance → GateManager
record_allowance g a =
    let g' : GateManager = clear_mismatches_of (of_board a.board_id) (drop_board a.board_id g) in
    close_reason a.board_id "live MCU identity mismatched the established profile"
      (record g' { mismatches = put g'.mismatches (key_of_allowance a) a })

unfoldable pub record_mismatch :
    GateManager
    → (board_id connection_id probe_identity expected_mcu observed_mcu : String)
    → (validation_run now : String) → Outcome MismatchAllowance
record_mismatch g board_id connection_id probe_identity expected_mcu observed_mcu validation_run
      now =
    needs g board_id ▷ λ board g. needs g connection_id ▷ λ connection g.
    needs g probe_identity ▷ λ probe g. needs g expected_mcu ▷ λ expected g.
    needs g observed_mcu ▷ λ observed g. needs g validation_run ▷ λ validation g.
    let allowance : MismatchAllowance = record {
      board_id = board;
      connection_id = connection;
      probe_identity = probe;
      expected_mcu = expected;
      observed_mcu = observed;
      validation_run = validation;
      recorded_at = now;
    } in
    (ok allowance, record_allowance g allowance)

unfoldable pub mismatch_allowance :
    GateManager
    → (board_id connection_id probe_identity expected_mcu observed_mcu : String)
    → Outcome (Option MismatchAllowance)
mismatch_allowance g board_id connection_id probe_identity expected_mcu observed_mcu =
    needs g board_id ▷ λ board g. needs g connection_id ▷ λ connection g.
    needs g probe_identity ▷ λ probe g. needs g expected_mcu ▷ λ expected g.
    needs g observed_mcu ▷ λ observed g.
    (ok (get g.mismatches (board, (connection, (probe, (expected, observed))))), g)

abbrev pub single : {A : Type 0} → List A → Option A
single (x ∷ []) = some x
single _ = none

unfoldable pub current_mismatch :
    GateManager → String → String → String → Outcome (Option MismatchAllowance)
current_mismatch g board_id connection_id probe_identity = needs g board_id ▷ λ board g.
    needs g connection_id ▷ λ connection g. needs g probe_identity ▷ λ probe g. (
      ok (
          single (
            filter
              (λ a.
                a.board_id == board && a.connection_id == connection && a.probe_identity == probe)
              (map (λ e. e.1) g.mismatches))),
      g,
    )

unfoldable pub clear_mismatch : GateManager → String → Outcome (Unit {0})
clear_mismatch g board_id =
    needs g board_id ▷ λ board g. (ok tt, clear_mismatches_of (of_board board) g)

-- The identity that the failed run stamped, if it still is the board's.
unfoldable pub stamped_by : GateManager → String → String → Bool
stamped_by g board validation = elim (get g.identities board) [
  | none ↦ false
  | some identity ↦ identity.validation_run == validation
]

abbrev pub of_run : String → String → MismatchAllowance → Bool
of_run board validation a = a.board_id == board && a.validation_run == validation

unfoldable pub rollback : GateManager → String → String → Outcome Bool
rollback g board validation =
    let stamped = stamped_by g board validation in
    let recorded = any (λ e. of_run board validation e.1) g.mismatches in
    let dropped : GateManager = if stamped then drop_board board g else g in
    let g' : GateManager = clear_mismatches_of (of_run board validation) dropped in
    let removed = stamped || recorded in
    (ok removed, if removed then close_reason board "validation completion failed" g' else g')

unfoldable pub rollback_validation : GateManager → String → String → Outcome Bool
rollback_validation g board_id validation_run = needs g board_id ▷ λ board g.
    needs g validation_run ▷ λ validation g. rollback g board validation
