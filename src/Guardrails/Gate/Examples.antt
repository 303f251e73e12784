-- ===== src/Guardrails/Gate/Examples.antt =====
-- A gate with one validated board, on which the statements about guardrails/gate.py are exercised.
use byo_firmware_mcp.Prelude.{
  String, ◌≡◌, ◌≢◌, refl, ◌↔◌, false, some, [], ◌∷◌, string_eq, filter, arith, eq_iff,
}
use byo_firmware_mcp.Prelude.Result.{ok, ◌▷◌}
use byo_firmware_mcp.Prelude.Dict.{get, put, pop}
use byo_firmware_mcp.Prelude.Sorting.{contains, dedup}
use byo_firmware_mcp.Prelude.Text.{strip, lstrip, rstrip, is_space, is_empty}
use byo_firmware_mcp.Guardrails.Gate.{
  LiveIdentityStamp, SafetyMapStamp, ValidationStamp, MismatchAllowance, GateManager, required_text,
  clear_mismatches_of, stamp_validation, require_write, refresh_map, refresh_map_stamp,
  clear_connection, boards_on, close_boards, close_reason, drop_board, reason_or,
}
use byo_firmware_mcp.Guardrails.Gate.Mismatch.{record_mismatch}
use byo_firmware_mcp.Guardrails.Gate.Keyed.{
  connection_call, rollback_call, gate_run, gate_run-IsKeyed,
}
use byo_firmware_mcp.Guardrails.Gate.Writes.{Proves, require_write_iff}
use byo_firmware_mcp.Guardrails.Gate.Closing.{IsKeyed, clear_connection_ends}

abbrev identity_on : String → String → LiveIdentityStamp
identity_on board connection = record {
  board_id = board;
  connection_id = connection;
  probe_identity = "probe";
  observed_mcu = "stm32";
  identity_capability = "exact";
  validation_run = "run-1";
  validated_at = "now";
}

abbrev map_of : String → SafetyMapStamp
map_of digest = record { board_id = "nucleo"; map_digest = digest }

abbrev stamp_with : String → ValidationStamp
stamp_with digest = record {
  live_identity = identity_on "nucleo" "usb-1";
  safety_map = map_of digest;
}

abbrev empty_gate : GateManager
empty_gate = record { identities = []; maps = []; mismatches = []; closure_reasons = [] }

-- One board on each of two connections.
abbrev open_gate : GateManager
open_gate = record {
  identities =
      ("nucleo", identity_on "nucleo" "usb-1") ∷ ("feather", identity_on "feather" "usb-2") ∷ [];
  maps = ("nucleo", map_of "digest-1") ∷ [];
  mismatches = [];
  closure_reasons = [];
}

require_write_iff_example :
    ((require_write open_gate " nucleo" "usb-1" "digest-1").0 ≡ ok (stamp_with "digest-1")) ↔ (
      (is_empty (strip " nucleo") ≡ false)
      × (is_empty (strip "usb-1") ≡ false)
      × (is_empty (strip "digest-1") ≡ false)
      × Proves open_gate
          (strip " nucleo")
          (strip "usb-1")
          (strip "digest-1")
          (stamp_with "digest-1"))
require_write_iff_example =
    require_write_iff open_gate " nucleo" "usb-1" "digest-1" (stamp_with "digest-1")

stamped :
    (stamp_validation empty_gate "nucleo" "usb-1" "probe" "stm32" "run-1" "digest-1" "exact"
      "now").0
    ≡ ok (stamp_with "digest-1")
unfolding stamp_validation required_text strip lstrip rstrip is_space ◌▷◌
stamped = refl

refreshed :
    (refresh_map_stamp open_gate "nucleo" "usb-1" "digest-2").0 ≡ ok (some (stamp_with "digest-2"))
unfolding refresh_map_stamp refresh_map required_text strip lstrip rstrip is_space ◌▷◌ get
refreshed = refl

board_given : is_empty (strip "nucleo") ≡ false
unfolding strip lstrip rstrip is_space
board_given = refl

connection_given : is_empty (strip "usb-1") ≡ false
unfolding strip lstrip rstrip is_space
connection_given = refl

abbrev other_chip : MismatchAllowance
other_chip = record {
  board_id = "nucleo";
  connection_id = "usb-1";
  probe_identity = "probe";
  expected_mcu = "stm32";
  observed_mcu = "nrf52";
  validation_run = "run-2";
  recorded_at = "now";
}

recorded :
    (record_mismatch open_gate "nucleo" "usb-1" "probe" "stm32" "nrf52" "run-2" "now").0
    ≡ ok other_chip
unfolding record_mismatch required_text strip lstrip rstrip is_space ◌▷◌
recorded = refl

open_gate-IsKeyed : IsKeyed open_gate
unfolding get
open_gate-IsKeyed = record { at = λ k i h. ground (arith, eq_iff "nucleo" k, eq_iff "feather" k) }

feather_left :
    get (clear_connection open_gate "usb-1" "unplugged").1.identities "feather"
    ≡ some (identity_on "feather" "usb-2")
unfolding clear_connection boards_on close_boards close_reason drop_board clear_mismatches_of
    reason_or required_text strip lstrip rstrip is_space ◌▷◌ get put pop contains dedup filter
feather_left = refl

clear_connection_ends_example : (identity_on "feather" "usb-2").connection_id ≢ strip "usb-1"
clear_connection_ends_example =
    clear_connection_ends open_gate "usb-1" "unplugged" "feather" (identity_on "feather" "usb-2")
      open_gate-IsKeyed connection_given feather_left

gate_run-IsKeyed_example : IsKeyed (
    gate_run open_gate (connection_call "usb-1" "unplugged" ∷ rollback_call "feather" "run-1" ∷ []))
gate_run-IsKeyed_example =
    gate_run-IsKeyed open_gate
      (connection_call "usb-1" "unplugged" ∷ rollback_call "feather" "run-1" ∷ []) open_gate-IsKeyed
