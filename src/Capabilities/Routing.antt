-- ===== src/Capabilities/Routing.antt =====
-- The route guard of a board, `TierRouter` of capabilities/routing.py, on the policy that
-- `CapabilityPolicyRepository.resolve` answers for a board.
pub mod Split
use Prim.Native.String.{◌++◌}
use byo_firmware_mcp.Prelude.{
  String, Bool, true, false, ◌&&◌, not, Option, none, some, List, [], ◌∷◌, ◌==◌, string_eq,
  if◌then◌else◌,
}
use byo_firmware_mcp.Prelude.Result.{Result, ok, raise, ◌>>=◌}
use byo_firmware_mcp.Prelude.Sorting.{contains}
use byo_firmware_mcp.Capabilities.Matrix.{raw_tool_for, safe_tool_for}

pub data Tier : Type 0 where
  no_setup setup_lite setup_full : Tier

-- What routing reads of a policy.
pub record CapabilityState : Type 0 where
  pub board_id : String
  pub tier : Option Tier
  pub status : String
  pub setup_incomplete : Bool

abbrev pub has_tier : Option Tier → Bool
has_tier none = false
has_tier (some _) = true

unfoldable pub hardware_allowed : CapabilityState → Bool
hardware_allowed s =
    has_tier s.tier && contains s.status ("committed" ∷ "legacy-migrated" ∷ "setup-incomplete" ∷ [])

pub record TierRouteRefusal : Type 0 where
  pub code : String
  pub remedies : List String

pub record Warning : Type 0 where
  pub code : String
  pub display_to_human : Bool
  pub message : String

abbrev pub corrupt : TierRouteRefusal
corrupt = record {
  code = "tier/corrupt-policy";
  remedies = "board_safety_refresh" ∷ "board_setup" ∷ [];
}

abbrev pub wrong_route : List String → TierRouteRefusal
wrong_route remedies = record { code = "tier/wrong-route"; remedies = remedies }

abbrev pub lite_warning : String → Warning
lite_warning message = record {
  code = "tier/lite-containment-bypassed";
  display_to_human = true;
  message = message;
}

abbrev pub bypassed : String → String → String → String
bypassed operation board rest =
    "Display to the human: " ++ operation ++ " on " ++ board ++ " bypassed setup-lite " ++ rest

module _ (resolve : String → CapabilityState) where
  unfoldable pub state_for : String → Result TierRouteRefusal CapabilityState
  state_for board =
      if not (hardware_allowed (resolve board)) then raise corrupt else ok (resolve board)

  -- `state or self.state_for(board_id)`
  abbrev pub state_or : Option CapabilityState → String → Result TierRouteRefusal CapabilityState
  state_or none board = state_for board
  state_or (some s) board = ok s

  abbrev pub safe_by :
      String → CapabilityState → Option Tier → Result TierRouteRefusal CapabilityState
  safe_by operation s (some no_setup) =
      raise (wrong_route (raw_tool_for operation ∷ "board_setup-plan" ∷ "board_setup" ∷ []))
  safe_by operation s _ = ok s

  unfoldable pub require_safe :
      String → String → Option CapabilityState → Result TierRouteRefusal CapabilityState
  require_safe operation board given = state_or given board >>= λ s. safe_by operation s s.tier

  abbrev pub raw_by : String → String → Option Tier → Result TierRouteRefusal (Option Warning)
  raw_by operation board (some setup_full) =
      raise (wrong_route ((safe_tool_for operation ++ "-plan") ∷ safe_tool_for operation ∷ []))
  raw_by operation board (some setup_lite) =
      ok (some (lite_warning (bypassed operation board "containment.")))
  raw_by operation board _ = ok none

  unfoldable pub require_raw :
      String → String → Option CapabilityState → Result TierRouteRefusal (Option Warning)
  require_raw operation board given = state_or given board >>= λ s. raw_by operation board s.tier

  abbrev pub failed_warning : String → String → Option Warning → Option Warning
  failed_warning operation board none = none
  failed_warning operation board (some w) =
      some (record w { message = bypassed operation board "containment, and the attempt failed." })

  unfoldable pub raw_error_warning :
      String → String → Option CapabilityState → Result TierRouteRefusal (Option Warning)
  raw_error_warning operation board given =
      require_raw operation board given >>= λ warning. ok (failed_warning operation board warning)
