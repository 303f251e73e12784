-- ===== src/Guardrails/Definitions.antt =====
-- The parts of guardrails/plan_defs.py that permissions and plans read, and the refusals that
-- guardrails/ raises. Of a refusal the code is kept; its texts follow from the code.
use byo_firmware_mcp.Prelude.{String, List, Option, Bool}

pub data BudgetMode : Type 0 where
  fixed flexible : BudgetMode

-- `artifact_nullable` is whether the field of the artifact may be NULL, and the suffixes are in lower
-- case. `none_needed` is `PermissionMode.NONE`.
pub data PermissionMode : Type 0 where
  none_needed required fresh_one_time : PermissionMode

pub record PlanDefinition : Type 0 where
  pub action_name : String
  pub plan_tool_name : String
  pub budget_mode : BudgetMode
  pub permission_mode : PermissionMode
  pub paired_actions : List String
  pub artifact_binding_field : Option String
  pub artifact_nullable : Bool
  pub artifact_binding_suffixes : List String

-- `PolicyRefusal` and `PlanRefusal` by their code, `ValueError`, what the registry raises, and a failed
-- `assert`.
pub data Refusal : Type 0 where
  policy : String → Refusal
  value_error : Refusal
  tool_error : Refusal
  assertion_error : Refusal
  overflow_error : Refusal
  key_error : Refusal
