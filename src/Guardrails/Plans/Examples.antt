-- ===== src/Guardrails/Plans/Examples.antt =====
-- An engine with one active plan, on which the statements about guardrails/plan_engine.py are
-- exercised.
use byo_firmware_mcp.Prelude.{
  ℕ, String, none-ne-some, ◌≡◌, refl, true, false, none, some, [], ◌∷◌, all, string_eq, pair_eq,
}
use byo_firmware_mcp.Prelude.Result.{ok, raise, ◌▷◌}
use byo_firmware_mcp.Prelude.Dict.{get, put}
use byo_firmware_mcp.Prelude.Sorting.{contains}
use byo_firmware_mcp.Kernel.Registry
use byo_firmware_mcp.Kernel.Registry.{ToolDefinition, ToolRegistry}
use byo_firmware_mcp.Guardrails.Definitions.{
  flexible, none_needed, required, PlanDefinition, tool_error,
}
use byo_firmware_mcp.Guardrails.Permissions.{
  PermissionStore, full_session, authorize_plan, authorize_value, grant, new_grant,
  authorization_of, valid_key, drop_stale, current_grant,
}
use byo_firmware_mcp.Guardrails.Plans.State.{
  PlanEngine, PlanState, active, active_state, paired_for, ArtifactDigestBinding, Files,
  bind_artifact, bind_file,
}
use byo_firmware_mcp.Guardrails.Plans.Enforce.{
  Request, allowance, check_lock, precheck_active, precheck, check_permission, recheck, spent,
  is_exhausted, take_call, execute_locked, Surroundings, enforce,
}
use byo_firmware_mcp.Guardrails.Plans.Enforce.Spending.{Charges, execute-Charges}
use byo_firmware_mcp.Guardrails.Plans.Locking.{unlock_all, unlock_definition}
use byo_firmware_mcp.Guardrails.Plans.Submit.{
  Submission, authorize, plan_id_for, validate_budget, install, new_plan, activate, submit,
}
use byo_firmware_mcp.Guardrails.Plans.Submit.Accepts.{primary_request}
use byo_firmware_mcp.Guardrails.Plans.Submit.Admits.{IsLet, IsUnchanged, quiet, submit-then-enforce}
use byo_firmware_mcp.Prelude.Text.{is_blank, strip, lstrip, rstrip, is_space}
use byo_firmware_mcp.Guardrails.Permissions.Active.{IsKeyed}

abbrev reset_definition : PlanDefinition
reset_definition = record {
  action_name = "reset";
  plan_tool_name = "reset-plan";
  budget_mode = flexible;
  permission_mode = none_needed;
  paired_actions = "halt" ∷ [];
  artifact_binding_field = none;
  artifact_nullable = false;
  artifact_binding_suffixes = [];
}

abbrev plan_with : ℕ → PlanState
plan_with halts = record {
  plan_id = "plan-1";
  run_id = "run";
  definition = reset_definition;
  board_id = "board";
  session_id = none;
  max_calls = 3;
  max_calls_buffer = 0;
  remaining_calls = 3;
  paired_remaining = ("halt", halts) ∷ [];
  canonical_parameters = "{}";
  authorization = none;
  artifact_binding = none;
  status = active;
  close_reason = none;
}

abbrev locked_tool : String → ToolDefinition
locked_tool name = record {
  name = name;
  hidden_by_default = true;
  locked_by_default = true;
  prerequisite = some "reset-plan";
}

abbrev registry : ToolRegistry
registry = record {
  definitions = ("reset", locked_tool "reset") ∷ ("halt", locked_tool "halt") ∷ [];
  unlocked_boards = ("reset", "board" ∷ []) ∷ ("halt", "board" ∷ []) ∷ [];
  list_revision = 2;
}

abbrev permissions : PermissionStore
permissions = record { run_id = "run"; permissions = [] }

abbrev engine_with : ℕ → PlanEngine
engine_with halts = record {
  run_id = "run";
  plans = (("reset", "board"), plan_with halts) ∷ [];
  registry = registry;
  permissions = permissions;
}

abbrev halt_request : Request
halt_request = record {
  action_name = "halt";
  definition = reset_definition;
  board_id = "board";
  canonical_parameters = "{}";
  session_id = none;
}

halted : (execute_locked (engine_with 2) halt_request "plan-1").0 ≡ ok (plan_with 1)
unfolding execute_locked recheck precheck precheck_active check_lock check_permission take_call
    spent is_exhausted allowance active_state paired_for contains get put all ◌▷◌
    Registry.is_registered Registry.is_unlocked Registry.boards_of
halted = refl

execute-Charges_example :
    Charges
      (engine_with 2)
      halt_request
      "plan-1"
      (plan_with 1)
      (execute_locked (engine_with 2) halt_request "plan-1").1
execute-Charges_example = execute-Charges (engine_with 2) halt_request "plan-1" (plan_with 1) halted

-- Nothing else happens but that another call takes one halt between the scope and the preconditions.
abbrev busy : Surroundings
busy = record {
  before_scope = λ e. e;
  after_scope = λ e. e;
  after_preconditions = λ e. record e { plans = (("reset", "board"), plan_with 1) ∷ [] };
  before_execution = λ e. e;
  files = λ p. none;
  later_files = λ p. none;
  in_scope = true;
  preconditions_met = true;
}

abbrev reset_submission : Submission
reset_submission = record {
  board_id = "board";
  session_id = none;
  max_calls = 2;
  max_calls_buffer = 1;
  user_permission = none;
  canonical_parameters = "{}";
  artifact_binding = none;
  plan_id_override = none;
  fresh_plan_id = "plan-2";
  fresh_grant_id = "grant-1";
  now = "now";
}

-- A plan that needs a permission and is bound to an artifact.
abbrev guarded_definition : PlanDefinition
guarded_definition = record reset_definition {
  permission_mode = required;
  artifact_binding_field = some "artifact";
}

abbrev bound_artifact : ArtifactDigestBinding
bound_artifact = record {
  field_name = "artifact";
  supplied_path = "app.elf";
  resolved_path = "/build/app.elf";
  sha256 = "digest";
}

abbrev disk : Files
disk supplied = some (record {
  resolved_path = "/build/app.elf";
  is_file = true;
  suffix = ".elf";
  sha256 = some "digest";
})

abbrev guarded_submission : Submission
guarded_submission = record reset_submission {
  user_permission = some "full-session";
  artifact_binding = some bound_artifact;
}

abbrev submitted : PlanState
submitted = record (plan_with 1) {
  plan_id = "plan-2";
  definition = guarded_definition;
  max_calls = 2;
  max_calls_buffer = 1;
  authorization = some (record {
    grant_id = "grant-1";
    run_id = "run";
    tool_name = "reset";
    board_id = "board";
    mode = full_session;
  });
  artifact_binding = some bound_artifact;
}

accepted : (submit (engine_with 0) guarded_definition guarded_submission).0 ≡ ok submitted
unfolding submit activate authorize plan_id_for validate_budget install new_plan unlock_definition
    unlock_all ◌▷◌ get put contains Registry.unlock Registry.is_registered Registry.bump_if
    Registry.is_advertised Registry.boards_of Registry.add authorize_plan authorize_value grant
    new_grant authorization_of valid_key is_blank strip lstrip rstrip is_space drop_stale
    current_grant
accepted = refl

no_grants : IsKeyed permissions
unfolding get
no_grants = record { at = λ k g h. absurd (none-ne-some h) }

unchanged : IsUnchanged disk guarded_definition guarded_submission.artifact_binding
unfolding bind_artifact bind_file is_blank strip lstrip rstrip is_space
unchanged = refl

submit-then-enforce_example :
    IsLet
      (submit (engine_with 0) guarded_definition guarded_submission).1
      (primary_request guarded_definition guarded_submission)
      submitted
      3
      (enforce
        (quiet disk)
        (submit (engine_with 0) guarded_definition guarded_submission).1
        (primary_request guarded_definition guarded_submission))
submit-then-enforce_example =
    submit-then-enforce disk (engine_with 0) guarded_definition guarded_submission submitted
      no_grants unchanged accepted

-- The tools of the plan are gone.
abbrev engine_without_tools : PlanEngine
engine_without_tools = record (engine_with 2) {
  registry = record { definitions = []; unlocked_boards = []; list_revision = 0 };
}

refused : (submit engine_without_tools reset_definition reset_submission).0 ≡ raise tool_error
unfolding submit activate authorize plan_id_for validate_budget install new_plan unlock_definition
    unlock_all ◌▷◌ get put contains Registry.unlock Registry.is_registered
refused = refl
