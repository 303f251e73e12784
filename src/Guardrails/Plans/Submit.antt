-- ===== src/Guardrails/Plans/Submit.antt =====
-- The part of `submit` of guardrails/plan_engine.py that comes after the fields were checked against
-- the schema, with the budget and the identifier of the plan.
pub mod Opens
pub mod Accepts
pub mod Permitted
pub mod Admits
use Prim.Native.Char.{Char, code}
use Prim.Native.String.{[], ◌∷◌}
use byo_firmware_mcp.Prelude.{
  ℕ, zero, suc, ◌+◌, String, Bool, true, false, ◌&&◌, ◌||◌, not, Option, none, some, List, map, any,
  ◌==◌, string_eq, pair_eq, nat_eq, if◌then◌else◌, leb, eqb, is_nil,
}
use byo_firmware_mcp.Prelude.Result.{Result, ok, raise, ◌▷◌}
use byo_firmware_mcp.Prelude.Dict.{Dict, get, put, pop}
use byo_firmware_mcp.Kernel.Registry.{ToolRegistry}
use byo_firmware_mcp.Guardrails.Definitions.{
  PlanDefinition, BudgetMode, fixed, flexible, Refusal, policy,
}
use byo_firmware_mcp.Guardrails.Permissions.{
  PermissionAuthorization, is_none_needed, authorize_plan,
}
use byo_firmware_mcp.Guardrails.Plans.State.{
  PlanEngine, PlanState, active, Key, ArtifactDigestBinding,
}
use byo_firmware_mcp.Guardrails.Plans.Locking.{unlock_definition}

-- What was checked of a submission, and the identifiers and the time that are drawn for it.
pub record Submission : Type 0 where
  pub board_id : String
  pub session_id : Option String
  pub max_calls : ℕ
  pub max_calls_buffer : ℕ
  pub user_permission : Option String
  pub canonical_parameters : String
  pub artifact_binding : Option ArtifactDigestBinding
  pub plan_id_override : Option String
  pub fresh_plan_id : String
  pub fresh_grant_id : String
  pub now : String

abbrev pub is_fixed : BudgetMode → Bool
is_fixed fixed = true
is_fixed flexible = false

-- `_validate_budget`; a negative number is refused by its first test and is not among these.
unfoldable pub validate_budget : PlanDefinition → ℕ → ℕ → Result Refusal (ℕ × ℕ)
validate_budget d max_calls max_calls_buffer =
    if leb max_calls 0
    then raise (policy "plan/invalid-budget")
    else if is_fixed d.budget_mode && not (max_calls == 1 && max_calls_buffer == 0)
    then raise (policy "plan/fixed-budget")
    else ok (max_calls, max_calls_buffer)

-- `[0-9a-f]` of one character, and of so many characters to the end.
abbrev pub is_hex : Char → Bool
is_hex c = (leb 48 (code c) && leb (code c) 57) || (leb 97 (code c) && leb (code c) 102)

unfoldable pub is_hex_run : ℕ → String → Bool
is_hex_run zero [] = true
is_hex_run (suc n) (c ∷ s) = is_hex c && is_hex_run n s
is_hex_run _ _ = false

-- `plan-[0-9a-f]{16}` as a whole.
unfoldable pub is_plan_id : String → Bool
is_plan_id ('p' ∷ 'l' ∷ 'a' ∷ 'n' ∷ '-' ∷ s) = is_hex_run 16 s
is_plan_id _ = false

-- `_plan_id`
unfoldable pub plan_id_for : PlanEngine → Option String → String → Result Refusal String
plan_id_for e none fresh = ok fresh
plan_id_for e (some id) fresh =
    if not (is_plan_id id)
    then raise (policy "plan/invalid-id")
    else if any (λ x. x.1.plan_id == id) e.plans
    then raise (policy "plan/duplicate-id")
    else ok id

-- The permission that the plan carries.
unfoldable pub authorize :
    PlanEngine
    → PlanDefinition
    → Submission
    → Result Refusal (Option PermissionAuthorization) × PlanEngine
authorize e d x =
    if is_none_needed d.permission_mode
    then (ok none, e)
    else (let (result, p) =
          authorize_plan e.permissions d x.board_id x.user_permission x.max_calls x.max_calls_buffer
            x.fresh_grant_id x.now in
        (result, record e { permissions = p }) ▷ (λ a e'. (ok (some a), e')))

unfoldable pub new_plan :
    PlanEngine → PlanDefinition → Submission → Option PermissionAuthorization → String → PlanState
new_plan e d x authorization plan_id = record {
  plan_id = plan_id;
  run_id = e.run_id;
  definition = d;
  board_id = x.board_id;
  session_id = x.session_id;
  max_calls = x.max_calls;
  max_calls_buffer = x.max_calls_buffer;
  remaining_calls = x.max_calls + x.max_calls_buffer;
  paired_remaining = map (λ action. (action, 1)) d.paired_actions;
  canonical_parameters = x.canonical_parameters;
  authorization = authorization;
  artifact_binding = x.artifact_binding;
  status = active;
  close_reason = none;
}

-- The plans after a failure: the previous one stands again.
unfoldable pub restored : Dict Key PlanState → Key → Option PlanState → Dict Key PlanState
restored plans key none = pop plans key
restored plans key (some previous) = put plans key previous

-- The plan is stored and its tools are unlocked. A plan that it replaces is no longer in the store.
unfoldable pub install : PlanEngine → PlanState → Result Refusal PlanState × PlanEngine
install e state =
    let key : Key = (state.definition.action_name, state.board_id) in
    let plans : Dict Key PlanState = put e.plans key state in
    let (unlocked, r) = unlock_definition state.definition e.registry state.board_id in
    elim unlocked [
      | ok _ ↦ (ok state, record e { plans = plans; registry = r })
      | raise x ↦ (raise x, record e { plans = restored plans key (get e.plans key); registry = r })
    ]

-- The locked block of `submit`.
unfoldable pub activate :
    PlanEngine → PlanDefinition → Submission → Result Refusal PlanState × PlanEngine
activate e d x = authorize e d x ▷ λ authorization e₁.
    (plan_id_for e₁ x.plan_id_override x.fresh_plan_id, e₁) ▷ λ plan_id e₂.
    install e₂ (new_plan e₂ d x authorization plan_id)

unfoldable pub submit :
    PlanEngine → PlanDefinition → Submission → Result Refusal PlanState × PlanEngine
submit e d x = (validate_budget d x.max_calls x.max_calls_buffer, e) ▷ λ _ e'. activate e' d x
