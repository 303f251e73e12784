-- ===== src/Guardrails/Plans/Close.antt =====
-- The ends of plans in guardrails/plan_engine.py that no call of an action brings about.
use byo_firmware_mcp.Prelude.{
  String, false, not, Option, none, some, [], ◌∷◌, ◌==◌, string_eq, pair_eq, if◌then◌else◌,
}
use byo_firmware_mcp.Prelude.Result.{Result, ok, raise, ◌▷◌}
use byo_firmware_mcp.Prelude.Dict.{Dict}
use byo_firmware_mcp.Kernel.Registry.{ToolRegistry}
use byo_firmware_mcp.Guardrails.Definitions.{PlanDefinition, Refusal, policy}
use byo_firmware_mcp.Guardrails.Permissions.{
  is_none_needed, consume_execution, PermissionAuthorization,
}
use byo_firmware_mcp.Guardrails.Permissions as Permissions
use byo_firmware_mcp.Guardrails.Plans.State.{
  PlanEngine, PlanState, run_closed, Key, active_state, is_active_status,
}
use byo_firmware_mcp.Guardrails.Plans.Locking.{Done, closed, invalidate_locked, relock_definition}

unfoldable pub active_plan : PlanEngine → PlanDefinition → String → Option PlanState
active_plan e d board_id = active_state e (d.action_name, board_id)

unfoldable pub invalidate : PlanEngine → PlanDefinition → String → String → Done PlanEngine
invalidate e d board_id reason = invalidate_locked e (d.action_name, board_id) reason

-- The consumption of the authorization: a policy refusal is passed over.
unfoldable pub consume_quietly :
    PlanEngine → PlanDefinition → String → Option PermissionAuthorization → Done PlanEngine
consume_quietly e d board_id none = (ok tt, e)
consume_quietly e d board_id (some a) =
    if is_none_needed d.permission_mode
    then (ok tt, e)
    else (let (result, p) = consume_execution e.permissions d board_id (some a) in
        (
          elim result [ ok _ ↦ ok tt | raise (policy code) ↦ ok tt | raise x ↦ raise x ],
          record e { permissions = p },
        ))

-- The second locked block of `complete_paired_plan`.
unfoldable pub close_matched : PlanEngine → Key → String → String → Done PlanEngine
close_matched e key plan_id reason = elim (active_state e key) [
  | none ↦ (ok tt, e)
  | some state ↦ if state.plan_id == plan_id then invalidate_locked e key reason else (ok tt, e)
]

-- `complete_paired_plan`; the two functions stand for what other calls do to the engine before and
-- after the consumption.
unfoldable pub complete_paired_plan :
    (PlanEngine → PlanEngine)
    → (PlanEngine → PlanEngine)
    → PlanEngine
    → PlanDefinition
    → String
    → String
    → Option String
    → Done PlanEngine
complete_paired_plan before after e d board_id reason expected =
    let key : Key = (d.action_name, board_id) in
    elim (active_state e key) [
      | none ↦ (ok tt, e)
      | some state ↦
          if (elim expected [ none ↦ false | some id ↦ not (state.plan_id == id) ])
          then (ok tt, e)
          else (consume_quietly (before e) d board_id state.authorization
              ▷ (λ _ e'. close_matched (after e') key state.plan_id reason))
    ]

abbrev pub Closed : Type 0
Closed = Result Refusal (Unit {0}) × (Dict Key PlanState × ToolRegistry)

unfoldable pub with_plan : Key → PlanState → Closed → Closed
with_plan key state rest = (rest.0, ((key, state) ∷ rest.1.0, rest.1.1))

-- The loop of `close_run` over the plans; a raise ends it with the plans that it reached closed.
unfoldable pub close_plans : Dict Key PlanState → ToolRegistry → Closed
close_plans [] r = (ok tt, ([], r))
close_plans ((key, state) ∷ plans) r =
    let rest = λ (r' : ToolRegistry). close_plans plans r' in
    let s = closed run_closed "Server Run ended" state in
    let (relocked, r') = relock_definition state.definition r state.board_id in
    if is_active_status state.status
    then (elim relocked [
      | ok _ ↦ with_plan key s (rest r')
      | raise x ↦ (raise x, ((key, s) ∷ plans, r'))
    ])
    else with_plan key state (rest r)

-- `close_run`, less the plan tools that were initialised; `reset` of the permission provider is that
-- of the store.
unfoldable pub close_run : PlanEngine → Done PlanEngine
close_run e =
    let (result, (plans, r)) = close_plans e.plans e.registry in
    elim result [
      | ok _ ↦ (
        ok tt,
        record e { plans = []; registry = r; permissions = (Permissions.reset e.permissions).1 },
      )
      | raise x ↦ (raise x, record e { plans = plans; registry = r })
    ]
