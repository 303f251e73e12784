-- ===== src/Guardrails/Plans/Locking.antt =====
-- Locks of a plan's actions, invalidation and closing in guardrails/plan_engine.py.
use byo_firmware_mcp.Prelude.{
  String, ◌&&◌, ◌||◌, not, none, some, List, [], ◌∷◌, map, ◌==◌, string_eq, pair_eq, if◌then◌else◌,
  filter,
}
use byo_firmware_mcp.Prelude.Result.{Result, ok, raise}
use byo_firmware_mcp.Prelude.Dict.{put}
use byo_firmware_mcp.Kernel.Registry
use byo_firmware_mcp.Kernel.Registry.{ToolRegistry}
use byo_firmware_mcp.Guardrails.Definitions.{PlanDefinition, Refusal, tool_error}
use byo_firmware_mcp.Guardrails.Plans.State.{
  PlanEngine, PlanState, PlanStatus, invalidated, Key, active_state,
}

abbrev pub Done : Type 0 → Type 0
Done S = Result Refusal (Unit {0}) × S

-- Each registry call raises where the tool is unknown; what was relocked before stays so.
unfoldable pub relock_all : List String → ToolRegistry → String → String → Done ToolRegistry
relock_all [] r primary board_id = (ok tt, r)
relock_all (action ∷ actions) r primary board_id =
    let rest = λ (r' : ToolRegistry). relock_all actions r' primary board_id in
    if action == primary || Registry.is_registered r action
    then (let (result, r') = Registry.relock r action board_id in
        elim result [ ok _ ↦ rest r' | raise _ ↦ (raise tool_error, r') ])
    else rest r

-- `_relock_definition`
unfoldable pub relock_definition : PlanDefinition → ToolRegistry → String → Done ToolRegistry
relock_definition d r board_id =
    relock_all (d.action_name ∷ d.paired_actions) r d.action_name board_id

-- The undoing of `_unlock_definition`: relocks ignore nothing, but each tool was just unlocked.
unfoldable pub undo_unlocks : List String → ToolRegistry → String → ToolRegistry
undo_unlocks [] r board_id = r
undo_unlocks (action ∷ actions) r board_id =
    undo_unlocks actions (Registry.relock r action board_id).1 board_id

-- The loop of `_unlock_definition`; `unlocked` holds the last action first.
unfoldable pub unlock_all :
    List String → List String → ToolRegistry → String → String → Done ToolRegistry
unlock_all [] unlocked r primary board_id = (ok tt, r)
unlock_all (action ∷ actions) unlocked r primary board_id =
    let skip = unlock_all actions unlocked r primary board_id in
    let more = λ (r' : ToolRegistry). unlock_all actions (action ∷ unlocked) r' primary board_id in
    if not (action == primary) && not (Registry.is_registered r action)
    then skip
    else (let (result, r') = Registry.unlock r action board_id in
        elim result [
          | ok _ ↦ more r'
          | raise _ ↦ (raise tool_error, undo_unlocks unlocked r' board_id)
        ])

unfoldable pub unlock_definition : PlanDefinition → ToolRegistry → String → Done ToolRegistry
unlock_definition d r board_id =
    unlock_all (d.action_name ∷ d.paired_actions) [] r d.action_name board_id

-- A plan that is closed keeps its budget and loses its artifact.
unfoldable pub closed : PlanStatus → String → PlanState → PlanState
closed status reason state = record state {
  status = status;
  close_reason = some reason;
  artifact_binding = none;
}

-- `_invalidate_locked`
unfoldable pub invalidate_locked : PlanEngine → Key → String → Done PlanEngine
invalidate_locked e key reason = elim (active_state e key) [
  | none ↦ (ok tt, e)
  | some state ↦
      let (result, r') = relock_definition state.definition e.registry state.board_id in
      (
        result,
        record e { plans = put e.plans key (closed invalidated reason state); registry = r' },
      )
]

-- The loop of `invalidate_board` over the keys that were collected; a raise ends it.
unfoldable pub invalidate_keys : List Key → PlanEngine → String → Done PlanEngine
invalidate_keys [] e reason = (ok tt, e)
invalidate_keys (key ∷ keys) e reason =
    let rest = λ (e' : PlanEngine). invalidate_keys keys e' reason in
    let (result, e') = invalidate_locked e key reason in
    elim result [ ok _ ↦ rest e' | raise x ↦ (raise x, e') ]

unfoldable pub invalidate_board : PlanEngine → String → String → Done PlanEngine
invalidate_board e board_id reason =
    invalidate_keys (filter (λ key. key.1 == board_id) (map (λ x. x.0) e.plans)) e reason
