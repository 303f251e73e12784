-- ===== src/Guardrails/Plans/Enforce.antt =====
-- `_precheck_locked`, `_verify_artifact_binding` and `enforce` of guardrails/plan_engine.py, from
-- the point where the parameters were checked against the schema and made canonical.
pub mod Accepted
pub mod Spending
pub mod Returns
use byo_firmware_mcp.Prelude.{
  ℕ, ◌-◌, String, Bool, true, false, ◌&&◌, ◌||◌, not, Option, none, some, List, [], ◌∷◌, ◌==◌,
  string_eq, pair_eq, option_eq, if◌then◌else◌, any, all, eqb,
}
use byo_firmware_mcp.Prelude.Result.{Result, ok, raise, ◌▷◌, ◌>>=◌}
use byo_firmware_mcp.Prelude.Dict.{Dict, get, put}
use byo_firmware_mcp.Prelude.Sorting.{contains}
use byo_firmware_mcp.Kernel.Registry
use byo_firmware_mcp.Guardrails.Definitions.{
  PlanDefinition, Refusal, policy, tool_error, assertion_error,
}
use byo_firmware_mcp.Guardrails.Permissions.{is_none_needed, validate_execution, consume_execution}
use byo_firmware_mcp.Guardrails.Plans.State.{
  PlanEngine, PlanState, PlanStatus, exhausted, invalidated, Key, active_state, paired_for, Files,
  ArtifactDigestBinding, bind_artifact,
}
use byo_firmware_mcp.Guardrails.Plans.Locking.{Done, relock_definition, closed, invalidate_locked}

-- One call of a planned action.
pub record Request : Type 0 where
  pub action_name : String
  pub definition : PlanDefinition
  pub board_id : String
  pub canonical_parameters : String
  pub session_id : Option String

abbrev pub key_of : Request → Key
key_of q = (q.definition.action_name, q.board_id)

-- What is left of the invoked action: the primary allowance, or that of a paired action.
unfoldable pub allowance : PlanDefinition → PlanState → String → ℕ
allowance d state action =
    if action == d.action_name
    then state.remaining_calls
    else if contains action d.paired_actions
    then paired_for state action
    else 0

-- A refusal that first invalidates the plan; what the invalidation raises goes first.
unfoldable pub refuse_closing :
    PlanEngine → Key → String → String → Result Refusal PlanState × PlanEngine
refuse_closing e key reason code =
    invalidate_locked e key reason ▷ λ _ e'. (raise (policy code), e')

-- The lock that is asked for: that of the invoked action where it is registered.
unfoldable pub check_lock : PlanEngine → Request → PlanState → Result Refusal PlanState
check_lock e q state =
    let name =
      if Registry.is_registered e.registry q.action_name
      then q.action_name
      else q.definition.action_name in
    elim (Registry.is_unlocked e.registry name (some q.board_id)) [
      | raise _ ↦ raise tool_error
      | ok true ↦ ok state
      | ok false ↦ raise (policy "plan/tool-locked")
    ]

-- The tests on an active plan, in their order.
unfoldable pub precheck_active :
    PlanEngine → Request → Option String → PlanState → Result Refusal PlanState × PlanEngine
precheck_active e q expected state =
    if (elim expected [ none ↦ false | some id ↦ not (state.plan_id == id) ])
    then (raise (policy "plan/replaced"), e)
    else if not (state.canonical_parameters == q.canonical_parameters)
    then (raise (policy "plan/parameter-mismatch"), e)
    else if not (state.run_id == e.run_id)
    then refuse_closing e (key_of q) "plan belongs to a different Server Run" "plan/run-mismatch"
    else if eqb (allowance q.definition state q.action_name) 0
    then (raise (policy "plan/action-exhausted"), e)
    else if not (state.session_id == q.session_id)
    then refuse_closing e (key_of q) "session changed" "plan/session-mismatch"
    else (check_lock e q state, e)

-- `_precheck_locked`
unfoldable pub precheck :
    PlanEngine → Request → Option String → Result Refusal PlanState × PlanEngine
precheck e q expected = elim (active_state e (key_of q)) [
  | none ↦ (raise (policy "plan/no-active-plan"), e)
  | some state ↦ precheck_active e q expected state
]

-- `_invalidate_for_artifact_change`, for the plan that the call began with.
unfoldable pub invalidate_for : PlanEngine → Key → String → String → Done PlanEngine
invalidate_for e key plan_id reason = elim (get e.plans key) [
  | none ↦ (ok tt, e)
  | some state ↦ if state.plan_id == plan_id then invalidate_locked e key reason else (ok tt, e)
]

unfoldable pub same_binding : ArtifactDigestBinding → ArtifactDigestBinding → Bool
same_binding expected observed =
    observed.resolved_path == expected.resolved_path && observed.sha256 == expected.sha256

-- `_verify_artifact_binding`
unfoldable pub verify_artifact :
    Files → PlanEngine → Request → String → ArtifactDigestBinding → Done PlanEngine
verify_artifact files e q plan_id expected =
    let changed : Done PlanEngine =
      invalidate_for e (key_of q) plan_id "plan-bound artifact changed"
      ▷ (λ _ e'. (raise (policy "plan/artifact-changed"), e')) in
    elim (bind_artifact files q.definition (some expected.supplied_path)) [
      | raise _ ↦ changed
      | ok none ↦ (raise assertion_error, e)
      | ok (some observed) ↦ if same_binding expected observed then (ok tt, e) else changed
    ]

unfoldable pub verify_if_bound :
    Files → PlanEngine → Request → String → Option ArtifactDigestBinding → Done PlanEngine
verify_if_bound files e q plan_id none = (ok tt, e)
verify_if_bound files e q plan_id (some expected) = verify_artifact files e q plan_id expected

-- The permission check of a plan that carries an authorization.
unfoldable pub check_permission : PlanEngine → Request → PlanState → Done PlanEngine
check_permission e q state =
    if is_none_needed q.definition.permission_mode then (ok tt, e) else elim state.authorization [
      | none ↦ (raise assertion_error, e)
      | some a ↦
          let (result, p) = validate_execution e.permissions q.definition q.board_id (some a) in
          (result, record e { permissions = p })
    ]

unfoldable pub recheck : PlanEngine → Request → String → Result Refusal PlanState × PlanEngine
recheck e q plan_id =
    precheck e q (some plan_id) ▷ λ state e'. check_permission e' q state ▷ λ _ e''. (ok state, e'')

-- One call off the allowance of the invoked action.
unfoldable pub spent : Request → PlanState → PlanState
spent q state =
    if q.action_name == q.definition.action_name
    then record state { remaining_calls = state.remaining_calls - 1 }
    else record state {
      paired_remaining =
          put state.paired_remaining q.action_name (paired_for state q.action_name - 1);
    }

unfoldable pub is_exhausted : PlanState → Bool
is_exhausted state = eqb state.remaining_calls 0 && all (λ x. eqb x.1 0) state.paired_remaining

unfoldable pub consume_permission : PlanEngine → Request → PlanState → Done PlanEngine
consume_permission e q state =
    if is_none_needed q.definition.permission_mode then (ok tt, e) else elim state.authorization [
      | none ↦ (raise assertion_error, e)
      | some a ↦
          let (result, p) = consume_execution e.permissions q.definition q.board_id (some a) in
          (result, record e { permissions = p })
    ]

-- A closed plan is stored, and its tools are relocked.
unfoldable pub relock_closed :
    PlanEngine → Request → PlanState → Result Refusal PlanState × PlanEngine
relock_closed e q state =
    let (relocked, r) = relock_definition q.definition e.registry q.board_id in
    (relocked >>= (λ _. ok state), record e { plans = put e.plans (key_of q) state; registry = r })

unfoldable pub exhausted_plan : PlanState → PlanState
exhausted_plan = closed exhausted "primary and paired call allowances exhausted at execution start"

-- The plan after its last call: closed, its tools relocked.
unfoldable pub close_exhausted :
    PlanEngine → Request → PlanState → Result Refusal PlanState × PlanEngine
close_exhausted e q state =
    consume_permission e q state ▷ λ _ e'. relock_closed e' q (exhausted_plan state)

-- The plan with one call less is stored, and closed if it has none left.
unfoldable pub take_call : PlanEngine → Request → PlanState → Result Refusal PlanState × PlanEngine
take_call e q state =
    let e' : PlanEngine = record e { plans = put e.plans (key_of q) state } in
    if is_exhausted state then close_exhausted e' q state else (ok state, e')

-- The last locked block of `enforce`: it rechecks the plan and takes one call of its budget.
unfoldable pub execute_locked :
    PlanEngine → Request → String → Result Refusal PlanState × PlanEngine
execute_locked e q plan_id = recheck e q plan_id ▷ λ state e'. take_call e' q (spent q state)

-- What happens around one call: what other calls do to the engine between the locked blocks, the
-- files at both verifications, and whether the two callbacks return.
pub record Surroundings : Type 0 where
  pub before_scope : PlanEngine → PlanEngine
  pub after_scope : PlanEngine → PlanEngine
  pub after_preconditions : PlanEngine → PlanEngine
  pub before_execution : PlanEngine → PlanEngine
  pub files : Files
  pub later_files : Files
  pub in_scope : Bool
  pub preconditions_met : Bool

-- The first locked block, with the verification of the artifact.
unfoldable pub begin :
    Surroundings
    → PlanEngine
    → Request
    → Result Refusal (String × Option ArtifactDigestBinding) × PlanEngine
begin w e q = precheck e q none ▷ λ state e'.
    verify_if_bound w.files e' q state.plan_id state.artifact_binding ▷ λ _ e''.
    (ok (state.plan_id, state.artifact_binding), e'')

-- The scope validator and the second locked block.
unfoldable pub check_scope :
    Surroundings → PlanEngine → Request → String → Result Refusal PlanState × PlanEngine
check_scope w e q plan_id =
    if w.in_scope
    then recheck (w.after_scope e) q plan_id
    else invalidate_for (w.after_scope e) (key_of q) plan_id
        "board assignment or session is no longer valid"
      ▷ (λ _ e'. (raise (policy "scope"), e'))

-- The preconditions and the second verification.
unfoldable pub prepare :
    Surroundings → PlanEngine → Request → String → Option ArtifactDigestBinding → Done PlanEngine
prepare w e q plan_id binding =
    if w.preconditions_met
    then verify_if_bound w.later_files (w.after_preconditions e) q plan_id binding
    else (raise (policy "precondition"), w.after_preconditions e)

unfoldable pub enforce : Surroundings → PlanEngine → Request → Result Refusal PlanState × PlanEngine
enforce w e q = begin w e q ▷ λ started e₁. check_scope w (w.before_scope e₁) q started.0 ▷ λ _ e₂.
    prepare w e₂ q started.0 started.1 ▷ λ _ e₃. execute_locked (w.before_execution e₃) q started.0
