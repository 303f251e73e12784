-- ===== src/Guardrails/Plans/Enforce/Returns.antt =====
-- The last steps of `enforce` of guardrails/plan_engine.py return: a permission that is valid is
-- consumed, and the tools of a plan are relocked.
use byo_firmware_mcp.Prelude.{
  String, ◌≡◌, refl, ap, ◌∙◌, inl, inr, true, ◌||◌, some, List, [], ◌∷◌, ◌==◌, string_eq, pair_eq,
  arith, eq_iff, Bool-cases, Option-cases,
}
use byo_firmware_mcp.Prelude.Result.{Result, ok, raise-ne-ok, ok-▷}
use byo_firmware_mcp.Prelude.Dict.{get, put}
use byo_firmware_mcp.Kernel.Registry
use byo_firmware_mcp.Kernel.Registry.{ToolDefinition, ToolRegistry}
use byo_firmware_mcp.Guardrails.Definitions.{PlanDefinition}
use byo_firmware_mcp.Guardrails.Permissions.{
  PermissionStore, PermissionAuthorization, is_none_needed, validate_execution, consume_execution,
}
use byo_firmware_mcp.Guardrails.Plans.State.{PlanEngine, PlanState}
use byo_firmware_mcp.Guardrails.Plans.Locking.{relock_all, relock_definition}
use byo_firmware_mcp.Guardrails.Plans.Enforce.{
  Request, key_of, check_permission, consume_permission, relock_closed, close_exhausted,
  exhausted_plan, is_exhausted, take_call,
}

-- A relock of a registered tool returns, and no relock changes which tools are registered.
relock-found :
    (r : ToolRegistry) (name board : String) (d : ToolDefinition)
    → get r.definitions name ≡ some d
    → (Registry.relock r name board).0 ≡ ok tt
unfolding Registry.relock
relock-found r name board d h = rw (h, Registry.relock) refl

relock-definitions :
    (r : ToolRegistry) (name board : String)
    → (Registry.relock r name board).1.definitions ≡ r.definitions
unfolding Registry.relock Registry.bump_if
relock-definitions r name board = ground arith

-- An action that is the primary one or is registered has a definition.
definition-found :
    (r : ToolRegistry) (action primary : String) (d : ToolDefinition)
    → get r.definitions primary ≡ some d
    → ((action == primary) || Registry.is_registered r action) ≡ true
    → (c : ToolDefinition) × (get r.definitions action ≡ some c)
unfolding Registry.is_registered
definition-found r action primary d h k = elim (Option-cases (get r.definitions action)) [
  | inr found ↦ found
  | inl p ↦ elim (Bool-cases (action == primary)) [
    | inl q ↦ (d, ap (get r.definitions) ((eq_iff action primary).0 q) ∙ h)
    | inr q ↦ absurd (ground (arith, p, q, k))
  ]
]

relock_all-ok :
    (actions : List String) (r : ToolRegistry) (primary board : String) (d : ToolDefinition)
    → get r.definitions primary ≡ some d
    → (relock_all actions r primary board).0 ≡ ok tt
unfolding relock_all
relock_all-ok [] r primary board d h = refl
relock_all-ok (action ∷ actions) r primary board d h =
    elim (Bool-cases ((action == primary) || Registry.is_registered r action)) [
      | inr p ↦ rw (p, relock_all) (relock_all-ok actions r primary board d h)
      | inl p ↦
          let (c, found) = definition-found r action primary d h p in
          rw (p, relock-found r action board c found, relock_all)
            (relock_all-ok actions (Registry.relock r action board).1 primary board d
              (ap (λ x. get x primary) (relock-definitions r action board) ∙ h))
    ]

consume-ok :
    (s : PermissionStore) (d : PlanDefinition) (board : String) (a : PermissionAuthorization)
    → (validate_execution s d board (some a)).0 ≡ ok tt
    → (consume_execution s d board (some a)).0 ≡ ok tt
unfolding consume_execution
consume-ok s d board a h = ground (arith, h)

consume_permission-ok :
    (e f : PlanEngine) (q : Request) (s : PlanState)
    → f.permissions ≡ e.permissions
    → (check_permission e q s).0 ≡ ok tt
    → (consume_permission f q s).0 ≡ ok tt
unfolding check_permission consume_permission
consume_permission-ok e f q s same h =
    elim (Bool-cases (is_none_needed q.definition.permission_mode)) [
      | inl p ↦ rw (p, consume_permission) refl
      | inr p ↦ elim (Option-cases s.authorization) [
        | inl c ↦ absurd (raise-ne-ok (rw (p, c, check_permission) at h))
        | inr (a, c) ↦
            rw (p, c, consume_permission)
              (ap (λ x. (consume_execution x q.definition q.board_id (some a)).0) same
                ∙ consume-ok e.permissions q.definition q.board_id a
                    (rw (p, c, check_permission) at h))
      ]
    ]

consume_permission-registry :
    (e : PlanEngine) (q : Request) (s : PlanState)
    → (consume_permission e q s).1.registry ≡ e.registry
unfolding consume_permission
consume_permission-registry e q s = ground arith

relock_closed-returns :
    (e : PlanEngine) (q : Request) (s : PlanState) (d : ToolDefinition)
    → get e.registry.definitions q.definition.action_name ≡ some d
    → (relock_closed e q s).0 ≡ ok s
unfolding relock_closed relock_definition
relock_closed-returns e q s d h =
    rw
      (relock_all-ok (q.definition.action_name ∷ q.definition.paired_actions) e.registry
        q.definition.action_name q.board_id d h)
      refl

-- A call of a plan whose permission is valid and whose tool is registered is taken.
pub take_call-returns :
    (e : PlanEngine) (q : Request) (s : PlanState) (d : ToolDefinition)
    → (check_permission e q s).0 ≡ ok tt
    → get e.registry.definitions q.definition.action_name ≡ some d
    → (u : PlanState) × ((take_call e q s).0 ≡ ok u)
unfolding take_call close_exhausted
take_call-returns e q s d permitted found = elim (Bool-cases (is_exhausted s)) [
  | inr p ↦ (s, rw (p, take_call) refl)
  | inl p ↦
      let e' : PlanEngine = record e { plans = put e.plans (key_of q) s } in
      let consumed = consume_permission-ok e e' q s refl permitted in
      (
        exhausted_plan s,
        rw (p, take_call)
            (ap (λ (y : Result _ PlanState × PlanEngine). y.0)
                (ok-▷ (consume_permission e' q s) _ tt consumed)
              ∙ relock_closed-returns (consume_permission e' q s).1 q (exhausted_plan s) d (
                  ap (λ (r : ToolRegistry). get r.definitions q.definition.action_name)
                    (consume_permission-registry e' q s)
                  ∙ found)),
      )
]
