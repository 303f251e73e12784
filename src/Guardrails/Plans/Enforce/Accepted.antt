-- ===== src/Guardrails/Plans/Enforce/Accepted.antt =====
-- What a call that `enforce` of guardrails/plan_engine.py accepts had to satisfy, and what it used.
use byo_firmware_mcp.Prelude.{
  ◌<◌, String, ◌≡◌, sym, ap, ◌∙◌, inl, inr, refl, Bool-cases, some, string_eq, pair_eq, option_eq,
  option_beq_iff, arith, eq_iff, Option-cases,
}
use byo_firmware_mcp.Prelude.Result.{Result, ok, ok-injective, raise-ne-ok, ◌▷◌, ▷-ok}
use byo_firmware_mcp.Guardrails.Definitions.{PlanDefinition, Refusal}
use byo_firmware_mcp.Guardrails.Permissions.{
  PermissionStore, PermissionAuthorization, is_none_needed, is_authorized, current_grant,
  drop_stale, validate_execution,
}
use byo_firmware_mcp.Guardrails.Plans.State.{PlanEngine, PlanState, Key, active_state}
use byo_firmware_mcp.Guardrails.Plans.Enforce.{
  Request, key_of, allowance, refuse_closing, check_lock, precheck_active, precheck,
  check_permission, recheck,
}

-- What a plan has to satisfy at the moment of the check.
pub record Covers (e : PlanEngine) (q : Request) (plan_id : String) (state : PlanState)
    : Type 0 where
  pub stored : active_state e (key_of q) ≡ some state
  pub same_plan : state.plan_id ≡ plan_id
  pub same_parameters : state.canonical_parameters ≡ q.canonical_parameters
  pub same_run : state.run_id ≡ e.run_id
  pub same_session : state.session_id ≡ q.session_id
  pub has_budget : 0 < allowance q.definition state q.action_name

refuse_closing-raises :
    (e : PlanEngine) (key : Key) (reason code : String) (s : PlanState)
    → ¬ ((refuse_closing e key reason code).0 ≡ ok s)
unfolding refuse_closing ◌▷◌
refuse_closing-raises e key reason code s h = ground arith

check_lock-same : (e : PlanEngine) (q : Request) (s t : PlanState) → check_lock e q s ≡ ok t → s ≡ t
unfolding check_lock
check_lock-same e q s t h = ground arith

precheck_active-ok :
    (e : PlanEngine) (q : Request) (id : String) (s t : PlanState)
    → (precheck_active e q (some id) s).0 ≡ ok t
    → (s ≡ t)
      × (s.plan_id ≡ id)
      × (s.canonical_parameters ≡ q.canonical_parameters)
      × (s.run_id ≡ e.run_id)
      × (s.session_id ≡ q.session_id)
      × (0 < allowance q.definition s q.action_name)
      × ((precheck_active e q (some id) s).1 ≡ e)
unfolding precheck_active
precheck_active-ok e q id s t h = ground (
  arith,
  eq_iff s.plan_id id,
  eq_iff s.canonical_parameters q.canonical_parameters,
  eq_iff s.run_id e.run_id,
  option_beq_iff s.session_id q.session_id,
  check_lock-same e q s t,
  refuse_closing-raises e (key_of q) "plan belongs to a different Server Run" "plan/run-mismatch" t,
  refuse_closing-raises e (key_of q) "session changed" "plan/session-mismatch" t,
)

precheck-ok :
    (e : PlanEngine) (q : Request) (id : String) (t : PlanState)
    → (precheck e q (some id)).0 ≡ ok t
    → Covers e q id t × ((precheck e q (some id)).1 ≡ e)
unfolding precheck
precheck-ok e q id t h = elim (Option-cases (active_state e (key_of q))) [
  | inl p ↦ absurd (raise-ne-ok (rw (p, precheck) at h))
  | inr (s, p) ↦
      let (same, id_ok, parameters, run, session, budget, kept) =
        precheck_active-ok e q id s t (rw (p, precheck) at h) in
      (
        record {
          stored = p ∙ ap some same;
          same_plan = rw (← same) id_ok;
          same_parameters = rw (← same) parameters;
          same_run = rw (← same) run;
          same_session = rw (← same) session;
          has_budget = rw (← same) budget;
        },
        rw (p, precheck) kept,
      )
]

pub check_permission-plans :
    (e : PlanEngine) (q : Request) (s : PlanState)
    → ((check_permission e q s).1.plans ≡ e.plans)
      × ((check_permission e q s).1.registry ≡ e.registry)
      × ((check_permission e q s).1.run_id ≡ e.run_id)
unfolding check_permission
check_permission-plans e q s = ground arith

-- A recheck that returns found the plan as it is, with its permission valid.
pub recheck-ok :
    (e : PlanEngine) (q : Request) (id : String) (t : PlanState)
    → (recheck e q id).0 ≡ ok t
    → Covers e q id t
      × ((check_permission e q t).0 ≡ ok tt)
      × ((recheck e q id).1 ≡ (check_permission e q t).1)
unfolding recheck
recheck-ok e q id t h =
    let (s, found, h', e₁) = ▷-ok (precheck e q (some id)) _ t h in
    let (covers, kept) = precheck-ok e q id s found in
    let (_, permitted, h'', e₂) = ▷-ok (check_permission (precheck e q (some id)).1 q s) _ t h' in
    let same : s ≡ t = ok-injective h'' in
    (
      rw (← same) covers,
      ap (λ x. (check_permission e q x).0) (sym same)
          ∙ ap (λ (x : PlanEngine). (check_permission x q s).0) (sym kept)
          ∙ permitted,
      ap (λ (x : Result Refusal PlanState × PlanEngine). x.1) (e₁ ∙ e₂)
          ∙ ap (λ (x : PlanEngine). (check_permission x q s).1) kept
          ∙ ap (λ x. (check_permission e q x).1) same,
    )

-- A permission that is valid stands in the store as it is.
validate-kept :
    (s : PermissionStore) (d : PlanDefinition) (board : String) (a : PermissionAuthorization)
    → (validate_execution s d board (some a)).0 ≡ ok tt
    → (validate_execution s d board (some a)).1 ≡ s
unfolding validate_execution is_authorized current_grant drop_stale
validate-kept s d board a h = ground arith

pub check_permission-kept :
    (e : PlanEngine) (q : Request) (s : PlanState)
    → (check_permission e q s).0 ≡ ok tt
    → (check_permission e q s).1 ≡ e
unfolding check_permission
check_permission-kept e q s h = elim (Bool-cases (is_none_needed q.definition.permission_mode)) [
  | inl p ↦ rw (p, check_permission) refl
  | inr p ↦ elim (Option-cases s.authorization) [
    | inl c ↦ absurd (raise-ne-ok (rw (p, c, check_permission) at h))
    | inr (a, c) ↦
        rw (p, c, check_permission)
          (ap (λ x. record e { permissions = x })
            (validate-kept e.permissions q.definition q.board_id a
              (rw (p, c, check_permission) at h)))
  ]
]
