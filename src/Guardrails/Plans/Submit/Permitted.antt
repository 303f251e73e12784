-- ===== src/Guardrails/Plans/Submit/Permitted.antt =====
-- The permission that a plan accepted by `submit` of guardrails/plan_engine.py carries passes the
-- test of `enforce`.
use byo_firmware_mcp.Prelude.{
  ◌≡◌, refl, sym, ap, ◌∙◌, inl, inr, true, ◌⊎◌, Bool-cases, string_eq, Option, some,
}
use byo_firmware_mcp.Prelude.Result.{Result, ok, ok-injective, ▷-ok}
use byo_firmware_mcp.Guardrails.Definitions.{PlanDefinition, Refusal}
use byo_firmware_mcp.Guardrails.Permissions.{
  PermissionAuthorization, PermissionStore, is_none_needed, authorize_plan, validate_execution,
}
use byo_firmware_mcp.Guardrails.Permissions.Active.{IsKeyed}
use byo_firmware_mcp.Guardrails.Permissions.Laws.{authorize-then-validate}
use byo_firmware_mcp.Guardrails.Plans.State.{PlanEngine, PlanState}
use byo_firmware_mcp.Guardrails.Plans.Enforce.{Request, check_permission}
use byo_firmware_mcp.Guardrails.Plans.Submit.{Submission, authorize}
use byo_firmware_mcp.Guardrails.Plans.Submit.Accepts.{primary_request}

abbrev plan_authorization :
    PlanEngine
    → PlanDefinition
    → Submission
    → Result Refusal PermissionAuthorization × PermissionStore
plan_authorization e d x =
    authorize_plan e.permissions d x.board_id x.user_permission x.max_calls x.max_calls_buffer
      x.fresh_grant_id x.now

-- The authorization of an accepted submission.
record PlanAuthorized (e : PlanEngine) (d : PlanDefinition) (x : Submission)
    (a : Option PermissionAuthorization) : Type 0 where
  granted : PermissionAuthorization
  carried : a ≡ some granted
  accepted : (plan_authorization e d x).0 ≡ ok granted
  store : (authorize e d x).1.permissions ≡ (plan_authorization e d x).1

authorize-ok :
    (e : PlanEngine) (d : PlanDefinition) (x : Submission) (a : Option PermissionAuthorization)
    → (authorize e d x).0 ≡ ok a
    → (is_none_needed d.permission_mode ≡ true) ⊎ PlanAuthorized e d x a
unfolding authorize
authorize-ok e d x a h = elim (Bool-cases (is_none_needed d.permission_mode)) [
  | inl p ↦ inl p
  | inr p ↦
      let r = plan_authorization e d x in
      let (granted, accepted, same, moved) =
        ▷-ok (r.0, record e { permissions = r.1 }) (λ b e'. (ok (some b), e')) a
          (rw (p, authorize) at h) in
      inr (record {
        granted = granted;
        carried = sym (ok-injective same);
        accepted = accepted;
        store =
            rw (p, authorize)
              (ap
                (λ (y : Result Refusal (Option PermissionAuthorization) × PlanEngine).
                  y.1.permissions)
                moved);
      })
]

no_permission-passes :
    (e : PlanEngine) (q : Request) (t : PlanState)
    → is_none_needed q.definition.permission_mode ≡ true
    → (check_permission e q t).0 ≡ ok tt
unfolding check_permission
no_permission-passes e q t p = rw (p, check_permission) refl

permission-passes :
    (e : PlanEngine) (q : Request) (t : PlanState) (a : PermissionAuthorization)
    → t.authorization ≡ some a
    → (validate_execution e.permissions q.definition q.board_id (some a)).0 ≡ ok tt
    → (check_permission e q t).0 ≡ ok tt
unfolding check_permission
permission-passes e q t a h k = elim (Bool-cases (is_none_needed q.definition.permission_mode)) [
  | inl p ↦ rw (p, check_permission) refl
  | inr p ↦ rw (p, h, check_permission) k
]

-- The permission that the plan carries is valid.
pub plan_permission-passes :
    (e e' : PlanEngine) (d : PlanDefinition) (x : Submission) (a : Option PermissionAuthorization)
    (t : PlanState)
    → IsKeyed e.permissions
    → (authorize e d x).0 ≡ ok a
    → t.authorization ≡ a
    → e'.permissions ≡ (authorize e d x).1.permissions
    → (check_permission e' (primary_request d x) t).0 ≡ ok tt
plan_permission-passes e e' d x a t keyed h same kept = elim (authorize-ok e d x a h) [
  | inl p ↦ no_permission-passes e' (primary_request d x) t p
  | inr w ↦ permission-passes e' (primary_request d x) t w.granted (same ∙ w.carried) (
      ap (λ p. (validate_execution p d x.board_id (some w.granted)).0) (kept ∙ w.store)
      ∙ authorize-then-validate e.permissions d x.board_id x.user_permission x.max_calls
          x.max_calls_buffer x.fresh_grant_id x.now w.granted keyed w.accepted)
]
