-- ===== src/Guardrails/Plans/Submit/Accepts.antt =====
-- A plan that `submit` of guardrails/plan_engine.py accepted covers its action; a plan that it refused
-- leaves the others as they were.
use byo_firmware_mcp.Prelude.{
  ℕ, ◌+◌, ◌<◌, String, ◌≡◌, refl, sym, ap, ◌∙◌, inl, inr, true, ◌⊎◌, Option, none, some, ==_refl,
  string_eq, pair_eq, option_eq, option_beq_iff, arith, eq_iff, Bool-cases, Option-cases,
  pair_beq_iff,
}
use byo_firmware_mcp.Prelude.Result.{
  Result, ok, raise, ok-injective, raise-ne-ok, Result-cases, ◌▷◌, ▷-ok,
}
use byo_firmware_mcp.Prelude.Dict.{Dict, get, put, get-put, get-pop}
use byo_firmware_mcp.Kernel.Registry
use byo_firmware_mcp.Kernel.Registry.{ToolDefinition, ToolRegistry, RegistryError}
use byo_firmware_mcp.Guardrails.Definitions.{PlanDefinition, Refusal}
use byo_firmware_mcp.Guardrails.Permissions.{PermissionAuthorization}
use byo_firmware_mcp.Guardrails.Plans.State.{
  PlanEngine, PlanState, Key, active_state, is_active_status,
}
use byo_firmware_mcp.Guardrails.Plans.Locking.{unlock_definition}
use byo_firmware_mcp.Guardrails.Plans.Enforce.{
  Request, allowance, check_lock, precheck_active, precheck,
}
use byo_firmware_mcp.Guardrails.Plans.Submit.{
  Submission, authorize, plan_id_for, new_plan, restored, install, activate, validate_budget,
  submit,
}
use byo_firmware_mcp.Guardrails.Plans.Submit.Opens.{unlock_definition-opens}

abbrev key_for : PlanState → Key
key_for s = (s.definition.action_name, s.board_id)

-- What an installation that returns left.
pub record Installed (e : PlanEngine) (s t : PlanState) (e' : PlanEngine) : Type 0 where
  pub same : s ≡ t
  stored : get e'.plans (key_for s) ≡ some t
  pub opened : Registry.is_unlocked e'.registry s.definition.action_name (some s.board_id) ≡ ok true
  same_run : e'.run_id ≡ e.run_id
  pub same_permissions : e'.permissions ≡ e.permissions

install-ok :
    (e : PlanEngine) (s t : PlanState) → (install e s).0 ≡ ok t → Installed e s t (install e s).1
unfolding install
install-ok e s t h = elim (Result-cases (unlock_definition s.definition e.registry s.board_id).0) [
  | inr (x, p) ↦ absurd (raise-ne-ok (rw (p, install) at h))
  | inl (u, p) ↦
      let same : s ≡ t = ok-injective (rw (p, install) at h) in
      rw (p, install)
        (record {
          same = same;
          stored =
              get-put e.plans (key_for s) s (key_for s) ∙ (rw (==_refl (key_for s))) ∙ ap some same;
          opened = unlock_definition-opens s.definition e.registry s.board_id p;
          same_run = refl;
          same_permissions = refl;
        })
]

restored-get :
    (plans : Dict Key PlanState) (key k : Key) (s : PlanState)
    → get (restored (put plans key s) key (get plans key)) k ≡ get plans k
restored-get plans key k s = elim (Option-cases (get plans key)) [
  | inl p ↦ rw p (
      unfold restored in
      ground (
        arith,
        get-pop (put plans key s) key k,
        get-put plans key s k,
        pair_beq_iff key k,
        ap (get plans) {x = key} {y = k},
      ))
  | inr (v, p) ↦ rw p (
      unfold restored in
      ground (
        arith,
        get-put (put plans key s) key v k,
        get-put plans key s k,
        pair_beq_iff key k,
        ap (get plans) {x = key} {y = k},
      ))
]

install-raise :
    (e : PlanEngine) (s : PlanState) (x : Refusal) (k : Key)
    → (install e s).0 ≡ raise x
    → get (install e s).1.plans k ≡ get e.plans k
unfolding install
install-raise e s x k h =
    elim (Result-cases (unlock_definition s.definition e.registry s.board_id).0) [
      | inl (u, p) ↦ absurd (raise-ne-ok (sym (rw (p, install) at h)))
      | inr (y, p) ↦ rw (p, install) (restored-get e.plans (key_for s) k s)
    ]

-- The first call of the primary action that the plan was submitted for.
abbrev pub primary_request : PlanDefinition → Submission → Request
primary_request d x = record {
  action_name = d.action_name;
  definition = d;
  board_id = x.board_id;
  canonical_parameters = x.canonical_parameters;
  session_id = x.session_id;
}

check_lock-opened :
    (e : PlanEngine) (d : PlanDefinition) (x : Submission) (s : PlanState)
    → Registry.is_unlocked e.registry d.action_name (some x.board_id) ≡ ok true
    → check_lock e (primary_request d x) s ≡ ok s
unfolding check_lock
check_lock-opened e d x s h = elim (Bool-cases (Registry.is_registered e.registry d.action_name)) [
  | inl p ↦ rw (check_lock, p, h) refl
  | inr p ↦ rw (check_lock, p, h) refl
]

-- An active plan for the request passes the tests.
precheck-covered :
    (e : PlanEngine) (d : PlanDefinition) (x : Submission) (s : PlanState)
    → active_state e (d.action_name, x.board_id) ≡ some s
    → s.canonical_parameters ≡ x.canonical_parameters
    → s.run_id ≡ e.run_id
    → s.session_id ≡ x.session_id
    → 0 < s.remaining_calls
    → Registry.is_unlocked e.registry d.action_name (some x.board_id) ≡ ok true
    → (expected : Option String) → (expected ≡ none) ⊎ (expected ≡ some s.plan_id)
    → precheck e (primary_request d x) expected ≡ (ok s, e)
unfolding precheck precheck_active allowance
precheck-covered e d x s stored parameters run session budget opened expected h =
    rw (stored, precheck)
      (ground (
        arith,
        eq_iff s.plan_id s.plan_id,
        eq_iff d.action_name d.action_name,
        eq_iff s.canonical_parameters x.canonical_parameters,
        eq_iff s.run_id e.run_id,
        option_beq_iff s.session_id x.session_id,
        check_lock-opened e d x s opened,
      ))

active-stored :
    (e : PlanEngine) (key : Key) (s : PlanState)
    → get e.plans key ≡ some s
    → is_active_status s.status ≡ true
    → active_state e key ≡ some s
unfolding active_state
active-stored e key s h a = ground arith

authorize-kept :
    (e : PlanEngine) (d : PlanDefinition) (x : Submission)
    → ((authorize e d x).1.plans ≡ e.plans) × ((authorize e d x).1.run_id ≡ e.run_id)
unfolding authorize ◌▷◌
authorize-kept e d x = ground arith

-- What an accepted submission is built from.
pub submit-installs :
    (e : PlanEngine) (d : PlanDefinition) (x : Submission) (t : PlanState)
    → (submit e d x).0 ≡ ok t
    → (a : Option PermissionAuthorization) × (id : String) × (0 < x.max_calls)
      × ((authorize e d x).0 ≡ ok a)
      × Installed (authorize e d x).1 (new_plan (authorize e d x).1 d x a id) t (submit e d x).1
unfolding submit activate
submit-installs e d x t h =
    let (_, budget, h₁, m₁) = ▷-ok (validate_budget d x.max_calls x.max_calls_buffer, e) _ t h in
    let (a, granted, h₂, m₂) = ▷-ok (authorize e d x) _ t h₁ in
    let e' : PlanEngine = (authorize e d x).1 in
    let (id, _, h₃, m₃) = ▷-ok (plan_id_for e' x.plan_id_override x.fresh_plan_id, e') _ t h₂ in
    (a, id, positive budget, granted, rw (m₁, m₂, m₃) (install-ok e' (new_plan e' d x a id) t h₃))
  where
    positive :
        {b : ℕ × ℕ} → validate_budget d x.max_calls x.max_calls_buffer ≡ ok b → 0 < x.max_calls
    positive p = unfold validate_budget in ground arith

pub Installed-precheck :
    (e e' : PlanEngine) (d : PlanDefinition) (x : Submission) (a : Option PermissionAuthorization)
    (id : String) (t : PlanState)
    → 0 < x.max_calls
    → Installed e (new_plan e d x a id) t e'
    → (expected : Option String) → (expected ≡ none) ⊎ (expected ≡ some t.plan_id)
    → precheck e' (primary_request d x) expected ≡ (ok t, e')
unfolding new_plan
Installed-precheck e e' d x a id t positive i =
    let calls : t.remaining_calls ≡ x.max_calls + x.max_calls_buffer =
      ap (λ (s : PlanState). s.remaining_calls) (sym i.same) in
    precheck-covered e' d x t
      (active-stored e' (d.action_name, x.board_id) t i.stored
        (ap (λ (s : PlanState). is_active_status s.status) (sym i.same)))
      (ap (λ (s : PlanState). s.canonical_parameters) (sym i.same))
      (ap (λ (s : PlanState). s.run_id) (sym i.same) ∙ sym i.same_run)
      (ap (λ (s : PlanState). s.session_id) (sym i.same)) (rw calls (omega arith)) i.opened

-- A submission that is refused leaves every plan as it was.
pub refused_submit_keeps :
    (e : PlanEngine) (d : PlanDefinition) (x : Submission) (r : Refusal) (k : Key)
    → (submit e d x).0 ≡ raise r
    → get (submit e d x).1.plans k ≡ get e.plans k
unfolding submit activate
refused_submit_keeps e d x r k =
    step (validate_budget d x.max_calls x.max_calls_buffer, e) _ refl
      λ _. step (authorize e d x) _ (authorize-kept e d x).0 λ a.
        step
          (plan_id_for (authorize e d x).1 x.plan_id_override x.fresh_plan_id, (authorize e d x).1)
          _ (authorize-kept e d x).0
          λ id h.
            install-raise _ (new_plan (authorize e d x).1 d x a id) r k h
            ∙ ap (λ m. get m k) (authorize-kept e d x).0
  where
    P : Result Refusal PlanState × PlanEngine → Type 0
    P y = y.0 ≡ raise r → get y.1.plans k ≡ get e.plans k

    step :
        {A : Type 0} (y : Result Refusal A × PlanEngine)
        (f : A → PlanEngine → Result Refusal PlanState × PlanEngine)
        → y.1.plans ≡ e.plans
        → ((v : A) → P (f v y.1))
        → P (y ▷ f)
    step (ok v, e') f same h = unfold ◌▷◌ in h v
    step (raise z, e') f same h = unfold ◌▷◌ in (λ _. ap (λ m. get m k) same)
