-- ===== src/Guardrails/Plans/Submit/Admits.antt =====
-- The first call of a plan that `submit` of guardrails/plan_engine.py accepted.
use mathlib.Core.Path.{subst}
use byo_firmware_mcp.Prelude.Dict.{get}
use byo_firmware_mcp.Kernel.Registry
use byo_firmware_mcp.Kernel.Registry.{ToolDefinition, ToolRegistry}
use byo_firmware_mcp.Guardrails.Plans.Enforce.Returns.{take_call-returns}
use byo_firmware_mcp.Guardrails.Plans.Enforce.Spending.{Charges, execute-Charges}
use byo_firmware_mcp.Prelude.{
  ℕ, ◌+◌, Option-cases, some-injective, ◌-◌, String, ◌≡◌, refl, sym, ap, ◌∙◌, inl, inr, true, ◌⊎◌,
  ==_refl, string_eq, Option, none, some,
}
use byo_firmware_mcp.Prelude.Result.{Result, ok, raise-ne-ok, ◌▷◌}
use byo_firmware_mcp.Guardrails.Definitions.{PlanDefinition, Refusal}
use byo_firmware_mcp.Guardrails.Permissions.Active.{IsKeyed}
use byo_firmware_mcp.Guardrails.Plans.State.{
  PlanEngine, PlanState, Files, ArtifactDigestBinding, bind_artifact,
}
use byo_firmware_mcp.Guardrails.Plans.Enforce.{
  allowance, Request, precheck, same_binding, verify_artifact, verify_if_bound, check_permission,
  recheck, enforce, begin, check_scope, prepare, execute_locked, take_call, spent, Surroundings,
}
use byo_firmware_mcp.Guardrails.Plans.Enforce.Accepted.{check_permission-kept, recheck-ok}
use byo_firmware_mcp.Guardrails.Plans.Submit.{Submission, authorize, new_plan, submit}
use byo_firmware_mcp.Guardrails.Plans.Submit.Accepts.{
  primary_request, submit-installs, Installed-precheck,
}
use byo_firmware_mcp.Guardrails.Plans.Submit.Permitted.{plan_permission-passes}

spent-primary :
    (d : PlanDefinition) (x : Submission) (t : PlanState)
    → spent (primary_request d x) t ≡ record t { remaining_calls = t.remaining_calls - 1 }
unfolding spent
spent-primary d x t = rw (==_refl d.action_name) refl

-- The artifact of a plan is still as it was bound.
abbrev pub IsUnchanged : Files → PlanDefinition → Option ArtifactDigestBinding → Type 0
IsUnchanged files d none = Unit
IsUnchanged files d (some binding) =
    bind_artifact files d (some binding.supplied_path) ≡ ok (some binding)

unchanged-verified :
    (files : Files) (e : PlanEngine) (d : PlanDefinition) (x : Submission) (id : String)
    (binding : Option ArtifactDigestBinding)
    → IsUnchanged files d binding
    → verify_if_bound files e (primary_request d x) id binding ≡ (ok tt, e)
unfolding verify_if_bound verify_artifact same_binding bind_artifact
unchanged-verified files e d x id none h = refl
unchanged-verified files e d x id (some b) h =
    rw (h, ==_refl b.resolved_path, ==_refl b.sha256) refl

-- A call during which nothing else happens to the engine, whose board is in scope and whose
-- preconditions are met.
abbrev pub quiet : Files → Surroundings
quiet files = record {
  before_scope = λ e. e;
  after_scope = λ e. e;
  after_preconditions = λ e. e;
  before_execution = λ e. e;
  files = files;
  later_files = files;
  in_scope = true;
  preconditions_met = true;
}

-- A part that returns hands its value and state on.
▷_next :
    {A B S : Type 0} (y : Result Refusal A × S) (f : A → S → Result Refusal B × S) (a : A) (s : S)
    → y ≡ (ok a, s)
    → (y ▷ f) ≡ f a s
unfolding ◌▷◌
▷_next y f a s h = ap (λ z. z ▷ f) h

-- Where every test passes, a quiet call comes to the charge.
module _ (files : Files) (e : PlanEngine) (q : Request) (t : PlanState)
    (found : (expected : Option String)
      → (expected ≡ none) ⊎ (expected ≡ some t.plan_id)
      → precheck e q expected ≡ (ok t, e))
    (verified : verify_if_bound files e q t.plan_id t.artifact_binding ≡ (ok tt, e))
    (permitted : check_permission e q t ≡ (ok tt, e)) where
  begin-passes : begin (quiet files) e q ≡ (ok (t.plan_id, t.artifact_binding), e)
  unfolding begin
  begin-passes = ▷_next _ _ t e (found none (inl refl)) ∙ ▷_next _ _ tt e verified

  recheck-passes : recheck e q t.plan_id ≡ (ok t, e)
  unfolding recheck
  recheck-passes = ▷_next _ _ t e (found (some t.plan_id) (inr refl)) ∙ ▷_next _ _ tt e permitted

  execute-take_call : execute_locked e q t.plan_id ≡ take_call e q (spent q t)
  unfolding execute_locked
  execute-take_call = ▷_next _ _ t e recheck-passes

  enforce-take_call : enforce (quiet files) e q ≡ take_call e q (spent q t)
  unfolding enforce check_scope prepare
  enforce-take_call =
      ▷_next (begin (quiet files) e q) _ (t.plan_id, t.artifact_binding) e begin-passes
      ∙ ▷_next (recheck e q t.plan_id) _ t e recheck-passes
      ∙ ▷_next (verify_if_bound files e q t.plan_id t.artifact_binding) _ tt e verified
      ∙ execute-take_call

-- A tool that is open is registered.
open-registered :
    (r : ToolRegistry) (name board : String)
    → Registry.is_unlocked r name (some board) ≡ ok true
    → (d : ToolDefinition) × (get r.definitions name ≡ some d)
unfolding Registry.is_unlocked
open-registered r name board h = elim (Option-cases (get r.definitions name)) [
  | inl p ↦ absurd (raise-ne-ok (rw (p, Registry.is_unlocked) at h))
  | inr found ↦ found
]

-- The primary allowance is what remains of the calls.
allowance-primary :
    (d : PlanDefinition) (s : PlanState) → allowance d s d.action_name ≡ s.remaining_calls
unfolding allowance
allowance-primary d s = rw (==_refl d.action_name) refl

-- What is left of a plan after its first call.
abbrev pub IsLet :
    PlanEngine → Request → PlanState → ℕ → Result Refusal PlanState × PlanEngine → Type 0
IsLet e q t calls outcome =
    (u : PlanState) × (outcome.0 ≡ ok u)
    × Charges e q t.plan_id u outcome.1
    × (u.remaining_calls ≡ calls - 1)

execute-IsLet :
    (e : PlanEngine) (q : Request) (t u : PlanState)
    → q.action_name ≡ q.definition.action_name
    → recheck e q t.plan_id ≡ (ok t, e)
    → (execute_locked e q t.plan_id).0 ≡ ok u
    → IsLet e q t t.remaining_calls (execute_locked e q t.plan_id)
execute-IsLet e q t u primary passes h =
    let charges = execute-Charges e q t.plan_id u h in
    let (covers, _, _) = recheck-ok e q t.plan_id t (ap (λ y. y.0) passes) in
    let same : charges.state ≡ t = some-injective (sym charges.covers.stored ∙ covers.stored) in
    (
      u,
      h,
      charges,
      sym (allowance-primary q.definition u)
          ∙ charges.left q.definition.action_name
          ∙ rw (primary, ==_refl q.definition.action_name)
              (ap (λ n. n - 1)
                (ap (λ s. allowance q.definition s q.definition.action_name) same
                  ∙ allowance-primary q.definition t)),
    )

-- The first call of the primary action of a plan that was accepted passes every test of enforce,
-- where nothing else changes the engine meanwhile, the board is in scope, the preconditions are
-- met and the artifact is still as it was bound: the tests on the plan and its lock, the
-- permission that the submission was given, and both verifications of the artifact. Enforce
-- returns, one call is charged to that plan, and one less than the calls and the buffer that were
-- submitted remains, also where it was the last one. The grants must stand under their own action
-- and board.
pub submit-then-enforce :
    (files : Files) (e : PlanEngine) (d : PlanDefinition) (x : Submission) (t : PlanState)
    → IsKeyed e.permissions
    → IsUnchanged files d x.artifact_binding
    → (submit e d x).0 ≡ ok t
    → IsLet
        (submit e d x).1
        (primary_request d x)
        t
        (x.max_calls + x.max_calls_buffer)
        (enforce (quiet files) (submit e d x).1 (primary_request d x))
unfolding new_plan
submit-then-enforce files e d x t keyed unchanged h =
    let (a, id, positive, granted, i) = submit-installs e d x t h in
    let e' : PlanEngine = (submit e d x).1 in
    let q : Request = primary_request d x in
    let bound : x.artifact_binding ≡ t.artifact_binding =
      ap (λ (s : PlanState). s.artifact_binding) i.same in
    let calls : t.remaining_calls ≡ x.max_calls + x.max_calls_buffer =
      ap (λ (s : PlanState). s.remaining_calls) (sym i.same) in
    let passes : (s : PlanState)
        → s.authorization ≡ t.authorization
        → (check_permission e' q s).0 ≡ ok tt =
      λ s same.
        plan_permission-passes e e' d x a s keyed granted
          (same ∙ ap (λ (s : PlanState). s.authorization) (sym i.same)) i.same_permissions in
    let permitted : check_permission e' q t ≡ (ok tt, e') =
      λ j. (passes t refl j, check_permission-kept e' q t (passes t refl) j) in
    let found = Installed-precheck (authorize e d x).1 e' d x a id t positive i in
    let verified =
      unchanged-verified files e' d x t.plan_id t.artifact_binding
        (subst (IsUnchanged files d) bound unchanged) in
    let (c, registered) = open-registered e'.registry d.action_name x.board_id i.opened in
    let (u, taken) =
      take_call-returns e' q (spent q t) c
        (passes (spent q t) (ap (λ (s : PlanState). s.authorization) (spent-primary d x t)))
        registered in
    let charged = execute-take_call files e' q t found verified permitted in
    subst (λ n. IsLet e' q t n (enforce (quiet files) e' q)) calls
      (subst (IsLet e' q t t.remaining_calls)
        (charged ∙ sym (enforce-take_call files e' q t found verified permitted))
        (execute-IsLet e' q t u refl (recheck-passes files e' q t found verified permitted)
          (ap (λ (y : Result Refusal PlanState × PlanEngine). y.0) charged ∙ taken)))
