-- ===== src/Guardrails/Schema/Envelope/Executable.antt =====
-- `submit` and then `enforce` of guardrails/plan_engine.py on the same parameters.
use mathlib.Core.Path.{subst}
use byo_firmware_mcp.Prelude.{
  String, ◌≡◌, refl, ap, ◌∙◌, Bool, true, false, not, ◌&&◌, List, string_eq, is_nil, Bool-cases,
  inl, inr,
}
use byo_firmware_mcp.Prelude.Result.{
  Result, ok, ◌>>=◌, guard, ok-injective, raise-ne-ok, >>=-ok, >>-ok,
}
use byo_firmware_mcp.Prelude.Sorting.{contains}
use byo_firmware_mcp.Safety.Document.{is_board_id}
use byo_firmware_mcp.Guardrails.Definitions.{PlanDefinition, Refusal}
use byo_firmware_mcp.Guardrails.Schema.Values.{
  Value, null, text, boolean, integer, float, array, object, other, Members, names, all_null,
  validate_members,
}
use byo_firmware_mcp.Guardrails.Schema.Fields.{
  FieldError, field_errors, field_names, same_names, ActionSchema, value_at, validate_parameters,
  validate_action_parameters,
}
use byo_firmware_mcp.Guardrails.Schema.Canonical.{canonical_action_parameters}
use byo_firmware_mcp.Guardrails.Schema.Envelope.{
  null_fields, as_text, validate_reasoning, validate_board_id, validate_budget_values, CheckedCall,
  checked_call, first_call, populated, check_values, check_fields, has_fields, check_call,
  check_execution, plan_fields,
}

guard-true : {E : Type 0} (b : Bool) (e : E) (u : Unit {0}) → guard b e ≡ ok u → b ≡ true
guard-true true e u h = refl
guard-true false e u h = absurd (raise-ne-ok h)

is_object :
    (s : ActionSchema) (v : Value) (p : Members)
    → validate_action_parameters s v ≡ ok p
    → (m : Members) × (validate_parameters s m ≡ ok p)
unfolding validate_action_parameters
is_object s (object m) p h = (m, h)
is_object s null p h = absurd (raise-ne-ok h)
is_object s (text _) p h = absurd (raise-ne-ok h)
is_object s (boolean _) p h = absurd (raise-ne-ok h)
is_object s (integer _) p h = absurd (raise-ne-ok h)
is_object s (float _) p h = absurd (raise-ne-ok h)
is_object s (array _) p h = absurd (raise-ne-ok h)
is_object s other p h = absurd (raise-ne-ok h)

-- The parameters that are accepted have the names of the fields, and no field has an error.
IsValid : ActionSchema → Members → Type 0
IsValid s m =
    (same_names (field_names s.action_fields) (names m) ≡ true)
    × (es : List (String × FieldError)) × (field_errors s.action_fields m ≡ ok es)
    × (is_nil es ≡ true)

validate_parameters-IsValid :
    (s : ActionSchema) (m p : Members) → validate_parameters s m ≡ ok p → IsValid s p
unfolding validate_parameters IsValid
validate_parameters-IsValid s m p h =
    let (u, a, h₁) = >>-ok (guard (same_names (field_names s.action_fields) (names m)) _) _ p h in
    let (es, b, h₂) = >>=-ok (field_errors s.action_fields m) _ p h₁ in
    let (_, h₃, same) = >>-ok _ (ok m) p h₂ in
    let (_, h₄, _) = >>-ok _ (validate_members m) _ h₃ in
    let (v, c, _) = >>-ok (guard (is_nil es) _) _ _ h₄ in
    subst (IsValid s) (ok-injective same) (guard-true _ _ u a, es, b, guard-true _ _ v c)

board_id-ok : (v : Value) (b : String) → validate_board_id v ≡ ok b → is_board_id b ≡ true
unfolding validate_board_id
board_id-ok v b h =
    let (t, _, h₁) = >>=-ok (as_text v) _ b h in
    let (u, a, same) = >>-ok (guard (is_board_id t) _) (ok t) b h₁ in
    rw (← ok-injective same) (guard-true _ _ u a)

-- What a checked call satisfies.
IsChecked : ActionSchema → CheckedCall → Type 0
IsChecked s c =
    (is_board_id c.board_id ≡ true)
    × IsValid s c.action_parameters
    × (canonical_action_parameters s.action_fields c.action_parameters ≡ ok c.canonical_parameters)

check_values-IsChecked :
    (d : PlanDefinition) (s : ActionSchema) (m : Members) (c : CheckedCall)
    → check_values d s m ≡ ok c
    → IsChecked s c
unfolding check_values IsChecked checked_call
check_values-IsChecked d s m c h =
    let (_, _, h₁) = >>-ok (validate_reasoning m) _ c h in
    let (board, e, h₂) = >>=-ok (value_at m "board_id" >>= validate_board_id) _ c h₁ in
    let (v, _, e₁) = >>=-ok (value_at m "board_id") validate_board_id board e in
    let (a, _, h₃) = >>=-ok (value_at m "max_calls") _ c h₂ in
    let (b, _, h₄) = >>=-ok (value_at m "max_calls_buffer") _ c h₃ in
    let (budget, _, h₅) = >>=-ok (validate_budget_values d a b) _ c h₄ in
    let (p, f, h₆) =
      >>=-ok (value_at m "action_parameters" >>= validate_action_parameters s) _ c h₅ in
    let (x, _, f₁) = >>=-ok (value_at m "action_parameters") (validate_action_parameters s) p f in
    let (given, f₂) = is_object s x p f₁ in
    let (bound, g, h₇) = >>=-ok (canonical_action_parameters s.action_fields p) _ c h₆ in
    let (_, _, same) = >>-ok (validate_members m) (ok (checked_call board budget p bound)) c h₇ in
    subst (IsChecked s) (ok-injective same)
      (board_id-ok v board e₁, validate_parameters-IsValid s given p f₂, g)

IsChecked-check_execution :
    (s : ActionSchema) (c : CheckedCall)
    → IsChecked s c
    → check_execution s c.board_id c.action_parameters ≡ ok (c.board_id, c.canonical_parameters)
unfolding check_execution validate_board_id as_text IsChecked IsValid
IsChecked-check_execution s c (board, (same, es, errors, clean), bound) =
    rw (board, same, errors, clean, bound) refl

populated-ok :
    (m : Result Refusal CheckedCall) (c : CheckedCall)
    → (m >>= λ x. ok (populated x)) ≡ ok (populated c)
    → m ≡ ok c
populated-ok m c h =
    let (x, p, q) = >>=-ok m (λ x. ok (populated x)) (populated c) h in
    p ∙ ap ok (populated-injective (ok-injective q))
  where
    populated-injective : {x y : CheckedCall} → populated x ≡ populated y → x ≡ y
    populated-injective h = cc

check_fields-IsChecked :
    (d : PlanDefinition) (s : ActionSchema) (m : Members) (c : CheckedCall)
    → check_fields d s m ≡ ok c
    → IsChecked s c
unfolding check_fields
check_fields-IsChecked d s m c h =
    let (_, _, h₁) = >>-ok (guard (same_names (field_names (plan_fields d)) (names m)) _) _ c h in
    let (es, _, h₂) = >>=-ok (field_errors (plan_fields d) m) _ c h₁ in
    let (_, _, h₃) = >>-ok (guard (is_nil es) _) (check_values d s m) c h₂ in
    check_values-IsChecked d s m c h₃

call_fields :
    (initialized : List String) (d : PlanDefinition) (s : ActionSchema) (m : Members)
    (c : CheckedCall)
    → check_call initialized d s m ≡ ok (populated c)
    → check_fields d s m ≡ ok c
unfolding check_call
call_fields initialized d s m c h =
    elim (Bool-cases (same_names (field_names null_fields) (names m) && all_null m)) [
      | inl p ↦ absurd (first-ne-populated (ok-injective (rw p at h)))
      | inr p ↦ elim (Bool-cases (has_fields m && all_null m)) [
        | inl q ↦ absurd (raise-ne-ok (rw (p, q) at h))
        | inr q ↦ elim (Bool-cases (not (contains d.plan_tool_name initialized))) [
          | inl r ↦ absurd (raise-ne-ok (rw (p, q, r) at h))
          | inr r ↦ populated-ok (check_fields d s m) c (rw (p, q, r) at h)
        ]
      ]
    ]
  where
    first-ne-populated : first_call ≡ populated c → ⊥
    first-ne-populated h = cc

-- A populated plan call that submit checked without a refusal has a board and parameters that
-- enforce takes: it refuses neither for its schema, and the form of the parameters that it
-- compares is the one that submit binds into the plan.
pub checked-then-executable :
    (initialized : List String) (d : PlanDefinition) (s : ActionSchema) (m : Members)
    (c : CheckedCall)
    → check_call initialized d s m ≡ ok (populated c)
    → check_execution s c.board_id c.action_parameters ≡ ok (c.board_id, c.canonical_parameters)
checked-then-executable initialized d s m c h =
    IsChecked-check_execution s c
      (check_fields-IsChecked d s m c (call_fields initialized d s m c h))
