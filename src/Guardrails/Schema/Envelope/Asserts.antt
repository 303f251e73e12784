-- ===== src/Guardrails/Schema/Envelope/Asserts.antt =====
-- The asserts and the lookups of `submit` of guardrails/plan_engine.py: after the fields were checked,
-- none of them fails.
use mathlib.Core.Path.{subst}
use byo_firmware_mcp.Prelude.{
  ℕ, String, ◌≡◌, refl, ap, sym, ◌∙◌, false, not, ◌&&◌, Option, none, some, List, ◌==◌, string_eq,
  nat_eq, if_rule, All, leb,
}
use byo_firmware_mcp.Prelude.Result.{Result, ok, ◌>>=◌, guard}
use byo_firmware_mcp.Prelude.Sorting.{contains}
use byo_firmware_mcp.Guardrails.Definitions.{PlanDefinition, Refusal}
use byo_firmware_mcp.Safety.Document.{is_board_id}
use byo_firmware_mcp.Guardrails.Plans.Submit.{validate_budget, is_fixed}
use byo_firmware_mcp.Guardrails.Schema.Values.{
  validate_members, ℤ, pos, negsuc, Value, null, text, boolean, integer, float, array, object,
  other, Members, names, all_null,
}
use byo_firmware_mcp.Guardrails.Schema.Fields.Refuses.{
  Refuses, bind-Refuses, seq-Refuses, guard_alone, validate_members-Refuses, guard_names, IsClean,
  guard_fields, validate_action_parameters-Refuses,
}
use byo_firmware_mcp.Guardrails.Schema.Fields.{
  text_type, integer_type, FieldDefinition, FieldError, found, type_error, field_error, value_at,
  field_names, same_names, ActionSchema, validate_action_parameters,
}
use byo_firmware_mcp.Guardrails.Schema.Canonical.{normalized, canonical_action_parameters}
use byo_firmware_mcp.Guardrails.Schema.Envelope.{
  plain_field, common_plan_fields, action_parameters_field, plan_fields, null_fields, as_text,
  as_int, check_text, validate_reasoning, validate_board_id, validate_numbers,
  validate_budget_values, Call, check_values, check_fields, has_fields, check_call,
}

is_refused :
    {e : FieldError} → ◌≡◌ {A = Result Refusal (Option FieldError)} (ok (some e)) (ok none) → ⊥
is_refused h = cc

-- A value that a plain text field takes, and one that a plain integer field takes.
text_value :
    (n : String) (v : Value)
    → field_error (plain_field n text_type false) v ≡ ok none
    → (s : String) × (v ≡ text s)
unfolding field_error type_error
text_value n (text s) h = (s, refl)
text_value n null h = absurd (is_refused h)
text_value n (boolean _) h = absurd (is_refused h)
text_value n (integer _) h = absurd (is_refused h)
text_value n (float _) h = absurd (is_refused h)
text_value n (array _) h = absurd (is_refused h)
text_value n (object _) h = absurd (is_refused h)
text_value n other h = absurd (is_refused h)

integer_value :
    (n : String) (v : Value)
    → field_error (plain_field n integer_type false) v ≡ ok none
    → (i : ℤ) × (v ≡ integer i)
unfolding field_error type_error
integer_value n (integer i) h = (i, refl)
integer_value n null h = absurd (is_refused h)
integer_value n (text _) h = absurd (is_refused h)
integer_value n (boolean _) h = absurd (is_refused h)
integer_value n (float _) h = absurd (is_refused h)
integer_value n (array _) h = absurd (is_refused h)
integer_value n (object _) h = absurd (is_refused h)
integer_value n other h = absurd (is_refused h)

-- The value of a field that is in order is read, and what follows uses it.
read_clean :
    {B : Type 0} (m : Members) (f : FieldDefinition) (k : Value → Result Refusal B)
    → IsClean m f
    → ((v : Value) → field_error f v ≡ ok none → Refuses (k v))
    → Refuses (value_at m f.name >>= k)
unfolding value_at
read_clean m f k (v, p, q) h = subst (λ o. Refuses (found o >>= k)) (sym p) (h v q)

read_text :
    {B : Type 0} (m : Members) (n : String) (k : String → Result Refusal B)
    → IsClean m (plain_field n text_type false)
    → ((s : String) → Refuses (k s))
    → Refuses (value_at m n >>= as_text >>= k)
unfolding as_text value_at
read_text m n k (v, p, q) h =
    let (s, r) = text_value n v q in
    subst (λ o. Refuses (found o >>= as_text >>= k)) (sym (p ∙ ap some r)) (h s)

check_text-Refuses :
    (m : Members) (n : String)
    → IsClean m (plain_field n text_type false)
    → Refuses (check_text m n)
unfolding check_text
check_text-Refuses m n c = read_text m n _ c (λ s. guard_alone _ _)

abbrev CommonClean : Members → Type 0
CommonClean m = All (IsClean m) common_plan_fields

validate_reasoning-Refuses : (m : Members) → CommonClean m → Refuses (validate_reasoning m)
unfolding validate_reasoning
validate_reasoning-Refuses m (board, (h, (s, (made, (evaluated, (fail, (success, rest))))))) =
    read_clean m _ _ made (λ v _. read_clean m _ _ evaluated (λ w _.
      seq-Refuses _ _
        (seq-Refuses _ _
          (seq-Refuses _ _ (seq-Refuses _ _ (guard_alone _ _) (check_text-Refuses m _ h))
            (check_text-Refuses m _ s))
          (check_text-Refuses m _ fail))
        (check_text-Refuses m _ success)))

validate_budget-Refuses : (d : PlanDefinition) (a b : ℕ) → Refuses (validate_budget d a b)
unfolding validate_budget
validate_budget-Refuses d a b =
    if_rule (Refuses {A = ℕ × ℕ}) (leb a 0) _ _ (λ _. tt)
      (λ _.
        if_rule (Refuses {A = ℕ × ℕ}) (is_fixed d.budget_mode && not (a == 1 && b == 0)) _ _
          (λ _. tt) (λ _. tt))

validate_numbers-Refuses : (d : PlanDefinition) (a b : ℤ) → Refuses (validate_numbers d a b)
unfolding validate_numbers
validate_numbers-Refuses d (pos a) (pos b) = validate_budget-Refuses d a b
validate_numbers-Refuses d (pos a) (negsuc b) = tt
validate_numbers-Refuses d (negsuc a) (pos b) = tt
validate_numbers-Refuses d (negsuc a) (negsuc b) = tt

budget_values-Refuses :
    (d : PlanDefinition) (v w : Value)
    → field_error (plain_field "max_calls" integer_type false) v ≡ ok none
    → field_error (plain_field "max_calls_buffer" integer_type false) w ≡ ok none
    → Refuses (validate_budget_values d v w)
unfolding validate_budget_values as_int
budget_values-Refuses d v w h k =
    let (i, p) = integer_value _ v h in
    let (j, q) = integer_value _ w k in
    subst (λ x. Refuses (validate_budget_values d x w)) (sym p)
      (subst (λ y. Refuses (validate_budget_values d (integer i) y)) (sym q)
        (validate_numbers-Refuses d i j))

board_id-Refuses :
    (m : Members)
    → IsClean m (plain_field "board_id" text_type false)
    → Refuses (value_at m "board_id" >>= validate_board_id)
unfolding validate_board_id as_text
board_id-Refuses m c = read_clean m _ validate_board_id c (λ v h.
    let (t, p) = text_value _ v h in
    subst (λ x. Refuses (validate_board_id x)) (sym p)
      (seq-Refuses (guard (is_board_id t) _) (ok t) (guard_alone (is_board_id t) _) tt))

canonical-Refuses :
    (fs : List FieldDefinition) (m : Members) → Refuses (canonical_action_parameters fs m)
unfolding canonical_action_parameters
canonical-Refuses fs m =
    seq-Refuses (validate_members (normalized fs m)) _ (validate_members-Refuses (normalized fs m))
      tt

check_values-Refuses :
    (d : PlanDefinition) (s : ActionSchema) (m : Members)
    → CommonClean m
    → IsClean m action_parameters_field
    → Refuses (check_values d s m)
unfolding check_values
check_values-Refuses d s m c parameters =
    let (board, (_, (_, (_, (_, (_, (_, (calls, (buffer, _))))))))) = c in
    seq-Refuses (validate_reasoning m) _ (validate_reasoning-Refuses m c) (
      bind-Refuses _ _ (board_id-Refuses m board) (λ _ _. read_clean m _ _ calls (λ v h.
        read_clean m _ _ buffer (λ w k. bind-Refuses _ _ (budget_values-Refuses d v w h k) (λ _ _.
          bind-Refuses _ _
            (read_clean m _ (validate_action_parameters s) parameters
              (λ x _. validate_action_parameters-Refuses s x))
            (λ given _.
              bind-Refuses (canonical_action_parameters s.action_fields given) _
                (canonical-Refuses s.action_fields given)
                (λ _ _. seq-Refuses _ _ (validate_members-Refuses m) tt)))))))

plan_fields-IsClean :
    (d : PlanDefinition) (m : Members)
    → All (IsClean m) (plan_fields d)
    → CommonClean m × IsClean m action_parameters_field
unfolding plan_fields
plan_fields-IsClean d m (a, (b, (c, (e, (f, (g, (h, (i, (j, (k, _)))))))))) =
    ((a, (b, (c, (e, (f, (g, (h, (i, (j, tt))))))))), k)

-- Whatever fields a plan call has, submit refuses it with a policy or lets it pass to the binding
-- of the artifact, except that an integer in a number field may be too large for float: no
-- assertion on the type of a field fails, and no field that is read is missing.
pub check_call-Refuses :
    (initialized : List String) (d : PlanDefinition) (s : ActionSchema) (m : Members)
    → Refuses (check_call initialized d s m)
unfolding check_call check_fields
check_call-Refuses initialized d s m =
    if_rule (Refuses {A = Call}) (same_names (field_names null_fields) (names m) && all_null m) _ _
      (λ _. tt)
      (λ _.
        if_rule (Refuses {A = Call}) (has_fields m && all_null m) _ _ (λ _. tt)
          (λ _.
            if_rule (Refuses {A = Call}) (not (contains d.plan_tool_name initialized)) _ _ (λ _. tt)
              (λ _.
                bind-Refuses (check_fields d s m) _
                  (guard_names (plan_fields d) m _ _ (λ i.
                    guard_fields (plan_fields d) m _ (check_values d s m) i (λ c.
                      let (common, parameters) = plan_fields-IsClean d m c in
                      check_values-Refuses d s m common parameters)))
                  (λ _ _. tt))))
