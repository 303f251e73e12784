-- ===== src/Guardrails/Schema/Envelope.antt =====
-- What `submit` of guardrails/plan_engine.py checks of a call before it activates a plan: the fields of
-- the envelope, the reasoning, the board, the budget and the parameters of the action.
pub mod Asserts
pub mod Executable
use Prim.Native.Char.{Char, code}
use Prim.Native.String.{[], ◌∷◌}
use byo_firmware_mcp.Prelude.{
  ℕ, ◌+◌, suc, String, Bool, true, false, not, ◌&&◌, ◌||◌, Option, none, some, List, [], ◌∷◌, any,
  is_nil, ◌++◌, string_eq, if◌then◌else◌, leb, eqb,
}
use byo_firmware_mcp.Prelude.Result.{Result, ok, raise, ◌>>=◌, ◌>>◌, guard}
use byo_firmware_mcp.Prelude.Sorting.{contains}
use byo_firmware_mcp.Prelude.Text.{strip, is_empty}
use byo_firmware_mcp.Guardrails.Definitions.{
  PlanDefinition, PermissionMode, none_needed, Refusal, policy, assertion_error,
}
use byo_firmware_mcp.Guardrails.Permissions.{is_none_needed}
use byo_firmware_mcp.Guardrails.Plans.Submit.{validate_budget}
use byo_firmware_mcp.Guardrails.Schema.Values.{
  ℤ, pos, negsuc, Value, text, boolean, integer, Members, end, member, names, all_null,
  validate_members,
}
use byo_firmware_mcp.Guardrails.Schema.Canonical.{canonical_action_parameters}
use byo_firmware_mcp.Safety.Document.{is_board_id}
use byo_firmware_mcp.Guardrails.Schema.Fields.{
  FieldType, text_type, integer_type, boolean_type, object_type, FieldDefinition, field_errors,
  value_at, field_names, same_names, ActionSchema, validate_action_parameters,
}

-- A field with no limits.
abbrev pub plain_field : String → FieldType → Bool → FieldDefinition
plain_field name field_type nullable = record {
  name = name;
  field_type = field_type;
  nullable = nullable;
  choices = [];
  minimum = none;
  maximum = none;
  exclusive_minimum = false;
  min_items = none;
  max_items = none;
  allow_empty = false;
}

abbrev pub common_plan_fields : List FieldDefinition
common_plan_fields =
    plain_field "board_id" text_type false
    ∷ plain_field "hypothesis" text_type false
    ∷ plain_field "strategy" text_type false
    ∷ plain_field "hypothesis_made" boolean_type false
    ∷ plain_field "strategy_evaluated" boolean_type false
    ∷ plain_field "expected_fail_return" text_type false
    ∷ plain_field "expected_success_return" text_type false
    ∷ plain_field "max_calls" integer_type false
    ∷ plain_field "max_calls_buffer" integer_type false
    ∷ []

abbrev pub user_permission_field : FieldDefinition
user_permission_field = plain_field "user_permission" text_type true

abbrev pub action_parameters_field : FieldDefinition
action_parameters_field = plain_field "action_parameters" object_type false

unfoldable pub plan_fields : PlanDefinition → List FieldDefinition
plan_fields d =
    common_plan_fields
    ++ (action_parameters_field
        ∷ (if is_none_needed d.permission_mode then [] else user_permission_field ∷ []))

unfoldable pub null_fields : List FieldDefinition
null_fields = common_plan_fields ++ (action_parameters_field ∷ user_permission_field ∷ [])

-- `str.casefold` of one character as far as the placeholders can tell: of the characters beside the
-- ASCII capitals, the Kelvin sign alone folds to letters of a placeholder.
abbrev pub fold_code : ℕ → ℕ
fold_code c = if leb 65 c && leb c 90 then c + 32 else if eqb c 8490 then 107 else c

unfoldable pub same_fold : String → String → Bool
same_fold [] [] = true
same_fold (p ∷ ps) (c ∷ s) = eqb (code p) (fold_code (code c)) && same_fold ps s
same_fold _ _ = false

abbrev pub placeholders : List String
placeholders = "n/a" ∷ "na" ∷ "none" ∷ "null" ∷ "placeholder" ∷ "tbd" ∷ "todo" ∷ "unknown" ∷ []

-- `value.strip().casefold() in _PLACEHOLDERS`
unfoldable pub is_placeholder : String → Bool
is_placeholder s = any (λ p. same_fold p (strip s)) placeholders

abbrev pub is_true : Value → Bool
is_true (boolean b) = b
is_true _ = false

-- `assert isinstance(value, str)`, and the one of an `int`.
unfoldable pub as_text : Value → Result Refusal String
as_text (text s) = ok s
as_text _ = raise assertion_error

unfoldable pub as_int : Value → Result Refusal ℤ
as_int (integer n) = ok n
as_int _ = raise assertion_error

unfoldable pub check_text : Members → String → Result Refusal (Unit {0})
check_text m name = value_at m name >>= as_text >>= λ s.
    guard (not (is_placeholder s)) (policy "plan/placeholder-reasoning")

unfoldable pub validate_reasoning : Members → Result Refusal (Unit {0})
validate_reasoning m = value_at m "hypothesis_made" >>= λ made.
    value_at m "strategy_evaluated" >>= λ evaluated.
    guard (is_true made && is_true evaluated) (policy "plan/reasoning-flags")
    >> check_text m "hypothesis"
    >> check_text m "strategy"
    >> check_text m "expected_fail_return"
    >> check_text m "expected_success_return"

unfoldable pub validate_board_id : Value → Result Refusal String
validate_board_id v = as_text v >>= λ s. guard (is_board_id s) (policy "plan/invalid-board") >> ok s

-- `_validate_budget` on numbers of either sign.
unfoldable pub validate_numbers : PlanDefinition → ℤ → ℤ → Result Refusal (ℕ × ℕ)
validate_numbers d (pos max_calls) (pos max_calls_buffer) =
    validate_budget d max_calls max_calls_buffer
validate_numbers d _ _ = raise (policy "plan/invalid-budget")

unfoldable pub validate_budget_values : PlanDefinition → Value → Value → Result Refusal (ℕ × ℕ)
validate_budget_values d max_calls max_calls_buffer =
    as_int max_calls >>= λ a. as_int max_calls_buffer >>= λ b. validate_numbers d a b

-- What a populated call gives.
pub record CheckedCall : Type 0 where
  pub board_id : String
  pub max_calls : ℕ
  pub max_calls_buffer : ℕ
  pub action_parameters : Members
  pub canonical_parameters : Members

unfoldable pub checked_call : String → ℕ × ℕ → Members → Members → CheckedCall
checked_call board budget parameters canonical = record {
  board_id = board;
  max_calls = budget.0;
  max_calls_buffer = budget.1;
  action_parameters = parameters;
  canonical_parameters = canonical;
}

-- The first call, with every field NULL, or a populated one.
pub data Call : Type 0 where
  first_call : Call
  populated : CheckedCall → Call

-- What is checked of the values of the fields, to `canonical_json(dict(fields))`.
unfoldable pub check_values : PlanDefinition → ActionSchema → Members → Result Refusal CheckedCall
check_values d s m =
    validate_reasoning m
    >> (value_at m "board_id" >>= validate_board_id >>= λ board. value_at m "max_calls" >>= λ a.
        value_at m "max_calls_buffer" >>= λ b. validate_budget_values d a b >>= λ budget.
        value_at m "action_parameters" >>= validate_action_parameters s >>= λ parameters.
        canonical_action_parameters s.action_fields parameters >>= λ canonical.
        validate_members m >> ok (checked_call board budget parameters canonical))

unfoldable pub check_fields : PlanDefinition → ActionSchema → Members → Result Refusal CheckedCall
check_fields d s m =
    guard (same_names (field_names (plan_fields d)) (names m)) (policy "plan/incomplete")
    >> (field_errors (plan_fields d) m >>= λ errors.
        guard (is_nil errors) (policy "plan/invalid-fields") >> check_values d s m)

abbrev pub has_fields : Members → Bool
has_fields end = false
has_fields (member _ _ _) = true

-- `submit` up to the binding of the artifact; `initialized` are the plan tools that had their first
-- call.
unfoldable pub check_call :
    List String → PlanDefinition → ActionSchema → Members → Result Refusal Call
check_call initialized d s m =
    if same_names (field_names null_fields) (names m) && all_null m
    then ok first_call
    else if has_fields m && all_null m
    then raise (policy "plan/invalid-null-call")
    else if not (contains d.plan_tool_name initialized)
    then raise (policy "plan/not-initialized")
    else (check_fields d s m >>= λ c. ok (populated c))

-- What `enforce` checks of a call before it looks for the plan: the board and the parameters as they
-- are compared.
unfoldable pub check_execution : ActionSchema → String → Members → Result Refusal (String × Members)
check_execution s board m = validate_board_id (text board) >>= λ b.
    guard (same_names (field_names s.action_fields) (names m)) (policy "plan/parameter-mismatch")
    >> (field_errors s.action_fields m >>= λ errors.
        guard (is_nil errors) (policy "plan/parameter-mismatch")
        >> canonical_action_parameters s.action_fields m
        >>= λ canonical. ok (b, canonical))
