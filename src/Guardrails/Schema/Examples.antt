-- ===== src/Guardrails/Schema/Examples.antt =====
-- The schema of `read_serial` in guardrails/plan_defs.py, on which the statements about
-- guardrails/plan_engine.py are exercised.
use byo_firmware_mcp.Prelude.{
  String, ◌≡◌, refl, true, false, none, some, List, [], ◌∷◌, inl, inr, string_eq, any, all,
}
use byo_firmware_mcp.Prelude.Result.{ok, raise}
use byo_firmware_mcp.Prelude.Sorting.{contains}
use byo_firmware_mcp.Prelude.Text.{is_blank, is_space, strip, lstrip, rstrip}
use byo_firmware_mcp.Safety.Document.{is_board_id, board_chars}
use byo_firmware_mcp.Guardrails.Definitions.{
  PlanDefinition, flexible, none_needed, policy, overflow_error,
}
use byo_firmware_mcp.Guardrails.Plans.Submit.{validate_budget}
use byo_firmware_mcp.Guardrails.Schema.Values.{
  pos, finite, is_integral, leb_float, ltb_float, Value, null, text, boolean, integer, float,
  object, Members, end, member, count_items, lookup, names, all_null, validate_json, validate_items,
  validate_members,
}
use byo_firmware_mcp.Guardrails.Schema.Fields.{
  text_type, integer_type, number_type, boolean_type, object_type, FieldDefinition, float_limit,
  number_error, json_error, type_error, limit_error, first_error, field_error, value_at,
  field_errors, same_names, ActionSchema, semantic_error, validate_parameters,
  validate_action_parameters,
}
use byo_firmware_mcp.Guardrails.Schema.Fields.Refuses.{Refuses}
use byo_firmware_mcp.Guardrails.Schema.Canonical.{
  canonical_action_parameters, put_member, normalize_field, normalized, integral_value, to_int,
}
use byo_firmware_mcp.Guardrails.Schema.Canonical.Numbers.{as_float, normalized-as_float}
use byo_firmware_mcp.Guardrails.Schema.Envelope.{
  plain_field, same_fold, check_execution, plan_fields, null_fields, is_placeholder, as_text,
  as_int, check_text, validate_reasoning, validate_board_id, validate_numbers,
  validate_budget_values, CheckedCall, checked_call, populated, check_values, check_fields,
  check_call,
}
use byo_firmware_mcp.Guardrails.Schema.Envelope.Asserts.{check_call-Refuses}
use byo_firmware_mcp.Guardrails.Schema.Envelope.Executable.{checked-then-executable}

abbrev read_serial_definition : PlanDefinition
read_serial_definition = record {
  action_name = "read_serial";
  plan_tool_name = "read_serial-plan";
  budget_mode = flexible;
  permission_mode = none_needed;
  paired_actions = [];
  artifact_binding_field = none;
  artifact_nullable = false;
  artifact_binding_suffixes = [];
}

abbrev read_seconds : FieldDefinition
read_seconds = record {
  name = "read_seconds";
  field_type = number_type;
  nullable = false;
  choices = [];
  minimum = some (finite (pos 0) 0);
  maximum = none;
  exclusive_minimum = true;
  min_items = none;
  max_items = none;
  allow_empty = false;
}

abbrev baudrate : FieldDefinition
baudrate = record {
  name = "baudrate";
  field_type = integer_type;
  nullable = true;
  choices = [];
  minimum = some (finite (pos 1) 0);
  maximum = none;
  exclusive_minimum = false;
  min_items = none;
  max_items = none;
  allow_empty = false;
}

abbrev read_serial_schema : ActionSchema
read_serial_schema = record {
  action_fields =
      plain_field "expected_text" text_type true
      ∷ read_seconds
      ∷ baudrate
      ∷ plain_field "port" text_type true
      ∷ plain_field "reset_on_open" boolean_type false
      ∷ plain_field "on_exit" object_type true
      ∷ [];
  action_validator = none;
}

abbrev parameters : Members
parameters = member "expected_text" (text "ready") (
    member "read_seconds" (float (finite (pos 6) 1)) (
      member "baudrate" (integer (pos 115200))
        (member "port" null (member "reset_on_open" (boolean false) (member "on_exit" null end)))))

-- The same parameters as they are compared: six halves are three.
abbrev bound_parameters : Members
bound_parameters = member "expected_text" (text "ready") (
    member "read_seconds" (integer (pos 3)) (
      member "baudrate" (integer (pos 115200))
        (member "port" null (member "reset_on_open" (boolean false) (member "on_exit" null end)))))

-- A call with those parameters, and the first reasoning text as given.
abbrev call_with : Value → Value → Members
call_with hypothesis given = member "board_id" (text "board_1") (
    member "hypothesis" hypothesis (
      member "strategy" (text "listen") (
        member "hypothesis_made" (boolean true) (
          member "strategy_evaluated" (boolean true) (
            member "expected_fail_return" (text "silence") (
              member "expected_success_return" (text "banner") (
                member "max_calls" (integer (pos 2)) (
                  member "max_calls_buffer" (integer (pos 1))
                    (member "action_parameters" given end)))))))))

abbrev first_done : List String
first_done = "read_serial-plan" ∷ []

abbrev checked : CheckedCall
checked = record {
  board_id = "board_1";
  max_calls = 2;
  max_calls_buffer = 1;
  action_parameters = parameters;
  canonical_parameters = bound_parameters;
}

good_call :
    check_call first_done read_serial_definition read_serial_schema
      (call_with (text "it boots") (object parameters))
    ≡ ok (populated checked)
unfolding check_call check_fields check_values canonical_action_parameters same_names all
    null_fields contains names all_null plan_fields field_errors value_at lookup field_error
    type_error is_blank limit_error first_error validate_reasoning check_text validate_budget
    integral_value normalize_field normalized put_member to_int as_int as_text checked_call
    is_placeholder same_fold validate_board_id validate_budget_values validate_numbers float_limit
    json_error number_error semantic_error validate_action_parameters validate_parameters
    count_items is_integral leb_float ltb_float validate_json validate_items validate_members any
    is_space lstrip rstrip strip board_chars is_board_id
good_call = refl

check_call-Refuses_example : Refuses (
    check_call first_done read_serial_definition read_serial_schema
      (call_with (integer (pos 7)) null))
check_call-Refuses_example =
    check_call-Refuses first_done read_serial_definition read_serial_schema
      (call_with (integer (pos 7)) null)

checked-then-executable_example :
    check_execution read_serial_schema "board_1" parameters ≡ ok ("board_1", bound_parameters)
checked-then-executable_example =
    checked-then-executable first_done read_serial_definition read_serial_schema
      (call_with (text "it boots") (object parameters)) checked good_call

normalized-as_float_example :
    normalized read_serial_schema.action_fields
      (put_member parameters "read_seconds" (float (as_float (pos 3) 1)))
    ≡ normalized read_serial_schema.action_fields
        (put_member parameters "read_seconds" (integer (pos 3)))
normalized-as_float_example =
    normalized-as_float read_serial_schema.action_fields parameters "read_seconds" (pos 3) 1
      (inr (inl (refl, refl)))

-- A text that is a placeholder in any case is refused, and a number may overflow.
placeholder_call :
    check_call first_done read_serial_definition read_serial_schema
      (call_with (text " TBD ") (object parameters))
    ≡ raise (policy "plan/placeholder-reasoning")
unfolding check_call check_fields check_values canonical_action_parameters same_names all
    null_fields contains names all_null plan_fields field_errors value_at lookup field_error
    type_error is_blank limit_error first_error validate_reasoning check_text validate_budget
    integral_value normalize_field normalized put_member to_int as_int as_text checked_call
    is_placeholder same_fold validate_board_id validate_budget_values validate_numbers float_limit
    json_error number_error semantic_error validate_action_parameters validate_parameters
    count_items is_integral leb_float ltb_float validate_json validate_items validate_members any
    is_space lstrip rstrip strip board_chars is_board_id
placeholder_call = refl

overflowing : number_error (integer (pos float_limit)) ≡ raise overflow_error
unfolding number_error float_limit
overflowing = refl
