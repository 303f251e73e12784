-- ===== src/Guardrails/Schema/Canonical.antt =====
-- The form in which the parameters of an action are compared: `_canonical_action_parameters` of
-- guardrails/plan_engine.py up to the text that `canonical_json` makes of it.
pub mod Numbers
use byo_firmware_mcp.Prelude.{
  ℕ, suc, ◌-◌, ◌/◌, ◌^◌, String, Bool, true, false, Option, none, some, List, [], ◌∷◌, ◌==◌,
  string_eq, if◌then◌else◌,
}
use byo_firmware_mcp.Prelude.Result.{Result, ok, ◌>>◌}
use byo_firmware_mcp.Guardrails.Definitions.{Refusal}
use byo_firmware_mcp.Guardrails.Schema.Values.{
  ℤ, pos, negsuc, Float, finite, is_integral, Value, integer, float, Members, end, member, lookup,
  validate_members,
}
use byo_firmware_mcp.Guardrails.Schema.Fields.{FieldDefinition, FieldType, number_type}

abbrev pub is_number_field : FieldType → Bool
is_number_field number_type = true
is_number_field _ = false

-- `normalized[name] = value`
unfoldable pub put_member : Members → String → Value → Members
put_member end name v = member name v end
put_member (member k w m) name v =
    let rest = put_member m name v in if k == name then member k v m else member k w rest

-- `int` of a float with an integral value.
abbrev pub quotient : ℤ → ℕ → ℤ
quotient (pos a) k = pos (a / (2 ^ k))
quotient (negsuc a) k = negsuc (suc a / (2 ^ k) - 1)

unfoldable pub to_int : Float → ℤ
to_int (finite n k) = quotient n k
to_int _ = pos 0

-- What a value of a number field is replaced by, if it is.
unfoldable pub integral_value : Value → Option ℤ
integral_value (float x) = if is_integral x then some (to_int x) else none
integral_value _ = none

abbrev pub found_integral : Option Value → Option ℤ
found_integral none = none
found_integral (some v) = integral_value v

abbrev pub replaced : Members → String → Option ℤ → Members
replaced m name none = m
replaced m name (some n) = put_member m name (integer n)

unfoldable pub normalize_field : FieldDefinition → Members → Members
normalize_field f m =
    if is_number_field f.field_type then replaced m f.name (found_integral (lookup m f.name)) else m

unfoldable pub normalized : List FieldDefinition → Members → Members
normalized [] m = m
normalized (f ∷ fs) m = normalized fs (normalize_field f m)

-- `_canonical_action_parameters`: the form as `canonical_json` takes it.
unfoldable pub canonical_action_parameters : List FieldDefinition → Members → Result Refusal Members
canonical_action_parameters fs m = validate_members (normalized fs m) >> ok (normalized fs m)
