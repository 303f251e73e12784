-- ===== src/Guardrails/Schema/Fields.antt =====
-- The fields of a schema: `FieldDefinition` of guardrails/plan_defs.py with `_field_error` and
-- `_validate_action_parameters` of guardrails/plan_engine.py.
pub mod Refuses
use byo_firmware_mcp.Prelude.{
  ℕ, ◌-◌, ◌^◌, String, Bool, true, false, not, ◌&&◌, ◌||◌, Option, none, some, List, [], ◌∷◌, map,
  all, any, is_nil, ◌==◌, string_eq, nat_eq, if◌then◌else◌, leb, ltb, eqb,
}
use byo_firmware_mcp.Prelude.Result.{Result, ok, raise, ◌>>=◌, ◌>>◌, guard}
use byo_firmware_mcp.Prelude.Sorting.{contains}
use byo_firmware_mcp.Prelude.Text.{is_blank}
use byo_firmware_mcp.Guardrails.Definitions.{Refusal, policy, overflow_error, key_error}
use byo_firmware_mcp.Guardrails.Schema.Values.{
  ℤ, pos, negsuc, magnitude, Float, finite, is_finite, leb_float, ltb_float, Value, null, text,
  boolean, integer, float, array, object, other, Members, is_null, count_items, lookup, names,
  validate_json, validate_members,
}

pub data FieldType : Type 0 where
  text_type integer_type number_type boolean_type : FieldType
  array_type object_type json_type text_or_integer : FieldType

-- The choices of the table are texts and integers.
pub data Choice : Type 0 where
  text_choice : String → Choice
  integer_choice : ℤ → Choice

pub record FieldDefinition : Type 0 where
  pub name : String
  pub field_type : FieldType
  pub nullable : Bool
  pub choices : List Choice
  pub minimum : Option Float
  pub maximum : Option Float
  pub exclusive_minimum : Bool
  pub min_items : Option ℕ
  pub max_items : Option ℕ
  pub allow_empty : Bool

-- The texts of `_field_error`, with what they say left out where it is in the field.
pub data FieldError : Type 0 where
  null_value not_text not_integer not_finite_number not_boolean not_array not_object : FieldError
  not_text_or_integer not_json not_a_choice not_greater below_minimum above_maximum : FieldError
  too_few_items too_many_items : FieldError

abbrev pub must : Bool → FieldError → Option FieldError
must true e = none
must false e = some e

-- The tests by `isinstance`; `is_int` leaves out a `bool`.
abbrev pub is_text_where : (String → Bool) → Value → Bool
is_text_where p (text s) = p s
is_text_where p _ = false

abbrev pub is_int : Value → Bool
is_int (integer _) = true
is_int _ = false

abbrev pub is_bool : Value → Bool
is_bool (boolean _) = true
is_bool _ = false

abbrev pub is_list : Value → Bool
is_list (array _) = true
is_list _ = false

abbrev pub is_dict : Value → Bool
is_dict (object _) = true
is_dict _ = false

-- The least integer that `float` cannot round to a finite number.
unfoldable pub float_limit : ℕ
float_limit = 2 ^ 1024 - 2 ^ 970

unfoldable pub number_error : Value → Result Refusal (Option FieldError)
number_error (integer n) = if leb float_limit (magnitude n) then raise overflow_error else ok none
number_error (float x) = ok (must (is_finite x) not_finite_number)
number_error _ = ok (some not_finite_number)

abbrev pub json_verdict : Result Refusal (Unit {0}) → Result Refusal (Option FieldError)
json_verdict (ok _) = ok none
json_verdict (raise _) = ok (some not_json)

unfoldable pub json_error : Value → Result Refusal (Option FieldError)
json_error v = json_verdict (validate_json v)

unfoldable pub type_error : FieldType → Bool → Value → Result Refusal (Option FieldError)
type_error text_type allow_empty v =
    ok (must (is_text_where (λ s. allow_empty || not (is_blank s)) v) not_text)
type_error integer_type _ v = ok (must (is_int v) not_integer)
type_error number_type _ v = number_error v
type_error boolean_type _ v = ok (must (is_bool v) not_boolean)
type_error array_type _ v = ok (must (is_list v) not_array)
type_error object_type _ v = ok (must (is_dict v) not_object)
type_error json_type _ v = json_error v
type_error text_or_integer _ v =
    ok (must (is_int v || is_text_where (λ s. not (is_blank s)) v) not_text_or_integer)

abbrev pub int_beq : ℤ → ℤ → Bool
int_beq (pos a) (pos b) = eqb a b
int_beq (negsuc a) (negsuc b) = eqb a b
int_beq _ _ = false

abbrev pub is_choice : Value → Choice → Bool
is_choice (text s) (text_choice t) = s == t
is_choice (integer a) (integer_choice b) = int_beq a b
is_choice _ _ = false

-- A number, with no `bool` among them, and with `True` as 1.
abbrev pub number_of : Value → Option Float
number_of (integer n) = some (finite n 0)
number_of (float x) = some x
number_of _ = none

abbrev pub number_or_bool : Value → Option Float
number_or_bool (boolean true) = some (finite (pos 1) 0)
number_or_bool (boolean false) = some (finite (pos 0) 0)
number_or_bool v = number_of v

abbrev pub list_length : Value → Option ℕ
list_length (array vs) = some (count_items vs)
list_length _ = none

-- Whether both are there and the test is true of them.
abbrev pub both : {A B : Type 0} → (A → B → Bool) → Option A → Option B → Bool
both p (some a) (some b) = p a b
both p _ _ = false

-- The error of the first test that is true.
unfoldable pub first_error : List (Bool × FieldError) → Option FieldError
first_error [] = none
first_error ((bad, e) ∷ rest) = let later = first_error rest in if bad then some e else later

-- What `_field_error` tests after the type.
unfoldable pub limit_error : FieldDefinition → Value → Option FieldError
limit_error f v = first_error (
    (not (is_nil f.choices) && not (any (is_choice v) f.choices), not_a_choice)
    ∷ (f.exclusive_minimum && both leb_float (number_of v) f.minimum, not_greater)
    ∷ (not f.exclusive_minimum && both ltb_float (number_of v) f.minimum, below_minimum)
    ∷ (both ltb_float f.maximum (number_or_bool v), above_maximum)
    ∷ (both ltb (list_length v) f.min_items, too_few_items)
    ∷ (both ltb f.max_items (list_length v), too_many_items)
    ∷ [])

unfoldable pub field_error : FieldDefinition → Value → Result Refusal (Option FieldError)
field_error f v =
    if is_null v
    then ok (must f.nullable null_value)
    else (type_error f.field_type f.allow_empty v >>= λ e.
        ok (elim e [ none ↦ limit_error f v | some x ↦ some x ]))

abbrev pub found : Option Value → Result Refusal Value
found none = raise key_error
found (some v) = ok v

-- `fields[name]`
unfoldable pub value_at : Members → String → Result Refusal Value
value_at m name = found (lookup m name)

abbrev pub with_error :
    String → Option FieldError → List (String × FieldError) → List (String × FieldError)
with_error name none rest = rest
with_error name (some e) rest = (name, e) ∷ rest

-- The dict of the errors, in the order of the fields.
unfoldable pub field_errors :
    List FieldDefinition → Members → Result Refusal (List (String × FieldError))
field_errors [] m = ok []
field_errors (f ∷ fs) m = value_at m f.name >>= λ v.
    field_error f v >>= λ e. field_errors fs m >>= λ rest. ok (with_error f.name e rest)

abbrev pub field_names : List FieldDefinition → List String
field_names = map (λ f. f.name)

-- Neither a missing name nor an unknown one.
unfoldable pub same_names : List String → List String → Bool
same_names expected supplied =
    all (λ n. contains n supplied) expected && all (λ n. contains n expected) supplied

-- What a plan definition says of its action's parameters. The validator is any function that answers
-- the text of an error or none: those of the program return one of the two, as each of their asserts
-- restates the test before it.
pub record ActionSchema : Type 0 where
  pub action_fields : List FieldDefinition
  pub action_validator : Option (Members → Option String)

unfoldable pub semantic_error : ActionSchema → Members → Option String
semantic_error s m = elim s.action_validator [ none ↦ none | some validator ↦ validator m ]

abbrev pub is_none : {A : Type 0} → Option A → Bool
is_none none = true
is_none (some _) = false

-- The steps of `_validate_action_parameters` on an object.
unfoldable pub validate_parameters : ActionSchema → Members → Result Refusal Members
validate_parameters s m =
    guard (same_names (field_names s.action_fields) (names m))
      (policy "plan/invalid-action-parameters")
    >> (field_errors s.action_fields m >>= λ errors.
        guard (is_nil errors) (policy "plan/invalid-action-parameters")
        >> guard (is_none (semantic_error s m)) (policy "plan/invalid-action-parameters")
        >> validate_members m
        >> ok m)

unfoldable pub validate_action_parameters : ActionSchema → Value → Result Refusal Members
validate_action_parameters s (object m) = validate_parameters s m
validate_action_parameters s _ = raise (policy "plan/invalid-action-parameters")
