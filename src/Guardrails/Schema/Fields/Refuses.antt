-- ===== src/Guardrails/Schema/Fields/Refuses.antt =====
-- What the checks of fields in guardrails/plan_engine.py may be refused with.
use mathlib.Core.Path.{subst}
use byo_firmware_mcp.Prelude.{
  String, ◌≡◌, refl, ap, sym, ◌∙◌, Bool, true, false, Option, none, some, List, [], ◌∷◌, all,
  is_nil, ◌==◌, string_eq, if_rule, Bool-cases, and_true, All, inl, inr, arith, leb, eq_iff,
}
use byo_firmware_mcp.Prelude.Result.{
  Result, ok, raise, ◌>>=◌, ◌>>◌, guard, ok-injective, raise-ne-ok, >>=-ok,
}
use byo_firmware_mcp.Prelude.Sorting.{contains}
use byo_firmware_mcp.Guardrails.Definitions.{Refusal, policy, overflow_error}
use byo_firmware_mcp.Guardrails.Schema.Values.{
  magnitude, is_finite, Value, null, text, boolean, integer, float, array, object, other, Items,
  empty, item, Members, end, member, is_null, lookup, names, validate_json, validate_items,
  validate_members,
}
use byo_firmware_mcp.Guardrails.Schema.Fields.{
  FieldType, text_type, integer_type, number_type, boolean_type, array_type, object_type, json_type,
  text_or_integer, FieldDefinition, FieldError, float_limit, number_error, json_error, json_verdict,
  found, with_error, type_error, field_error, value_at, field_errors, field_names, same_names,
  ActionSchema, semantic_error, is_none, validate_parameters, validate_action_parameters,
}

-- What a call may be refused with: a policy, or a number field's integer that `float` cannot take.
abbrev pub IsExpected : Refusal → Type 0
IsExpected (policy _) = Unit
IsExpected overflow_error = Unit
IsExpected _ = ⊥

abbrev pub Refuses : {A : Type 0} → Result Refusal A → Type 0
Refuses (ok _) = Unit
Refuses (raise e) = IsExpected e

pub bind-Refuses :
    {A B : Type 0} (m : Result Refusal A) (f : A → Result Refusal B)
    → Refuses m
    → ((a : A) → m ≡ ok a → Refuses (f a))
    → Refuses (m >>= f)
bind-Refuses (ok a) f r k = k a refl
bind-Refuses (raise e) f r k = r

-- A guard with a policy.
pub guard-Refuses :
    {B : Type 0} (b : Bool) (code : String) (k : Result Refusal B)
    → (b ≡ true → Refuses k)
    → Refuses (guard b (policy code) >> k)
guard-Refuses true code k h = h refl
guard-Refuses false code k h = tt

pub seq-Refuses :
    {A B : Type 0} (m : Result Refusal A) (k : Result Refusal B)
    → Refuses m
    → Refuses k
    → Refuses (m >> k)
seq-Refuses m k r q = bind-Refuses m (λ _. k) r (λ _ _. q)

pub guard_alone : (b : Bool) (code : String) → Refuses (guard b (policy code))
guard_alone true code = tt
guard_alone false code = tt

mutual
  unfolding validate_json validate_items validate_members

  pub validate_json-Refuses : (v : Value) → Refuses (validate_json v)
  validate_json-Refuses null = tt
  validate_json-Refuses (text _) = tt
  validate_json-Refuses (boolean _) = tt
  validate_json-Refuses (integer _) = tt
  validate_json-Refuses (float x) = if_rule Refuses (is_finite x) _ _ (λ _. tt) (λ _. tt)
  validate_json-Refuses (array vs) = validate_items-Refuses vs
  validate_json-Refuses (object m) = validate_members-Refuses m
  validate_json-Refuses other = tt

  pub validate_items-Refuses : (vs : Items) → Refuses (validate_items vs)
  validate_items-Refuses empty = tt
  validate_items-Refuses (item v vs) =
      bind-Refuses (validate_json v) (λ _. validate_items vs) (validate_json-Refuses v)
        (λ _ _. validate_items-Refuses vs)

  pub validate_members-Refuses : (m : Members) → Refuses (validate_members m)
  validate_members-Refuses end = tt
  validate_members-Refuses (member _ v m) =
      bind-Refuses (validate_json v) (λ _. validate_members m) (validate_json-Refuses v)
        (λ _ _. validate_members-Refuses m)

pub number_error-Refuses : (v : Value) → Refuses (number_error v)
unfolding number_error
number_error-Refuses (integer n) =
    if_rule Refuses (leb float_limit (magnitude n)) _ _ (λ _. tt) (λ _. tt)
number_error-Refuses (float x) = tt
number_error-Refuses null = tt
number_error-Refuses (text _) = tt
number_error-Refuses (boolean _) = tt
number_error-Refuses (array _) = tt
number_error-Refuses (object _) = tt
number_error-Refuses other = tt

pub json_verdict-Refuses : (r : Result Refusal (Unit {0})) → Refuses (json_verdict r)
json_verdict-Refuses (ok _) = tt
json_verdict-Refuses (raise _) = tt

pub type_error-Refuses : (t : FieldType) (e : Bool) (v : Value) → Refuses (type_error t e v)
unfolding type_error json_error
type_error-Refuses text_type e v = tt
type_error-Refuses integer_type e v = tt
type_error-Refuses number_type e v = number_error-Refuses v
type_error-Refuses boolean_type e v = tt
type_error-Refuses array_type e v = tt
type_error-Refuses object_type e v = tt
type_error-Refuses json_type e v = json_verdict-Refuses (validate_json v)
type_error-Refuses text_or_integer e v = tt

pub field_error-Refuses : (f : FieldDefinition) (v : Value) → Refuses (field_error f v)
unfolding field_error
field_error-Refuses f v =
    if_rule Refuses (is_null v) _ _ (λ _. tt)
      (λ _.
        bind-Refuses (type_error f.field_type f.allow_empty v) _
          (type_error-Refuses f.field_type f.allow_empty v) (λ _ _. tt))

-- The name of a field is among those of the object.
abbrev pub IsIn : Members → FieldDefinition → Type 0
IsIn m f = contains f.name (names m) ≡ true

pub contains-found :
    (m : Members) (n : String) → contains n (names m) ≡ true → (v : Value) × (lookup m n ≡ some v)
unfolding contains names lookup
contains-found end n h = absurd (ground arith)
contains-found (member k v m) n h = elim (Bool-cases (k == n)) [
  | inl p ↦ (v, ground (arith, p))
  | inr p ↦ let (w, q) = contains-found m n (ground (arith, eq_iff k n, eq_iff n k)) in (w, rw p q)
]

pub value_at-found :
    {B : Type 0} (m : Members) (n : String) (f : Value → Result Refusal B)
    → contains n (names m) ≡ true
    → ((v : Value) → lookup m n ≡ some v → Refuses (f v))
    → Refuses (value_at m n >>= f)
unfolding value_at
value_at-found m n f h k =
    let (v, p) = contains-found m n h in subst (λ o. Refuses (found o >>= f)) (sym p) (k v p)

pub field_errors-Refuses :
    (fs : List FieldDefinition) (m : Members) → All (IsIn m) fs → Refuses (field_errors fs m)
unfolding field_errors
field_errors-Refuses [] m h = tt
field_errors-Refuses (f ∷ fs) m h = value_at-found m f.name _ h.0 (λ v _.
    bind-Refuses (field_error f v) _ (field_error-Refuses f v)
      (λ _ _. bind-Refuses (field_errors fs m) _ (field_errors-Refuses fs m h.1) (λ _ _. tt)))

pub all-IsIn :
    (m : Members) (fs : List FieldDefinition)
    → all (λ n. contains n (names m)) (field_names fs) ≡ true
    → All (IsIn m) fs
unfolding all
all-IsIn m [] h = tt
all-IsIn m (f ∷ fs) h = let (p, q) = and_true _ _ h in (p, all-IsIn m fs q)

-- The names are those of the fields.
pub guard_names :
    {B : Type 0} (fs : List FieldDefinition) (m : Members) (code : String) (k : Result Refusal B)
    → (All (IsIn m) fs → Refuses k)
    → Refuses (guard (same_names (field_names fs) (names m)) (policy code) >> k)
unfolding same_names
guard_names fs m code k h =
    guard-Refuses (same_names (field_names fs) (names m)) code k
      (λ p. h (all-IsIn m fs (and_true _ _ p).0))

-- The value of a field is there and is in order.
abbrev pub IsClean : Members → FieldDefinition → Type 0
IsClean m f = (v : Value) × (lookup m f.name ≡ some v) × (field_error f v ≡ ok none)

pub no_error :
    (name : String) (e : Option FieldError) (rest : List (String × FieldError))
    → is_nil (with_error name e rest) ≡ true
    → (e ≡ none) × (is_nil rest ≡ true)
no_error name none rest h = (refl, h)
no_error name (some x) rest h = absurd (ground arith)

pub value_at-ok : (m : Members) (n : String) (v : Value) → value_at m n ≡ ok v → lookup m n ≡ some v
unfolding value_at
value_at-ok m n v h = found-ok (lookup m n) h
  where
    found-ok : (o : Option Value) → found o ≡ ok v → o ≡ some v
    found-ok none h = absurd (raise-ne-ok h)
    found-ok (some w) h = ap some (ok-injective h)

pub field_errors-IsClean :
    (fs : List FieldDefinition) (m : Members) (es : List (String × FieldError))
    → field_errors fs m ≡ ok es
    → is_nil es ≡ true
    → All (IsClean m) fs
unfolding field_errors
field_errors-IsClean [] m es h k = tt
field_errors-IsClean (f ∷ fs) m es h k =
    let (v, p, h₁) = >>=-ok (value_at m f.name) _ es h in
    let (e, q, h₂) = >>=-ok (field_error f v) _ es h₁ in
    let (rest, r, h₃) = >>=-ok (field_errors fs m) _ es h₂ in
    let (none_here, none_later) = no_error f.name e rest (rw (ok-injective h₃) k) in
    (
      (v, value_at-ok m f.name v p, q ∙ ap ok none_here),
      field_errors-IsClean fs m rest r none_later,
    )

-- The fields are checked: no lookup of them fails, and what follows may use that they are in order.
pub guard_fields :
    {B : Type 0} (fs : List FieldDefinition) (m : Members) (code : String) (k : Result Refusal B)
    → All (IsIn m) fs
    → (All (IsClean m) fs → Refuses k)
    → Refuses (field_errors fs m >>= λ es. guard (is_nil es) (policy code) >> k)
guard_fields fs m code k i h =
    bind-Refuses (field_errors fs m) _ (field_errors-Refuses fs m i)
      (λ es p. guard-Refuses (is_nil es) code k (λ q. h (field_errors-IsClean fs m es p q)))

pub validate_parameters-Refuses :
    (s : ActionSchema) (m : Members) → Refuses (validate_parameters s m)
unfolding validate_parameters
validate_parameters-Refuses s m = guard_names s.action_fields m _ _ (λ i.
    bind-Refuses (field_errors s.action_fields m) _ (field_errors-Refuses s.action_fields m i)
      (λ es _.
        seq-Refuses _ (ok m)
          (seq-Refuses _ (validate_members m)
            (seq-Refuses _ _ (guard_alone (is_nil es) _)
              (guard_alone (is_none (semantic_error s m)) _))
            (validate_members-Refuses m))
          tt))

pub validate_action_parameters-Refuses :
    (s : ActionSchema) (v : Value) → Refuses (validate_action_parameters s v)
unfolding validate_action_parameters
validate_action_parameters-Refuses s (object m) = validate_parameters-Refuses s m
validate_action_parameters-Refuses s null = tt
validate_action_parameters-Refuses s (text _) = tt
validate_action_parameters-Refuses s (boolean _) = tt
validate_action_parameters-Refuses s (integer _) = tt
validate_action_parameters-Refuses s (float _) = tt
validate_action_parameters-Refuses s (array _) = tt
validate_action_parameters-Refuses s other = tt
