-- ===== src/Guardrails/Schema/Values.antt =====
-- The values of a call as JSON gives them to guardrails/plan_engine.py, with `_validate_json`. A key of
-- an object is a text, since it comes from JSON; the branch for another key is left out.
use byo_firmware_mcp.Prelude.{
  ℕ, suc, ◌-◌, ◌*◌, ◌%◌, ◌^◌, String, Bool, true, false, not, ◌&&◌, Option, none, some, List, [],
  ◌∷◌, ◌==◌, string_eq, if◌then◌else◌, leb, eqb,
}
use byo_firmware_mcp.Prelude.Result.{Result, ok, raise, ◌>>◌}
use byo_firmware_mcp.Guardrails.Definitions.{Refusal, policy}

-- `int` of Python: `negsuc n` is `-(n + 1)`.
pub data ℤ : Type 0 where
  pos negsuc : ℕ → ℤ

abbrev pub leb_int : ℤ → ℤ → Bool
leb_int (pos a) (pos b) = leb a b
leb_int (pos a) (negsuc b) = false
leb_int (negsuc a) (pos b) = true
leb_int (negsuc a) (negsuc b) = leb b a

-- Times a positive number.
abbrev pub scale : ℤ → ℕ → ℤ
scale (pos a) n = pos (a * n)
scale (negsuc a) n = negsuc (suc a * n - 1)

abbrev pub magnitude : ℤ → ℕ
magnitude (pos a) = a
magnitude (negsuc a) = suc a

-- `float`: `finite n k` is `n / 2 ^ k`, as every finite one is for some `n` and `k`.
pub data Float : Type 0 where
  finite : ℤ → ℕ → Float
  infinity minus_infinity nan : Float

-- `math.isfinite`
abbrev pub is_finite : Float → Bool
is_finite (finite _ _) = true
is_finite _ = false

-- `float.is_integer`
unfoldable pub is_integral : Float → Bool
is_integral (finite n k) = eqb (magnitude n % (2 ^ k)) 0
is_integral _ = false

-- `x <= y`
unfoldable pub leb_float : Float → Float → Bool
leb_float (finite a j) (finite b k) = leb_int (scale a (2 ^ k)) (scale b (2 ^ j))
leb_float (finite a j) infinity = true
leb_float infinity infinity = true
leb_float minus_infinity nan = false
leb_float minus_infinity _ = true
leb_float _ _ = false

-- `x < y`
unfoldable pub ltb_float : Float → Float → Bool
ltb_float x y = leb_float x y && not (leb_float y x)

-- `other` is an object that JSON does not have.
mutual
  pub data Value : Type 0 where
    null : Value
    text : String → Value
    boolean : Bool → Value
    integer : ℤ → Value
    float : Float → Value
    array : Items → Value
    object : Members → Value
    other : Value

  pub data Items : Type 0 where
    empty : Items
    item : Value → Items → Items

  pub data Members : Type 0 where
    end : Members
    member : String → Value → Members → Members

abbrev pub is_null : Value → Bool
is_null null = true
is_null _ = false

unfoldable pub count_items : Items → ℕ
count_items empty = 0
count_items (item _ vs) = suc (count_items vs)

unfoldable pub lookup : Members → String → Option Value
lookup end name = none
lookup (member k v m) name = if k == name then some v else lookup m name

unfoldable pub names : Members → List String
names end = []
names (member k _ m) = k ∷ names m

unfoldable pub all_null : Members → Bool
all_null end = true
all_null (member _ v m) = is_null v && all_null m

-- `_validate_json`
unfoldable mutual
  pub validate_json : Value → Result Refusal (Unit {0})
  validate_json (float x) = if is_finite x then ok tt else raise (policy "plan/invalid-json")
  validate_json (array vs) = validate_items vs
  validate_json (object m) = validate_members m
  validate_json other = raise (policy "plan/invalid-json")
  validate_json _ = ok tt

  pub validate_items : Items → Result Refusal (Unit {0})
  validate_items empty = ok tt
  validate_items (item v vs) = validate_json v >> validate_items vs

  pub validate_members : Members → Result Refusal (Unit {0})
  validate_members end = ok tt
  validate_members (member _ v m) = validate_json v >> validate_members m
