-- ===== src/Guardrails/Schema/Canonical/Numbers.antt =====
-- Integral numbers in the form of `_canonical_action_parameters` of guardrails/plan_engine.py.
use native.Mathlib.Nat.{one-le-pow, mul-div_left, mul-mod_left, mul-pos}
use byo_firmware_mcp.Prelude.{
  ℕ, suc, ◌-◌, ◌*◌, ◌^◌, String, ◌≡◌, refl, sym, ap, ◌∙◌, true, false, Option, none, some,
  none-ne-some, List, [], ◌∷◌, ◌==◌, string_eq, ==_iff, ==_refl, true-ne-false, ◌<◌, if◌then◌else◌,
  Bool-cases, ◌⊎◌, Any, inl, inr, arith, eq_iff,
}
use byo_firmware_mcp.Guardrails.Schema.Values.{
  ℤ, pos, negsuc, scale, Float, finite, is_integral, Value, integer, float, Members, end, member,
  lookup,
}
use byo_firmware_mcp.Guardrails.Schema.Fields.{FieldDefinition}
use byo_firmware_mcp.Guardrails.Schema.Canonical.{
  is_number_field, put_member, to_int, integral_value, found_integral, replaced, normalize_field,
  normalized,
}

lookup-put :
    (m : Members) (n : String) (v : Value) (k : String)
    → lookup (put_member m n v) k ≡ (if n == k then some v else lookup m k)
unfolding lookup put_member
lookup-put end n v k = refl
lookup-put (member j w m) n v k =
    ground (arith, lookup-put m n v k, eq_iff j n, eq_iff j k, eq_iff n k)

put-put :
    (m : Members) (n : String) (v w : Value) → put_member (put_member m n v) n w ≡ put_member m n w
unfolding put_member
put-put end n v w = rw (==_refl n) refl
put-put (member j u m) n v w = elim (Bool-cases (j == n)) [
  | inl p ↦ ground (arith, p)
  | inr p ↦ ground (arith, p, put-put m n v w)
]

-- Writes to different keys commute where the one is there.
put_commute :
    (m : Members) (n k : String) (v w u : Value)
    → (n == k) ≡ false
    → lookup m k ≡ some u
    → put_member (put_member m n v) k w ≡ put_member (put_member m k w) n v
unfolding put_member lookup
put_commute end n k v w u h p = absurd (none-ne-some p)
put_commute (member j x m) n k v w u h p = elim (Bool-cases (j == n)) [
  | inl a ↦ ground (arith, a, h, eq_iff j n, eq_iff n k, eq_iff j k)
  | inr a ↦ elim (Bool-cases (j == k)) [
    | inl b ↦ ground (arith, a, b, h)
    | inr b ↦ ground (arith, a, b, h, p, put_commute m n k v w u h)
  ]
]

module _ (m : Members) (n k : String) (v : Value) (h : (n == k) ≡ false) where
  replaced_apart :
      (u : Value) (i : Option ℤ)
      → lookup m k ≡ some u
      → replaced (put_member m n v) k i ≡ put_member (replaced m k i) n v
  replaced_apart u none p = refl
  replaced_apart u (some i) p = put_commute m n k v (integer i) u h p

  found_apart :
      (o : Option Value)
      → lookup m k ≡ o
      → replaced (put_member m n v) k (found_integral o)
        ≡ put_member (replaced m k (found_integral o)) n v
  found_apart none p = refl
  found_apart (some u) p = replaced_apart u (integral_value u) p

  -- A write to another key commutes with the replacement.
  lookup_apart :
      replaced (put_member m n v) k (found_integral (lookup (put_member m n v) k))
      ≡ put_member (replaced m k (found_integral (lookup m k))) n v
  lookup_apart =
      ap (λ o. replaced (put_member m n v) k (found_integral o)) (lookup-put m n v k ∙ rw h refl)
      ∙ found_apart (lookup m k) refl

normalize_apart :
    (f : FieldDefinition) (m : Members) (n : String) (v : Value)
    → (n == f.name) ≡ false
    → normalize_field f (put_member m n v) ≡ put_member (normalize_field f m) n v
unfolding normalize_field
normalize_apart f m n v h = elim (Bool-cases (is_number_field f.field_type)) [
  | inr a ↦ rw a refl
  | inl a ↦ rw a (lookup_apart m n f.name v h)
]

integral-integer : (i : ℤ) → integral_value (integer i) ≡ none
unfolding integral_value
integral-integer i = refl

-- The step of a number field with that name.
normalize_here :
    (f : FieldDefinition) (m : Members) (n : String) (v : Value) (i : ℤ)
    → (n == f.name) ≡ true
    → is_number_field f.field_type ≡ true
    → (integral_value v ≡ some i) ⊎ (v ≡ integer i)
    → normalize_field f (put_member m n v) ≡ put_member m n (integer i)
unfolding normalize_field
normalize_here f m n v i h a c =
    let here : lookup (put_member m n v) f.name ≡ some v = lookup-put m n v f.name ∙ rw h refl in
    rw a (
      ap (λ o. replaced (put_member m n v) f.name (found_integral o)) here ∙ elim c [
        | inl p ↦
            ap (replaced (put_member m n v) f.name) p
            ∙ ap (λ k. put_member (put_member m n v) k (integer i)) (sym ((==_iff n f.name).0 h))
            ∙ put-put m n v (integer i)
        | inr p ↦
            ap (λ w. replaced (put_member m n v) f.name (integral_value w)) p
            ∙ ap (replaced (put_member m n v) f.name) (integral-integer i)
            ∙ ap (put_member m n) p
      ])

-- Whether some number field has the name.
abbrev pub IsNumber : String → List FieldDefinition → Type 0
IsNumber n fs = Any (λ f. ((n == f.name) ≡ true) × (is_number_field f.field_type ≡ true)) fs

IsNumber-later :
    (n : String) (f : FieldDefinition) (fs : List FieldDefinition)
    → ((n == f.name) ≡ false) ⊎ (is_number_field f.field_type ≡ false)
    → IsNumber n (f ∷ fs)
    → IsNumber n fs
IsNumber-later n f fs (inl p) (inl q) = absurd (true-ne-false q.0 p)
IsNumber-later n f fs (inr p) (inl q) = absurd (true-ne-false q.1 p)
IsNumber-later n f fs p (inr q) = q

normalized-same :
    (fs : List FieldDefinition) (m : Members) (n : String) (v : Value) (i : ℤ)
    → integral_value v ≡ some i
    → IsNumber n fs
    → normalized fs (put_member m n v) ≡ normalized fs (put_member m n (integer i))
unfolding normalized normalize_field
normalized-same [] m n v i p h = absurd h
normalized-same (f ∷ fs) m n v i p h = elim (Bool-cases (n == f.name)) [
  | inr a ↦
      ap (normalized fs) (normalize_apart f m n v a)
      ∙ normalized-same fs (normalize_field f m) n v i p (IsNumber-later n f fs (inl a) h)
      ∙ ap (normalized fs) (sym (normalize_apart f m n (integer i) a))
  | inl a ↦ elim (Bool-cases (is_number_field f.field_type)) [
    | inl b ↦ ap (normalized fs) (
        normalize_here f m n v i a b (inl p)
        ∙ sym (normalize_here f m n (integer i) i a b (inr refl)))
    | inr b ↦ rw b (normalized-same fs m n v i p (IsNumber-later n f fs (inr b) h))
  ]
]

-- A float for an integer: `scale i (2 ^ k) / 2 ^ k`.
abbrev pub as_float : ℤ → ℕ → Float
as_float i k = finite (scale i (2 ^ k)) k

power_pos : (k : ℕ) → 0 < 2 ^ k
power_pos k = one-le-pow k 2 (ground arith)

suc_pred : (q : ℕ) → 0 < q → suc (q - 1) ≡ q
suc_pred q h = omega arith

pred_suc : (a : ℕ) → suc a - 1 ≡ a
pred_suc a = omega arith

integral-as_float : (i : ℤ) (k : ℕ) → integral_value (float (as_float i k)) ≡ some i
unfolding integral_value is_integral to_int
integral-as_float (pos a) k = rw (mul-mod_left a (2 ^ k), mul-div_left a (power_pos k)) refl
integral-as_float (negsuc a) k =
    rw
      (
        suc_pred (suc a * 2 ^ k) (mul-pos (omega arith) (power_pos k)),
        mul-mod_left (suc a) (2 ^ k),
        mul-div_left (suc a) (power_pos k),
      )
      (ap (λ x. some (negsuc x)) (pred_suc a))

-- A number field takes an integer and a float that stands for it as the same value: the
-- parameters that are compared are the same for the two, whatever the other fields are.
pub normalized-as_float :
    (fs : List FieldDefinition) (m : Members) (n : String) (i : ℤ) (k : ℕ)
    → IsNumber n fs
    → normalized fs (put_member m n (float (as_float i k)))
      ≡ normalized fs (put_member m n (integer i))
normalized-as_float fs m n i k h =
    normalized-same fs m n (float (as_float i k)) i (integral-as_float i k) h

lookup-normalize_field :
    (f : FieldDefinition) (m : Members) (n : String)
    → ((n == f.name) ≡ false) ⊎ (is_number_field f.field_type ≡ false)
    → lookup (normalize_field f m) n ≡ lookup m n
unfolding normalize_field
lookup-normalize_field f m n (inr a) = rw a refl
lookup-normalize_field f m n (inl a) = elim (Bool-cases (is_number_field f.field_type)) [
  | inr b ↦ rw b refl
  | inl b ↦ rw b (lookup-replaced (found_integral (lookup m f.name)))
]
  where
    lookup-replaced : (o : Option ℤ) → lookup (replaced m f.name o) n ≡ lookup m n
    lookup-replaced none = refl
    lookup-replaced (some i) =
        lookup-put m f.name (integer i) n ∙ ground (arith, a, eq_iff n f.name, eq_iff f.name n)

-- A value is compared with its type wherever it is of no number field: the form has it as it is.
pub lookup-normalized :
    (fs : List FieldDefinition) (m : Members) (n : String)
    → ¬ IsNumber n fs
    → lookup (normalized fs m) n ≡ lookup m n
unfolding normalized
lookup-normalized [] m n h = refl
lookup-normalized (f ∷ fs) m n h =
    lookup-normalized fs (normalize_field f m) n (λ k. h (inr k))
    ∙ lookup-normalize_field f m n (elim (Bool-cases (n == f.name)) [
      | inr a ↦ inl a
      | inl a ↦ elim (Bool-cases (is_number_field f.field_type)) [
        | inr b ↦ inr b
        | inl b ↦ absurd (h (inl (a, b)))
      ]
    ])
