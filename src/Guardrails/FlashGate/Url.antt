-- ===== src/Guardrails/FlashGate/Url.antt =====
-- The grammar of `_URL_LIKE`, `[A-Za-z][A-Za-z0-9+.-]*://` at the start of a text, in
-- src/pyocd_debug_mcp/guardrails/flash_gate.py, and texts that are not blank.
use Prim.Native.Char.{Char, code}
use Prim.Native.String.{[], ◌∷◌}
use byo_firmware_mcp.Prelude.{
  ◌≤◌, String, ◌≡◌, refl, sym, ◌∙◌, ◌↔◌, ◌⊎◌, inl, inr, Bool, true, false, ◌&&◌, arith, Bool-cases,
  and_true,
}
use byo_firmware_mcp.Prelude.Text.{is_blank, is_empty, is_space, strip, lstrip, rstrip}
use byo_firmware_mcp.Guardrails.FlashGate.{
  is_letter, is_scheme_char, is_authority, url_rest, is_url_like,
}

abbrev pub IsLetter : Char → Type 0
IsLetter c = ((65 ≤ code c) × (code c ≤ 90)) ⊎ ((97 ≤ code c) × (code c ≤ 122))

-- A letter, a digit, `+`, `-` or `.`.
abbrev pub IsSchemeChar : Char → Type 0
IsSchemeChar c =
    IsLetter c ⊎ ((48 ≤ code c) × (code c ≤ 57)) ⊎ (code c ≡ 43) ⊎ (code c ≡ 45) ⊎ (code c ≡ 46)

-- Characters of a scheme, then `:`, `/` and `/`.
pub data IsUrlTail : String → Type 0 where
  authority :
      (a b c : Char) (s : String)
      → code a ≡ 58
      → code b ≡ 47
      → code c ≡ 47
      → IsUrlTail (a ∷ b ∷ c ∷ s)
  scheme : (c : Char) (s : String) → IsSchemeChar c → IsUrlTail s → IsUrlTail (c ∷ s)

-- The same behind a first letter.
pub data IsUrl : String → Type 0 where
  url : (c : Char) (s : String) → IsLetter c → IsUrlTail s → IsUrl (c ∷ s)

is_letter_iff : (c : Char) → (is_letter c ≡ true) ↔ IsLetter c
unfolding is_letter
is_letter_iff c = (λ h. ground arith, λ h. ground arith)

is_scheme_char_iff : (c : Char) → (is_scheme_char c ≡ true) ↔ IsSchemeChar c
unfolding is_scheme_char is_letter
is_scheme_char_iff c = (λ h. ground arith, λ h. ground arith)

colon_apart : (c : Char) → code c ≡ 58 → is_scheme_char c ≡ false
unfolding is_scheme_char is_letter
colon_apart c h = ground arith

is_authority-IsUrlTail : (s : String) → is_authority s ≡ true → IsUrlTail s
unfolding is_authority
is_authority-IsUrlTail (a ∷ b ∷ c ∷ s) h =
    authority a b c s (ground arith) (ground arith) (ground arith)
is_authority-IsUrlTail [] h = absurd (ground arith)
is_authority-IsUrlTail (a ∷ []) h = absurd (ground arith)
is_authority-IsUrlTail (a ∷ b ∷ []) h = absurd (ground arith)

url_rest-IsUrlTail : (s : String) → url_rest s ≡ true → IsUrlTail s
unfolding url_rest
url_rest-IsUrlTail [] h = absurd (ground arith)
url_rest-IsUrlTail (c ∷ s) h = elim (Bool-cases (is_scheme_char c)) [
  | inl p ↦ scheme c s ((is_scheme_char_iff c).0 p) (url_rest-IsUrlTail s (rw p at h))
  | inr p ↦ is_authority-IsUrlTail (c ∷ s) (rw p at h)
]

IsUrlTail-url_rest : (s : String) → IsUrlTail s → url_rest s ≡ true
unfolding url_rest is_authority
IsUrlTail-url_rest _ (authority a b c s p q r) = rw (colon_apart a p) (ground arith)
IsUrlTail-url_rest _ (scheme c s p t) = rw ((is_scheme_char_iff c).1 p) (IsUrlTail-url_rest s t)

pub is_url_like_iff : (s : String) → (is_url_like s ≡ true) ↔ IsUrl s
is_url_like_iff s = (to s, from s)
  where
    to : (s : String) → is_url_like s ≡ true → IsUrl s
    to [] h = unfold is_url_like in absurd (ground arith)
    to (c ∷ s) h =
        unfold is_url_like in
        let (p, q) = and_true _ _ h in url c s ((is_letter_iff c).0 p) (url_rest-IsUrlTail s q)

    from : (s : String) → IsUrl s → is_url_like s ≡ true
    from _ (url c s p t) =
        unfold is_url_like in rw ((is_letter_iff c).1 p, IsUrlTail-url_rest s t) refl

-- Some character is no white space.
abbrev pub HasText : String → Type 0
HasText [] = ⊥
HasText (c ∷ s) = (is_space c ≡ false) ⊎ HasText s

all_space : String → Bool
all_space [] = true
all_space (c ∷ s) = is_space c && all_space s

is_empty-rstrip : (s : String) → is_empty (rstrip s) ≡ all_space s
unfolding rstrip all_space
is_empty-rstrip [] = refl
is_empty-rstrip (c ∷ s) = ground (arith, is_empty-rstrip s)

all_space-lstrip : (s : String) → all_space (lstrip s) ≡ all_space s
unfolding lstrip all_space
all_space-lstrip [] = refl
all_space-lstrip (c ∷ s) = elim (Bool-cases (is_space c)) [
  | inl p ↦ rw p (all_space-lstrip s)
  | inr p ↦ rw p (rw p refl)
]

all_space-HasText : (s : String) → (all_space s ≡ false) ↔ HasText s
unfolding all_space
all_space-HasText [] = (λ h. ground arith, λ h. absurd h)
all_space-HasText (c ∷ s) = (
  λ h. elim (Bool-cases (is_space c)) [
    | inl p ↦ inr ((all_space-HasText s).0 (rw p at h))
    | inr p ↦ inl p
  ],
  λ h. elim h [ inl p ↦ rw p refl | inr k ↦ ground (arith, (all_space-HasText s).1 k) ],
)

pub is_blank_iff : (s : String) → (is_blank s ≡ false) ↔ HasText s
unfolding is_blank strip
is_blank_iff s =
    let same : is_blank s ≡ all_space s = is_empty-rstrip (lstrip s) ∙ all_space-lstrip s in
    (λ h. (all_space-HasText s).0 (sym same ∙ h), λ h. same ∙ (all_space-HasText s).1 h)
