-- ===== src/Guardrails/FlashGate/Readable.antt =====
-- Which requests `resolve_flash_request` of src/pyocd_debug_mcp/guardrails/flash_gate.py resolves.
use mathlib.Core.Path.{subst}
use byo_firmware_mcp.Prelude.{
  String, ◌≡◌, refl, sym, ap, some-injective, ◌↔◌, ◌⊎◌, inl, inr, Bool, true, false, Option, none,
  some, arith, string_eq, eq_iff, Bool-cases, true-ne-false,
}
use byo_firmware_mcp.Prelude.Result.{ok}
use byo_firmware_mcp.Guardrails.FlashGate.{
  ExplicitPath, text, path, text_of, FileSystem, FlashArtifactIdentity, is_url_like, is_supported,
  is_empty_text, build_identity, resolve_path, resolve_flash_request,
}
use byo_firmware_mcp.Guardrails.FlashGate.Url.{IsUrl, is_url_like_iff, HasText, is_blank_iff}

-- A path object, or a text that is not blank.
abbrev pub IsGiven : ExplicitPath → Type 0
IsGiven (text s) = HasText s
IsGiven (path s) = Unit

-- A path that a flash may read.
pub record IsReadable (files : FileSystem) (explicit : ExplicitPath) : Type 0 where
  pub given : IsGiven explicit
  pub local : ¬ IsUrl (text_of explicit)
  pub present : files.exists (files.resolve (text_of explicit)) ≡ true
  pub is_file : files.is_dir (files.resolve (text_of explicit)) ≡ false
  pub supported :
      (files.lower_suffix (files.resolve (text_of explicit)) ≡ ".axf")
      ⊎ (files.lower_suffix (files.resolve (text_of explicit)) ≡ ".elf")
      ⊎ (files.lower_suffix (files.resolve (text_of explicit)) ≡ ".hex")

-- What the answer says of the file that was resolved.
pub record Describes (files : FileSystem) (artifact : String) (i : FlashArtifactIdentity)
    : Type 0 where
  pub artifact_path : i.artifact_path ≡ artifact
  pub suffix : i.suffix ≡ files.lower_suffix artifact
  pub size : i.size ≡ files.size_bytes artifact
  pub digest : i.digest ≡ files.sha256 artifact
  pub source : i.source ≡ "explicit"

IsGiven-iff : (explicit : ExplicitPath) → (is_empty_text explicit ≡ false) ↔ IsGiven explicit
IsGiven-iff (text s) = is_blank_iff s
IsGiven-iff (path s) = (λ h. tt, λ h. refl)

supported_iff :
    (s : String) → (is_supported s ≡ true) ↔ ((s ≡ ".axf") ⊎ (s ≡ ".elf") ⊎ (s ≡ ".hex"))
unfolding is_supported
supported_iff s =
    let a = eq_iff s ".axf" in
    let b = eq_iff s ".elf" in
    let c = eq_iff s ".hex" in (λ h. ground (arith, a, b, c), λ h. ground (arith, a, b, c))

local_iff : (s : String) → (is_url_like s ≡ false) ↔ ¬ IsUrl s
local_iff s = (
  λ h u. true-ne-false ((is_url_like_iff s).1 u) h,
  λ h. elim (Bool-cases (is_url_like s)) [
    | inl p ↦ absurd (h ((is_url_like_iff s).0 p))
    | inr p ↦ p
  ],
)

build-Describes :
    (files : FileSystem) (artifact : String) (i : FlashArtifactIdentity)
    → (build_identity files artifact ≡ i) ↔ Describes files artifact i
unfolding build_identity
build-Describes files artifact i = (
  λ h. record {
    artifact_path = ap (λ (x : FlashArtifactIdentity). x.artifact_path) (sym h);
    suffix = ap (λ (x : FlashArtifactIdentity). x.suffix) (sym h);
    size = ap (λ (x : FlashArtifactIdentity). x.size) (sym h);
    digest = ap (λ (x : FlashArtifactIdentity). x.digest) (sym h);
    source = ap (λ (x : FlashArtifactIdentity). x.source) (sym h);
  },
  λ h j. record {
    artifact_path = sym h.artifact_path j;
    suffix = sym h.suffix j;
    size = sym h.size j;
    digest = sym h.digest j;
    source = sym h.source j;
  },
)

-- The tests in their order.
resolve_path_tests :
    (files : FileSystem) (explicit : ExplicitPath) (i : FlashArtifactIdentity)
    → (resolve_path files explicit ≡ ok i) ↔ (
        (is_empty_text explicit ≡ false)
        × (is_url_like (text_of explicit) ≡ false)
        × (files.exists (files.resolve (text_of explicit)) ≡ true)
        × (files.is_dir (files.resolve (text_of explicit)) ≡ false)
        × (is_supported (files.lower_suffix (files.resolve (text_of explicit))) ≡ true)
        × (build_identity files (files.resolve (text_of explicit)) ≡ i))
unfolding resolve_path
resolve_path_tests files explicit i = (
  λ h. (ground arith, ground arith, ground arith, ground arith, ground arith, ground arith),
  λ h. rw (h.0, h.1, h.2, h.3, h.4, h.5) refl,
)

resolve_path_iff :
    (files : FileSystem) (explicit : ExplicitPath) (i : FlashArtifactIdentity)
    → (resolve_path files explicit ≡ ok i)
      ↔ (IsReadable files explicit × Describes files (files.resolve (text_of explicit)) i)
resolve_path_iff files explicit i =
    let artifact = files.resolve (text_of explicit) in
    (
      λ h.
          let (a, b, c, d, f, g) = (resolve_path_tests files explicit i).0 h in
          (
            record {
              given = (IsGiven-iff explicit).0 a;
              local = (local_iff (text_of explicit)).0 b;
              present = c;
              is_file = d;
              supported = (supported_iff (files.lower_suffix artifact)).0 f;
            },
            (build-Describes files artifact i).0 g,
          ),
      λ h. (resolve_path_tests files explicit i).1 (
        (IsGiven-iff explicit).1 h.0.given,
        (local_iff (text_of explicit)).1 h.0.local,
        h.0.present,
        h.0.is_file,
        (supported_iff (files.lower_suffix artifact)).1 h.0.supported,
        (build-Describes files artifact i).1 h.1,
      ),
    )

-- A request is resolved exactly when a session and a path are given, the path is a path object or
-- a text with a character that is no white space, it does not start like an address (a letter,
-- then letters, digits, +, - or ., then ://), and its resolved file exists, is no directory and
-- has the suffix .axf, .elf or .hex; the answer then has the path, suffix, size and digest of
-- that file.
pub resolve_flash_request_iff :
    (files : FileSystem) (has_session : Bool) (explicit : Option ExplicitPath)
    (i : FlashArtifactIdentity)
    → (resolve_flash_request files has_session explicit ≡ ok i) ↔ (
        (has_session ≡ true)
        × (p : ExplicitPath) × (explicit ≡ some p)
        × IsReadable files p
        × Describes files (files.resolve (text_of p)) i)
unfolding resolve_flash_request
resolve_flash_request_iff files false explicit i = (λ h. ground arith, λ h. ground arith)
resolve_flash_request_iff files true none i = (λ h. ground arith, λ h. ground arith)
resolve_flash_request_iff files true (some p) i = (
  λ h. let (a, b) = (resolve_path_iff files p i).0 h in (refl, p, refl, a, b),
  λ (_, q, same, a, b).
      subst (λ x. resolve_path files x ≡ ok i) (sym (some-injective same))
        ((resolve_path_iff files q i).1 (a, b)),
)
