-- ===== src/Guardrails/FlashGate.antt =====
-- `resolve_flash_request` of src/pyocd_debug_mcp/guardrails/flash_gate.py: which path a flash may read.
-- The file system, the digest of a file and `str.lower` of a suffix are parameters.
pub mod Url
pub mod Readable
pub mod Examples
use Prim.Native.Char.{Char, code}
use Prim.Native.String.{[], ◌∷◌}
use byo_firmware_mcp.Prelude.{
  ℕ, String, ◌≡◌, refl, sym, some-injective, ◌↔◌, Bool, true, false, ◌&&◌, ◌||◌, not, Option, none,
  some, arith, leb, eqb, ◌==◌, string_eq, if◌then◌else◌, eq_iff, and_true,
}
use byo_firmware_mcp.Prelude.Result.{Result, ok, raise}
use byo_firmware_mcp.Prelude.Text.{is_blank}

-- The codes of the refusals, in the order of the tests.
pub data FlashRefusal : Type 0 where
  no_session artifact_required empty_path non_local_path missing_file : FlashRefusal
  not_a_file unsupported_suffix : FlashRefusal

-- `Path | str`
pub data ExplicitPath : Type 0 where
  text path : String → ExplicitPath

abbrev pub text_of : ExplicitPath → String
text_of (text s) = s
text_of (path s) = s

-- A path after `expanduser().resolve()`, and what is asked of it.
pub record FileSystem : Type 0 where
  pub resolve : String → String
  pub exists : String → Bool
  pub is_dir : String → Bool
  pub lower_suffix : String → String
  pub size_bytes : String → ℕ
  pub sha256 : String → String

pub record FlashArtifactIdentity : Type 0 where
  pub artifact_path : String
  pub suffix : String
  pub size : ℕ
  pub digest : String
  pub source : String

unfoldable pub is_letter : Char → Bool
is_letter ch = let c = code ch in (leb 65 c && leb c 90) || (leb 97 c && leb c 122)

unfoldable pub is_scheme_char : Char → Bool
is_scheme_char ch =
    let c = code ch in is_letter ch || (leb 48 c && leb c 57) || eqb c 43 || eqb c 45 || eqb c 46

-- What stands behind the scheme starts with "://".
unfoldable pub is_authority : String → Bool
is_authority (a ∷ b ∷ c ∷ s) = eqb (code a) 58 && eqb (code b) 47 && eqb (code c) 47
is_authority _ = false

unfoldable pub url_rest : String → Bool
url_rest [] = false
url_rest (c ∷ s) = let rest = url_rest s in if is_scheme_char c then rest else is_authority (c ∷ s)

-- `_URL_LIKE.match`
unfoldable pub is_url_like : String → Bool
is_url_like [] = false
is_url_like (c ∷ s) = is_letter c && url_rest s

unfoldable pub is_supported : String → Bool
is_supported suffix = suffix == ".axf" || suffix == ".elf" || suffix == ".hex"

abbrev pub is_empty_text : ExplicitPath → Bool
is_empty_text (text s) = is_blank s
is_empty_text (path s) = false

unfoldable pub build_identity : FileSystem → String → FlashArtifactIdentity
build_identity files artifact = record {
  artifact_path = artifact;
  suffix = files.lower_suffix artifact;
  size = files.size_bytes artifact;
  digest = files.sha256 artifact;
  source = "explicit";
}

unfoldable pub resolve_path : FileSystem → ExplicitPath → Result FlashRefusal FlashArtifactIdentity
resolve_path files explicit =
    let artifact = files.resolve (text_of explicit) in
    if is_empty_text explicit
    then raise empty_path
    else if is_url_like (text_of explicit)
    then raise non_local_path
    else if not (files.exists artifact)
    then raise missing_file
    else if files.is_dir artifact
    then raise not_a_file
    else if not (is_supported (files.lower_suffix artifact))
    then raise unsupported_suffix
    else ok (build_identity files artifact)

-- `has_session` is whether a session handle is given.
unfoldable pub resolve_flash_request :
    FileSystem → Bool → Option ExplicitPath → Result FlashRefusal FlashArtifactIdentity
resolve_flash_request files false explicit = raise no_session
resolve_flash_request files true none = raise artifact_required
resolve_flash_request files true (some explicit) = resolve_path files explicit
