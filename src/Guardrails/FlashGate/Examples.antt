-- ===== src/Guardrails/FlashGate/Examples.antt =====
-- A file system with one artifact, on which the statement about guardrails/flash_gate.py is exercised.
use byo_firmware_mcp.Prelude.{◌≡◌, refl, ◌↔◌, true, false, some, ◌==◌, string_eq}
use byo_firmware_mcp.Prelude.Result.{ok}
use byo_firmware_mcp.Guardrails.FlashGate.{
  ExplicitPath, text, FileSystem, text_of, build_identity, resolve_flash_request, is_url_like,
  is_letter, url_rest, is_scheme_char, is_authority,
}
use byo_firmware_mcp.Guardrails.FlashGate.Readable.{
  IsReadable, Describes, resolve_flash_request_iff,
}

abbrev disk : FileSystem
disk = record {
  resolve = λ path. path;
  exists = λ path. path == "build/app.elf";
  is_dir = λ path. path == "build";
  lower_suffix = λ path. ".elf";
  size_bytes = λ path. 4096;
  sha256 = λ path. "digest";
}

resolve_flash_request_iff_example :
    (resolve_flash_request disk true (some (text "build/app.elf"))
      ≡ ok (build_identity disk "build/app.elf"))
    ↔ ((true ≡ true)
        × (p : ExplicitPath) × (some (text "build/app.elf") ≡ some p)
        × IsReadable disk p
        × Describes disk (disk.resolve (text_of p)) (build_identity disk "build/app.elf"))
resolve_flash_request_iff_example =
    resolve_flash_request_iff disk true (some (text "build/app.elf"))
      (build_identity disk "build/app.elf")

urls :
    (is_url_like "https://host/app.elf" ≡ true)
    × (is_url_like "build/app.elf" ≡ false)
    × (is_url_like "C:/app.elf" ≡ false)
unfolding is_url_like is_letter url_rest is_scheme_char is_authority
urls = (refl, refl, refl)
