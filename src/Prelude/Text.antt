-- ===== src/Prelude/Text.antt =====
-- `str.strip` of Python, over the code points.
use Prim.Native.Char.{Char, code}
use Prim.Native.String.{String, [], ◌∷◌}
use text.Mathlib.Text.{◌==◌ as str_eq}
use mathlib.Core.Path.{◌≡◌, refl}
use mathlib.Core.Bool.{Bool, true, false, ◌&&◌, ◌||◌}
use byo_firmware_mcp.Prelude.Tests.{if◌then◌else◌, leb, eqb}

-- `str.isspace` of one character: the code points that `strip` removes.
unfoldable pub is_space : Char → Bool
is_space ch =
    let c = code ch in
    (leb 9 c && leb c 13)
    || (leb 28 c && leb c 32)
    || eqb c 133
    || eqb c 160
    || eqb c 5760
    || (leb 8192 c && leb c 8202)
    || eqb c 8232
    || eqb c 8233
    || eqb c 8239
    || eqb c 8287
    || eqb c 12288

unfoldable pub lstrip : String → String
lstrip [] = []
lstrip (c ∷ s) = let rest = lstrip s in if is_space c then rest else c ∷ s

abbrev pub is_empty : String → Bool
is_empty [] = true
is_empty (c ∷ s) = false

unfoldable pub rstrip : String → String
rstrip [] = []
rstrip (c ∷ s) = let rest = rstrip s in if is_space c && is_empty rest then [] else c ∷ rest

unfoldable pub strip : String → String
unfolding lstrip rstrip is_space
strip s = rstrip (lstrip s)

-- `not s.strip()`
unfoldable pub is_blank : String → Bool
unfolding strip
is_blank s = is_empty (strip s)

is_blank_examples : (is_blank " \t\n" ≡ true) × (is_blank " a " ≡ false) × (strip " a b " ≡ "a b")
unfolding is_blank
is_blank_examples = (refl, refl, refl)

-- `str.endswith`
unfoldable pub ends_with : String → String → Bool
ends_with suffix [] = str_eq suffix []
ends_with suffix (c ∷ s) = let rest = ends_with suffix s in str_eq suffix (c ∷ s) || rest
