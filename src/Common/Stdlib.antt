-- ===== src/Common/Stdlib.antt =====
-- What the source uses of Go's standard library and of golang.org/x/text. `Golib` holds what is
-- not defined here: the parameter of every definition that uses it.
use Prim.Native.Nat.{ℕ, ◌+◌}
use mathlib.Core.Bool.{Bool, true, false, ◌&&◌, ◌||◌}
use mathlib.Core.List.{List, [], ◌∷◌, map, reverse}
use agents_board.Common.Tests.{leb, ◌==◌, if◌then◌else◌}
use agents_board.Common.Texts.{Text, is_empty}

-- strings.ToLower, crypto/sha256.Sum256 over the text's bytes, and norm.NFC.String.
pub record Golib : Type 0 where
  pub to_lower : Text → Text
  pub sha256 : Text → Text
  pub nfc : Text → Text

-- unicode.IsSpace
unfoldable pub is_space : ℕ → Bool
is_space c =
    (leb 9 c && leb c 13)
    || c == 32
    || c == 0x85
    || c == 0xA0
    || c == 0x1680
    || (leb 0x2000 c && leb c 0x200A)
    || c == 0x2028
    || c == 0x2029
    || c == 0x202F
    || c == 0x205F
    || c == 0x3000

unfoldable pub trim_left : Text → Text
trim_left [] = []
trim_left (c ∷ s) = let rest = trim_left s in if is_space c then rest else c ∷ s

-- strings.TrimSpace
unfoldable pub trim_space : Text → Text
trim_space s = reverse (trim_left (reverse (trim_left s)))

-- SQLite's COLLATE NOCASE and lower(): the ASCII letters alone are folded.
unfoldable pub nocase : Text → Text
nocase = map (λ c. if leb b'A' c && leb c b'Z' then c + 32 else c)

-- strings.HasPrefix
unfoldable pub has_prefix : Text → Text → Bool
has_prefix s [] = true
has_prefix [] (p ∷ prefix) = false
has_prefix (c ∷ s) (p ∷ prefix) = (c == p) && has_prefix s prefix

-- strings.Split at one byte
abbrev pub to_first : ℕ → List Text → List Text
to_first c [] = []
to_first c (t ∷ ts) = (c ∷ t) ∷ ts

unfoldable pub split : ℕ → Text → List Text
split sep [] = [] ∷ []
split sep (c ∷ s) = let rest = split sep s in if c == sep then [] ∷ rest else to_first c rest

-- strings.TrimRight with a single byte
unfoldable pub trim_right_byte : ℕ → Text → Text
trim_right_byte drop [] = []
trim_right_byte drop (c ∷ s) =
    let rest = trim_right_byte drop s in if is_empty rest && c == drop then [] else c ∷ rest
