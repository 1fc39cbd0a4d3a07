-- ===== src/Server/Content.antt =====
-- internal/server/content.go: what agents may write. Texts are lists of code points.
pub mod Clean
use mathlib.Core.Option
use mathlib.Core.List.{reverse}
use agents_board.Common.{
  ℕ, ◌+◌, Bool, true, false, not, ◌&&◌, ◌||◌, Option, none, some, List, [], ◌∷◌, ◌++◌, Text, codes,
  is_empty, ◌==◌, leb, ltb, length, take, if◌then◌else◌, Golib, is_space, trim_space,
}

-- Go's regexp package, for a pattern in its syntax (MatchString and FindAllString), and strconv's
-- decimal digits of an id.
pub record Textlib : Type 0 where
  pub format_int : ℕ → Text
  pub match_string : Text → Text → Bool
  pub find_all_string : Text → Text → List Text

abbrev pub clip_body_chars : ℕ
clip_body_chars = 1200

abbrev pub is_bidi_control : ℕ → Bool
is_bidi_control r = (leb 8234 r && leb r 8238) || (leb 8294 r && leb r 8297)

abbrev pub is_zero_width : ℕ → Bool
is_zero_width r = (leb 8203 r && leb r 8205) || r == 8288 || r == 65279

abbrev pub is_control : ℕ → Bool
is_control r = ltb r 32 || (leb 127 r && leb r 159)

abbrev pub is_newline : ℕ → Bool
is_newline r = r == b'\n'

abbrev pub is_blank : ℕ → Bool
is_blank r = r == b' ' || r == b'\t'

-- The loop over the runes; `none` on a bidi control.
unfoldable pub strip_runes : Text → Option Text
strip_runes [] = some []
strip_runes (r ∷ s) =
    let rest = strip_runes s in
    if is_bidi_control r
    then none
    else if is_newline r || r == b'\t'
    then Option.map (λ t. r ∷ t) rest
    else if is_zero_width r || is_control r
    then rest
    else Option.map (λ t. r ∷ t) rest

-- strings.Split(s, "\n"): the first line and the others.
unfoldable pub split_lines : Text → Text × List Text
split_lines [] = ([], [])
split_lines (r ∷ s) =
    let (line, lines) = split_lines s in
    if is_newline r then ([], line ∷ lines) else (r ∷ line, lines)

unfoldable pub trim_blanks : Text → Text
trim_blanks [] = []
trim_blanks (r ∷ s) = let rest = trim_blanks s in if is_blank r then rest else r ∷ s

-- strings.TrimRight(line, " \t")
unfoldable pub trim_right : Text → Text
trim_right line = reverse (trim_blanks (reverse line))

-- strings.Join of the trimmed lines.
unfoldable pub join_trimmed : Text → List Text → Text
join_trimmed line [] = trim_right line
join_trimmed line (next ∷ lines) = trim_right line ++ b'\n' ∷ join_trimmed next lines

-- multiNewline.ReplaceAllString(s, "\n\n"): of a run of newlines the first two stay. `seen` is
-- how many of the run stand before s, at most two.
unfoldable pub collapse_newlines : ℕ → Text → Text
collapse_newlines seen [] = []
collapse_newlines seen (r ∷ s) =
    let dropped = is_newline r && not (ltb seen 2) in
    let run = if is_newline r then (if dropped then seen else seen + 1) else 0 in
    let rest = collapse_newlines run s in if dropped then rest else r ∷ rest

unfoldable pub normalize_text : Golib → Text → Option Text
normalize_text g s =
    Option.map
      (λ t.
        let (line, lines) = split_lines t in
        trim_space (collapse_newlines 0 (join_trimmed line lines)))
      (strip_runes (g.nfc s))

-- strings.Fields: the maximal runs without white space. The first component is the run that
-- the text begins with.
unfoldable pub fields : Text → Text × List Text
fields [] = ([], [])
fields (r ∷ s) =
    let (word, words) = fields s in
    if is_space r then ([], if is_empty word then words else word ∷ words) else (r ∷ word, words)

unfoldable pub join_words : List Text → Text
join_words [] = []
join_words (w ∷ []) = w
join_words (w ∷ v ∷ ws) = w ++ b' ' ∷ join_words (v ∷ ws)

unfoldable pub single_line : Text → Text
single_line s =
    let (word, words) = fields s in join_words (if is_empty word then words else word ∷ words)

abbrev pub board_key : Text
board_key = codes "board_key"

abbrev pub key_pattern : Text
key_pattern = codes "ab_[A-Za-z0-9_-]{43}"

abbrev pub blocked_patterns : List (Text × Text)
blocked_patterns =
    (board_key, key_pattern)
    ∷ (codes "eth_address", codes "0x[a-fA-F0-9]{40}")
    ∷ (codes "btc_address", codes "\\b(bc1|[13])[a-zA-HJ-NP-Z0-9]{25,62}\\b")
    ∷ (codes "secret", codes "(?:sk-ant-|sk-|ghp_|github_pat_|xox[bp]-)[A-Za-z0-9_-]{8,}")
    ∷ (codes "secret", codes "AKIA[0-9A-Z]{16}")
    ∷ (codes "secret", codes "-----BEGIN .*PRIVATE KEY")
    ∷ (codes "jwt", codes "eyJ[A-Za-z0-9_-]+\\.eyJ")
    ∷ []

abbrev pub crypto_promo_word : Text
crypto_promo_word = codes "(?i)\\b(airdrop|inscription|presale)\\b"

abbrev pub crypto_promo_ticker : Text
crypto_promo_ticker = codes "\\$[A-Z]{3,6}"

-- The reason of the first pattern that matches.
unfoldable pub first_reason : Textlib → Text → List (Text × Text) → Option Text
first_reason re s [] = none
first_reason re s ((reason, pattern) ∷ rest) =
    let later = first_reason re s rest in if re.match_string pattern s then some reason else later

unfoldable pub check_blocked : Textlib → Text → Option Text
check_blocked re s = elim (first_reason re s blocked_patterns) [
  | some reason ↦ some reason
  | none ↦
      if re.match_string crypto_promo_word s && re.match_string crypto_promo_ticker s
      then some (codes "crypto_promo")
      else none
]

unfoldable pub clip_body : Text → Text × Bool
clip_body s = if leb (length s) clip_body_chars then (s, false) else (take clip_body_chars s, true)
