-- ===== src/Server/Content/Clean.antt =====
-- What normalizeText leaves (internal/server/content.go).
use mathlib.Core.Path.{subst}
use mathlib.Core.List.{reverse, reverse_aux}
use mathlib.Core.Option.{some-injective}
use agents_board.Common.{
  ℕ, ◌≡◌, sym, ◌∙◌, refl, arith, Bool, true, false, not, ◌&&◌, ◌||◌, some, inl, inr, List, [], ◌∷◌,
  Text, ◌==◌, ltb, All, All-append, Bool-cases, Option-cases, if◌then◌else◌, Golib, is_space,
  trim_left, trim_space,
}
use agents_board.Server.Content.{
  is_bidi_control, is_zero_width, is_control, is_newline, is_blank, strip_runes, split_lines,
  trim_blanks, trim_right, join_trimmed, collapse_newlines, normalize_text,
}

-- A rune that a stored text may have.
abbrev pub IsAllowed : ℕ → Type 0
IsAllowed r =
    (is_bidi_control r ≡ false)
    × (((is_newline r || r == b'\t') || not (is_zero_width r || is_control r)) ≡ true)

-- One rune that is kept or dropped.
strip_step :
    (r : ℕ) (s t u : Text)
    → strip_runes s ≡ some u
    → strip_runes (r ∷ s) ≡ some t
    → All IsAllowed u
    → All IsAllowed t
unfolding strip_runes
strip_step r s t u e h k = elim (Bool-cases (is_bidi_control r)) [
  | inl b ↦ absurd (ground arith)
  | inr b ↦ elim (Bool-cases (is_newline r || r == b'\t')) [
    | inl n ↦
        let same : t ≡ r ∷ u = ground arith in
        subst (All IsAllowed) (sym same) ((b, ground arith), k)
    | inr n ↦ elim (Bool-cases (is_zero_width r || is_control r)) [
      | inl z ↦ let same : t ≡ u = ground arith in subst (All IsAllowed) (sym same) k
      | inr z ↦
          let same : t ≡ r ∷ u = ground arith in
          subst (All IsAllowed) (sym same) ((b, ground arith), k)
    ]
  ]
]

strip_runes-IsAllowed : (s : Text) {t : Text} → strip_runes s ≡ some t → All IsAllowed t
unfolding strip_runes
strip_runes-IsAllowed [] h = subst (All IsAllowed) (some-injective _ _ h) tt
strip_runes-IsAllowed (r ∷ s) {t} h = elim (Option-cases (strip_runes s)) [
  | inl e ↦ absurd (ground arith)
  | inr (u, e) ↦ strip_step r s t u e h (strip_runes-IsAllowed s e)
]

module _ {κ} (P : ℕ → Type κ) where
  if-All : (b : Bool) (s t : Text) → All P s → All P t → All P (if b then s else t)
  if-All true s t h k = h
  if-All false s t h k = k

  reverse_aux-All : (s t : Text) → All P s → All P t → All P (reverse_aux s t)
  reverse_aux-All [] t h k = k
  reverse_aux-All (r ∷ s) t (p, h) k = reverse_aux-All s (r ∷ t) h (p, k)

  reverse-All : (s : Text) → All P s → All P (reverse s)
  reverse-All s h = reverse_aux-All s [] h tt

  trim_blanks-All : (s : Text) → All P s → All P (trim_blanks s)
  unfolding trim_blanks
  trim_blanks-All [] h = h
  trim_blanks-All (r ∷ s) (p, h) = if-All (is_blank r) _ _ (trim_blanks-All s h) (p, h)

  trim_left-All : (s : Text) → All P s → All P (trim_left s)
  unfolding trim_left
  trim_left-All [] h = h
  trim_left-All (r ∷ s) (p, h) = if-All (is_space r) _ _ (trim_left-All s h) (p, h)

  trim_space-All : (s : Text) → All P s → All P (trim_space s)
  unfolding trim_space
  trim_space-All s h = reverse-All _ (trim_left-All _ (reverse-All _ (trim_left-All s h)))

  trim_right-All : (s : Text) → All P s → All P (trim_right s)
  unfolding trim_right
  trim_right-All s h = reverse-All _ (trim_blanks-All _ (reverse-All s h))

  collapse_newlines-All : (s : Text) (seen : ℕ) → All P s → All P (collapse_newlines seen s)
  unfolding collapse_newlines
  collapse_newlines-All [] seen h = h
  collapse_newlines-All (r ∷ s) seen (p, h) =
      if-All (is_newline r && not (ltb seen 2)) _ _ (collapse_newlines-All s _ h)
        (p, collapse_newlines-All s _ h)

  split_lines-All : (s : Text) → All P s → All P (split_lines s).0 × All (All P) (split_lines s).1
  unfolding split_lines
  split_lines-All [] h = (tt, tt)
  split_lines-All (r ∷ s) (p, h) = elim (Bool-cases (is_newline r)) [
    | inl e ↦ rw e (tt, split_lines-All s h)
    | inr e ↦ rw e ((p, (split_lines-All s h).0), (split_lines-All s h).1)
  ]

  join_trimmed-All :
      P b'\n'
      → (line : Text) (lines : List Text) → All P line
      → All (All P) lines
      → All P (join_trimmed line lines)
  unfolding join_trimmed
  join_trimmed-All n line [] h hs = trim_right-All line h
  join_trimmed-All n line (next ∷ lines) h (i, hs) =
      All-append P (trim_right line) _ (trim_right-All line h)
        (n, join_trimmed-All n next lines i hs)

-- A text that normalizeText accepts keeps no bidi control, no zero-width code point and no control
-- character but newlines and tabs, whatever Unicode normalization made of the input.
pub normalize_text-IsAllowed :
    (g : Golib) (s : Text) {t : Text} → normalize_text g s ≡ some t → All IsAllowed t
unfolding normalize_text
normalize_text-IsAllowed g s h = elim (Option-cases (strip_runes (g.nfc s))) [
  | inl e ↦ absurd (ground arith)
  | inr (u, e) ↦
      let (first_line, other_lines) =
        split_lines-All IsAllowed u (strip_runes-IsAllowed (g.nfc s) e) in
      subst (All IsAllowed) (some-injective _ _ (sym (rw e refl) ∙ h)) (
        trim_space-All IsAllowed _ (
          collapse_newlines-All IsAllowed _ 0
            (join_trimmed-All IsAllowed (refl, refl) _ _ first_line other_lines)))
]
