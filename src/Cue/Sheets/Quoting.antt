-- ===== src/Cue/Sheets/Quoting.antt =====
-- internal/domain/cue.go: the file name of a FILE line, with its escapes.
use cuearr.Prelude.{
  ℕ, ◌≡◌, refl, ◌∙◌, sym, ap, Text, lit, true, false, Bool-cases, inl, inr, [], ◌∷◌, ◌++◌, reverse,
  if◌then◌else◌, arith, ◌==◌, ◌||◌, trim_space, trim_left, is_space,
}
use mathlib.Core.List.{append_assoc, reverse-append, reverse-reverse}
use cuearr.Cue.{quoted_value, file_value, parse_cue_file}

-- A name as a quoted FILE value writes it: a backslash before each quote and backslash.
abbrev pub escape : Text → Text
escape [] = []
escape (c ∷ s) =
    let rest = escape s in if c == b'"' || c == b'\\' then b'\\' ∷ c ∷ rest else c ∷ rest

quoted_value_plain :
    (c : ℕ) (s : Text)
    → (c == b'"' || c == b'\\') ≡ false
    → quoted_value (c ∷ s) ≡ c ∷ quoted_value s
unfolding quoted_value
quoted_value_plain c [] h = ground arith
quoted_value_plain c (d ∷ s) h = ground arith

quoted_value_escaped :
    (c : ℕ) (s : Text)
    → (c == b'"' || c == b'\\') ≡ true
    → quoted_value (b'\\' ∷ c ∷ s) ≡ c ∷ quoted_value s
unfolding quoted_value
quoted_value_escaped c s h = rw h

quoted_value-escape : (name rest : Text) → quoted_value (escape name ++ (b'"' ∷ rest)) ≡ name
quoted_value-escape [] [] = unfold quoted_value in refl
quoted_value-escape [] (d ∷ rest) = unfold quoted_value in refl
quoted_value-escape (c ∷ name) rest = elim (Bool-cases (c == b'"' || c == b'\\')) [
  | inl special ↦
      rw special
        (quoted_value_escaped c _ special ∙ ap (λ s. c ∷ s) (quoted_value-escape name rest))
  | inr plain ↦
      rw plain (quoted_value_plain c _ plain ∙ ap (λ s. c ∷ s) (quoted_value-escape name rest))
]

trim_left_ink : (c : ℕ) (s : Text) → is_space c ≡ false → trim_left is_space (c ∷ s) ≡ c ∷ s
unfolding trim_left
trim_left_ink c s h = rw h

-- Trimming keeps a text that begins and ends with bytes other than white space.
trim_space_between :
    (c d : ℕ) (s : Text)
    → is_space c ≡ false
    → is_space d ≡ false
    → trim_space (c ∷ (s ++ (d ∷ []))) ≡ c ∷ (s ++ (d ∷ []))
unfolding trim_space
trim_space_between c d s h k = rw (trim_left_ink c (s ++ (d ∷ [])) h) (
    rw (reverse-append (c ∷ s) (d ∷ [])) (
      ap reverse (trim_left_ink d (reverse (c ∷ s)) k)
      ∙ ap reverse (sym (reverse-append (c ∷ s) (d ∷ [])))
      ∙ reverse-reverse (c ∷ (s ++ (d ∷ [])))))

trim_space_leading : (s : Text) → trim_space (b' ' ∷ s) ≡ trim_space s
unfolding trim_space
trim_space_leading s = refl

-- FILE "<name>" WAVE
abbrev pub file_text : Text → Text
file_text name = lit "FILE \"" ++ (escape name ++ lit "\" WAVE")

-- A FILE line whose name is quoted, with a backslash before each of its quotes and backslashes, is
-- read as exactly that name, whatever bytes the name holds.
pub parse_cue_file-file_text : (name : Text) → parse_cue_file (file_text name) ≡ name
unfolding parse_cue_file is_space
parse_cue_file-file_text name =
    let tail = escape name ++ lit "\" WAV" in
    let trimmed = trim_space_between b'"' b'E' tail refl refl in
    ap file_value (
      trim_space_leading (b'"' ∷ (escape name ++ lit "\" WAVE"))
      ∙ ap (λ s. trim_space (b'"' ∷ s)) (sym (append_assoc (escape name) (lit "\" WAV") (lit "E")))
      ∙ trimmed)
    ∙ ap quoted_value (append_assoc (escape name) (lit "\" WAV") (lit "E"))
    ∙ quoted_value-escape name (lit " WAVE")
