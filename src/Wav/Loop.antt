-- ===== src/Wav/Loop.antt =====
-- internal/adapters/audio/wavduration/wav.go: the loop over the chunks ends.
use cuearr.Prelude.{
  ℕ, zero, suc, ◌+◌, ◌*◌, ◌%◌, ◌≤◌, ◌<◌, ◌≡◌, ◌⊎◌, refl, Text, lit, text_eq, not, ◌||◌, Bool-cases,
  some, ◌==◌, ltb, drop, length, inl, inr, arith,
}
use cuearr.Errors.{Result}
use cuearr.Wav.{
  Found, FlacInfo, Step, answer, next, chunks, inspect, read_chunk, nothing_found, slice,
  little_endian,
}

Step-cases : (s : Step) → ((a : Result FlacInfo) × (s ≡ answer a)) ⊎ ((f : Found) × (s ≡ next f))
Step-cases (answer a) = inl (a, refl)
Step-cases (next f) = inr (f, refl)

-- A chunk takes at least its eight bytes, so the loop needs one round for each eight that are left.
chunks-some :
    (fuel : ℕ) (file : Text) (riff_end position : ℕ) (found : Found)
    → position ≤ riff_end
    → riff_end < position + 8 * fuel
    → (a : Result FlacInfo) × (chunks fuel file riff_end position found ≡ some a)
unfolding chunks
chunks-some zero file riff_end position found l h = absurd (omega arith)
chunks-some (suc fuel) file riff_end position found l h =
    let chunk = slice position 8 file in
    let size = little_endian (slice 4 4 chunk) in
    let after = position + 8 + size + size % 2 in
    let read = read_chunk (slice 0 4 chunk) size (drop (position + 8) file) found in
    elim (Bool-cases (position == riff_end)) [
      | inl a ↦ rw a (_, refl)
      | inr a ↦ elim (Bool-cases (ltb riff_end (position + 8))) [
        | inl b ↦ rw (a, b) (_, refl)
        | inr b ↦ elim (Bool-cases (ltb (length chunk) 8)) [
          | inl c ↦ rw (a, b, c) (_, refl)
          | inr c ↦ elim (Bool-cases (ltb riff_end after)) [
            | inl d ↦ rw (a, b, c, d) (_, refl)
            | inr d ↦ elim (Step-cases read) [
              | inl (answer', e) ↦ rw (a, b, c, d, e) (answer', refl)
              | inr (found', e) ↦
                  rw (a, b, c, d, e)
                    (chunks-some fuel file riff_end after found' (ground arith) (omega arith))
            ]
          ]
        ]
      ]
    ]

-- On every file the inspection ends with information or an error: one round of the loop for each
-- byte of the file is enough.
pub inspect-some :
    (file : Text) (fuel : ℕ)
    → length file ≤ fuel
    → (a : Result FlacInfo) × (inspect fuel file ≡ some a)
unfolding inspect
inspect-some file fuel enough =
    let header = slice 0 12 file in
    let riff_end = little_endian (slice 4 4 header) + 8 in
    let bad =
      not (text_eq (slice 0 4 header) (lit "RIFF"))
      || not (text_eq (slice 8 4 header) (lit "WAVE")) in
    elim (Bool-cases (ltb (length header) 12)) [
      | inl a ↦ rw a (_, refl)
      | inr a ↦ elim (Bool-cases bad) [
        | inl b ↦ rw (a, b) (_, refl)
        | inr b ↦ elim (Bool-cases (ltb riff_end 12 || ltb (length file) riff_end)) [
          | inl c ↦ rw (a, b, c) (_, refl)
          | inr c ↦
              rw (a, b, c)
                (chunks-some fuel file riff_end 12 nothing_found (ground arith) (ground arith))
        ]
      ]
    ]
