-- ===== src/Wav/Canonical.antt =====
-- internal/adapters/audio/wavduration/wav.go: the common form of a PCM file, as tools write it.
use mathlib.Core.Path.{subst}
use cuearr.Prelude.{
  ℕ, suc, ◌+◌, ◌/◌, ◌%◌, ◌<◌, ◌≡◌, refl, sym, ap, ◌∙◌, Text, lit, text_eq, true, false, not, ◌||◌,
  ◌*◌, ◌≢◌, ◌⊎◌, inl, inr, Bool-cases, none, some, [], ◌∷◌, ◌++◌, ◌==◌, ltb, drop, length, arith,
}
use cuearr.Prelude.Int.{pos}
use cuearr.Errors.{ok, err, message}
use cuearr.Wav.{
  Found, Step, answer, next, chunks, inspect, read_chunk, read_format, nothing_found, slice,
  little_endian, wav_info,
}

-- a number of 16 or 32 bits, as it is written
abbrev pub bytes2 : ℕ → Text → Text
bytes2 n rest = n % 256 ∷ n / 256 % 256 ∷ rest

abbrev pub bytes4 : ℕ → Text → Text
bytes4 n rest = n % 256 ∷ n / 256 % 256 ∷ n / 65_536 % 256 ∷ n / 16_777_216 % 256 ∷ rest

-- a header, a format chunk of 16 bytes and the samples, with a byte of padding where their number is odd
abbrev pub canonical : ℕ → ℕ → ℕ → ℕ → ℕ → ℕ → Text → Text
canonical channels sample_rate byte_rate block_align bits size samples =
    lit "RIFF"
    ++ bytes4 (36 + size + size % 2) (
        lit "WAVE"
        ++ (lit "fmt "
            ++ bytes4 16 (
                bytes2 1 (
                  bytes2 channels (
                    bytes4 sample_rate (
                      bytes4 byte_rate
                        (bytes2 block_align (bytes2 bits (lit "data" ++ bytes4 size samples)))))))))

four_bytes : (n : ℕ) → n < 4_294_967_296 → little_endian (bytes4 n []) ≡ n
four_bytes n h = omega arith

two_bytes : (n : ℕ) → n < 65_536 → little_endian (bytes2 n []) ≡ n
two_bytes n h = omega arith

-- one round of the loop, on a chunk that is complete
chunks-round :
    (fuel : ℕ) (file : Text) (riff_end position : ℕ) (found : Found) (read : Step)
    → let size = little_endian (slice 4 4 (slice position 8 file)) in
      (position == riff_end) ≡ false
      → ltb riff_end (position + 8) ≡ false
      → ltb (length (slice position 8 file)) 8 ≡ false
      → ltb riff_end (position + 8 + size + size % 2) ≡ false
      → read_chunk (slice 0 4 (slice position 8 file)) size (drop (position + 8) file) found ≡ read
      → chunks (suc fuel) file riff_end position found ≡ elim read [
        | answer a ↦ some a
        | next found' ↦ chunks fuel file riff_end (position + 8 + size + size % 2) found'
      ]
unfolding chunks
chunks-round fuel file riff_end position found read a b c d e = rw (a, b, c, d, e) refl

-- the tests before the loop, on a file that passes them
inspect-begins :
    (fuel : ℕ) (file : Text) (riff_end : ℕ)
    → let header = slice 0 12 file in
      ltb (length header) 12 ≡ false
      → not (text_eq (slice 0 4 header) (lit "RIFF"))
          || not (text_eq (slice 8 4 header) (lit "WAVE"))
        ≡ false
      → little_endian (slice 4 4 header) + 8 ≡ riff_end
      → ltb riff_end 12 || ltb (length file) riff_end ≡ false
      → inspect fuel file ≡ chunks fuel file riff_end 12 nothing_found
unfolding inspect
inspect-begins fuel file riff_end a b c d = rw (a, b, c, d) refl

format_read :
    (format : Text) (found : Found) (sample_rate block_align : ℕ)
    → ltb (length format) 16 ≡ false
    → little_endian (slice 0 2 format) ≡ 1
    → little_endian (slice 4 4 format) ≡ sample_rate
    → little_endian (slice 12 2 format) ≡ block_align
    → (sample_rate == 0) || (block_align == 0) ≡ false
    → read_format 16 format found
      ≡ next (record found {
        sample_rate = sample_rate;
        block_align = block_align;
        format_found = true;
      })
unfolding read_format
format_read format found sample_rate block_align a b c d e = rw (a, b, c, d, e) refl

module _ (channels sample_rate byte_rate block_align bits size : ℕ) (samples : Text) where
  abbrev file : Text
  file = canonical channels sample_rate byte_rate block_align bits size samples

  abbrev formatted : Found
  formatted = record {
    sample_rate = sample_rate;
    block_align = block_align;
    data_size = none;
    format_found = true;
  }

  first_round :
      (fuel : ℕ)
      → 0 < sample_rate
      → sample_rate < 4_294_967_296
      → 0 < block_align
      → block_align < 65_536
      → chunks (suc fuel) file (44 + size + size % 2) 12 nothing_found
        ≡ chunks fuel file (44 + size + size % 2) 36 formatted
  unfolding read_chunk
  first_round fuel a b c d =
      chunks-round fuel file (44 + size + size % 2) 12 nothing_found (next formatted) (ground arith)
        (ground arith) refl (ground arith)
        (format_read (slice 20 16 file) nothing_found sample_rate block_align refl refl
          (four_bytes sample_rate b) (two_bytes block_align d) (ground arith))

  second_round :
      (fuel : ℕ)
      → size < 4_294_967_296
      → chunks (suc fuel) file (44 + size + size % 2) 36 formatted
        ≡ some (wav_info sample_rate block_align size)
  unfolding read_chunk
  second_round fuel a =
      let written = little_endian (bytes4 size []) in
      let fits =
        subst (λ n. ltb (44 + size + size % 2) (44 + n + n % 2) ≡ false) (sym (four_bytes size a))
          (ground arith) in
      chunks-round fuel file (44 + size + size % 2) 36 formatted
        (answer (wav_info sample_rate block_align written)) (ground arith) (ground arith) refl fits
        refl
      ∙ ap (λ n. some (wav_info sample_rate block_align n)) (four_bytes size a)

  read_as_info :
      (fuel : ℕ)
      → 0 < sample_rate
      → sample_rate < 4_294_967_296
      → 0 < block_align
      → block_align < 65_536
      → 36 + size + size % 2 < 4_294_967_296
      → length samples ≡ size + size % 2
      → inspect (suc (suc fuel)) file ≡ some (wav_info sample_rate block_align size)
  read_as_info fuel a b c d e l =
      inspect-begins (suc (suc fuel)) file (44 + size + size % 2) refl refl
        (ap (λ n. n + 8) (four_bytes (36 + size + size % 2) e) ∙ omega arith) (ground arith)
      ∙ first_round (suc fuel) a b c d
      ∙ second_round fuel (omega arith)

  wav_info_lem :
      (size % block_align ≡ 0
        × (wav_info sample_rate block_align size
            ≡ ok (record {
              sample_rate = pos sample_rate;
              total_samples = pos (size / block_align);
              duration = pos (size / block_align * 1_000_000_000 / sample_rate);
            })))
      ⊎ (size % block_align ≢ 0
          × (wav_info sample_rate block_align size
              ≡ err (message (lit "WAV data size is not sample-aligned"))))
  unfolding wav_info
  wav_info_lem = elim (Bool-cases (size % block_align == 0)) [
    | inl whole ↦ inl (ground arith, rw (whole, wav_info) refl)
    | inr part ↦ inr ((λ e. absurd (ground arith)), rw (part, wav_info) refl)
  ]

  -- A PCM file in the common form is read whatever the fuel of two rounds or more. Where its data are
  -- whole blocks, the number of samples is the size over the block alignment, and the duration is
  -- that number over the sample rate, in nanoseconds rounded down. Else it is an error.
  pub inspect-canonical :
      (fuel : ℕ)
      → 0 < sample_rate
      → sample_rate < 4_294_967_296
      → 0 < block_align
      → block_align < 65_536
      → 36 + size + size % 2 < 4_294_967_296
      → length samples ≡ size + size % 2
      → (size % block_align ≡ 0
          × (inspect (suc (suc fuel)) file
              ≡ some (
                  ok (record {
                    sample_rate = pos sample_rate;
                    total_samples = pos (size / block_align);
                    duration = pos (size / block_align * 1_000_000_000 / sample_rate);
                  }))))
        ⊎ (size % block_align ≢ 0
            × (inspect (suc (suc fuel)) file
                ≡ some (err (message (lit "WAV data size is not sample-aligned")))))
  inspect-canonical fuel a b c d e l = elim wav_info_lem [
    | inl (whole, info) ↦ inl (whole, read_as_info fuel a b c d e l ∙ ap some info)
    | inr (part, info) ↦ inr (part, read_as_info fuel a b c d e l ∙ ap some info)
  ]
