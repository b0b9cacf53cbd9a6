-- ===== src/Wav.antt =====
-- internal/adapters/audio/wavduration/wav.go: the length of a WAV file, read from its RIFF chunks.
-- A file is the list of its bytes; opening it, errors of the disk and the log are not modelled.
pub mod Loop
pub mod Canonical
use cuearr.Prelude.{
  ℕ, zero, suc, ◌+◌, ◌-◌, ◌*◌, ◌/◌, ◌%◌, Text, lit, text_eq, Bool, true, false, not, ◌||◌, Option,
  none, some, List, [], ◌∷◌, ◌++◌, if◌then◌else◌, ◌==◌, ltb, take, drop, length,
}
use cuearr.Strconv.{itoa}
use cuearr.Verify.{FlacInfo}
use cuearr.Prelude.Int.{pos}
use cuearr.Errors.{Error, Result, ok, err, message, wrapped}

-- a little-endian number
abbrev pub little_endian : Text → ℕ
little_endian [] = 0
little_endian (b ∷ s) = b + 256 * little_endian s

-- file[from:from+n]
abbrev pub slice : ℕ → ℕ → Text → Text
slice from n file = take n (drop from file)

-- sizes are of 32 bits, so that no product leaves an int64
unfoldable pub wav_info : ℕ → ℕ → ℕ → Result FlacInfo
wav_info sample_rate block_align data_size =
    let total = data_size / block_align in
    if not (data_size % block_align == 0)
    then err (message (lit "WAV data size is not sample-aligned"))
    else ok (record {
      sample_rate = pos sample_rate;
      total_samples = pos total;
      duration = pos (total * 1_000_000_000 / sample_rate);
    })

-- what the loop has read so far; no size stands for -1
pub record Found : Type 0 where
  pub sample_rate : ℕ
  pub block_align : ℕ
  pub data_size : Option ℕ
  pub format_found : Bool

pub data Step : Type 0 where
  answer : Result FlacInfo → Step
  next : Found → Step

unfoldable pub read_format : ℕ → Text → Found → Step
read_format size format found =
    let encoding = little_endian (slice 0 2 format) in
    let sample_rate = little_endian (slice 4 4 format) in
    let block_align = little_endian (slice 12 2 format) in
    if ltb size 16
    then answer (err (message (lit "invalid WAV fmt chunk")))
    else if ltb (length format) 16
    then answer (err (wrapped (lit "read WAV format") (message (lit "unexpected EOF"))))
    else if not (encoding == 1)
    then answer (
        err (
          message (
            lit "unsupported WAV encoding "
            ++ (itoa (pos encoding) ++ lit ": only PCM is supported"))))
    else if sample_rate == 0 || block_align == 0
    then answer (err (message (lit "invalid WAV sample rate or block alignment")))
    else next
        (record found { sample_rate = sample_rate; block_align = block_align; format_found = true })

unfoldable pub read_chunk : Text → ℕ → Text → Found → Step
read_chunk name size body found =
    if text_eq name (lit "fmt ")
    then read_format size (take 16 body) found
    else if text_eq name (lit "data")
    then (if found.format_found
        then answer (wav_info found.sample_rate found.block_align size)
        else next (record found { data_size = some size }))
    else next found

unfoldable pub finish : Found → Result FlacInfo
finish found =
    if not found.format_found
    then err (message (lit "WAV fmt chunk not found"))
    else elim found.data_size [
      | none ↦ err (message (lit "WAV data chunk not found"))
      | some size ↦ wav_info found.sample_rate found.block_align size
    ]

-- the loop over the chunks from a position on; none where the fuel does not last
unfoldable pub chunks : ℕ → Text → ℕ → ℕ → Found → Option (Result FlacInfo)
chunks zero file riff_end position found = none
chunks (suc fuel) file riff_end position found =
    let chunk = slice position 8 file in
    let size = little_endian (slice 4 4 chunk) in
    let after = position + 8 + size + size % 2 in
    if position == riff_end
    then some (finish found)
    else if ltb riff_end (position + 8)
    then some (err (message (lit "truncated WAV chunk header")))
    else if ltb (length chunk) 8
    then some (finish found)
    else if ltb riff_end after
    then some (err (message (lit "truncated WAV chunk data")))
    else elim (read_chunk (slice 0 4 chunk) size (drop (position + 8) file) found) [
      | answer a ↦ some a
      | next found' ↦ chunks fuel file riff_end after found'
    ]

abbrev pub nothing_found : Found
nothing_found = record { sample_rate = 0; block_align = 0; data_size = none; format_found = false }

-- inspect, with fuel for its loop
unfoldable pub inspect : ℕ → Text → Option (Result FlacInfo)
inspect fuel file =
    let header = slice 0 12 file in
    let riff_end = little_endian (slice 4 4 header) + 8 in
    if ltb (length header) 12
    then some (err (wrapped (lit "read WAV header") (message (lit "unexpected EOF"))))
    else if not (text_eq (slice 0 4 header) (lit "RIFF"))
        || not (text_eq (slice 8 4 header) (lit "WAVE"))
    then some (err (message (lit "invalid WAV RIFF header")))
    else if ltb riff_end 12 || ltb (length file) riff_end
    then some (err (message (lit "truncated or invalid WAV RIFF size")))
    else chunks fuel file riff_end 12 nothing_found
