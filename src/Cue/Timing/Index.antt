-- ===== src/Cue/Timing/Index.antt =====
-- internal/domain/cue_timing.go: ParseCueIndex reads MM:SS:FF.
use cuearr.Prelude.{
  ℕ, zero, suc, ◌≢◌, some, ◌+◌, ◌*◌, ◌/◌, ◌<◌, ◌≡◌, refl, ◌∙◌, ap, Text, lit, false, [], ◌∷◌, ◌++◌,
  reverse, arith, All, All-append, All-reverse, All-map, trim_space, trim_left, split, is_space,
}
use mathlib.Core.List.{reverse-reverse}
use cuearr.Prelude.Int.{pos, wrap_small, int64_half}
use cuearr.Strconv.{itoa, digits_value}
use cuearr.Strconv.Decimal.{
  IsDigit, atoi_digits, digits_value-decimal, decimal-ne-nil, decimal-IsDigit,
}
use cuearr.Errors.{ok}
use cuearr.Cue.Timing.{
  parse_cue_index, parse_parts, parse_number, check_fields, frames_to_duration, div_trunc,
}

-- a number in decimal, behind so many zeros
abbrev pub zero_padded : ℕ → ℕ → Text
zero_padded zero n = itoa (pos n)
zero_padded (suc k) n = b'0' ∷ zero_padded k n

-- three fields between colons
abbrev pub index_text : Text → Text → Text → Text
index_text mm ss ff = mm ++ (b':' ∷ (ss ++ (b':' ∷ ff)))

split-digits :
    (s rest : Text) → All IsDigit s → split b':' (s ++ (b':' ∷ rest)) ≡ s ∷ split b':' rest
unfolding split
split-digits [] rest h = refl
split-digits (c ∷ s) rest h = ground (arith, h.0, split-digits s rest h.1)

split-digits_end : (s : Text) → All IsDigit s → split b':' s ≡ s ∷ []
unfolding split
split-digits_end [] h = refl
split-digits_end (c ∷ s) h = ground (arith, h.0, split-digits_end s h.1)

abbrev IsInk : ℕ → Type 0
IsInk c = is_space c ≡ false

IsDigit-IsInk : (c : ℕ) → IsDigit c → IsInk c
unfolding is_space
IsDigit-IsInk c h = ground arith

trim_left_ink : (s : Text) → All IsInk s → trim_left is_space s ≡ s
unfolding trim_left
trim_left_ink [] h = refl
trim_left_ink (c ∷ s) h = rw h.0

trim_space_ink : (s : Text) → All IsInk s → trim_space s ≡ s
unfolding trim_space
trim_space_ink s h =
    rw (trim_left_ink s h)
      (ap reverse (trim_left_ink (reverse s) (All-reverse IsInk s h)) ∙ reverse-reverse s)

itoa-IsDigit : (n : ℕ) → All IsDigit (itoa (pos n))
unfolding itoa
itoa-IsDigit n = decimal-IsDigit (suc n) n

zero_padded-IsDigit : (k n : ℕ) → All IsDigit (zero_padded k n)
zero_padded-IsDigit zero n = itoa-IsDigit n
zero_padded-IsDigit (suc k) n = (refl, zero_padded-IsDigit k n)

zero_padded-ne-nil : (k n : ℕ) → zero_padded k n ≢ []
unfolding itoa
zero_padded-ne-nil zero n = decimal-ne-nil n n
zero_padded-ne-nil (suc k) n = λ e. cc

digits_value-zero_padded : (k n : ℕ) → digits_value 0 (zero_padded k n) ≡ some n
unfolding itoa digits_value
digits_value-zero_padded zero n = digits_value-decimal (suc n) n (omega arith)
digits_value-zero_padded (suc k) n = digits_value-zero_padded k n

index_text-IsInk :
    (mm ss ff : Text)
    → All IsDigit mm
    → All IsDigit ss
    → All IsDigit ff
    → All IsInk (index_text mm ss ff)
unfolding is_space
index_text-IsInk mm ss ff m s f =
    let ink = λ (w : Text) (h : All IsDigit w). All-map IsInk IsDigit-IsInk w h in
    All-append IsInk mm _ (ink mm m) (refl, All-append IsInk ss _ (ink ss s) (refl, ink ff f))

split-index_text :
    (mm ss ff : Text)
    → All IsDigit mm
    → All IsDigit ss
    → All IsDigit ff
    → split b':' (index_text mm ss ff) ≡ mm ∷ ss ∷ ff ∷ []
split-index_text mm ss ff m s f =
    split-digits mm _ m
    ∙ ap (λ ws. mm ∷ ws) (split-digits ss _ s)
    ∙ ap (λ ws. mm ∷ ss ∷ ws) (split-digits_end ff f)

-- Within the range of a CD's fields the arithmetic does not wrap around.
frames_exact :
    (m s f : ℕ)
    → m < 2_000_000
    → s < 60
    → f < 75
    → frames_to_duration m s f ≡ pos (((m * 60 + s) * 75 + f) * 1_000_000_000 / 75)
unfolding frames_to_duration
frames_exact m s f hm hs hf =
    ap (λ z. div_trunc z 75) (wrap_small (((m * 60 + s) * 75 + f) * 1_000_000_000) (omega arith))

parse_number-zero_padded :
    (field whole : Text) (k n : ℕ)
    → n < int64_half
    → parse_number field whole (zero_padded k n) ≡ ok (pos n)
unfolding parse_number
parse_number-zero_padded field whole k n h =
    let read =
      atoi_digits (zero_padded k n) n (zero_padded-IsDigit k n) (digits_value-zero_padded k n) h
        (zero_padded-ne-nil k n) in
    rw (read, parse_number) refl

parse_parts-zero_padded :
    (whole : Text) (i m j s k f : ℕ)
    → m < int64_half
    → s < int64_half
    → f < int64_half
    → parse_parts whole (zero_padded i m ∷ zero_padded j s ∷ zero_padded k f ∷ [])
      ≡ check_fields whole (pos m) (pos s) (pos f)
unfolding parse_parts
parse_parts-zero_padded whole i m j s k f hm hs hf =
    rw
      (
        parse_number-zero_padded (lit "minutes") whole i m hm,
        parse_number-zero_padded (lit "seconds") whole j s hs,
        parse_number-zero_padded (lit "frames") whole k f hf,
        parse_parts,
      )
      refl

check_fields_ok :
    (whole : Text) (m s f : ℕ)
    → s < 60
    → f < 75
    → check_fields whole (pos m) (pos s) (pos f) ≡ ok (frames_to_duration m s f)
unfolding check_fields
check_fields_ok whole m s f hs hf = ground arith

-- A timestamp MM:SS:FF of fewer than two million minutes, with seconds below 60 and frames below 75,
-- each field in decimal with any number of leading zeros, is read as its number of frames, at 75
-- frames to the second, in nanoseconds rounded down.
pub parse_cue_index_text :
    (i m j s k f : ℕ)
    → m < 2_000_000
    → s < 60
    → f < 75
    → parse_cue_index (index_text (zero_padded i m) (zero_padded j s) (zero_padded k f))
      ≡ ok (pos (((m * 60 + s) * 75 + f) * 1_000_000_000 / 75))
unfolding parse_cue_index
parse_cue_index_text i m j s k f hm hs hf =
    let mm = zero_padded i m in
    let ss = zero_padded j s in
    let ff = zero_padded k f in
    let dm = zero_padded-IsDigit i m in
    let ds = zero_padded-IsDigit j s in
    let df = zero_padded-IsDigit k f in
    let whole = index_text mm ss ff in
    rw (trim_space_ink whole (index_text-IsInk mm ss ff dm ds df)) (
      rw (split-index_text mm ss ff dm ds df) (
        parse_parts-zero_padded whole i m j s k f (omega arith) (omega arith) (omega arith)
        ∙ check_fields_ok whole m s f hs hf
        ∙ ap ok (frames_exact m s f hm hs hf)))
