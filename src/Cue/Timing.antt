-- ===== src/Cue/Timing.antt =====
-- internal/domain/cue_timing.go: INDEX times and the track lengths that follow from them.
-- A time.Duration is an int64 of nanoseconds, and its arithmetic wraps around.
pub mod Index
pub mod Lengths
use cuearr.Prelude.{
  ℕ, zero, suc, ◌+◌, ◌-◌, ◌*◌, ◌/◌, ◌%◌, Text, lit, Bool, true, false, not, Option, none, some,
  List, [], ◌∷◌, ◌++◌, leb, ltb, if◌then◌else◌, is_nil, split, trim_space,
}
use cuearr.Prelude.Int.{ℤ, pos, negsuc, ltℤ, ◌-ℤ◌, wrap, pos_part, neg_part, int64_modulus}
use cuearr.Strconv.{atoi, itoa}
use cuearr.Errors.{Error, message, wrapped, quoted, Result, ok, err, ◌>>=◌, ◌>>◌, refuse_if}
use cuearr.Cue.{CueTrack, CueSheet}

abbrev pub cue_frames_per_second : ℕ
cue_frames_per_second = 75

-- time.Second
abbrev pub second : ℕ
second = 1_000_000_000

-- int64 division truncates towards zero
abbrev pub div_trunc : ℤ → ℕ → ℤ
div_trunc (pos n) k = pos (n / k)
div_trunc (negsuc n) k = let q = suc n / k in elim q [ zero ↦ pos 0 | suc m ↦ negsuc m ]

-- the int64 that an integer wraps to
unfoldable pub wrap_int : ℤ → ℤ
unfolding wrap
wrap_int (pos n) = wrap n
wrap_int (negsuc n) = wrap (int64_modulus - suc n % int64_modulus)

-- a - b of two int64
unfoldable pub sub_int64 : ℤ → ℤ → ℤ
unfolding wrap_int ◌-ℤ◌
sub_int64 a b = wrap_int (a -ℤ b)

abbrev invalid_index : Text → Error
invalid_index t = message (lit "invalid cue index " ++ quoted t)

-- of Atoi; the text does not tell a syntax error from a value out of range
abbrev number_error : Text → Error
number_error part =
    message (lit "strconv.Atoi: parsing " ++ (quoted part ++ lit ": invalid syntax"))

unfoldable pub parse_number : Text → Text → Text → Result ℤ
parse_number field whole part = elim (atoi part) [
  | none ↦ err (
      wrapped (lit "invalid cue index " ++ (field ++ (lit " in " ++ quoted whole)))
        (number_error part))
  | some n ↦ ok n
]

-- The frames of a timestamp whose three fields passed the checks, as nanoseconds. The sums and
-- products wrap around in int64, which one wrap at the end has as its value.
unfoldable pub frames_to_duration : ℕ → ℕ → ℕ → ℤ
unfolding wrap
frames_to_duration minutes seconds frames =
    let total_frames = (minutes * 60 + seconds) * cue_frames_per_second + frames in
    div_trunc (wrap (total_frames * second)) cue_frames_per_second

-- the checks behind the three calls of Atoi; a negative field is refused
unfoldable pub check_fields : Text → ℤ → ℤ → ℤ → Result ℤ
unfolding frames_to_duration
check_fields whole (pos minutes) (pos seconds) (pos frames) =
    if leb 60 seconds
    then err (invalid_index whole)
    else if leb cue_frames_per_second frames
    then err (message (lit "invalid cue index frames in " ++ quoted whole))
    else ok (frames_to_duration minutes seconds frames)
check_fields whole (pos minutes) (pos seconds) (negsuc frames) =
    if leb 60 seconds
    then err (invalid_index whole)
    else err (message (lit "invalid cue index frames in " ++ quoted whole))
check_fields whole minutes seconds frames = err (invalid_index whole)

unfoldable pub parse_parts : Text → List Text → Result ℤ
parse_parts whole (mm ∷ ss ∷ ff ∷ []) = do
  minutes ← parse_number (lit "minutes") whole mm
  seconds ← parse_number (lit "seconds") whole ss
  frames ← parse_number (lit "frames") whole ff
  check_fields whole minutes seconds frames
parse_parts whole parts =
    err (message (lit "invalid cue index " ++ (quoted whole ++ lit ": want MM:SS:FF")))

unfoldable pub parse_cue_index : Text → Result ℤ
unfolding trim_space split
parse_cue_index mmssff = parse_parts (trim_space mmssff) (split b':' (trim_space mmssff))

abbrev pub missing_index : ℤ → Error
missing_index n = message (lit "track " ++ (itoa n ++ lit " missing INDEX 01"))

-- fmt.Errorf("track %d INDEX 01: %w", tr.Number, err)
pub in_track : {A : Type 0} → ℤ → Result A → Result A
in_track n (ok a) = ok a
in_track n (err e) = err (wrapped (lit "track " ++ (itoa n ++ lit " INDEX 01")) e)

-- the loop over the tracks that fills `starts`
unfoldable pub track_starts : List CueTrack → Result (List ℤ)
unfolding parse_cue_index in_track
track_starts [] = ok []
track_starts (t ∷ ts) = do
  refuse_if (is_nil t.index_01) (missing_index t.number)
  start ← in_track t.number (parse_cue_index t.index_01)
  starts ← track_starts ts
  ok (start ∷ starts)

-- the loop that refuses a start below the one before it
unfoldable pub non_decreasing : List ℤ → Bool
non_decreasing (s ∷ t ∷ rest) =
    let later = non_decreasing (t ∷ rest) in if ltℤ t s then false else later
non_decreasing starts = true

abbrev pub last_start : ℤ → List ℤ → ℤ
last_start s [] = s
last_start s (t ∷ rest) = last_start t rest

-- the loop that fills `out`, with its last element
unfoldable pub track_lengths : ℤ → List ℤ → ℤ → List ℤ
unfolding sub_int64
track_lengths s [] total_audio = sub_int64 total_audio s ∷ []
track_lengths s (t ∷ rest) total_audio = sub_int64 t s ∷ track_lengths t rest total_audio

abbrev pub no_tracks : Error
no_tracks = message (lit "cue sheet has no tracks")

abbrev pub negative_total : Error
negative_total = message (lit "total audio duration must be non-negative")

abbrev pub decreasing_starts : Error
decreasing_starts = message (lit "track INDEX 01 times must be non-decreasing")

abbrev pub last_after_total : Error
last_after_total = message (lit "last INDEX 01 after total audio")

-- the part behind the loop that parses the starts
unfoldable pub lengths_of_starts : List ℤ → ℤ → Result (List ℤ)
unfolding non_decreasing track_lengths
lengths_of_starts [] total_audio = err no_tracks
lengths_of_starts (s ∷ rest) total_audio = do
  refuse_if (not (non_decreasing (s ∷ rest))) decreasing_starts
  refuse_if (ltℤ total_audio (last_start s rest)) last_after_total
  ok (track_lengths s rest total_audio)

unfoldable pub expected_track_durations : CueSheet → ℤ → Result (List ℤ)
unfolding track_starts lengths_of_starts
expected_track_durations sheet total_audio = do
  refuse_if (is_nil sheet.tracks) no_tracks
  refuse_if (ltℤ total_audio (pos 0)) negative_total
  starts ← track_starts sheet.tracks
  lengths_of_starts starts total_audio
