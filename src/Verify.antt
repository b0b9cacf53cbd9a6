-- ===== src/Verify.antt =====
-- internal/app/verify.go: the split tracks are held against the CUE sheet and tagged. The inspector,
-- the tagger and the reading of files stand as parameters.
pub mod Tolerance
use cuearr.Prelude.{
  ℕ, Text, lit, ◌++◌, Bool, true, false, not, Option, none, some, List, [], ◌∷◌, if◌then◌else◌,
  is_nil, ltb, ◌==◌, length,
}
use cuearr.Prelude.Int.{ℤ, pos, negsuc, ltℤ}
use cuearr.Strconv.{itoa}
use cuearr.Errors.{
  Error, sentinel, wrapped, annotated, quoted, output_count_mismatch, duration_mismatch, Result, ok,
  err, ◌>>=◌, ◌>>◌, refuse_if,
}
use cuearr.Cue.{CueSheet, CueTrack, parse_cue}
use cuearr.Cue.Timing.{expected_track_durations, sub_int64}
use cuearr.Fs.{Fs}
use cuearr.World.{World, Run, after, pure, call}

pub record FlacInfo : Type 0 where
  pub sample_rate : ℤ
  pub total_samples : ℤ
  pub duration : ℤ

pub record TrackTags : Type 0 where
  pub title : Text
  pub artist : Text
  pub album : Text
  pub track_number : Text

-- 100 * time.Millisecond
abbrev pub duration_tolerance : ℕ
duration_tolerance = 100_000_000

-- `if delta < 0 { delta = -delta }`: the negation of the least int64 is itself
unfoldable pub magnitude : ℤ → ℤ
unfolding sub_int64
magnitude delta = if ltℤ delta (pos 0) then sub_int64 (pos 0) delta else delta

-- the test of one track: whether it is off by more than the tolerance
unfoldable pub is_off : ℤ → ℤ → Bool
unfolding magnitude sub_int64
is_off got expected = ltℤ (pos duration_tolerance) (magnitude (sub_int64 got expected))

-- the error of a track that is off, without the durations that the source prints behind the path
abbrev pub off_error : ℤ → Text → Error
off_error number path =
    annotated (sentinel duration_mismatch)
      (lit "track " ++ (itoa number ++ (lit " " ++ quoted path)))

abbrev pub count_error : List Text → List CueTrack → Error
count_error files tracks = annotated (sentinel output_count_mismatch) (
    lit "got "
    ++ (itoa (pos (length files))
        ++ (lit " outputs for " ++ (itoa (pos (length tracks)) ++ lit " tracks"))))

-- what is read before the first track is inspected: the sheet and the expected lengths
unfoldable pub expectations : Result Text → List Text → ℤ → Result (CueSheet × List ℤ)
expectations cue_bytes files total = do
  bytes ← elim cue_bytes [ ok b ↦ ok b | err e ↦ err (wrapped (lit "read CUE for verification") e) ]
  sheet ← elim (parse_cue bytes) [
    | ok s ↦ ok s
    | err e ↦ err (wrapped (lit "parse CUE for verification") e)
  ]
  refuse_if (not (length files == length sheet.tracks)) (count_error files sheet.tracks)
  expected ← elim (expected_track_durations sheet total) [
    | ok ds ↦ ok ds
    | err e ↦ err (wrapped (lit "derive expected track durations") e)
  ]
  ok (sheet, expected)

abbrev pub artist_of : CueSheet → CueTrack → Text
artist_of sheet track = if is_nil track.performer then sheet.performer else track.performer

unfoldable pub tags_of : CueSheet → CueTrack → TrackTags
tags_of sheet track = record {
  title = track.title;
  artist = artist_of sheet track;
  album = sheet.title;
  track_number = itoa track.number;
}

pub record Verifier : Type 0 where
  pub read_cue : ℕ → Text → Fs → Result Text × Fs
  pub inspect : ℕ → Text → Fs → Result FlacInfo × Fs
  pub apply_tags : ℕ → Text → TrackTags → Fs → Option Error × Fs

module _ (v : Verifier) where
  open v use {read_cue, inspect, apply_tags}

  -- one round of the first loop, with the answer of the inspector
  unfoldable pub judge : CueTrack → Text → ℤ → Result FlacInfo → Option Error
  unfolding is_off
  judge track path expected (err e) =
      some
        (wrapped (lit "inspect output track " ++ (itoa track.number ++ (lit " " ++ quoted path))) e)
  judge track path expected (ok info) =
      if is_off info.duration expected then some (off_error track.number path) else none

  -- the loop over the outputs; the lists have one length here
  unfoldable pub check_durations : List CueTrack → List Text → List ℤ → Run (Option Error)
  check_durations (t ∷ ts) (path ∷ paths) (d ∷ ds) w =
      after (call (λ n. inspect n path) w) (λ answer. elim (judge t path d answer) [
        | some e ↦ pure (some e)
        | none ↦ check_durations ts paths ds
      ])
  check_durations tracks paths expected w = (none, w)

  unfoldable pub apply_all_tags : CueSheet → List CueTrack → List Text → Run (Option Error)
  apply_all_tags sheet (t ∷ ts) (path ∷ paths) w =
      after (call (λ n. apply_tags n path (tags_of sheet t)) w) (λ tagged. elim tagged [
        | some e ↦ pure (
            some
              (wrapped (lit "tag output track " ++ (itoa t.number ++ (lit " " ++ quoted path))) e))
        | none ↦ apply_all_tags sheet ts paths
      ])
  apply_all_tags sheet tracks paths w = (none, w)

  -- the two loops
  unfoldable pub verify_durations : List Text → CueSheet → List ℤ → Run (Option Error)
  verify_durations files sheet expected w =
      after (check_durations sheet.tracks files expected w) (λ off. elim off [
        | some e ↦ pure (some e)
        | none ↦ apply_all_tags sheet sheet.tracks files
      ])

  unfoldable pub verify_read : List Text → ℤ → Result Text → Run (Option Error)
  verify_read files total bytes w = elim (expectations bytes files total) [
    | err e ↦ (some e, w)
    | ok (sheet, expected) ↦ verify_durations files sheet expected w
  ]

  unfoldable pub verify_split : Text → List Text → ℤ → Run (Option Error)
  verify_split cue_path files total w =
      after (call (λ n. read_cue n cue_path) w) (verify_read files total)
