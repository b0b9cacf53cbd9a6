-- ===== src/Verify/Tolerance.antt =====
-- internal/app/verify.go: what a verification that succeeds has measured.
use cuearr.Prelude.{
  inl, inr, ℕ, suc, ◌-◌, ◌⊎◌, ◌+◌, ◌≤◌, ◌<◌, ◌↔◌, ◌≡◌, refl, ap, ◌∙◌, Text, false, Bool-cases, none,
  Option-cases, List, [], ◌∷◌, arith, length, ◌==◌,
}
use mathlib.Core.Path.{subst}
use cuearr.Prelude.Int.{ℤ, pos, negsuc, ◌-ℤ◌, int64_half, wrap}
use cuearr.Errors.{Result, ok, err, Result-cases}
use cuearr.Cue.{CueSheet, CueTrack, parse_cue}
use cuearr.Cue.Timing.{expected_track_durations, sub_int64, wrap_int}
use cuearr.Cue.Timing.Lengths.{length-expected_track_durations}
use cuearr.World.{World, call}
use cuearr.Verify.{
  Verifier, FlacInfo, magnitude, is_off, duration_tolerance, expectations, judge, check_durations,
  verify_durations, verify_read, verify_split,
}

-- The test of one track, for lengths that are not negative: it passes exactly where they differ by
-- at most the tolerance.
pub is_off_lem :
    (got expected : ℕ)
    → got < int64_half
    → expected < int64_half
    → (is_off (pos got) (pos expected) ≡ false)
      ↔ ((got ≤ expected + duration_tolerance) × (expected ≤ got + duration_tolerance))
unfolding is_off magnitude sub_int64 wrap
is_off_lem got expected h k = (λ off. ground arith, λ near. ground arith)

-- How far apart two integers are.
abbrev pub distance : ℤ → ℤ → ℕ
distance (pos a) (pos b) = (a - b) + (b - a)
distance (pos a) (negsuc b) = a + suc b
distance (negsuc a) (pos b) = suc a + b
distance (negsuc a) (negsuc b) = (a - b) + (b - a)

-- At most 100 ms apart, or so far that their difference leaves an int64: 2^63 ns and more, which two
-- lengths from 0 to below 2^63 ns never are.
abbrev pub Near : ℤ → ℤ → Type 0
Near got expected =
    (distance got expected ≤ 100_000_000) ⊎ (9_223_372_036_854_775_808 ≤ distance got expected)

is_off-Near : (got expected : ℤ) → is_off got expected ≡ false → Near got expected
unfolding is_off magnitude sub_int64 wrap_int wrap ◌-ℤ◌
is_off-Near (pos a) (pos b) h = ground arith
is_off-Near (pos a) (negsuc b) h = ground arith
is_off-Near (negsuc a) (pos b) h = ground arith
is_off-Near (negsuc a) (negsuc b) h = ground arith

-- Every output was inspected, one after the other from the world given, and its length is close to
-- the one expected of it.
pub data Measured (v : Verifier) : World → List Text → List ℤ → Type 0 where
  done : {w : World} → Measured v w [] []
  next :
      {w : World} {path : Text} {paths : List Text} {d : ℤ} {ds : List ℤ} (info : FlacInfo)
      → (call (λ n. v.inspect n path) w).0 ≡ ok info
      → Near info.duration d
      → Measured v (call (λ n. v.inspect n path) w).1 paths ds
      → Measured v w (path ∷ paths) (d ∷ ds)

judge_lem :
    (v : Verifier) (t : CueTrack) (path : Text) (d : ℤ) (answer : Result FlacInfo)
    → judge v t path d answer ≡ none
    → (info : FlacInfo) × (answer ≡ ok info) × (is_off info.duration d ≡ false)
unfolding judge
judge_lem v t path d (err e) h = absurd (ground arith)
judge_lem v t path d (ok info) h = (info, refl, ground arith)

check_durations-Measured :
    (v : Verifier) (ts : List CueTrack) (paths : List Text) (ds : List ℤ) (w : World)
    → length paths ≡ length ts
    → length ds ≡ length ts
    → (check_durations v ts paths ds w).0 ≡ none
    → Measured v w paths ds
unfolding check_durations
check_durations-Measured v [] [] [] w n m h = done
check_durations-Measured v [] [] (d ∷ ds) w n m h = absurd (ground arith)
check_durations-Measured v [] (p ∷ paths) ds w n m h = absurd (ground arith)
check_durations-Measured v (t ∷ ts) [] ds w n m h = absurd (ground arith)
check_durations-Measured v (t ∷ ts) (p ∷ paths) [] w n m h = absurd (ground arith)
check_durations-Measured v (t ∷ ts) (path ∷ paths) (d ∷ ds) w n m h =
    let answer = call (λ n. v.inspect n path) w in
    elim (Option-cases (judge v t path d answer.0)) [
      | inr (e, k) ↦ absurd (ground arith)
      | inl k ↦
          let (info, e, near) = judge_lem v t path d answer.0 k in
          next info e (is_off-Near info.duration d near) (
            check_durations-Measured v ts paths ds answer.1 (ground arith) (ground arith)
              (ground arith))
    ]

expectations_lem :
    (bytes : Result Text) (files : List Text) (total : ℤ) {sheet : CueSheet} {ds : List ℤ}
    → expectations bytes files total ≡ ok (sheet, ds)
    → (text : Text) × (bytes ≡ ok text)
      × (parse_cue text ≡ ok sheet)
      × (length files ≡ length sheet.tracks)
      × (expected_track_durations sheet total ≡ ok ds)
unfolding expectations
expectations_lem (err e) files total h = absurd (ground arith)
expectations_lem (ok text) files total {sheet} {ds} h = elim (Result-cases (parse_cue text)) [
  | inr (e, k) ↦ absurd (ground arith)
  | inl (parsed, k) ↦ elim (Bool-cases (length files == length parsed.tracks)) [
    | inr off ↦ absurd (ground arith)
    | inl same ↦ elim (Result-cases (expected_track_durations parsed total)) [
      | inr (e, l) ↦ absurd (ground arith)
      | inl (expected, l) ↦
          let sheets : parsed ≡ sheet = ground arith in
          let lists : expected ≡ ds = ground arith in
          (
            text,
            refl,
            k ∙ ap ok sheets,
            ground arith,
            subst (λ s. expected_track_durations s total ≡ ok ds) sheets (l ∙ ap ok lists),
          )
    ]
  ]
]

durations-none :
    (v : Verifier) (sheet : CueSheet) (files : List Text) (expected : List ℤ) (w : World)
    → (verify_durations v files sheet expected w).0 ≡ none
    → (check_durations v sheet.tracks files expected w).0 ≡ none
unfolding verify_durations
durations-none v sheet files expected w h =
    elim (Option-cases (check_durations v sheet.tracks files expected w).0) [
      | inl e ↦ e
      | inr (x, e) ↦ absurd (ground arith)
    ]

-- A verification that succeeds has read and parsed the CUE file, found one output for each of its
-- tracks, derived one expected length for each, and measured every output: its length and the
-- expected one are at most 100 ms apart (or 2^63 ns and more, which two lengths from 0 to below 2^63
-- ns never are, since the difference is of an int64).
pub verify_split_lem :
    (v : Verifier) (cue_path : Text) (files : List Text) (total : ℤ) (w : World)
    → (verify_split v cue_path files total w).0 ≡ none
    → let reading = call (λ n. v.read_cue n cue_path) w in
      (text : Text) × (sheet : CueSheet) × (expected : List ℤ) × (reading.0 ≡ ok text)
      × (parse_cue text ≡ ok sheet)
      × (length files ≡ length sheet.tracks)
      × (expected_track_durations sheet total ≡ ok expected)
      × (length expected ≡ length sheet.tracks)
      × Measured v reading.1 files expected
unfolding verify_split verify_read
verify_split_lem v cue_path files total w h =
    let reading = call (λ n. v.read_cue n cue_path) w in
    elim (Result-cases (expectations reading.0 files total)) [
      | inr (e, k) ↦ absurd (ground arith)
      | inl ((sheet, expected), k) ↦
          let (text, read, parsed, count, derived) = expectations_lem reading.0 files total k in
          let one_each = length-expected_track_durations sheet total derived in
          (
            text,
            sheet,
            expected,
            read,
            parsed,
            count,
            derived,
            one_each,
            check_durations-Measured v sheet.tracks files expected reading.1 count one_each
                (durations-none v sheet files expected reading.1 (ground arith)),
          )
    ]
