-- ===== src/Cue/Timing/Lengths.antt =====
-- internal/domain/cue_timing.go: what ExpectedTrackDurations returns.
use cuearr.Prelude.{
  ℕ, suc, ◌+◌, ◌-◌, ◌≤◌, ◌<◌, ◌≡◌, refl, ◌∙◌, sym, ap, true, false, not, List, [], ◌∷◌, map, arith,
  length, is_nil, sum,
}
use cuearr.Prelude.Int.{ℤ, pos, negsuc, ltℤ, int64_half, wrap_small}
use mathlib.Core.Path.{subst}
use cuearr.Errors.{Result, ok, err, >>=-eq-ok, refuse_if-eq-ok}
use cuearr.Cue.{CueTrack, CueSheet}
use cuearr.Cue.Timing.{
  sub_int64, non_decreasing, last_start, track_lengths, lengths_of_starts, track_starts, in_track,
  parse_cue_index, missing_index, decreasing_starts, last_after_total, no_tracks, negative_total,
  expected_track_durations,
}

-- a difference of ordered int64 does not wrap around
sub_int64_pos : (a b : ℕ) → b ≤ a → a < int64_half → sub_int64 (pos a) (pos b) ≡ pos (a - b)
unfolding sub_int64
sub_int64_pos a b h k = ground (arith, wrap_small (a - b))

-- The starts are not negative, ordered, and the last is within the total: the lengths are
-- differences that add up.
record Adds (start total_audio : ℕ) (ds : List ℤ) : Type 0 where
  lengths : List ℕ
  are : ds ≡ map pos lengths
  total : start + sum lengths ≡ total_audio

track_lengths-Adds :
    (s : ℕ) (rest : List ℤ) (t : ℕ)
    → non_decreasing (pos s ∷ rest) ≡ true
    → ltℤ (pos t) (last_start (pos s) rest) ≡ false
    → t < int64_half
    → Adds s t (track_lengths (pos s) rest (pos t))
unfolding track_lengths non_decreasing
track_lengths-Adds s [] t h k b = record {
  lengths = (t - s) ∷ [];
  are = rw (sub_int64_pos t s (ground arith) b);
  total = ground arith;
}
track_lengths-Adds s (negsuc n ∷ rest) t h k b = absurd (ground arith)
track_lengths-Adds s (pos u ∷ rest) t h k b =
    let ih = track_lengths-Adds u rest t (ground arith) k b in
    let ordered : s ≤ u = ground arith in
    record {
      lengths = (u - s) ∷ ih.lengths;
      are =
          ap (λ d. d ∷ track_lengths (pos u) rest (pos t))
            (sub_int64_pos u s ordered (omega (arith, ih.total)))
          ∙ ap (λ ds. pos (u - s) ∷ ds) ih.are;
      total = omega (arith, ih.total);
    }

length-track_lengths :
    (s : ℤ) (rest : List ℤ) (t : ℤ) → length (track_lengths s rest t) ≡ suc (length rest)
unfolding track_lengths
length-track_lengths s [] t = refl
length-track_lengths s (u ∷ rest) t = ap suc (length-track_lengths u rest t)

-- What the parsed starts of the tracks are: one for each, read from its INDEX 01.
pub data Starts : List CueTrack → List ℤ → Type 0 where
  nil : Starts [] []
  cons :
      {t : CueTrack} {ts : List CueTrack} {s : ℤ} {rest : List ℤ}
      → parse_cue_index t.index_01 ≡ ok s
      → Starts ts rest
      → Starts (t ∷ ts) (s ∷ rest)

in_track-eq-ok : (n : ℤ) (r : Result ℤ) {s : ℤ} → in_track n r ≡ ok s → r ≡ ok s
unfolding in_track
in_track-eq-ok n (ok a) h = h
in_track-eq-ok n (err e) h = cc

Starts-cons :
    (t : CueTrack) (ts : List CueTrack) (s : ℤ) (rest : List ℤ) {starts : List ℤ}
    → parse_cue_index t.index_01 ≡ ok s
    → Starts ts rest
    → ok (s ∷ rest) ≡ ok starts
    → Starts (t ∷ ts) starts
Starts-cons t ts s rest p q e = subst (λ l. Starts (t ∷ ts) l) (cc) (cons p q)

track_starts-Starts :
    (ts : List CueTrack) {starts : List ℤ} → track_starts ts ≡ ok starts → Starts ts starts
unfolding track_starts
track_starts-Starts [] h = subst (λ l. Starts [] l) (cc) nil
track_starts-Starts (t ∷ ts) h =
    let (_, present) = refuse_if-eq-ok (is_nil t.index_01) (missing_index t.number) _ h in
    let (s, read, later) = >>=-eq-ok (in_track t.number (parse_cue_index t.index_01)) _ present in
    let (rest, others, e) = >>=-eq-ok (track_starts ts) _ later in
    Starts-cons t ts s rest (in_track-eq-ok t.number _ read) (track_starts-Starts ts others) e

length-Starts :
    {ts : List CueTrack} {starts : List ℤ} → Starts ts starts → length starts ≡ length ts
length-Starts nil = refl
length-Starts (cons p q) = ap suc (length-Starts q)

-- An accepted list of starts with a first one that is not negative.
lengths_of_starts-Adds :
    (s : ℕ) (rest : List ℤ) (t : ℕ) {ds : List ℤ}
    → t < int64_half
    → lengths_of_starts (pos s ∷ rest) (pos t) ≡ ok ds
    → Adds s t ds × (length ds ≡ suc (length rest))
unfolding lengths_of_starts
lengths_of_starts-Adds s rest t b h =
    let (up, bounded) =
      refuse_if-eq-ok (not (non_decreasing (pos s ∷ rest))) decreasing_starts _ h in
    let (within, e) =
      refuse_if-eq-ok (ltℤ (pos t) (last_start (pos s) rest)) last_after_total _ bounded in
    subst (λ l. Adds s t l × (length l ≡ suc (length rest))) (cc)
      (
        track_lengths-Adds s rest t (ground arith) within b,
        length-track_lengths (pos s) rest (pos t),
      )

from_Starts :
    {first : CueTrack} {more : List CueTrack} {starts : List ℤ} (s t : ℕ) {ds : List ℤ}
    → Starts (first ∷ more) starts
    → parse_cue_index first.index_01 ≡ ok (pos s)
    → t < int64_half
    → lengths_of_starts starts (pos t) ≡ ok ds
    → Adds s t ds × (length ds ≡ length (first ∷ more))
from_Starts s t (cons {s = z} {rest = rest} p q) start b h =
    let e : z ≡ pos s = cc in
    let (adds, n) = lengths_of_starts-Adds s rest t b (rw e at h) in
    (adds, n ∙ ap suc (length-Starts q))

-- Where a sheet's track lengths are derived from a total below 2^63 ns and the first INDEX 01 is
-- not negative, there is one length for each track, none is negative, and the first start and the
-- lengths add up to the total.
pub expected_track_durations-sum :
    (first : CueTrack) (more : List CueTrack) (sheet : CueSheet) (s t : ℕ) (ds : List ℤ)
    → sheet.tracks ≡ first ∷ more
    → parse_cue_index first.index_01 ≡ ok (pos s)
    → t < int64_half
    → expected_track_durations sheet (pos t) ≡ ok ds
    → (lengths : List ℕ) × (ds ≡ map pos lengths)
      × (s + sum lengths ≡ t)
      × (length ds ≡ length sheet.tracks)
unfolding expected_track_durations
expected_track_durations-sum first more sheet s t ds tracks start b h =
    let (_, tail) = refuse_if-eq-ok (is_nil sheet.tracks) no_tracks _ h in
    let (_, body) = refuse_if-eq-ok (ltℤ (pos t) (pos 0)) negative_total _ tail in
    let (starts, read, rest) = >>=-eq-ok (track_starts sheet.tracks) _ body in
    let all = subst (λ ts. Starts ts starts) tracks (track_starts-Starts sheet.tracks read) in
    let (adds, n) = from_Starts s t all start b rest in
    (adds.lengths, adds.are, adds.total, n ∙ ap length (sym tracks))

lengths_of_starts-length :
    (starts : List ℤ) (t : ℤ) {ds : List ℤ}
    → lengths_of_starts starts t ≡ ok ds
    → length ds ≡ length starts
unfolding lengths_of_starts
lengths_of_starts-length [] t h = absurd (ground arith)
lengths_of_starts-length (s ∷ rest) t {ds} h =
    let (up, bounded) = refuse_if-eq-ok (not (non_decreasing (s ∷ rest))) decreasing_starts _ h in
    let (within, e) = refuse_if-eq-ok (ltℤ t (last_start s rest)) last_after_total _ bounded in
    let same : track_lengths s rest t ≡ ds = cc in
    subst (λ l. length l ≡ suc (length rest)) same (length-track_lengths s rest t)

-- There is one length for each track.
pub length-expected_track_durations :
    (sheet : CueSheet) (t : ℤ) {ds : List ℤ}
    → expected_track_durations sheet t ≡ ok ds
    → length ds ≡ length sheet.tracks
unfolding expected_track_durations
length-expected_track_durations sheet t h =
    let (_, tail) = refuse_if-eq-ok (is_nil sheet.tracks) no_tracks _ h in
    let (_, body) = refuse_if-eq-ok (ltℤ t (pos 0)) negative_total _ tail in
    let (starts, read, rest) = >>=-eq-ok (track_starts sheet.tracks) _ body in
    lengths_of_starts-length starts t rest ∙ length-Starts (track_starts-Starts sheet.tracks read)
