-- ===== src/Store/Times.antt =====
-- internal/adapters/store/sqlite/sqlite.go: formatTime and parseTime, the texts in which the table
-- keeps its times. RFC3339Nano writes the date and time to the second at a fixed width (for the
-- years up to 9999), then the digits of the nanoseconds without their trailing zeros, behind a dot
-- if there are any, then "Z". The fixed-width part stands here for the number of seconds that it
-- writes: comparing two such parts as texts compares those numbers.
use cuearr.Prelude.{
  ℕ, zero, suc, ◌+◌, ◌*◌, ◌/◌, ◌%◌, ◌^◌, ◌<◌, ◌≡◌, refl, ◌∙◌, ap, Text, Bool, true, false, List, [],
  ◌∷◌, ◌++◌, map, ltb, ◌==◌, if◌then◌else◌, arith, Bool-cases, inl, inr, Option, none, some, length,
}
use mathlib.Core.List.{append_assoc, map-append}
use native.Mathlib.Nat.{mod-lt, div-add-mod, pow-suc}
use cuearr.Job.{Time, is_zero, zero_time}

pub record TimeText : Type 0 where
  pub seconds : ℕ
  pub fraction : List ℕ

-- the first `k` decimal places of `n`, which has at most `k` digits
unfoldable pub places : ℕ → ℕ → List ℕ
places zero n = []
places (suc k) n = n / 10 ^ k ∷ places k (n % 10 ^ k)

abbrev pub keep_digit : ℕ → List ℕ → List ℕ
keep_digit d [] = if d == 0 then [] else d ∷ []
keep_digit d (e ∷ es) = d ∷ e ∷ es

-- without its trailing zeros
unfoldable pub strip_zeros : List ℕ → List ℕ
strip_zeros [] = []
strip_zeros (d ∷ ds) = keep_digit d (strip_zeros ds)

-- the number whose first decimal places, out of `k`, these are
unfoldable pub place_value : ℕ → List ℕ → ℕ
place_value zero ds = 0
place_value (suc k) [] = 0
place_value (suc k) (d ∷ ds) = d * 10 ^ k + place_value k ds

abbrev pub nanos_per_second : ℕ
nanos_per_second = 1_000_000_000

unfoldable pub format_time : Time → TimeText
unfolding places strip_zeros
format_time t = record {
  seconds = t / nanos_per_second;
  fraction = strip_zeros (places 9 (t % nanos_per_second));
}

unfoldable pub parse_time : TimeText → Time
unfolding place_value
parse_time t = t.seconds * nanos_per_second + place_value 9 t.fraction

-- what follows the fixed-width part
unfoldable pub tail_text : List ℕ → Text
tail_text [] = b'Z' ∷ []
tail_text (d ∷ ds) = b'.' ∷ (map (λ e. b'0' + e) (d ∷ ds) ++ (b'Z' ∷ []))

-- byte-wise order of texts, SQLite's BINARY collation
unfoldable pub text_ltb : Text → Text → Bool
text_ltb [] [] = false
text_ltb [] (c ∷ t) = true
text_ltb (c ∷ s) [] = false
text_ltb (c ∷ s) (d ∷ t) = let rest = text_ltb s t in if c == d then rest else ltb c d

-- a < b as texts
unfoldable pub time_text_ltb : TimeText → TimeText → Bool
unfolding text_ltb tail_text
time_text_ltb a b =
    if a.seconds == b.seconds
    then text_ltb (tail_text a.fraction) (tail_text b.fraction)
    else ltb a.seconds b.seconds

-- nullableTime; NULL is `none`
unfoldable pub nullable_time : Time → Option TimeText
unfolding format_time
nullable_time t = if is_zero t then none else some (format_time t)

-- how scanJobRow reads a nullable column
unfoldable pub read_time : Option TimeText → Time
unfolding parse_time
read_time none = zero_time
read_time (some t) = parse_time t

place_value-nil : (k : ℕ) → place_value k [] ≡ 0
unfolding place_value
place_value-nil zero = refl
place_value-nil (suc k) = refl

place_value-keep_digit :
    (k d : ℕ) (ds : List ℕ) → place_value (suc k) (keep_digit d ds) ≡ d * 10 ^ k + place_value k ds
unfolding place_value
place_value-keep_digit k d [] = elim (Bool-cases (d == 0)) [
  | inl none_left ↦ let e : d ≡ 0 = ground arith in rw e (rw (place_value-nil k) (omega arith))
  | inr kept ↦ rw kept refl
]
place_value-keep_digit k d (e ∷ ds) = refl

place_value-strip_zeros : (k : ℕ) (ds : List ℕ) → place_value k (strip_zeros ds) ≡ place_value k ds
unfolding strip_zeros
place_value-strip_zeros zero ds = unfold place_value in refl
place_value-strip_zeros (suc k) [] = refl
place_value-strip_zeros (suc k) (d ∷ ds) =
    place_value-keep_digit k d (strip_zeros ds)
    ∙ ap (λ v. d * 10 ^ k + v) (place_value-strip_zeros k ds)
    ∙ unfold place_value in refl

pow_pos : (k : ℕ) → 0 < 10 ^ k
pow_pos zero = omega arith
pow_pos (suc k) = rw pow-suc (grind (arith, pow_pos k))

place_value-places : (k n : ℕ) → n < 10 ^ k → place_value k (places k n) ≡ n
unfolding place_value places
place_value-places zero n h = omega arith
place_value-places (suc k) n h =
    let ih = place_value-places k (n % 10 ^ k) (mod-lt n (pow_pos k)) in
    omega (arith, ih, div-add-mod n (10 ^ k))

-- A time that was written to the table is read back as it was.
pub parse_time-format_time : (t : Time) → parse_time (format_time t) ≡ t
unfolding parse_time format_time
parse_time-format_time t =
    let fraction =
      place_value-strip_zeros 9 (places 9 (t % nanos_per_second))
      ∙ place_value-places 9 (t % nanos_per_second) (omega arith) in
    omega (arith, fraction)

-- Times in different seconds are ordered by their texts as they are in fact.
pub time_text_lt_seconds :
    (a b : Time)
    → a / nanos_per_second < b / nanos_per_second
    → time_text_ltb (format_time a) (format_time b) ≡ true
unfolding time_text_ltb format_time
time_text_lt_seconds a b h = ground arith

text_ltb_prefix :
    (common : Text) (c d : ℕ) (s t : Text)
    → c < d
    → text_ltb (common ++ (c ∷ s)) (common ++ (d ∷ t)) ≡ true
unfolding text_ltb
text_ltb_prefix [] c d s t h = ground arith
text_ltb_prefix (e ∷ common) c d s t h = ground (arith, text_ltb_prefix common c d s t h)

-- a digit that is not zero, at one of the places, makes the number larger
place_value-append_lt :
    (k : ℕ) (ds : List ℕ) (d : ℕ) (more : List ℕ)
    → 0 < d
    → length ds < k
    → place_value k ds < place_value k (ds ++ (d ∷ more))
unfolding place_value
place_value-append_lt zero ds d more p h = absurd (ground arith)
place_value-append_lt (suc k) [] d more p h = grind (arith, pow_pos k)
place_value-append_lt (suc k) (e ∷ ds) d more p h =
    omega (arith, place_value-append_lt k ds d more p (ground arith))

abbrev char_of : ℕ → ℕ
char_of e = b'0' + e

tail_text_ltb :
    (ds : List ℕ) (d : ℕ) (more : List ℕ)
    → d < 10
    → text_ltb (map char_of (ds ++ (d ∷ more)) ++ (b'Z' ∷ [])) (map char_of ds ++ (b'Z' ∷ []))
      ≡ true
tail_text_ltb ds d more h = rw (map-append char_of ds (d ∷ more)) (
    rw (append_assoc (map char_of ds) (map char_of (d ∷ more)) (b'Z' ∷ []))
      (text_ltb_prefix (map char_of ds) (char_of d) b'Z' _ [] (omega arith)))

-- Of two texts for times in one second, where the second text goes on behind at most eight digits of
-- the first with a digit that is not zero, the second is for a strictly later time and yet it is the
-- smaller text, since digits and the dot come before "Z" in the byte order.
pub later_sorts_first :
    (s : ℕ) (ds : List ℕ) (d : ℕ) (more : List ℕ)
    → 0 < d
    → d < 10
    → length ds < 9
    → let earlier : TimeText = record { seconds = s; fraction = ds } in
      let later : TimeText = record { seconds = s; fraction = ds ++ (d ∷ more) } in
      (parse_time earlier < parse_time later) × (time_text_ltb later earlier ≡ true)
unfolding parse_time time_text_ltb
later_sorts_first s [] d more p h fits =
    (omega (arith, place_value-append_lt 9 [] d more p fits), ground arith)
later_sorts_first s (e ∷ ds) d more p h fits = (
  omega (arith, place_value-append_lt 9 (e ∷ ds) d more p fits),
  ground (arith, tail_text_ltb (e ∷ ds) d more h),
)

text_ltb_neg_trans :
    (s t u : Text) → text_ltb s t ≡ false → text_ltb t u ≡ false → text_ltb s u ≡ false
unfolding text_ltb
text_ltb_neg_trans [] [] u h k = k
text_ltb_neg_trans [] (d ∷ t) u h k = cc
text_ltb_neg_trans (c ∷ s) t [] h k = refl
text_ltb_neg_trans (c ∷ s) [] (e ∷ u) h k = cc
text_ltb_neg_trans (c ∷ s) (d ∷ t) (e ∷ u) h k = ground (arith, text_ltb_neg_trans s t u)

text_ltb_irrefl : (s : Text) → text_ltb s s ≡ false
unfolding text_ltb
text_ltb_irrefl [] = refl
text_ltb_irrefl (c ∷ s) = ground (arith, text_ltb_irrefl s)

-- The order of the texts is total: what is not below is at or above.
pub time_text_ltb_neg_trans :
    (a b c : TimeText)
    → time_text_ltb a b ≡ false
    → time_text_ltb b c ≡ false
    → time_text_ltb a c ≡ false
unfolding time_text_ltb
time_text_ltb_neg_trans a b c h k =
    ground (
      arith,
      text_ltb_neg_trans (tail_text a.fraction) (tail_text b.fraction) (tail_text c.fraction),
    )

pub time_text_ltb_irrefl : (a : TimeText) → time_text_ltb a a ≡ false
unfolding time_text_ltb
time_text_ltb_irrefl a = ground (arith, text_ltb_irrefl (tail_text a.fraction))

text_ltb_asym : (s t : Text) → text_ltb s t ≡ true → text_ltb t s ≡ false
unfolding text_ltb
text_ltb_asym [] [] h = cc
text_ltb_asym [] (d ∷ t) h = refl
text_ltb_asym (c ∷ s) [] h = cc
text_ltb_asym (c ∷ s) (d ∷ t) h = ground (arith, text_ltb_asym s t)

pub time_text_ltb_asym : (a b : TimeText) → time_text_ltb a b ≡ true → time_text_ltb b a ≡ false
unfolding time_text_ltb
time_text_ltb_asym a b h =
    ground (arith, text_ltb_asym (tail_text a.fraction) (tail_text b.fraction))
