-- ===== src/Strconv.antt =====
-- strconv.Atoi and strconv.Itoa, as the program uses them (int has 64 bits).
pub mod Decimal
use cuearr.Prelude.{
  ℕ, zero, suc, ◌+◌, ◌-◌, ◌*◌, ◌/◌, ◌%◌, Text, Bool, Option, none, some, [], ◌∷◌, ◌++◌, ltb, leb,
  ◌==◌, ◌&&◌, if◌then◌else◌,
}
use cuearr.Prelude.Int.{ℤ, pos, negsuc, int64_half}

abbrev pub is_digit : ℕ → Bool
is_digit c = leb b'0' c && leb c b'9'

-- the decimal number behind `acc`, or `none` at a byte that is no digit
unfoldable pub digits_value : ℕ → Text → Option ℕ
digits_value acc [] = some acc
digits_value acc (c ∷ s) =
    let rest = digits_value (acc * 10 + (c - b'0')) s in if is_digit c then rest else none

-- at least one digit
unfoldable pub unsigned : Text → Option ℕ
unfolding digits_value
unsigned [] = none
unsigned (c ∷ s) = digits_value 0 (c ∷ s)

abbrev in_int64 : Option ℕ → Option ℤ
in_int64 none = none
in_int64 (some n) = if ltb n int64_half then some (pos n) else none

abbrev negated : Option ℕ → Option ℤ
negated none = none
negated (some zero) = some (pos 0)
negated (some (suc n)) = if ltb n int64_half then some (negsuc n) else none

-- strconv.Atoi, and strconv.ParseInt(s, 10, 64); `none` stands for its error
unfoldable pub atoi : Text → Option ℤ
unfolding unsigned
atoi [] = none
atoi (c ∷ s) =
    if c == b'-'
    then negated (unsigned s)
    else if c == b'+'
    then in_int64 (unsigned s)
    else in_int64 (unsigned (c ∷ s))

-- The decimal digits of a number. Each round divides by ten, so `suc n` rounds are enough.
unfoldable pub decimal : ℕ → ℕ → Text
decimal zero n = []
decimal (suc fuel) n =
    let front = decimal fuel (n / 10) in
    if ltb n 10 then (b'0' + n) ∷ [] else front ++ ((b'0' + n % 10) ∷ [])

-- strconv.Itoa
unfoldable pub itoa : ℤ → Text
unfolding decimal
itoa (pos n) = decimal (suc n) n
itoa (negsuc n) = b'-' ∷ decimal (suc (suc n)) (suc n)
