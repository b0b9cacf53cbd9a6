-- ===== src/Strconv/Decimal.antt =====
-- strconv.Atoi reads back what strconv.Itoa writes.
use cuearr.Prelude.{
  ℕ, zero, suc, ◌+◌, ◌-◌, ◌*◌, ◌/◌, ◌%◌, ◌<◌, ◌≡◌, refl, ◌∙◌, ap, Text, true, Option, none, some,
  [], ◌∷◌, ◌++◌, ltb, if◌then◌else◌, arith, All, All-append, Bool-cases, inl, inr, ◌≢◌,
}
use cuearr.Prelude.Int.{pos, int64_half}
use cuearr.Strconv.{is_digit, digits_value, decimal, atoi, itoa}

abbrev step_value : Option ℕ → ℕ → Option ℕ
step_value none c = none
step_value (some v) c = if is_digit c then some (v * 10 + (c - b'0')) else none

digits_value-append :
    (s : Text) (c acc : ℕ) → digits_value acc (s ++ (c ∷ [])) ≡ step_value (digits_value acc s) c
unfolding digits_value
digits_value-append [] c acc = refl
digits_value-append (d ∷ s) c acc = elim (Bool-cases (is_digit d)) [
  | inl h ↦ rw h (digits_value-append s c (acc * 10 + (d - b'0')))
  | inr h ↦ rw h refl
]

pub digits_value-decimal : (fuel n : ℕ) → n < fuel → digits_value 0 (decimal fuel n) ≡ some n
unfolding decimal
digits_value-decimal zero n h = elim h [ ]
digits_value-decimal (suc fuel) n h = elim (Bool-cases (ltb n 10)) [
  | inl small ↦ rw small (unfold digits_value in ground arith)
  | inr large ↦ rw large (
      digits_value-append (decimal fuel (n / 10)) (b'0' + n % 10) 0
      ∙ ap (λ v. step_value v (b'0' + n % 10)) (digits_value-decimal fuel (n / 10) (ground arith))
      ∙ ground arith)
]

abbrev pub IsDigit : ℕ → Type 0
IsDigit c = is_digit c ≡ true

pub decimal-IsDigit : (fuel n : ℕ) → All IsDigit (decimal fuel n)
unfolding decimal
decimal-IsDigit zero n = tt
decimal-IsDigit (suc fuel) n = elim (Bool-cases (ltb n 10)) [
  | inl small ↦ rw small (ground arith, tt)
  | inr large ↦ rw large (
      All-append IsDigit (decimal fuel (n / 10)) _ (decimal-IsDigit fuel (n / 10))
        (ground arith, tt))
]

pub atoi_digits :
    (s : Text) (n : ℕ)
    → All IsDigit s
    → digits_value 0 s ≡ some n
    → n < int64_half
    → s ≢ []
    → atoi s ≡ some (pos n)
unfolding atoi
atoi_digits [] n d v h ne = absurd (ne refl)
atoi_digits (c ∷ s) n d v h ne = ground (arith, d.0)

append-ne-nil : (s : Text) (c : ℕ) → s ++ (c ∷ []) ≢ []
append-ne-nil [] c = λ e. cc
append-ne-nil (d ∷ s) c = λ e. cc

pub decimal-ne-nil : (fuel n : ℕ) → decimal (suc fuel) n ≢ []
unfolding decimal
decimal-ne-nil fuel n = elim (Bool-cases (ltb n 10)) [
  | inl small ↦ rw small (λ e. cc)
  | inr large ↦ rw large (append-ne-nil (decimal fuel (n / 10)) _)
]

-- A non-negative int is read back from its decimal text.
pub atoi-itoa : (n : ℕ) → n < int64_half → atoi (itoa (pos n)) ≡ some (pos n)
unfolding itoa
atoi-itoa n h =
    atoi_digits (decimal (suc n) n) n (decimal-IsDigit (suc n) n)
      (digits_value-decimal (suc n) n (omega arith)) h (decimal-ne-nil n n)
