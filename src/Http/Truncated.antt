-- ===== src/Http/Truncated.antt =====
-- internal/adapters/http/diagnostics.go: how a log is cut for the export.
use cuearr.Prelude.{
  ℕ, zero, suc, ◌≤◌, ◌<◌, Text, Bool, true, [], leb, length, take, ◌≡◌, refl, ap, inl, inr,
  Bool-cases, arith, ◌==◌, ==_iff,
}
use cuearr.Http.Diagnostics.{valid_prefix, truncate_utf8}

module _ (valid : Text → Bool) (empty : valid [] ≡ true) where
  -- What the loop leaves: the longest prefix of at most n bytes that is UTF-8.
  abbrev pub LongestValid : ℕ → Text → Text → Type 0
  LongestValid n text t =
      (m : ℕ) × (m ≤ n)
      × (t ≡ take m text)
      × (valid t ≡ true)
      × ((k : ℕ) → k ≤ n → valid (take k text) ≡ true → k ≤ m)

  valid_prefix-LongestValid :
      (n : ℕ) (text : Text) → LongestValid n text (valid_prefix valid n text)
  unfolding valid_prefix
  valid_prefix-LongestValid zero text = (0, omega arith, refl, empty, λ k l v. l)
  valid_prefix-LongestValid (suc n) text = elim (Bool-cases (valid (take (suc n) text))) [
    | inl h ↦ rw h (suc n, omega arith, refl, h, λ k l v. l)
    | inr h ↦
        let (m, l, e, v, longest) = valid_prefix-LongestValid n text in
        rw h (
          m,
          omega arith,
          e,
          v,
          λ k l' v'. elim (Bool-cases (k == suc n)) [
            | inr other ↦ longest k (ground (arith, ==_iff k (suc n))) v'
            | inl same ↦
                absurd (ground (arith, ap (λ z. valid (take z text)) ((==_iff k (suc n)).0 same)))
          ],
        )
  ]

  -- A text within the limit is exported as it is; of a longer one the longest prefix within the limit
  -- that is UTF-8.
  pub truncate_utf8_lem :
      (text : Text) (limit : ℕ)
      → (length text ≤ limit → truncate_utf8 valid text limit ≡ text)
        × (limit < length text → LongestValid limit text (truncate_utf8 valid text limit))
  unfolding truncate_utf8
  truncate_utf8_lem text limit = elim (Bool-cases (leb (length text) limit)) [
    | inl h ↦ rw h (λ l. refl, λ l. absurd (ground arith))
    | inr h ↦ rw h (λ l. absurd (ground arith), λ l. valid_prefix-LongestValid limit text)
  ]
