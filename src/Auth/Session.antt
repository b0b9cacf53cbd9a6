-- ===== src/Auth/Session.antt =====
-- internal/adapters/auth/password.go: a session cookie is accepted for as long as it was issued.
use cuearr.Prelude.{
  ℕ, suc, ◌+◌, ◌-◌, ◌/◌, ◌≤◌, ◌<◌, ◌≡◌, ◌≢◌, refl, ap, ◌∙◌, Text, text_eq, text_eq_iff,
  text_eq_refl, Bool, true, false, not, Bool-cases, Option, some, Option-cases, [], ◌∷◌, ◌++◌, ◌==◌,
  is_nil, All, arith, inl, inr, leb, ==_iff,
}
use cuearr.Prelude.Int.{ℤ, pos, negsuc, ◌-ℤ◌, ltℤ, int64_half}
use cuearr.Strconv.{decimal, atoi, itoa}
use cuearr.Strconv.Decimal.{atoi-itoa, IsDigit, decimal-IsDigit, decimal-ne-nil}
use cuearr.Errors.{ok}
use cuearr.Job.{Time}
use cuearr.Http.{Cookie}
use cuearr.Auth.{
  session_cookie_name, second, unix, add_duration, cut, after_cut, sign_session, signed_expiry,
  verify_session, new_session_cookie, valid_session_cookie,
}

cut-digits : (p s : Text) → All IsDigit p → cut b'.' (p ++ (b'.' ∷ s)) ≡ some (p, s)
unfolding cut
cut-digits [] s d = refl
cut-digits (c ∷ p) s d = ground (arith, cut-digits p s d.1, d.0)

itoa-ne-nil : (n : ℕ) → itoa (pos n) ≢ []
unfolding itoa
itoa-ne-nil n = decimal-ne-nil n n

cut-itoa : (n : ℕ) (s : Text) → cut b'.' (itoa (pos n) ++ (b'.' ∷ s)) ≡ some (itoa (pos n), s)
unfolding itoa
cut-itoa n s = cut-digits (decimal (suc n) n) s (decimal-IsDigit (suc n) n)

append-ne-nil : (s t : Text) → s ≢ [] → s ++ t ≢ []
append-ne-nil [] t h = absurd (h refl)
append-ne-nil (c ∷ s) t h = λ e. cc

pub is_nil-ne : (s : Text) → s ≢ [] → is_nil s ≡ false
is_nil-ne [] h = absurd (h refl)
is_nil-ne (c ∷ s) h = refl

module _ (signature : Text → Text → Text)
    (signed : (secret payload : Text) → signature secret payload ≢ []) where
  -- A token is read back as the time that it was signed for.
  pub verify_session-sign_session :
      (secret : Text) (n : ℕ)
      → n < int64_half
      → verify_session signature secret (sign_session signature secret (pos n)) ≡ some (pos n)
  unfolding verify_session sign_session
  verify_session-sign_session secret n h =
      rw
        (
          cut-itoa n (signature secret (itoa (pos n))),
          is_nil-ne (itoa (pos n)) (itoa-ne-nil n),
          is_nil-ne (signature secret (itoa (pos n))) (signed secret (itoa (pos n))),
          atoi-itoa n h,
          cut-itoa n (signature secret (itoa (pos n))),
          text_eq_refl (signature secret (itoa (pos n))),
          verify_session,
          sign_session,
          signed_expiry,
          after_cut,
        )
        refl

  unix-later : (t : Time) → 62_135_596_800 ≤ t / second → unix t ≡ pos (t / second - 62_135_596_800)
  unfolding unix ◌-ℤ◌
  unix-later t h = ground arith

  add_duration-pos : (now : Time) (ttl : ℕ) → add_duration now (pos ttl) ≡ now + ttl
  unfolding add_duration
  add_duration-pos now ttl = omega arith

  not_expired :
      (t e : Time)
      → 62_135_596_800 ≤ e / second
      → not (ltℤ (pos (e / second - 62_135_596_800)) (unix t)) ≡ leb (t / second) (e / second)
  unfolding unix ◌-ℤ◌
  not_expired t e h = ground arith

  issued :
      (secret : Text) (now : Time) (ttl : ℤ) (secure : Option Bool)
      → secret ≢ []
      → (c : Cookie) × (new_session_cookie signature secret now ttl secure ≡ ok c)
        × (c.name ≡ session_cookie_name)
        × (c.value ≡ sign_session signature secret (unix (add_duration now ttl)))
  unfolding new_session_cookie
  issued [] now ttl secure s = absurd (s refl)
  issued (b ∷ secret) now ttl secure s = (_, refl, refl, refl)

  sign_session-ne-nil : (secret : Text) (n : ℕ) → sign_session signature secret (pos n) ≢ []
  unfolding sign_session
  sign_session-ne-nil secret n = append-ne-nil (itoa (pos n)) _ (itoa-ne-nil n)

  -- With a secret, NewSessionCookie issues a cookie, and ValidSessionCookie accepts it with that
  -- secret at a time t exactly where t, in whole seconds, is not after its expiry: the time of issue
  -- and its duration. The expiry is past 1970 and its seconds fit an int64; a signature is not empty.
  pub valid_session_cookie-new_session_cookie :
      (secret : Text) (now : Time) (ttl : ℕ) (secure : Option Bool) (t : Time)
      → secret ≢ []
      → 62_135_596_800 ≤ (now + ttl) / second
      → (now + ttl) / second < int64_half
      → (c : Cookie) × (new_session_cookie signature secret now (pos ttl) secure ≡ ok c)
        × (valid_session_cookie signature secret t (some c)
            ≡ leb (t / second) ((now + ttl) / second))
  unfolding valid_session_cookie
  valid_session_cookie-new_session_cookie secret now ttl secure t s past fits =
      let n = (now + ttl) / second - 62_135_596_800 in
      let (c, new, name, value) = issued secret now (pos ttl) secure s in
      (
        c,
        new,
        rw
            (
              name,
              value,
              add_duration-pos now ttl,
              unix-later (now + ttl) past,
              is_nil-ne (sign_session signature secret (pos n)) (sign_session-ne-nil secret n),
              is_nil-ne secret s,
              verify_session-sign_session secret n (omega arith),
            )
            (not_expired t (now + ttl) past),
      )

cut_sound :
    (sep : ℕ) (s : Text) {before after : Text}
    → cut sep s ≡ some (before, after)
    → s ≡ before ++ (sep ∷ after)
unfolding cut
cut_sound sep [] h = absurd (ground arith)
cut_sound sep (c ∷ s) {before} {after} h = elim (Bool-cases (c == sep)) [
  | inl here ↦ ground (arith, ==_iff c sep)
  | inr other ↦ elim (Option-cases (cut sep s)) [
    | inl k ↦ absurd (ground arith)
    | inr ((b, a), k) ↦ ground (arith, cut_sound sep s k)
  ]
]

cut-itoa_int : (z : ℤ) (s : Text) → cut b'.' (itoa z ++ (b'.' ∷ s)) ≡ some (itoa z, s)
unfolding cut itoa
cut-itoa_int (pos n) s = cut-digits (decimal (suc n) n) s (decimal-IsDigit (suc n) n)
cut-itoa_int (negsuc n) s =
    let p = decimal (suc (suc n)) (suc n) in
    rw (cut-digits p s (decimal-IsDigit (suc (suc n)) (suc n))) refl

after_cut-sign_session :
    (signature : Text → Text → Text) (secret : Text) (exp : ℤ)
    → after_cut b'.' (sign_session signature secret exp) ≡ signature secret (itoa exp)
unfolding sign_session
after_cut-sign_session signature secret exp =
    rw (sign_session, after_cut, cut-itoa_int exp (signature secret (itoa exp))) refl

-- What ValidSessionCookie accepts with a secret: the cookie's value is a payload that ParseInt reads
-- as an expiry that has not passed, a point, and the signature under that secret of the expiry's
-- decimal text.
pub valid_session_cookie-eq-true :
    (signature : Text → Text → Text) (secret : Text) (now : Time) (c : Cookie)
    → valid_session_cookie signature secret now (some c) ≡ true
    → (payload : Text) × (exp : ℤ) × (c.value ≡ payload ++ (b'.' ∷ signature secret (itoa exp)))
      × (atoi payload ≡ some exp)
      × (ltℤ exp (unix now) ≡ false)
unfolding valid_session_cookie verify_session
valid_session_cookie-eq-true signature secret now c h = elim (Option-cases (cut b'.' c.value)) [
  | inl k ↦ absurd (ground arith)
  | inr ((payload, sig), k) ↦ elim (Option-cases (atoi payload)) [
    | inl l ↦ absurd (ground arith)
    | inr (exp, l) ↦
        elim (Bool-cases (text_eq sig (after_cut b'.' (sign_session signature secret exp)))) [
          | inr other ↦ absurd (ground arith)
          | inl same ↦ (
            payload,
            exp,
            cut_sound b'.' c.value k
                ∙ ap (λ t. payload ++ (b'.' ∷ t))
                    ((text_eq_iff _ _).0 same ∙ after_cut-sign_session signature secret exp),
            l,
            ground arith,
          )
        ]
  ]
]
