-- ===== src/Runner/Keys.antt =====
-- internal/app/run.go: the name of a job's album directory.
use cuearr.Prelude.{
  inl, inr, ℕ, zero, suc, ◌≡◌, ◌≢◌, refl, Text, lit, true, false, Bool-cases, [], ◌∷◌, ◌++◌, take,
  ◌≤◌, ◌⊎◌, All, All-append, All-map, arith, is_nil, not, ◌&&◌, trim_space,
}
use cuearr.Job.{Job}
use cuearr.Runner.{is_safe_byte, is_safe_key, album_output_key}

not-nil : (s : Text) → is_nil s ≡ false → s ≢ []
not-nil s h e = ground arith

-- a lower-case letter, an upper-case letter, a digit, a dash or an underscore, in ASCII
abbrev pub SafeByte : ℕ → Type 0
SafeByte c =
    ((97 ≤ c) × (c ≤ 122)) ⊎ ((65 ≤ c) × (c ≤ 90)) ⊎ ((48 ≤ c) × (c ≤ 57)) ⊎ (c ≡ 45) ⊎ (c ≡ 95)

-- a digit of hex.EncodeToString
abbrev pub HexDigit : ℕ → Type 0
HexDigit c = ((48 ≤ c) × (c ≤ 57)) ⊎ ((97 ≤ c) × (c ≤ 102))

is_safe_byte-SafeByte : (c : ℕ) → is_safe_byte c ≡ true → SafeByte c
is_safe_byte-SafeByte c h = ground arith

is_safe_key-SafeByte : (s : Text) → is_safe_key s ≡ true → All SafeByte s
unfolding is_safe_key
is_safe_key-SafeByte [] h = tt
is_safe_key-SafeByte (c ∷ s) h =
    (is_safe_byte-SafeByte c (ground arith), is_safe_key-SafeByte s (ground arith))

HexDigit-SafeByte : (c : ℕ) → HexDigit c → SafeByte c
HexDigit-SafeByte c h = ground arith

take-SafeByte : (n : ℕ) (s : Text) → All SafeByte s → All SafeByte (take n s)
take-SafeByte zero s h = tt
take-SafeByte (suc n) [] h = tt
take-SafeByte (suc n) (c ∷ s) h = (h.0, take-SafeByte n s h.1)

-- Where the hash writes hexadecimal digits, the name of an album's directory is never empty, and
-- every byte of it is an ASCII letter, a digit, a dash or an underscore, whatever the fingerprint of
-- the job holds: no separator, no dot.
pub album_output_key-SafeByte :
    (sha256_hex : Text → Text) (job : Job)
    → ((s : Text) → All HexDigit (sha256_hex s))
    → (album_output_key sha256_hex job ≢ []) × All SafeByte (album_output_key sha256_hex job)
unfolding album_output_key
album_output_key-SafeByte sha256_hex job hex =
    let key = trim_space job.fingerprint in
    let digest = sha256_hex (job.cue_path ++ (0 ∷ (job.image_path ++ (0 ∷ key)))) in
    elim (Bool-cases (not (is_nil key) && is_safe_key key)) [
      | inl good ↦ rw good (not-nil key (ground arith), is_safe_key-SafeByte key (ground arith))
      | inr bad ↦ rw bad (
        not-nil _ refl,
        All-append SafeByte (lit "album-") (take 16 digest)
            (is_safe_key-SafeByte (lit "album-") refl)
            (take-SafeByte 16 digest (All-map SafeByte HexDigit-SafeByte digest (hex _))),
      )
    ]
