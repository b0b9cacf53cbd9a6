-- ===== src/Errors.antt =====
-- Go error values: internal/domain/errors.go, the sentinels of internal/app, and the ways in which
-- the program wraps them (fmt.Errorf with %w, errors.Join, errors.Is, Error()).
use cuearr.Prelude.{
  Text, lit, ◌++◌, ◌∷◌, [], Bool, true, false, ◌||◌, Option, none, some, ◌≡◌, refl, ◌⊎◌, inl, inr,
  if◌then◌else◌,
}

pub data Sentinel : Type 0 where
  image_not_found ambiguous_cue multi_file_cue conflict not_found not_implemented : Sentinel
  split_failed output_count_mismatch duration_mismatch image_unstable : Sentinel
  output_not_writable insufficient_space free_space_unavailable preflight_unavailable : Sentinel
  publication_pending cross_device_rename : Sentinel

pub data Error : Type 0 where
  -- one of the package variables
  sentinel : Sentinel → Error
  -- errors.New, or an error of other code, by its text
  message : Text → Error
  -- fmt.Errorf("<text>: %w", err)
  wrapped : Text → Error → Error
  -- fmt.Errorf("%w: <text>", err)
  annotated : Error → Text → Error
  -- errors.Join of two errors
  joined : Error → Error → Error

unfoldable pub sentinel_text : Sentinel → Text
sentinel_text image_not_found = lit "image file not found for CUE sheet"
sentinel_text ambiguous_cue = lit "multiple CUE sheets found"
sentinel_text multi_file_cue = lit "CUE sheet contains multiple FILE directives"
sentinel_text conflict = lit "conflict"
sentinel_text not_found = lit "not found"
sentinel_text not_implemented = lit "not implemented"
sentinel_text split_failed = lit "split failed"
sentinel_text output_count_mismatch = lit "split output count does not match CUE tracks"
sentinel_text duration_mismatch = lit "split output duration does not match CUE timing"
sentinel_text image_unstable = lit "source image is still changing"
sentinel_text output_not_writable = lit "output location is not writable"
sentinel_text insufficient_space = lit "insufficient free space"
sentinel_text free_space_unavailable = lit "free-space check unavailable"
sentinel_text preflight_unavailable = lit "job preflight is not configured"
sentinel_text publication_pending = lit "publication needs recovery"
sentinel_text cross_device_rename = lit "cross-device rename not supported"

-- err.Error()
unfoldable pub error_text : Error → Text
unfolding sentinel_text
error_text (sentinel s) = sentinel_text s
error_text (message t) = t
error_text (wrapped t e) = t ++ (lit ": " ++ error_text e)
error_text (annotated e t) = error_text e ++ (lit ": " ++ t)
error_text (joined a b) = error_text a ++ (b'\n' ∷ error_text b)

abbrev is_not_found : Sentinel → Bool
is_not_found not_found = true
is_not_found _ = false

abbrev is_conflict : Sentinel → Bool
is_conflict conflict = true
is_conflict _ = false

abbrev is_publication_pending : Sentinel → Bool
is_publication_pending publication_pending = true
is_publication_pending _ = false

-- errors.Is, with the test on the sentinel that is looked for
error_is : (Sentinel → Bool) → Error → Bool
error_is test (sentinel s) = test s
error_is test (message t) = false
error_is test (wrapped t e) = error_is test e
error_is test (annotated e t) = error_is test e
error_is test (joined a b) = error_is test a || error_is test b

-- errors.Is(err, domain.ErrNotFound)
unfoldable pub is_err_not_found : Error → Bool
unfolding error_is
is_err_not_found = error_is is_not_found

abbrev is_image_not_found : Sentinel → Bool
is_image_not_found image_not_found = true
is_image_not_found _ = false

-- errors.Is(err, domain.ErrImageNotFound)
unfoldable pub is_err_image_not_found : Error → Bool
unfolding error_is
is_err_image_not_found = error_is is_image_not_found

-- errors.Is(err, domain.ErrConflict)
unfoldable pub is_err_conflict : Error → Bool
unfolding error_is
is_err_conflict = error_is is_conflict

-- errors.Is(err, ErrPublicationPending)
unfoldable pub is_err_publication_pending : Error → Bool
unfolding error_is
is_err_publication_pending = error_is is_publication_pending

-- fmt's %q, of a text with nothing to escape
abbrev pub quoted : Text → Text
quoted t = b'"' ∷ (t ++ b'"' ∷ [])

-- errors.Join(a, b), where either may be nil
abbrev pub join_errors : Option Error → Option Error → Option Error
join_errors none b = b
join_errors (some a) none = some a
join_errors (some a) (some b) = some (joined a b)

-- The result of a function that returns its zero value beside an error.
pub data Result {ℓ} (A : Type ℓ) : Type ℓ where
  err : Error → Result A
  ok : A → Result A

-- `if <test> { return ..., <error> }`
abbrev pub refuse_if : Bool → Error → Result (Unit {0})
refuse_if test e = if test then err e else ok tt

abbrev pub ◌>>=◌ {ℓ κ} : {S : Type ℓ} {T : Type κ} → Result S → (S → Result T) → Result T
err e >>= next = err e
ok s >>= next = next s

abbrev pub ◌>>◌ {ℓ} : {T : Type ℓ} → Result (Unit {0}) → Result T → Result T
first >> next = first >>= λ done. next

infixl 5 ◌>>◌ ◌>>=◌
-- What a chain that succeeds has gone through.
pub >>=-eq-ok {ℓ κ} :
    {S : Type ℓ} {T : Type κ} (first : Result S) (next : S → Result T) {answer : T}
    → first >>= next ≡ ok answer
    → (s : S) × (first ≡ ok s) × (next s ≡ ok answer)
>>=-eq-ok (err e) next h = cc
>>=-eq-ok (ok s) next h = (s, refl, h)

pub refuse_if-eq-ok {ℓ} :
    {B : Type ℓ} (test : Bool) (e : Error) (k : Result B) {b : B}
    → (refuse_if test e >> k) ≡ ok b
    → (test ≡ false) × (k ≡ ok b)
refuse_if-eq-ok true e k h = cc
refuse_if-eq-ok false e k h = (refl, h)

pub Result-cases {ℓ} :
    {A : Type ℓ} (m : Result A) → ((a : A) × (m ≡ ok a)) ⊎ ((e : Error) × (m ≡ err e))
Result-cases (ok a) = inl (a, refl)
Result-cases (err e) = inr (e, refl)
