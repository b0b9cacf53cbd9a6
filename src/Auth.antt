-- ===== src/Auth.antt =====
-- internal/adapters/auth: passwords, API keys, session cookies and who may pass to /api.
-- bcrypt, HMAC-SHA256 with its base64, and the parsing of addresses are parameters.
pub mod Session
pub mod Initial
pub mod Bootstrap
pub mod Callback
pub mod Addresses
pub mod Checks
pub mod Oidc
pub mod Gate
pub mod Middleware
use cuearr.Prelude.{
  ℕ, ◌+◌, ◌-◌, ◌/◌, Text, lit, text_eq, Bool, true, false, not, ◌&&◌, ◌||◌, Option, none, some,
  List, [], ◌∷◌, ◌++◌, if◌then◌else◌, ◌==◌, is_nil, cut_prefix,
}
use cuearr.Prelude.Int.{ℤ, pos, negsuc, pos_part, neg_part, neg, ◌-ℤ◌, ltℤ}
use cuearr.Strconv.{atoi, itoa}
use cuearr.Errors.{Error, Result, ok, err, message, wrapped}
use cuearr.Job.{Time}
use cuearr.Http.{Cookie, Request, get, cookie_named}

abbrev pub session_cookie_name : Text
session_cookie_name = lit "cuearr_session"

abbrev pub second : ℕ
second = 1_000_000_000

-- Time.Unix; the zero time is 62135596800 seconds before 1970
unfoldable pub unix : Time → ℤ
unix t = pos (t / second) -ℤ pos 62_135_596_800

-- Time.Add
unfoldable pub add_duration : Time → ℤ → Time
add_duration t d = t + pos_part d - neg_part d

-- int(d.Seconds())
unfoldable pub whole_seconds : ℤ → ℤ
whole_seconds (pos n) = pos (n / second)
whole_seconds (negsuc n) = neg (pos ((n + 1) / second))

-- strings.Cut at one byte
unfoldable pub cut : ℕ → Text → Option (Text × Text)
cut sep [] = none
cut sep (c ∷ s) =
    let rest = cut sep s in
    if c == sep
    then some ([], s)
    else elim rest [ none ↦ none | some (before, after) ↦ some (c ∷ before, after) ]

abbrev pub after_cut : ℕ → Text → Text
after_cut sep s = elim (cut sep s) [ none ↦ [] | some (before, after) ↦ after ]

abbrev pub secure_or_not : Option Bool → Bool
secure_or_not none = false
secure_or_not (some secure) = secure

unfoldable pub clear_session_cookie : Option Bool → Cookie
clear_session_cookie secure = record {
  name = session_cookie_name;
  value = [];
  path = lit "/";
  http_only = true;
  same_site_lax = true;
  max_age = negsuc 0;
  secure = secure_or_not secure;
}

unfoldable pub valid_api_key : Text → Text → Bool
valid_api_key provided expected = if is_nil expected then false else text_eq provided expected

unfoldable pub is_login_static_path : Text → Bool
is_login_static_path path =
    text_eq path (lit "/login")
    || not (elim (cut_prefix (lit "/login/") path) [ none ↦ true | some _ ↦ false ])

-- bcrypt.GenerateFromPassword and bcrypt.CompareHashAndPassword
module _ (generate : Text → Result Text) (compare : Text → Text → Bool) where
  unfoldable pub hash_password : Text → Result Text
  hash_password plain = elim (generate plain) [
    | err e ↦ err (wrapped (lit "hash password") e)
    | ok hash ↦ ok hash
  ]

  unfoldable pub check_password : Text → Text → Bool
  check_password hash plain = if is_nil hash || is_nil plain then false else compare hash plain

-- the base64 of the HMAC-SHA256 of a text under a secret
module _ (signature : Text → Text → Text) where
  unfoldable pub sign_session : Text → ℤ → Text
  sign_session secret exp = itoa exp ++ (b'.' ∷ signature secret (itoa exp))

  abbrev pub signed_expiry : Text → Text → Text → Option ℤ
  signed_expiry secret payload sig = elim (atoi payload) [
    | none ↦ none
    | some exp ↦ if text_eq sig (after_cut b'.' (sign_session secret exp)) then some exp else none
  ]

  unfoldable pub verify_session : Text → Text → Option ℤ
  verify_session secret token = elim (cut b'.' token) [
    | none ↦ none
    | some (payload, sig) ↦
        if is_nil payload || is_nil sig then none else signed_expiry secret payload sig
  ]

  unfoldable pub new_session_cookie : Text → Time → ℤ → Option Bool → Result Cookie
  new_session_cookie secret now ttl secure =
      let max_age = whole_seconds ttl in
      if is_nil secret
      then err (message (lit "session secret required"))
      else ok (record {
        name = session_cookie_name;
        value = sign_session secret (unix (add_duration now ttl));
        path = lit "/";
        http_only = true;
        same_site_lax = true;
        max_age = if ltℤ max_age (pos 0) then pos 0 else max_age;
        secure = secure_or_not secure;
      })

  abbrev pub has_not_expired : Time → Option ℤ → Bool
  has_not_expired now none = false
  has_not_expired now (some exp) = not (ltℤ exp (unix now))

  unfoldable pub valid_session_cookie : Text → Time → Option Cookie → Bool
  valid_session_cookie secret now none = false
  valid_session_cookie secret now (some c) =
      if not (text_eq c.name session_cookie_name) || is_nil c.value || is_nil secret
      then false
      else has_not_expired now (verify_session secret c.value)
