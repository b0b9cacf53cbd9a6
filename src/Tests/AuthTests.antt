-- ===== src/Tests/AuthTests.antt =====
-- internal/adapters/auth at concrete inputs.
use mathlib.Core.Path.{subst}
use cuearr.Prelude.{
  ℕ, ◌+◌, ◌/◌, ◌≡◌, ◌≢◌, ◌⊎◌, refl, Text, lit, Bool, true, false, Option, none, some, [], ◌∷◌, ◌++◌,
  arith, leb, length,
}
use cuearr.Prelude.Int.{ℤ, pos, negsuc, ltℤ, ◌-ℤ◌}
use cuearr.Strconv.{atoi, itoa, decimal, unsigned, digits_value}
use cuearr.Errors.{Result, ok, err, message}
use cuearr.Fs.{Fs, write_file, read_file, next_fault}
use cuearr.Job.{Time}
use cuearr.Http.{Cookie, Request, Response}
use cuearr.Auth.{
  session_cookie_name, second, unix, new_session_cookie, valid_session_cookie, verify_session,
  sign_session, cut,
}
use cuearr.Auth.Session.{valid_session_cookie-new_session_cookie, valid_session_cookie-eq-true}
use cuearr.Auth.Middleware.{is_localhost, wrap}
use cuearr.Auth.Gate.{Admitted, wrap-Admitted}
use cuearr.Auth.Oidc.{
  OidcConfig, OidcHandler, Claims, handle_callback, state_cookie, redirect, error_answer,
}
use cuearr.Auth.Callback.{LoggedIn, handle_callback-LoggedIn}
use cuearr.Auth.Bootstrap.{load_or_create_session_secret, new_session_secret}
use cuearr.Auth.Initial.{load_or_create_session_secret-again}

-- the payload with a mark before it in place of its HMAC
abbrev mark : Text → Text → Text
mark secret payload = b's' ∷ payload

mark-ne-nil : (secret payload : Text) → mark secret payload ≢ []
mark-ne-nil secret payload = λ e. cc

-- a day after the first of January 2026
abbrev issue : Time
issue = 63_902_908_800_000_000_000

valid_session_cookie-new_session_cookie_example :
    (c : Cookie) × (new_session_cookie mark (lit "k") issue (pos 3_600_000_000_000) none ≡ ok c)
    × (valid_session_cookie mark (lit "k") issue (some c)
        ≡ leb (issue / second) ((issue + 3_600_000_000_000) / second))
valid_session_cookie-new_session_cookie_example =
    valid_session_cookie-new_session_cookie mark mark-ne-nil (lit "k") issue 3_600_000_000_000 none
      issue (λ e. cc) (omega arith) (omega arith)

-- a session that ends seven seconds into 1970
abbrev old_session : Cookie
old_session = record {
  name = session_cookie_name;
  value = lit "7.s7";
  path = lit "/";
  http_only = true;
  same_site_lax = true;
  max_age = pos 7;
  secure = false;
}

old_session-accepted : valid_session_cookie mark (lit "k") 0 (some old_session) ≡ true
unfolding valid_session_cookie verify_session cut atoi sign_session itoa decimal unix unsigned
    digits_value ◌-ℤ◌
old_session-accepted = refl

valid_session_cookie-eq-true_example :
    (payload : Text) × (exp : ℤ) × (old_session.value
      ≡ payload ++ (b'.' ∷ mark (lit "k") (itoa exp)))
    × (atoi payload ≡ some exp)
    × (ltℤ exp (unix 0) ≡ false)
valid_session_cookie-eq-true_example =
    valid_session_cookie-eq-true mark (lit "k") 0 old_session old_session-accepted

abbrev no_port : Text → Option Text
no_port address = none

abbrev no_address : Text → Option Bool
no_address host = none

abbrev with_key : Request
with_key = record {
  method = lit "GET";
  path = lit "/api/v1/jobs";
  remote_addr = lit "10.0.0.7:4000";
  tls = false;
  headers = (lit "X-Api-Key", lit "secret") ∷ [];
  query = (lit "state", lit "s1") ∷ (lit "code", lit "c1") ∷ [];
  cookies = record old_session { name = lit "cuearr_oidc_state"; value = lit "s1" } ∷ [];
  body = [];
}

abbrev passed : Request → Response Text
passed r = record { status = 200; body = r.path; cookies = []; location = [] }

wrap-Admitted_example :
    let answer =
      wrap no_port no_address mark
        (lit "unauthorized")
        (lit "k")
        (lit "h")
        (lit "secret")
        0
        passed
        with_key in
    let admitted =
      Admitted mark
        (is_localhost no_port no_address)
        (lit "k")
        (lit "h")
        (lit "secret")
        0
        with_key in
    (admitted × (answer ≡ passed with_key))
    ⊎ ((¬ admitted)
        × (answer
            ≡ record { status = 401; body = lit "unauthorized"; cookies = []; location = [] }))
wrap-Admitted_example =
    wrap-Admitted no_port no_address mark (lit "unauthorized") (lit "k") (lit "h") (lit "secret") 0
      passed with_key

abbrev at_issuer : OidcConfig
at_issuer = record {
  enabled = true;
  issuer = lit "https://id";
  client_id = lit "c";
  client_secret = lit "p";
  redirect_url = lit "https://cuearr/cb";
  allowed_email_domains = lit "example.org" ∷ [];
}

abbrev handler : OidcHandler
handler = record {
  session_secret = lit "k";
  session_ttl = pos 3_600_000_000_000;
  cookie_secure = true;
}

abbrev discovered : Text → Result Text
discovered issuer = ok issuer

abbrev exchanged : Text → OidcConfig → Text → Result (Option Text)
exchanged p cfg code = ok (some code)

abbrev verified : Text → Text → Text → Result Text
verified p client raw = ok raw

abbrev claimed : Text → Result Claims
claimed token = ok (record { email = lit "a@example.org"; email_verified = some true })

handle_callback-LoggedIn_example :
    let answer =
      (handle_callback discovered exchanged verified claimed mark handler issue with_key
        (ok at_issuer)
        none).0 in
    let cleared = state_cookie [] (negsuc 0) true in
    ((session : Cookie) × LoggedIn discovered exchanged verified claimed mark handler issue with_key
        (ok at_issuer)
        none
        session
      × (answer ≡ redirect (lit "/") (cleared ∷ session ∷ [])))
    ⊎ ((status : ℕ) × (what : Text) × ((answer ≡ error_answer status what [])
          ⊎ (answer ≡ error_answer status what (cleared ∷ []))))
handle_callback-LoggedIn_example =
    handle_callback-LoggedIn discovered exchanged verified claimed mark handler issue with_key
      (ok at_issuer) none

abbrev fresh_key : Text
fresh_key = lit "0123456789abcdef0123456789abcdef"

abbrev no_files : Fs
no_files = record { nodes = []; faults = [] }

abbrev length_of : Result Text → ℕ
length_of (ok r) = length r
length_of (err e) = 0

fresh_key-length : (r : Text) → ok fresh_key ≡ ok r → length r ≡ 32
fresh_key-length r e = subst (λ x. length_of x ≡ 32) e refl

first_start : (load_or_create_session_secret (lit "/data") (ok fresh_key) no_files).0 ≡ ok fresh_key
unfolding load_or_create_session_secret new_session_secret read_file write_file next_fault
first_start = refl

first_start-calm :
    (next_fault (load_or_create_session_secret (lit "/data") (ok fresh_key) no_files).1.faults).0
    ≡ none
unfolding load_or_create_session_secret new_session_secret read_file write_file next_fault
first_start-calm = refl

load_or_create_session_secret-again_example :
    (load_or_create_session_secret
      (lit "/data")
      (err (message (lit "no random source")))
      (load_or_create_session_secret (lit "/data") (ok fresh_key) no_files).1).0
    ≡ ok fresh_key
load_or_create_session_secret-again_example =
    load_or_create_session_secret-again (lit "/data") (ok fresh_key)
      (err (message (lit "no random source"))) no_files fresh_key fresh_key-length first_start
      first_start-calm
