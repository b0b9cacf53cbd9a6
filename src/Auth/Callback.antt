-- ===== src/Auth/Callback.antt =====
-- internal/adapters/auth/oidc.go: who gets a session from the callback.
use cuearr.Prelude.{
  ℕ, Text, lit, false, not, ◌||◌, Option, some, [], ◌∷◌, is_nil, ◌≡◌, ◌≢◌, ◌⊎◌, inl, inr, refl, sym,
  ap, ◌∙◌, arith,
}
use cuearr.Prelude.Int.{negsuc}
use cuearr.Errors.{Result, ok, Result-cases}
use cuearr.Job.{Time}
use cuearr.Http.{
  Cookie, Request, get, cookie_named, go, >>=-eq-go, stop_if-eq-go, need-eq-go, Reply-cases,
}
use cuearr.Auth.{new_session_cookie}
use cuearr.Auth.Checks.{Ready, not_nil, checked, code_of, raw_of, provider-eq-ok}
use cuearr.Auth.Addresses.{MayLogIn, oidc_email_allowed-MayLogIn}
use cuearr.Auth.Oidc.{
  OidcConfig, OidcHandler, Claims, oidc_state_cookie_name, oidc_email_allowed, provider,
  callback_checks, callback_code, callback_session, callback_with, handle_callback, state_cookie,
  redirect, error_answer, id_token, internal, refused_as,
}

module _ {P Token : Type 0} (discover : Text → Result P)
    (exchange : P → OidcConfig → Text → Result (Option Text))
    (verify : P → Text → Text → Result Token) (claims_of : Token → Result Claims)
    (signature : Text → Text → Text) where
  -- The checks behind a session: login is configured, the callback is a GET without an error
  -- parameter, its state is the one of the browser's cookie, the provider exchanges its code for a
  -- token that it verifies, and the email address of that may log in.
  pub record LoggedIn (h : OidcHandler) (now : Time) (r : Request) (config : Result OidcConfig)
      (cache : Option (Text × P)) (session : Cookie) : Type 0 where
    pub cfg : OidcConfig
    pub cookie : Cookie
    pub p : P
    pub raw : Text
    pub verified : Token
    pub claims : Claims
    pub configured : config ≡ ok cfg
    pub available : Ready cfg
    pub method : r.method ≡ lit "GET"
    pub no_error : get r.query (lit "error") ≡ []
    pub code_set : get r.query (lit "code") ≢ []
    pub remembered : cookie_named r.cookies oidc_state_cookie_name ≡ some cookie
    pub same_state : get r.query (lit "state") ≡ cookie.value
    pub state_set : is_nil cookie.value ≡ false
    pub found : (cache ≡ some (cfg.issuer, p)) ⊎ (discover cfg.issuer ≡ ok p)
    pub raw_set : raw ≢ []
    pub exchanged : exchange p cfg (get r.query (lit "code")) ≡ ok (some raw)
    pub genuine : verify p cfg.client_id raw ≡ ok verified
    pub claimed : claims_of verified ≡ ok claims
    pub email_set : claims.email ≢ []
    pub allowed : MayLogIn claims.email claims.email_verified cfg.allowed_email_domains
    pub issued :
        new_session_cookie signature h.session_secret now h.session_ttl
          (some (h.cookie_secure || r.tls))
        ≡ ok session

  -- the parts of the session's checks
  session_checked :
      (h : OidcHandler) (now : Time) (r : Request) (cfg : OidcConfig) (code : Text)
      (found : Result P) (session : Cookie)
      → callback_session discover exchange verify claims_of signature h now r cfg code found
        ≡ go session
      → (p : P) × (raw : Text) × (verified : Token) × (claims : Claims) × (found ≡ ok p)
        × (raw ≢ [])
        × (exchange p cfg code ≡ ok (some raw))
        × (verify p cfg.client_id raw ≡ ok verified)
        × (claims_of verified ≡ ok claims)
        × (claims.email ≢ [])
        × MayLogIn claims.email claims.email_verified cfg.allowed_email_domains
        × (new_session_cookie signature h.session_secret now h.session_ttl
              (some (h.cookie_secure || r.tls))
            ≡ ok session)
  session_checked h now r cfg code found session k0 =
      let (p, a, k1) = need-eq-go found (internal (lit "oidc provider error")) _ k0 in
      let (token, b, k2) =
        need-eq-go (exchange p cfg code) (refused_as (lit "oidc token exchange failed")) _ k1 in
      let (raw, c, k3) = >>=-eq-go (id_token token) _ k2 in
      let (verified, d, k4) =
        need-eq-go (verify p cfg.client_id raw) (refused_as (lit "invalid id_token")) _ k3 in
      let (claims, e, k5) =
        need-eq-go (claims_of verified) (refused_as (lit "invalid claims")) _ k4 in
      let (email, k6) = stop_if-eq-go (is_nil claims.email) 401 (lit "email claim required") _ k5 in
      let allowed =
        oidc_email_allowed claims.email claims.email_verified cfg.allowed_email_domains in
      let (f, k7) = stop_if-eq-go (not allowed) 403 (lit "email domain not allowed") _ k6 in
      let issue =
        new_session_cookie signature h.session_secret now h.session_ttl
          (some (h.cookie_secure || r.tls)) in
      (
        p,
        raw,
        verified,
        claims,
        a,
        (raw_of token raw c).1,
        b ∙ ap ok (raw_of token raw c).0,
        d,
        e,
        not_nil email,
        oidc_email_allowed-MayLogIn claims.email claims.email_verified cfg.allowed_email_domains
            (ground arith),
        elim (Result-cases issue) [
          | inl (s, l) ↦ l ∙ ground arith
          | inr (x, l) ↦ absurd (ground arith)
        ],
      )

  -- The callback answers with a redirection to the start page, with the state cookie cleared and a
  -- session set, only behind all checks. Every other answer is an error without a session: it sets
  -- no cookie, or it clears the state cookie.
  pub handle_callback-LoggedIn :
      (h : OidcHandler) (now : Time) (r : Request) (config : Result OidcConfig)
      (cache : Option (Text × P))
      → let answer =
          (handle_callback discover exchange verify claims_of signature h now r config cache).0 in
        let cleared = state_cookie [] (negsuc 0) (h.cookie_secure || r.tls) in
        ((session : Cookie) × LoggedIn h now r config cache session
          × (answer ≡ redirect (lit "/") (cleared ∷ session ∷ [])))
        ⊎ ((status : ℕ) × (what : Text) × ((answer ≡ error_answer status what [])
              ⊎ (answer ≡ error_answer status what (cleared ∷ []))))
  unfolding handle_callback
  handle_callback-LoggedIn h now r config cache = elim (Reply-cases (callback_checks r config)) [
    | inr (status, what, a) ↦ rw (a, handle_callback) (inr (status, what, inl refl))
    | inl ((cfg, c), a) ↦ elim (Reply-cases (callback_code r c.value)) [
      | inr (status, what, b) ↦
          rw (a, b, handle_callback, callback_with) (inr (status, what, inr refl))
      | inl (code, b) ↦
          let found = (provider discover cfg.issuer cache).0 in
          let run =
            callback_session discover exchange verify claims_of signature h now r cfg code found in
          elim (Reply-cases run) [
            | inr (status, what, d) ↦
                rw (a, b, d, handle_callback, callback_with) (inr (status, what, inr refl))
            | inl (session, d) ↦
                let (method, configured, available, remembered, set) = checked r config cfg c a in
                let (same_state, at, no_error, code_set) = code_of r c.value code b in
                let (
                  p, raw, verified, claims, p_found, raw_set, exchanged, genuine, claimed, email,
                  allowed, issued,
                ) =
                  session_checked h now r cfg code found session d in
                rw (a, b, d, handle_callback, callback_with)
                  (inl (
                    session,
                    record {
                      cfg = cfg;
                      cookie = c;
                      p = p;
                      raw = raw;
                      verified = verified;
                      claims = claims;
                      configured = configured;
                      available = available;
                      method = method;
                      no_error = no_error;
                      code_set = code_set;
                      remembered = remembered;
                      same_state = same_state;
                      state_set = set;
                      found = provider-eq-ok discover cfg.issuer cache p_found;
                      raw_set = raw_set;
                      exchanged = ap (exchange p cfg) (sym at) ∙ exchanged;
                      genuine = genuine;
                      claimed = claimed;
                      email_set = email;
                      allowed = allowed;
                      issued = issued;
                    },
                    refl,
                  ))
          ]
    ]
  ]
