-- ===== src/Auth/Oidc.antt =====
-- internal/adapters/auth/oidc.go: login with an OpenID Connect provider. What go-oidc and oauth2 do
-- (discovery, the code exchange, the check of an id_token and its claims) and the random state are
-- parameters; times of these calls and the log are not modelled.
use cuearr.Prelude.{
  ℕ, suc, Text, lit, text_eq, Bool, true, false, not, ◌&&◌, ◌||◌, Option, none, some, List, [], ◌∷◌,
  if◌then◌else◌, ◌==◌, is_nil, to_lower, trim_space, length, drop,
}
use cuearr.Prelude.Int.{ℤ, pos, negsuc, ltℤ}
use cuearr.Errors.{Error, Result, ok, err, wrapped}
use cuearr.Settings.{AuthSettings}
use cuearr.Job.{Time}
use cuearr.Http.{
  Cookie, Request, Response, get, cookie_named, Reply, stop, go, ◌>>=◌, ◌>>◌, stop_if, method_is,
  need,
}
use cuearr.Auth.{new_session_cookie}

abbrev pub oidc_state_cookie_name : Text
oidc_state_cookie_name = lit "cuearr_oidc_state"

pub record OidcConfig : Type 0 where
  pub enabled : Bool
  pub issuer : Text
  pub client_id : Text
  pub client_secret : Text
  pub redirect_url : Text
  pub allowed_email_domains : List Text

unfoldable pub oidc_config_from_auth : AuthSettings → OidcConfig
oidc_config_from_auth a = record {
  enabled = a.oidc_enabled;
  issuer = a.oidc_issuer;
  client_id = a.oidc_client_id;
  client_secret = a.oidc_client_secret;
  redirect_url = a.oidc_redirect_url;
  allowed_email_domains = a.oidc_allowed_email_domains;
}

unfoldable pub ready : OidcConfig → Bool
ready c =
    c.enabled
    && not (is_nil c.issuer)
    && not (is_nil c.client_id)
    && not (is_nil c.client_secret)
    && not (is_nil c.redirect_url)

unfoldable pub availability : OidcConfig → Reply (Unit {0})
availability c = do
  stop_if (not c.enabled) 404 (lit "oidc disabled")
  stop_if (is_nil c.issuer || is_nil c.client_id || is_nil c.client_secret || is_nil c.redirect_url)
      503 (lit "oidc misconfigured")

-- strings.LastIndex of one byte
unfoldable pub last_index : ℕ → Text → Option ℕ
last_index sep [] = none
last_index sep (c ∷ s) = elim (last_index sep s) [
  | some i ↦ some (suc i)
  | none ↦ if c == sep then some 0 else none
]

-- strings.EqualFold
abbrev pub equal_fold : Text → Text → Bool
equal_fold s t = text_eq (to_lower s) (to_lower t)

abbrev pub any_domain : Text → List Text → Bool
any_domain part [] = false
any_domain part (a ∷ allowed) =
    let later = any_domain part allowed in if equal_fold (trim_space a) part then true else later

unfoldable pub email_domain_allowed : Text → List Text → Bool
email_domain_allowed address allowed =
    let email = trim_space (to_lower address) in
    elim (last_index b'@' email) [
      | none ↦ false
      | some i ↦
          if i == 0 || suc i == length email
          then false
          else if is_nil allowed
          then true
          else any_domain (drop (suc i) email) allowed
    ]

abbrev pub is_verified : Option Bool → Bool
is_verified none = false
is_verified (some verified) = verified

unfoldable pub oidc_email_allowed : Text → Option Bool → List Text → Bool
oidc_email_allowed email verified allowed =
    if not (is_nil allowed) && not (is_verified verified)
    then false
    else email_domain_allowed email allowed

pub record OidcHandler : Type 0 where
  pub session_secret : Text
  pub session_ttl : ℤ
  pub cookie_secure : Bool

abbrev pub seven_days : ℤ
seven_days = pos 604_800_000_000_000

unfoldable pub new_oidc_handler : Text → ℤ → Bool → OidcHandler
new_oidc_handler secret ttl secure = record {
  session_secret = secret;
  session_ttl = if not (ltℤ (pos 0) ttl) then seven_days else ttl;
  cookie_secure = secure;
}

pub record Claims : Type 0 where
  pub email : Text
  pub email_verified : Option Bool

abbrev pub state_cookie : Text → ℤ → Bool → Cookie
state_cookie value max_age secure = record {
  name = oidc_state_cookie_name;
  value = value;
  path = lit "/api/v1/auth/oidc";
  http_only = true;
  same_site_lax = true;
  max_age = max_age;
  secure = secure;
}

abbrev pub internal : Text → Error → ℕ × Text
internal what e = (500, what)

abbrev pub refused_as : Text → Error → ℕ × Text
refused_as what e = (401, what)

-- an answer with the cookies that are set, from how a handler went
abbrev pub error_answer : ℕ → Text → List Cookie → Response Text
error_answer status what cookies = record {
  status = status;
  body = what;
  cookies = cookies;
  location = [];
}

abbrev pub redirect : Text → List Cookie → Response Text
redirect location cookies = record {
  status = 302;
  body = [];
  cookies = cookies;
  location = location;
}

abbrev pub login_checks : Request → Result OidcConfig → Reply OidcConfig
login_checks r config = do
  method_is (lit "GET") r.method
  cfg ← need config (internal (lit "internal error"))
  availability cfg
  go cfg

abbrev pub with_state : OidcConfig → Option Cookie → Reply (OidcConfig × Cookie)
with_state cfg none = stop 400 (lit "invalid state")
with_state cfg (some c) = stop_if (is_nil c.value) 400 (lit "invalid state") >> go (cfg, c)

-- the callback up to the state cookie
abbrev pub callback_checks : Request → Result OidcConfig → Reply (OidcConfig × Cookie)
callback_checks r config = do
  method_is (lit "GET") r.method
  cfg ← need config (internal (lit "internal error"))
  availability cfg
  with_state cfg (cookie_named r.cookies oidc_state_cookie_name)

-- the parameters of the callback: its code
abbrev pub callback_code : Request → Text → Reply Text
callback_code r state = do
  stop_if (is_nil (get r.query (lit "state")) || not (text_eq (get r.query (lit "state")) state))
      400 (lit "invalid state")
  stop_if (not (is_nil (get r.query (lit "error")))) 401 (lit "oidc authorization denied")
  stop_if (is_nil (get r.query (lit "code"))) 400 (lit "missing code")
  go (get r.query (lit "code"))

abbrev pub id_token : Option Text → Reply Text
id_token none = stop 401 (lit "missing id_token")
id_token (some raw) = stop_if (is_nil raw) 401 (lit "missing id_token") >> go raw

abbrev pub session_answer : Cookie → Reply Cookie → Response Text
session_answer cleared (stop status what) = error_answer status what (cleared ∷ [])
session_answer cleared (go session) = redirect (lit "/") (cleared ∷ session ∷ [])

-- the provider behind an issuer
module _ {P : Type 0} (discover : Text → Result P) where
  -- the provider for an issuer: the one that is cached, or a new one, which is cached then
  unfoldable pub provider : Text → Option (Text × P) → Result P × Option (Text × P)
  provider issuer cache =
      let fresh = elim (discover issuer) as (λ _. Result P × Option (Text × P)) [
        | err e ↦ (err (wrapped (lit "discover issuer") e), cache)
        | ok p ↦ (ok p, some (issuer, p))
      ] in
      elim cache [
        | none ↦ fresh
        | some (cached, p) ↦ if text_eq cached issuer then (ok p, some (cached, p)) else fresh
      ]

  -- where the provider sends the browser
  module _ (auth_code_url : P → OidcConfig → Text → Text) where
    abbrev login_answer : OidcHandler → Request → OidcConfig → Text → Reply P → Response Text
    login_answer h r cfg state (stop status what) = error_answer status what []
    login_answer h r cfg state (go p) =
        redirect (auth_code_url p cfg state)
          (state_cookie state (pos 600) (h.cookie_secure || r.tls) ∷ [])

    abbrev login_with :
        OidcHandler
        → Request
        → OidcConfig
        → Option (Text × P)
        → Reply Text
        → Response Text × Option (Text × P)
    login_with h r cfg cache (stop status what) = (error_answer status what [], cache)
    login_with h r cfg cache (go state) =
        let (found, cache') = provider cfg.issuer cache in
        (login_answer h r cfg state (need found (internal (lit "oidc provider error"))), cache')

    unfoldable pub handle_login :
        OidcHandler
        → Result Text
        → Request
        → Result OidcConfig
        → Option (Text × P)
        → Response Text × Option (Text × P)
    handle_login h random r config cache = elim (login_checks r config) [
      | stop status what ↦ (error_answer status what [], cache)
      | go cfg ↦ login_with h r cfg cache (need random (internal (lit "internal error")))
    ]

  -- what the provider makes of a code: a token with an id_token, its check and its claims
  module _ {Token : Type 0} (exchange : P → OidcConfig → Text → Result (Option Text))
      (verify : P → Text → Text → Result Token) (claims_of : Token → Result Claims)
      (signature : Text → Text → Text) where
    -- what the provider says of the code: the session for a user who may log in
    abbrev pub callback_session :
        OidcHandler → Time → Request → OidcConfig → Text → Result P → Reply Cookie
    callback_session h now r cfg code found = do
      p ← need found (internal (lit "oidc provider error"))
      token ← need (exchange p cfg code) (refused_as (lit "oidc token exchange failed"))
      raw ← id_token token
      verified ← need (verify p cfg.client_id raw) (refused_as (lit "invalid id_token"))
      claims ← need (claims_of verified) (refused_as (lit "invalid claims"))
      stop_if (is_nil claims.email) 401 (lit "email claim required")
      stop_if
          (not (oidc_email_allowed claims.email claims.email_verified cfg.allowed_email_domains))
          403 (lit "email domain not allowed")
      need
          (new_session_cookie signature h.session_secret now h.session_ttl
            (some (h.cookie_secure || r.tls)))
          (internal (lit "session error"))

    abbrev pub callback_with :
        OidcHandler
        → Time
        → Request
        → OidcConfig
        → Option (Text × P)
        → Reply Text
        → Response Text × Option (Text × P)
    callback_with h now r cfg cache code =
        let cleared = state_cookie [] (negsuc 0) (h.cookie_secure || r.tls) in
        elim code [
          | stop status what ↦ (error_answer status what (cleared ∷ []), cache)
          | go c ↦
              let (found, cache') = provider cfg.issuer cache in
              (session_answer cleared (callback_session h now r cfg c found), cache')
        ]

    unfoldable pub handle_callback :
        OidcHandler
        → Time
        → Request
        → Result OidcConfig
        → Option (Text × P)
        → Response Text × Option (Text × P)
    handle_callback h now r config cache = elim (callback_checks r config) [
      | stop status what ↦ (error_answer status what [], cache)
      | go (cfg, c) ↦ callback_with h now r cfg cache (callback_code r c.value)
    ]
