-- ===== src/Auth/Middleware.antt =====
-- internal/adapters/auth/middleware.go: which requests pass to the API.
-- net.SplitHostPort and net.ParseIP are parameters.
use cuearr.Prelude.{
  Text, lit, text_eq, Bool, true, false, not, ◌&&◌, ◌||◌, Option, none, some, [], if◌then◌else◌,
  is_nil, cut_prefix,
}
use cuearr.Job.{Time}
use cuearr.Http.{Request, Response, get, cookie_named}
use cuearr.Auth.{session_cookie_name, valid_api_key, valid_session_cookie}

abbrev pub has_prefix : Text → Text → Bool
has_prefix prefix s = elim (cut_prefix prefix s) [ none ↦ false | some _ ↦ true ]

unfoldable pub is_public_api : Text → Text → Bool
is_public_api method path =
    if text_eq path (lit "/api/v1/health")
    then text_eq method (lit "GET")
    else if text_eq path (lit "/api/v1/login")
    then true
    else if text_eq path (lit "/api/v1/logout")
    then text_eq method (lit "POST")
    else if text_eq path (lit "/api/v1/auth/oidc/login")
    then text_eq method (lit "GET")
    else if text_eq path (lit "/api/v1/auth/oidc/callback")
    then text_eq method (lit "GET")
    else false

-- the host of an address with a port, and whether a text is an IP address, of the loopback
module _ (split_host_port : Text → Option Text) (parse_ip_loopback : Text → Option Bool) where
  abbrev loopback : Option Bool → Bool
  loopback none = false
  loopback (some is_loopback) = is_loopback

  abbrev host_or : Text → Option Text → Text
  host_or addr none = addr
  host_or addr (some host) = host

  unfoldable pub is_localhost : Request → Bool
  is_localhost r =
      loopback (parse_ip_loopback (host_or r.remote_addr (split_host_port r.remote_addr)))

  unfoldable pub is_bootstrap_settings_auth : Request → Bool
  is_bootstrap_settings_auth r =
      if not (text_eq r.method (lit "PUT")) || not (text_eq r.path (lit "/api/v1/settings/auth"))
      then false
      else is_localhost r

  -- with the password hash and the API key that are set, and the secret of sessions
  module _ (signature : Text → Text → Text) {B : Type 0} (unauthorized : B) where
    unfoldable pub wrap : Text → Text → Text → Time → (Request → Response B) → Request → Response B
    wrap secret hash api_key now next r =
        if not (has_prefix (lit "/api/") r.path)
        then next r
        else if is_public_api r.method r.path
        then next r
        else if is_nil hash && is_bootstrap_settings_auth r
        then next r
        else if valid_api_key (get r.headers (lit "X-Api-Key")) api_key
        then next r
        else if valid_session_cookie signature secret now
            (cookie_named r.cookies session_cookie_name)
        then next r
        else record { status = 401; body = unauthorized; cookies = []; location = [] }
