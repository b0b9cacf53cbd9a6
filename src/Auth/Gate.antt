-- ===== src/Auth/Gate.antt =====
-- internal/adapters/auth/middleware.go: the requests that reach the API are those that may.
use mathlib.Core.Path.{subst}
use cuearr.Prelude.{
  ◌≡◌, ◌≢◌, ◌⊎◌, ◌↔◌, refl, sym, Text, lit, text_eq, text_eq_iff, Bool, true, false, ◌&&◌,
  Bool-cases, Option, some, Option-cases, [], ◌∷◌, is_nil, inl, inr, arith,
}
use cuearr.Job.{Time}
use cuearr.Http.{Cookie, Request, Response, get, cookie_named}
use cuearr.Auth.{session_cookie_name, valid_api_key, valid_session_cookie}
use cuearr.Auth.Middleware.{
  has_prefix, is_public_api, is_localhost, is_bootstrap_settings_auth, wrap,
}

-- The routes of the API that need no login.
pub data PublicRoute : Text → Text → Type 0 where
  health : PublicRoute (lit "GET") (lit "/api/v1/health")
  login : (method : Text) → PublicRoute method (lit "/api/v1/login")
  logout : PublicRoute (lit "POST") (lit "/api/v1/logout")
  oidc_login : PublicRoute (lit "GET") (lit "/api/v1/auth/oidc/login")
  oidc_callback : PublicRoute (lit "GET") (lit "/api/v1/auth/oidc/callback")

-- Who may pass: outside the API everyone, on a public route everyone, with no password set the one
-- who sets it from the same machine, and who shows the API key or a session.
pub data Admitted (signature : Text → Text → Text) (local : Request → Bool)
    (secret hash api_key : Text) (now : Time) (r : Request) : Type 0 where
  outside :
      has_prefix (lit "/api/") r.path ≡ false → Admitted signature local secret hash api_key now r
  public_route : PublicRoute r.method r.path → Admitted signature local secret hash api_key now r
  bootstrap :
      hash ≡ []
      → r.method ≡ lit "PUT"
      → r.path ≡ lit "/api/v1/settings/auth"
      → local r ≡ true
      → Admitted signature local secret hash api_key now r
  key :
      api_key ≢ []
      → get r.headers (lit "X-Api-Key") ≡ api_key
      → Admitted signature local secret hash api_key now r
  session :
      (c : Cookie)
      → cookie_named r.cookies session_cookie_name ≡ some c
      → valid_session_cookie signature secret now (some c) ≡ true
      → Admitted signature local secret hash api_key now r

-- the last test of a chain of routes
route :
    (path wanted method verb : Text) (P : Text → Text → Type 0)
    → P verb wanted
    → text_eq path wanted ≡ true
    → text_eq method verb ≡ true
    → P method path
route path wanted method verb P p h k =
    subst (P method) (sym ((text_eq_iff path wanted).0 h))
      (subst (λ m. P m wanted) (sym ((text_eq_iff method verb).0 k)) p)

public_sound : (method path : Text) → is_public_api method path ≡ true → PublicRoute method path
unfolding is_public_api
public_sound method path h = elim (Bool-cases (text_eq path (lit "/api/v1/health"))) [
  | inl a ↦ route path _ method _ PublicRoute health a (rw a at h)
  | inr a ↦ elim (Bool-cases (text_eq path (lit "/api/v1/login"))) [
    | inl b ↦ subst (PublicRoute method) (sym ((text_eq_iff path _).0 b)) (login method)
    | inr b ↦ elim (Bool-cases (text_eq path (lit "/api/v1/logout"))) [
      | inl c ↦ route path _ method _ PublicRoute logout c (rw (a, b, c) at h)
      | inr c ↦ elim (Bool-cases (text_eq path (lit "/api/v1/auth/oidc/login"))) [
        | inl d ↦ route path _ method _ PublicRoute oidc_login d (rw (a, b, c, d) at h)
        | inr d ↦ elim (Bool-cases (text_eq path (lit "/api/v1/auth/oidc/callback"))) [
          | inl e ↦ route path _ method _ PublicRoute oidc_callback e (rw (a, b, c, d, e) at h)
          | inr e ↦ absurd (ground (arith, rw (a, b, c, d, e) at h))
        ]
      ]
    ]
  ]
]

public_complete : {method path : Text} → PublicRoute method path → is_public_api method path ≡ true
unfolding is_public_api
public_complete health = refl
public_complete (login method) = refl
public_complete logout = refl
public_complete oidc_login = refl
public_complete oidc_callback = refl

key_iff :
    (provided expected : Text)
    → (valid_api_key provided expected ≡ true) ↔ ((expected ≢ []) × (provided ≡ expected))
unfolding valid_api_key
key_iff provided [] = (λ h. absurd (ground arith), λ h. absurd (h.0 refl))
key_iff provided (c ∷ e) = (
  λ h. (λ n. absurd (ground arith), (text_eq_iff provided (c ∷ e)).0 h),
  λ h. (text_eq_iff provided (c ∷ e)).1 h.1,
)

module _ (split_host_port : Text → Option Text) (parse_ip_loopback : Text → Option Bool) where
  abbrev local : Request → Bool
  local = is_localhost split_host_port parse_ip_loopback

  Bootstraps : Request → Type 0
  Bootstraps r = (r.method ≡ lit "PUT") × (r.path ≡ lit "/api/v1/settings/auth") × (local r ≡ true)

  bootstrap_iff :
      (r : Request)
      → (is_bootstrap_settings_auth split_host_port parse_ip_loopback r ≡ true) ↔ Bootstraps r
  unfolding is_bootstrap_settings_auth Bootstraps
  bootstrap_iff r =
      let m = text_eq_iff r.method (lit "PUT") in
      let p = text_eq_iff r.path (lit "/api/v1/settings/auth") in
      elim (Bool-cases (text_eq r.method (lit "PUT"))) [
        | inr a ↦ (λ h. absurd (ground arith), λ h. absurd (ground (arith, m.1 h.0)))
        | inl a ↦ elim (Bool-cases (text_eq r.path (lit "/api/v1/settings/auth"))) [
          | inr b ↦ (λ h. absurd (ground arith), λ h. absurd (ground (arith, p.1 h.1)))
          | inl b ↦ rw (a, b) (λ h. (m.0 a, p.0 b, h), λ h. h.2)
        ]
      ]

  module _ (signature : Text → Text → Text) {B : Type 0} (unauthorized : B) where
    shown :
        (secret : Text) (now : Time) (r : Request)
        → valid_session_cookie signature secret now (cookie_named r.cookies session_cookie_name)
          ≡ true
        → (c : Cookie) × (cookie_named r.cookies session_cookie_name ≡ some c)
          × (valid_session_cookie signature secret now (some c) ≡ true)
    unfolding valid_session_cookie
    shown secret now r h = elim (Option-cases (cookie_named r.cookies session_cookie_name)) [
      | inl k ↦ absurd (ground arith)
      | inr (c, k) ↦ (c, k, rw k at h)
    ]

    bootstrap_cases :
        (hash : Text) (r : Request)
        → (is_nil hash && is_bootstrap_settings_auth split_host_port parse_ip_loopback r ≡ true)
          ↔ ((hash ≡ []) × Bootstraps r)
    bootstrap_cases [] r = (λ h. (refl, (bootstrap_iff r).0 h), λ h. (bootstrap_iff r).1 h.1)
    bootstrap_cases (c ∷ hash) r = (λ h. absurd (ground arith), λ h. absurd (ground arith))

    -- Where every test fails, nobody is admitted.
    none_admitted :
        (secret hash api_key : Text) (now : Time) (r : Request)
        → has_prefix (lit "/api/") r.path ≡ true
        → is_public_api r.method r.path ≡ false
        → is_nil hash && is_bootstrap_settings_auth split_host_port parse_ip_loopback r ≡ false
        → valid_api_key (get r.headers (lit "X-Api-Key")) api_key ≡ false
        → valid_session_cookie signature secret now (cookie_named r.cookies session_cookie_name)
          ≡ false
        → ¬ Admitted signature local secret hash api_key now r
    unfolding Bootstraps
    none_admitted secret hash api_key now r a b c d e (outside h) = absurd (ground arith)
    none_admitted secret hash api_key now r a b c d e (public_route p) =
        absurd (ground (arith, public_complete p))
    none_admitted secret hash api_key now r a b c d e (bootstrap n m p l) =
        absurd (ground (arith, (bootstrap_cases hash r).1 (n, (m, p, l))))
    none_admitted secret hash api_key now r a b c d e (key n k) =
        absurd (ground (arith, (key_iff (get r.headers (lit "X-Api-Key")) api_key).1 (n, k)))
    none_admitted secret hash api_key now r a b c d e (session cookie k v) =
        absurd (ground (arith, rw k at e))

    -- A request reaches the next handler where it is admitted; every other one is answered 401,
    -- without a cookie, and the next handler does not see it.
    pub wrap-Admitted :
        (secret hash api_key : Text) (now : Time) (next : Request → Response B) (r : Request)
        → let answer =
            wrap split_host_port parse_ip_loopback signature unauthorized secret hash api_key now
              next r in
          let admitted = Admitted signature local secret hash api_key now r in
          (admitted × (answer ≡ next r))
          ⊎ ((¬ admitted)
              × (answer
                  ≡ record { status = 401; body = unauthorized; cookies = []; location = [] }))
    unfolding wrap Bootstraps
    wrap-Admitted secret hash api_key now next r =
        elim (Bool-cases (has_prefix (lit "/api/") r.path)) [
          | inr a ↦ rw a (inl (outside a, refl))
          | inl a ↦ elim (Bool-cases (is_public_api r.method r.path)) [
            | inl b ↦ rw (a, b) (inl (public_route (public_sound r.method r.path b), refl))
            | inr b ↦
                let bootstraps =
                  is_nil hash && is_bootstrap_settings_auth split_host_port parse_ip_loopback r in
                elim (Bool-cases bootstraps) [
                  | inl c ↦
                      rw (a, b, c)
                        (inl (
                          let (n, (m, p, l)) = (bootstrap_cases hash r).0 c in bootstrap n m p l,
                          refl,
                        ))
                  | inr c ↦
                      elim (Bool-cases (valid_api_key (get r.headers (lit "X-Api-Key")) api_key)) [
                        | inl d ↦
                            let k = (key_iff (get r.headers (lit "X-Api-Key")) api_key).0 d in
                            rw (a, b, c, d) (inl (key k.0 k.1, refl))
                        | inr d ↦
                            let shows =
                              valid_session_cookie signature secret now
                                (cookie_named r.cookies session_cookie_name) in
                            elim (Bool-cases shows) [
                              | inl e ↦
                                  let (cookie, k, v) = shown secret now r e in
                                  rw (a, b, c, d, e) (inl (session cookie k v, refl))
                              | inr e ↦
                                  rw (a, b, c, d, e)
                                    (inr (none_admitted secret hash api_key now r a b c d e, refl))
                            ]
                      ]
                ]
          ]
        ]
