-- ===== src/Auth/Checks.antt =====
-- internal/adapters/auth/oidc.go: what the checks of a callback's request and configuration say.
use mathlib.Core.Path.{subst}
use cuearr.Prelude.{
  Text, lit, text_eq, text_eq_iff, true, false, not, ◌||◌, Option, none, some, [], ◌∷◌, is_nil, ◌≡◌,
  ◌≢◌, ◌⊎◌, Bool-cases, inl, inr, refl, ap, ◌∙◌, arith,
}
use cuearr.Errors.{Result, Result-cases, ok}
use cuearr.Http.{Cookie, Request, get, cookie_named, go, >>=-eq-go, stop_if-eq-go, need-eq-go}
use cuearr.Auth.Oidc.{
  OidcConfig, availability, oidc_state_cookie_name, callback_checks, callback_code, id_token,
  with_state, internal, provider,
}

state_remembered :
    (cfg cfg' : OidcConfig) (c : Cookie) (found : Option Cookie)
    → with_state cfg found ≡ go (cfg', c)
    → (found ≡ some c) × (cfg ≡ cfg') × (is_nil c.value ≡ false)
state_remembered cfg cfg' c none h = absurd (ground arith)
state_remembered cfg cfg' c (some c') h =
    let (n, k) = stop_if-eq-go (is_nil c'.value) 400 (lit "invalid state") (go (cfg, c')) h in
    (ground arith, ground arith, ground arith)

-- Login is switched on and has all that it needs.
pub record Ready (cfg : OidcConfig) : Type 0 where
  pub enabled : cfg.enabled ≡ true
  pub issuer_set : cfg.issuer ≢ []
  pub client_set : cfg.client_id ≢ []
  pub secret_set : cfg.client_secret ≢ []
  pub redirect_set : cfg.redirect_url ≢ []

pub not_nil : {s : Text} → is_nil s ≡ false → s ≢ []
not_nil {s} h e = ground arith

availability-Ready : (cfg : OidcConfig) → availability cfg ≡ go tt → Ready cfg
unfolding availability
availability-Ready cfg h =
    let missing =
      is_nil cfg.issuer
      || is_nil cfg.client_id
      || is_nil cfg.client_secret
      || is_nil cfg.redirect_url in
    let (on, rest) = stop_if-eq-go (not cfg.enabled) 404 (lit "oidc disabled") _ h in
    elim (Bool-cases missing) [
      | inl some_missing ↦ absurd (ground arith)
      | inr all_set ↦ record {
        enabled = ground arith;
        issuer_set = not_nil (ground arith);
        client_set = not_nil (ground arith);
        secret_set = not_nil (ground arith);
        redirect_set = not_nil (ground arith);
      }
    ]

-- the parts of the checks up to the state cookie
pub checked :
    (r : Request) (config : Result OidcConfig) (cfg : OidcConfig) (c : Cookie)
    → callback_checks r config ≡ go (cfg, c)
    → (r.method ≡ lit "GET")
      × (config ≡ ok cfg)
      × Ready cfg
      × (cookie_named r.cookies oidc_state_cookie_name ≡ some c)
      × (is_nil c.value ≡ false)
checked r config cfg c h =
    let (method, h1) =
      stop_if-eq-go (not (text_eq r.method (lit "GET"))) 405 (lit "method not allowed") _ h in
    let (cfg', k, h2) = need-eq-go config (internal (lit "internal error")) _ h1 in
    let (_, l, h3) = >>=-eq-go (availability cfg') _ h2 in
    let (m, n, v) =
      state_remembered cfg' cfg c (cookie_named r.cookies oidc_state_cookie_name) h3 in
    (
      (text_eq_iff r.method (lit "GET")).0 (ground arith),
      k ∙ ap ok n,
      subst Ready n (availability-Ready cfg' l),
      m,
      v,
    )

is_nil-eq : (s : Text) → is_nil s ≡ true → s ≡ []
is_nil-eq [] h = refl
is_nil-eq (c ∷ s) h = absurd (ground arith)

pub code_of :
    (r : Request) (state code : Text)
    → callback_code r state ≡ go code
    → (get r.query (lit "state") ≡ state)
      × (code ≡ get r.query (lit "code"))
      × (get r.query (lit "error") ≡ [])
      × (get r.query (lit "code") ≢ [])
code_of r state code h =
    let s = get r.query (lit "state") in
    let (a, h1) = stop_if-eq-go (is_nil s || not (text_eq s state)) 400 (lit "invalid state") _ h in
    let (b, h2) =
      stop_if-eq-go (not (is_nil (get r.query (lit "error")))) 401 (lit "oidc authorization denied")
        _ h1 in
    let (c, h3) = stop_if-eq-go (is_nil (get r.query (lit "code"))) 400 (lit "missing code") _ h2 in
    ((text_eq_iff s state).0 (ground arith), ground arith, is_nil-eq _ (ground arith), not_nil c)

pub raw_of :
    (raw : Option Text) (token : Text) → id_token raw ≡ go token → (raw ≡ some token) × (token ≢ [])
raw_of none token h = absurd (ground arith)
raw_of (some raw) token h =
    let (given, k) = stop_if-eq-go (is_nil raw) 401 (lit "missing id_token") (go raw) h in
    let same : raw ≡ token = ground arith in
    (ap some same, subst (λ t. t ≢ []) same (not_nil given))

-- The provider is the one that was kept for this issuer, or is discovered now.
pub provider-eq-ok :
    {P : Type 0} (discover : Text → Result P) (issuer : Text) (cache : Option (Text × P)) {p : P}
    → (provider discover issuer cache).0 ≡ ok p
    → (cache ≡ some (issuer, p)) ⊎ (discover issuer ≡ ok p)
unfolding provider
provider-eq-ok discover issuer none {p} h = elim (Result-cases (discover issuer)) [
  | inl (q, e) ↦ inr (ground arith)
  | inr (x, e) ↦ absurd (ground arith)
]
provider-eq-ok discover issuer (some (cached, q)) {p} h =
    elim (Bool-cases (text_eq cached issuer)) [
      | inl same ↦
          let issuers = (text_eq_iff cached issuer).0 same in
          let providers : q ≡ p = ground arith in
          inl (ap (λ c. some (c, q)) issuers ∙ ap (λ r. some (issuer, r)) providers)
      | inr other ↦ elim (Result-cases (discover issuer)) [
        | inl (r, e) ↦ inr (ground arith)
        | inr (x, e) ↦ absurd (ground arith)
      ]
    ]
