-- ===== src/Http.antt =====
-- Requests and answers of net/http, as far as internal/adapters/auth and internal/adapters/http use
-- them: parsed requests, and answers before encoding/json writes their body.
pub mod Payload
pub mod Handlers
pub mod Hook
pub mod Diagnostics
pub mod Truncated
pub mod Retried
pub mod PutSettings
pub mod Protects
pub mod SettingsHandlers
use cuearr.Prelude.{
  ℕ, Text, lit, text_eq, Bool, true, false, not, ◌≡◌, ◌⊎◌, inl, inr, refl, Option, none, some, List,
  [], ◌∷◌, if◌then◌else◌,
}
use cuearr.Prelude.Int.{ℤ}
use cuearr.Errors.{Error, Result, ok, err}

pub record Cookie : Type 0 where
  pub name : Text
  pub value : Text
  pub path : Text
  pub http_only : Bool
  pub same_site_lax : Bool
  pub max_age : ℤ
  pub secure : Bool

pub record Request : Type 0 where
  pub method : Text
  pub path : Text
  pub remote_addr : Text
  pub tls : Bool
  pub headers : List (Text × Text)
  pub query : List (Text × Text)
  pub cookies : List Cookie
  pub body : Text

-- Header.Get and Values.Get: the first value of the key, or ""
unfoldable pub get : List (Text × Text) → Text → Text
get [] key = []
get ((k, v) ∷ rest) key = let later = get rest key in if text_eq k key then v else later

-- Request.Cookie: the first cookie of the name
unfoldable pub cookie_named : List Cookie → Text → Option Cookie
cookie_named [] name = none
cookie_named (c ∷ rest) name =
    let later = cookie_named rest name in if text_eq c.name name then some c else later

-- an answer: its status, its body, the cookies that it sets and where it redirects to
pub record Response (B : Type 0) : Type 0 where
  pub status : ℕ
  pub body : B
  pub cookies : List Cookie
  pub location : Text

-- A handler that goes on, or that has answered with an error: a status and a message.
pub data Reply {ℓ} (A : Type ℓ) : Type ℓ where
  stop : ℕ → Text → Reply A
  go : A → Reply A

infixl 5 ◌>>=◌ ◌>>◌
abbrev pub ◌>>=◌ {ℓ κ} : {A : Type ℓ} {B : Type κ} → Reply A → (A → Reply B) → Reply B
stop status what >>= next = stop status what
go a >>= next = next a

abbrev pub ◌>>◌ {ℓ} : {B : Type ℓ} → Reply (Unit {0}) → Reply B → Reply B
first >> next = first >>= λ done. next

-- `if <test> { <error>; return }`
abbrev pub stop_if : Bool → ℕ → Text → Reply (Unit {0})
stop_if test status what = if test then stop status what else go tt

abbrev pub method_is : Text → Text → Reply (Unit {0})
method_is wanted method = stop_if (not (text_eq method wanted)) 405 (lit "method not allowed")

-- a value, or the answer to its error
abbrev pub need {ℓ} : {A : Type ℓ} → Result A → (Error → ℕ × Text) → Reply A
need (ok a) answer = go a
need (err e) answer = stop (answer e).0 (answer e).1

-- What a chain that goes on has gone through.
pub >>=-eq-go {ℓ κ} :
    {A : Type ℓ} {B : Type κ} (first : Reply A) (next : A → Reply B) {b : B}
    → first >>= next ≡ go b
    → (a : A) × (first ≡ go a) × (next a ≡ go b)
>>=-eq-go (stop status what) next h = cc
>>=-eq-go (go a) next h = (a, refl, h)

pub stop_if-eq-go {ℓ} :
    {B : Type ℓ} (test : Bool) (status : ℕ) (what : Text) (k : Reply B) {b : B}
    → (stop_if test status what >> k) ≡ go b
    → (test ≡ false) × (k ≡ go b)
stop_if-eq-go true status what k h = cc
stop_if-eq-go false status what k h = (refl, h)

pub need-eq-go {ℓ κ} :
    {A : Type ℓ} {B : Type κ} (r : Result A) (answer : Error → ℕ × Text) (k : A → Reply B) {b : B}
    → (need r answer >>= k) ≡ go b
    → (a : A) × (r ≡ ok a) × (k a ≡ go b)
need-eq-go (ok a) answer k h = (a, refl, h)
need-eq-go (err e) answer k h = cc

pub Reply-cases {ℓ} :
    {A : Type ℓ} (r : Reply A)
    → ((a : A) × (r ≡ go a)) ⊎ ((status : ℕ) × (what : Text) × (r ≡ stop status what))
Reply-cases (go a) = inl (a, refl)
Reply-cases (stop status what) = inr (status, what, refl)
