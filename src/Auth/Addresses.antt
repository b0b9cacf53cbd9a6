-- ===== src/Auth/Addresses.antt =====
-- internal/adapters/auth/oidc.go: which email addresses may log in.
use mathlib.Core.Path.{subst}
use cuearr.Prelude.{
  ℕ, Text, text_eq_iff, true, false, not, ◌||◌, ◌&&◌, ◌+◌, ◌==◌, Option, none, some, [], ◌∷◌,
  is_nil, ◌≡◌, ◌≢◌, ◌⊎◌, List, Bool, Bool-cases, Option-cases, ◌++◌, All, suc, drop, length,
  to_lower, trim_space, inl, inr, refl, ap, ◌∙◌, arith,
}
use cuearr.Auth.Oidc.{
  oidc_email_allowed, email_domain_allowed, last_index, any_domain, equal_fold, is_verified,
}

-- Some of the domains, without the white space around it, is the domain but for the case of letters.
pub data OneOf (domain : Text) : List Text → Type 0 where
  here :
      {a : Text} {allowed : List Text}
      → to_lower (trim_space a) ≡ to_lower domain
      → OneOf domain (a ∷ allowed)
  there : {a : Text} {allowed : List Text} → OneOf domain allowed → OneOf domain (a ∷ allowed)

-- An address that may log in: in lower case and without the white space around it, a name, an "@"
-- and a domain without another one, neither of them empty. Where domains are listed, it is verified
-- and its domain is one of them.
pub record MayLogIn (email : Text) (verified : Option Bool) (allowed : List Text) : Type 0 where
  pub name : Text
  pub domain : Text
  pub address : trim_space (to_lower email) ≡ name ++ (b'@' ∷ domain)
  pub name_set : name ≢ []
  pub domain_set : domain ≢ []
  pub last_at : All (λ c. c ≢ b'@') domain
  pub listed : (allowed ≡ []) ⊎ ((verified ≡ some true) × OneOf domain allowed)

last_index-none : (sep : ℕ) (s : Text) → last_index sep s ≡ none → All (λ c. c ≢ sep) s
unfolding last_index
last_index-none sep [] h = tt
last_index-none sep (c ∷ s) h = elim (Option-cases (last_index sep s)) [
  | inr (i, k) ↦ absurd (ground arith)
  | inl k ↦ (ground arith, last_index-none sep s k)
]

-- what stands before and behind the last of these bytes
last_index-some :
    (sep : ℕ) (s : Text) {i : ℕ}
    → last_index sep s ≡ some i
    → (a : Text) × (s ≡ a ++ (sep ∷ drop (suc i) s))
      × (length a ≡ i)
      × All (λ c. c ≢ sep) (drop (suc i) s)
unfolding last_index
last_index-some sep [] h = absurd (ground arith)
last_index-some sep (c ∷ s) {i} h = elim (Option-cases (last_index sep s)) [
  | inr (j, k) ↦
      let (a, e, n, others) = last_index-some sep s k in
      let next : suc j ≡ i = ground arith in
      subst
        (λ m.
          (a : Text) × (c ∷ s ≡ a ++ (sep ∷ drop m s))
          × (length a ≡ m)
          × All (λ d. d ≢ sep) (drop m s))
        next (c ∷ a, ap (λ t. c ∷ t) e, ap suc n, others)
  | inl k ↦ elim (Bool-cases (c == sep)) [
    | inr other ↦ absurd (ground arith)
    | inl same ↦
        let first : 0 ≡ i = ground arith in
        let is_sep : c ≡ sep = ground arith in
        subst
          (λ m.
            (a : Text) × (c ∷ s ≡ a ++ (sep ∷ drop m s))
            × (length a ≡ m)
            × All (λ d. d ≢ sep) (drop m s))
          first ([], ap (λ d. d ∷ s) is_sep, refl, last_index-none sep s k)
  ]
]

any_domain-OneOf :
    (domain : Text) (allowed : List Text) → any_domain domain allowed ≡ true → OneOf domain allowed
any_domain-OneOf domain [] h = absurd (ground arith)
any_domain-OneOf domain (a ∷ allowed) h = elim (Bool-cases (equal_fold (trim_space a) domain)) [
  | inl same ↦ here ((text_eq_iff _ _).0 same)
  | inr other ↦ there (any_domain-OneOf domain allowed (ground arith))
]

listed_of :
    (domain : Text) (verified : Option Bool) (allowed : List Text)
    → (not (is_nil allowed) && not (is_verified verified)) ≡ false
    → (is_nil allowed || any_domain domain allowed) ≡ true
    → (allowed ≡ []) ⊎ ((verified ≡ some true) × OneOf domain allowed)
listed_of domain verified [] g h = inl refl
listed_of domain none (a ∷ allowed) g h = absurd (ground arith)
listed_of domain (some v) (a ∷ allowed) g h =
    inr (ground arith, any_domain-OneOf domain (a ∷ allowed) (ground arith))

length-append_last : (a b : Text) (c : ℕ) → length (a ++ (c ∷ b)) ≡ suc (length a + length b)
length-append_last [] b c = ground arith
length-append_last (d ∷ a) b c = ground (arith, length-append_last a b c)

-- the parts of the address, split at its last "@"
may_log_in :
    (email : Text) (verified : Option Bool) (allowed : List Text) (i : ℕ)
    → last_index b'@' (trim_space (to_lower email)) ≡ some i
    → (i == 0 || suc i == length (trim_space (to_lower email))) ≡ false
    → (allowed ≡ [])
      ⊎ ((verified ≡ some true) × OneOf (drop (suc i) (trim_space (to_lower email))) allowed)
    → MayLogIn email verified allowed
may_log_in email verified allowed i at inner listed =
    let address = trim_space (to_lower email) in
    let (name, e, n, others) = last_index-some b'@' address at in
    let total = ap length e ∙ length-append_last name (drop (suc i) address) b'@' in
    record {
      name = name;
      domain = drop (suc i) address;
      address = e;
      name_set = λ z. absurd (ground (arith, n, ap length z));
      domain_set = λ z. absurd (ground (arith, total, n, ap length z));
      last_at = others;
      listed = listed;
    }

pub oidc_email_allowed-MayLogIn :
    (email : Text) (verified : Option Bool) (allowed : List Text)
    → oidc_email_allowed email verified allowed ≡ true
    → MayLogIn email verified allowed
unfolding oidc_email_allowed email_domain_allowed
oidc_email_allowed-MayLogIn email verified allowed h =
    let address = trim_space (to_lower email) in
    elim (Bool-cases (not (is_nil allowed) && not (is_verified verified))) [
      | inl refused ↦ absurd (ground arith)
      | inr known ↦ elim (Option-cases (last_index b'@' address)) [
        | inl k ↦ absurd (ground arith)
        | inr (i, k) ↦ elim (Bool-cases (i == 0 || suc i == length address)) [
          | inl outer ↦ absurd (ground arith)
          | inr inner ↦
              may_log_in email verified allowed i k inner
                (listed_of (drop (suc i) address) verified allowed known (ground arith))
        ]
      ]
    ]
