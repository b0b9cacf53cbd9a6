-- ===== src/Auth/Initial.antt =====
-- internal/adapters/auth/bootstrap.go and session_secret.go: what a restart keeps.
use mathlib.Core.Path.{subst}
use cuearr.Prelude.{
  ℕ, Text, lit, Bool, true, false, none, some, List, [], ◌∷◌, ◌==◌, ==_iff, length, ◌≡◌, refl,
  Bool-cases, Option-cases, inl, inr, arith, ap, ◌∙◌,
}
use cuearr.Errors.{Result, ok, err}
use cuearr.Settings.{AuthSettings}
use cuearr.Filepath.{join}
use cuearr.Fs.{
  Fs, Answer, found, refused, directory, file, node_at, place, not_exist, exists, not_directory,
  system, read_file, write_file, next_fault,
}
use cuearr.Fs.Lookups.{place_eq_refl}
use cuearr.Auth.Bootstrap.{
  boot_auth, fill, fill_flag, fill_list, env_bool, split_env_csv, load_or_create_session_secret,
  secret_of, write_secret, new_session_secret, session_secret_len,
}

fill-again : (old v : Text) → (fill (fill old v).0 v).0 ≡ (fill old v).0
fill-again (c ∷ old) v = refl
fill-again [] [] = refl
fill-again [] (c ∷ v) = refl

flag-again : (old v : Bool) → (fill_flag (fill_flag old v).0 v).0 ≡ (fill_flag old v).0
flag-again true v = refl
flag-again false true = refl
flag-again false false = refl

list-refill :
    (ds : List Text) (c : ℕ) (v : Text) → split_env_csv (c ∷ v) ≡ ds → (fill_list ds (c ∷ v)).0 ≡ ds
list-refill [] c v h = h
list-refill (d ∷ ds) c v h = refl

list-again :
    (old : List Text) (v : Text) → (fill_list (fill_list old v).0 v).0 ≡ (fill_list old v).0
list-again (d ∷ old) v = refl
list-again [] [] = refl
list-again [] (c ∷ v) = list-refill (split_env_csv (c ∷ v)) c v refl

hash-again : (old h h' : Text) → (h ≡ [] → h' ≡ []) → (fill (fill old h).0 h').0 ≡ (fill old h).0
hash-again (c ∷ old) h h' k = refl
hash-again [] [] h' k = rw (k refl) refl
hash-again [] (c ∷ h) h' k = refl

-- A second start in the same environment finds the settings of logins as the first one left them,
-- also where its hash of the initial password is another one.
pub boot_auth-again :
    (env : Text → Text) (hash hash' : Text) (a : AuthSettings)
    → (hash ≡ [] → hash' ≡ [])
    → (boot_auth env hash' (boot_auth env hash a).0).0 ≡ (boot_auth env hash a).0
unfolding boot_auth
boot_auth-again env hash hash' a h =
    rw
      (
        hash-again a.password_hash hash hash' h,
        fill-again a.api_key (env (lit "CUEARR_API_KEY")),
        flag-again a.oidc_enabled (env_bool (env (lit "CUEARR_OIDC_ENABLED"))),
        fill-again a.oidc_issuer (env (lit "CUEARR_OIDC_ISSUER")),
        fill-again a.oidc_client_id (env (lit "CUEARR_OIDC_CLIENT_ID")),
        fill-again a.oidc_client_secret (env (lit "CUEARR_OIDC_CLIENT_SECRET")),
        fill-again a.oidc_redirect_url (env (lit "CUEARR_OIDC_REDIRECT_URL")),
        list-again a.oidc_allowed_email_domains (env (lit "CUEARR_OIDC_ALLOWED_EMAIL_DOMAINS")),
      )
      refl

-- what a key that is stored is read as
read_back :
    (path : Text) (random : Result Text) (secret : Text) (fs : Fs)
    → length secret ≡ session_secret_len
    → (next_fault fs.faults).0 ≡ none
    → node_at (place path) fs.nodes ≡ some (file secret)
    → (secret_of path random (read_file path fs).0 (read_file path fs).1).0 ≡ ok secret
unfolding read_file
read_back path random secret fs l k h = rw (k, h, read_file, secret_of, l) refl

written_there :
    (path contents : Text) (fs : Fs)
    → (next_fault fs.faults).0 ≡ none
    → node_at (place path) (write_file path contents fs).1.nodes ≡ some (file contents)
unfolding write_file
written_there path contents fs k = rw (k, node_at, place_eq_refl (place path)) refl

secret_written :
    (path : Text) (random : Result Text) (fs : Fs) (s : Text)
    → ((r : Text) → random ≡ ok r → length r ≡ session_secret_len)
    → (write_secret path (new_session_secret random) fs).0 ≡ ok s
    → (length s ≡ session_secret_len)
      × (node_at (place path) (write_secret path (new_session_secret random) fs).1.nodes
          ≡ some (file s))
unfolding new_session_secret write_file
secret_written path (err e) fs s long h = absurd (ground arith)
secret_written path (ok r) fs s long h = elim (Option-cases (next_fault fs.faults).0) [
  | inr (fault, k) ↦ absurd (ground (arith, rw (k, write_secret, write_file) at h))
  | inl k ↦
      let e : r ≡ s = ground (arith, rw (k, write_secret, write_file) at h) in
      (
        subst (λ t. length t ≡ session_secret_len) e (long r refl),
        rw (k, write_secret) (written_there path r fs k ∙ ap (λ t. some (file t)) e),
      )
]

secret_found :
    (path : Text) (random : Result Text) (answer : Answer Text) (fs : Fs) (s : Text)
    → ((d : Text) → answer ≡ found d → node_at (place path) fs.nodes ≡ some (file d))
    → ((r : Text) → random ≡ ok r → length r ≡ session_secret_len)
    → (secret_of path random answer fs).0 ≡ ok s
    → (length s ≡ session_secret_len)
      × (node_at (place path) (secret_of path random answer fs).1.nodes ≡ some (file s))
unfolding new_session_secret
secret_found path random (found d) fs s there long h =
    elim (Bool-cases (length d == session_secret_len)) [
      | inr k ↦ absurd (ground arith)
      | inl k ↦
          let e : d ≡ s = ground (arith, rw (k, secret_of) at h) in
          (
            subst (λ t. length t ≡ session_secret_len) e
                ((==_iff (length d) session_secret_len).0 k),
            there d refl ∙ ap (λ t. some (file t)) e,
          )
    ]
secret_found path random (refused not_exist) fs s there long h =
    secret_written path random fs s long h
secret_found path random (refused exists) fs s there long h = absurd (ground arith)
secret_found path random (refused not_directory) fs s there long h = absurd (ground arith)
secret_found path random (refused (system f)) fs s there long h = absurd (ground arith)

read_there :
    (path : Text) (fs : Fs) (d : Text)
    → (read_file path fs).0 ≡ found d
    → node_at (place path) (read_file path fs).1.nodes ≡ some (file d)
unfolding read_file
read_there path fs d h = elim (Option-cases (next_fault fs.faults).0) [
  | inr (fault, k) ↦ absurd (ground arith)
  | inl k ↦ elim (Option-cases (node_at (place path) fs.nodes)) [
    | inl l ↦ absurd (ground arith)
    | inr (directory, l) ↦ absurd (ground arith)
    | inr (file e, l) ↦
        let same : e ≡ d = ground arith in rw (k, node_at) (l ∙ ap (λ t. some (file t)) same)
  ]
]

-- The key that signs sessions outlives the process: where it was read or made, a later start that
-- can read the file gets the same key, whatever its random source would give.
pub load_or_create_session_secret-again :
    (data_dir : Text) (random random' : Result Text) (fs : Fs) (s : Text)
    → ((r : Text) → random ≡ ok r → length r ≡ session_secret_len)
    → (load_or_create_session_secret data_dir random fs).0 ≡ ok s
    → let fs' = (load_or_create_session_secret data_dir random fs).1 in
      (next_fault fs'.faults).0 ≡ none
      → (load_or_create_session_secret data_dir random' fs').0 ≡ ok s
unfolding load_or_create_session_secret
load_or_create_session_secret-again data_dir random random' fs s long h calm =
    let path = join data_dir (lit "session.key") in
    let (answer, after) = read_file path fs in
    let w = secret_found path random answer after s (read_there path fs) long h in
    read_back path random' s (secret_of path random answer after).1 w.0 calm w.1
