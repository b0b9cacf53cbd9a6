-- ===== src/Auth/Bootstrap.antt =====
-- internal/adapters/auth/bootstrap.go and session_secret.go: the first settings of a login, from the
-- environment, and the key that signs sessions. os.Getenv, bcrypt and the random source are parameters.
use cuearr.Prelude.{
  ℕ, Text, lit, text_eq, Bool, true, false, ◌||◌, Option, none, some, List, [], ◌∷◌, ◌++◌,
  if◌then◌else◌, is_nil, ◌==◌, length, to_lower, trim_space, split,
}
use cuearr.Prelude.Int.{pos}
use cuearr.Strconv.{itoa}
use cuearr.Errors.{Error, Result, ok, err, message, wrapped}
use cuearr.Settings.{Settings, AuthSettings}
use cuearr.Settings.Stored.{SettingsDb, get_settings, put_settings}
use cuearr.Filepath.{join}
use cuearr.Fs.{Fs, Answer, found, refused, not_exist, read_file, write_file}
use cuearr.Fs.Acts.{os_error_text}
use cuearr.Auth.{hash_password}

unfoldable pub env_bool : Text → Bool
env_bool v =
    let word = to_lower (trim_space v) in
    text_eq word (lit "1")
    || text_eq word (lit "true")
    || text_eq word (lit "yes")
    || text_eq word (lit "on")

abbrev pub keep_words : List Text → List Text
keep_words [] = []
keep_words (w ∷ ws) =
    let rest = keep_words ws in let word = trim_space w in if is_nil word then rest else word ∷ rest

unfoldable pub split_env_csv : Text → List Text
split_env_csv s = keep_words (split b',' s)

-- a setting that is empty takes the value of its variable, where that is not empty
abbrev pub fill : Text → Text → Text × Bool
fill (c ∷ old) v = (c ∷ old, false)
fill [] [] = ([], false)
fill [] (c ∷ v) = (c ∷ v, true)

abbrev pub fill_flag : Bool → Bool → Bool × Bool
fill_flag true v = (true, false)
fill_flag false v = (v, v)

abbrev pub fill_list : List Text → Text → List Text × Bool
fill_list (d ∷ old) v = (d ∷ old, false)
fill_list [] [] = ([], false)
fill_list [] (c ∷ v) = (split_env_csv (c ∷ v), true)

-- the settings with what the environment adds, and whether that changes them; the password is hashed
unfoldable pub boot_auth : (Text → Text) → Text → AuthSettings → AuthSettings × Bool
boot_auth env hash a =
    let password = fill a.password_hash hash in
    let key = fill a.api_key (env (lit "CUEARR_API_KEY")) in
    let enabled = fill_flag a.oidc_enabled (env_bool (env (lit "CUEARR_OIDC_ENABLED"))) in
    let issuer = fill a.oidc_issuer (env (lit "CUEARR_OIDC_ISSUER")) in
    let client = fill a.oidc_client_id (env (lit "CUEARR_OIDC_CLIENT_ID")) in
    let secret = fill a.oidc_client_secret (env (lit "CUEARR_OIDC_CLIENT_SECRET")) in
    let url = fill a.oidc_redirect_url (env (lit "CUEARR_OIDC_REDIRECT_URL")) in
    let domains =
      fill_list a.oidc_allowed_email_domains (env (lit "CUEARR_OIDC_ALLOWED_EMAIL_DOMAINS")) in
    (
      record {
        password_hash = password.0;
        api_key = key.0;
        oidc_enabled = enabled.0;
        oidc_issuer = issuer.0;
        oidc_client_id = client.0;
        oidc_client_secret = secret.0;
        oidc_redirect_url = url.0;
        oidc_allowed_email_domains = domains.0;
      },
      password.1 || key.1 || enabled.1 || issuer.1 || client.1 || secret.1 || url.1 || domains.1,
    )

module _ (generate : Text → Result Text) (compare : Text → Text → Bool) (marshal : Settings → Text)
    (unmarshal : Text → Result Settings) where
  -- the hash that a missing password takes; none is wanted where one is set or none is given
  abbrev pub first_hash : Text → Text → Result Text
  first_hash (c ∷ old) pw = ok []
  first_hash [] [] = ok []
  first_hash [] (c ∷ pw) = hash_password generate compare (c ∷ pw)

  abbrev stored : Settings → Option Error × SettingsDb → Result (Settings × Bool) × SettingsDb
  stored s (none, db) = (ok (s, true), db)
  stored s (some e, db) = (err (wrapped (lit "put settings") e), db)

  abbrev boot_with :
      (Text → Text) → Settings → SettingsDb → Result Text → Result (Settings × Bool) × SettingsDb
  boot_with env s db (err e) = (err e, db)
  boot_with env s db (ok hash) =
      let (auth, changed) = boot_auth env hash s.auth in
      let s' = record s { auth = auth } in
      let after = stored s' (put_settings marshal unmarshal s' db) in
      if changed then after else (ok (s', false), db)

  abbrev boot_from :
      (Text → Text) → Result Settings × SettingsDb → Result (Settings × Bool) × SettingsDb
  boot_from env (err e, db) = (err (wrapped (lit "get settings") e), db)
  boot_from env (ok s, db) =
      boot_with env s db (first_hash s.auth.password_hash (env (lit "CUEARR_INITIAL_PASSWORD")))

  unfoldable pub bootstrap : (Text → Text) → SettingsDb → Result (Settings × Bool) × SettingsDb
  bootstrap env db = boot_from env (get_settings marshal unmarshal db)

abbrev pub session_secret_len : ℕ
session_secret_len = 32

-- rand.Read into 32 bytes
unfoldable pub new_session_secret : Result Text → Result Text
new_session_secret (err e) = err (wrapped (lit "session secret") e)
new_session_secret (ok secret) = ok secret

abbrev pub write_secret : Text → Result Text → Fs → Result Text × Fs
write_secret path (err e) fs = (err e, fs)
write_secret path (ok secret) fs =
    let (refusal, fs') = write_file path secret fs in
    elim refusal [
      | none ↦ (ok secret, fs')
      | some e ↦ (err (wrapped (lit "write session secret") (message (os_error_text e))), fs')
    ]

abbrev pub secret_of : Text → Result Text → Answer Text → Fs → Result Text × Fs
secret_of path random (found data') fs = (
  if length data' == session_secret_len
      then ok data'
      else err (
          message (
            lit "session secret "
            ++ (path ++ (lit ": want 32 bytes, got " ++ itoa (pos (length data')))))),
  fs,
)
secret_of path random (refused not_exist) fs = write_secret path (new_session_secret random) fs
secret_of path random (refused e) fs =
    (err (wrapped (lit "read session secret") (message (os_error_text e))), fs)

unfoldable pub load_or_create_session_secret : Text → Result Text → Fs → Result Text × Fs
load_or_create_session_secret data_dir random fs =
    let path = join data_dir (lit "session.key") in
    let (answer, fs') = read_file path fs in secret_of path random answer fs'
