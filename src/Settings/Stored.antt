-- ===== src/Settings/Stored.antt =====
-- internal/adapters/store/sqlite/sqlite.go, SettingsStore: the settings are the JSON text of one row.
-- encoding/json is a parameter; `faults` says which statements to come fail.
use cuearr.Prelude.{
  Text, lit, text_eq, false, ◌||◌, Option, none, some, List, [], ◌∷◌, if◌then◌else◌, is_nil, ◌≡◌,
  refl, ap, inl, inr, Bool-cases, Option-cases, arith, ltb,
}
use cuearr.Errors.{Error, Result, ok, err, message, wrapped}
use cuearr.Settings.{Settings, AuthSettings}
use cuearr.Job.Retry.{max_attempts}

pub record SettingsDb : Type 0 where
  pub payload : Option Text
  pub faults : List (Option Text)

abbrev pub no_auth : AuthSettings
no_auth = record {
  password_hash = [];
  api_key = [];
  oidc_enabled = false;
  oidc_issuer = [];
  oidc_client_id = [];
  oidc_client_secret = [];
  oidc_redirect_url = [];
  oidc_allowed_email_domains = [];
}

-- domain.Settings{}
abbrev pub no_settings : Settings
no_settings = record {
  watch_dirs = [];
  out_dir = [];
  in_place = false;
  engine = [];
  lidarr_url = [];
  lidarr_api_key = [];
  lidarr_import_enabled = false;
  lidarr_path_map = [];
  lidarr_poll_interval_sec = 0;
  max_retries = 0;
  auth = no_auth;
}

unfoldable pub default_settings : Settings → Settings
default_settings s = record s { max_retries = max_attempts s.max_retries }

abbrev pub fault_of : List (Option Text) → Option Text
fault_of [] = none
fault_of (f ∷ fs) = f

abbrev pub later_faults : List (Option Text) → List (Option Text)
later_faults [] = []
later_faults (f ∷ fs) = fs

module _ (marshal : Settings → Text) (unmarshal : Text → Result Settings) where
  abbrev pub decoded : Result Settings → Result Settings
  decoded (err e) = err (wrapped (lit "decode settings") e)
  decoded (ok s) = ok (default_settings s)

  abbrev pub read_payload : Option Text → Result Settings
  read_payload none = ok (default_settings no_settings)
  read_payload (some t) =
      if is_nil t || text_eq t (lit "{}")
      then ok (default_settings no_settings)
      else decoded (unmarshal t)

  abbrev pub get_answer : Option Text → Option Text → Result Settings
  get_answer (some fault) payload = err (wrapped (lit "get settings") (message fault))
  get_answer none payload = read_payload payload

  unfoldable pub get_settings : SettingsDb → Result Settings × SettingsDb
  get_settings db =
      (get_answer (fault_of db.faults) db.payload, record db { faults = later_faults db.faults })

  abbrev pub put_outcome : Option Text → Settings → SettingsDb → Option Error × SettingsDb
  put_outcome (some fault) s db = (some (wrapped (lit "put settings") (message fault)), db)
  put_outcome none s db = (none, record db { payload = some (marshal (default_settings s)) })

  unfoldable pub put_settings : Settings → SettingsDb → Option Error × SettingsDb
  put_settings s db =
      put_outcome (fault_of db.faults) s (record db { faults = later_faults db.faults })

  -- what encoding/json gives: a struct's text is read back, and is neither empty nor "{}"
  pub record Faithful : Type 0 where
    pub back : (s : Settings) → unmarshal (marshal s) ≡ ok s
    pub written : (s : Settings) → is_nil (marshal s) || text_eq (marshal s) (lit "{}") ≡ false

  pub default_settings_idem :
      (s : Settings) → default_settings (default_settings s) ≡ default_settings s
  unfolding default_settings max_attempts
  default_settings_idem s = elim (Bool-cases (ltb s.max_retries 1)) [
    | inl h ↦ rw h refl
    | inr h ↦ rw (h, h) refl
  ]

  -- Settings that are put are read back with the number of attempts that is in force.
  pub get_settings-put_settings :
      (f : Faithful) (s : Settings) (db : SettingsDb)
      → fault_of (later_faults db.faults) ≡ none
      → (put_settings s db).0 ≡ none
      → (get_settings (put_settings s db).1).0 ≡ ok (default_settings s)
  unfolding get_settings put_settings
  get_settings-put_settings f s db later done = elim (Option-cases (fault_of db.faults)) [
    | inr (fault, k) ↦ absurd (ground arith)
    | inl k ↦
        rw
          (
            k,
            later,
            get_answer,
            put_outcome,
            f.written (default_settings s),
            f.back (default_settings s),
          )
          (ap (λ t. ok t) (default_settings_idem s))
  ]
