-- ===== src/Http/Protects.antt =====
-- internal/adapters/http/handlers.go: what the settings handlers leave of the stored settings, and
-- what they show of them.
use mathlib.Core.Path.{subst}
use cuearr.Prelude.{
  Text, lit, text_eq, Bool, ◌||◌, Option, none, some, [], is_nil, ◌≡◌, ◌≢◌, refl, inl, inr,
  Bool-cases, Option-cases, arith,
}
use cuearr.Errors.{Result, ok, err}
use cuearr.Auth.Session.{is_nil-ne}
use cuearr.Settings.{Settings}
use cuearr.Settings.Stored.{
  SettingsDb, get_settings, read_payload, get_answer, fault_of, default_settings,
  default_settings_idem, no_settings, decoded,
}
use cuearr.Http.{Request}
use cuearr.Http.Payload.{settings_to_json}
use cuearr.Http.SettingsHandlers.{handle_put_settings_auth}

-- What an answer says of settings does not depend on their secrets, only on whether these are set.
pub settings_to_json-secrets :
    (s : Settings) (hash api_key client_secret lidarr_api_key : Text)
    → is_nil hash ≡ is_nil s.auth.password_hash
    → is_nil api_key ≡ is_nil s.auth.api_key
    → is_nil client_secret ≡ is_nil s.auth.oidc_client_secret
    → is_nil lidarr_api_key ≡ is_nil s.lidarr_api_key
    → settings_to_json (record s {
      lidarr_api_key = lidarr_api_key;
      auth = record s.auth {
        password_hash = hash;
        api_key = api_key;
        oidc_client_secret = client_secret;
      };
    })
      ≡ settings_to_json s
unfolding settings_to_json
settings_to_json-secrets s hash api_key client_secret lidarr_api_key a b c d = rw (a, b, c, d) refl

module _ (marshal : Settings → Text) (unmarshal : Text → Result Settings) where
  abbrev pub stored_in : SettingsDb → Result Settings
  stored_in db = read_payload marshal unmarshal db.payload

  get_settings-payload :
      (db : SettingsDb) → (get_settings marshal unmarshal db).1.payload ≡ db.payload
  unfolding get_settings
  get_settings-payload db = refl

  default_read : (s t : Settings) → ok (default_settings s) ≡ ok t → default_settings t ≡ t
  default_read s t h =
      let e : default_settings s ≡ t = ground arith in
      subst (λ x. default_settings x ≡ x) e (default_settings_idem marshal unmarshal s)

  decoded-default :
      (r : Result Settings) (s : Settings)
      → decoded marshal unmarshal r ≡ ok s
      → default_settings s ≡ s
  decoded-default (err e) s h = absurd (ground arith)
  decoded-default (ok t) s h = default_read t s h

  -- what is read back is in force as it is
  pub read_payload-default :
      (p : Option Text) (s : Settings)
      → read_payload marshal unmarshal p ≡ ok s
      → default_settings s ≡ s
  read_payload-default none s h = default_read no_settings s h
  read_payload-default (some t) s h = elim (Bool-cases (is_nil t || text_eq t (lit "{}"))) [
    | inl a ↦ default_read no_settings s (rw (a, read_payload) at h)
    | inr a ↦ decoded-default (unmarshal t) s (rw (a, read_payload) at h)
  ]

  module _ (generate : Text → Result Text) (compare : Text → Text → Bool) where
    -- Where a password is set, PUT /api/v1/settings/auth leaves the stored settings as they are,
    -- whatever the request says and whether or not the settings can be read.
    pub handle_put_settings_auth-configured :
        (decoder : Text → Option ((Text × Text) × Bool)) (r : Request) (db : SettingsDb)
        (s : Settings)
        → stored_in db ≡ ok s
        → s.auth.password_hash ≢ []
        → (handle_put_settings_auth marshal unmarshal generate compare decoder r db).1.payload
          ≡ db.payload
    unfolding handle_put_settings_auth get_settings
    handle_put_settings_auth-configured decoder r db s h set =
        elim (Bool-cases (text_eq r.method (lit "PUT"))) [
          | inr a ↦ rw (a, handle_put_settings_auth) refl
          | inl a ↦ elim (Option-cases (fault_of db.faults)) [
            | inr (fault, k) ↦ rw (a, k, handle_put_settings_auth, get_settings, get_answer) refl
            | inl k ↦
                rw
                  (
                    a,
                    k,
                    h,
                    is_nil-ne s.auth.password_hash set,
                    handle_put_settings_auth,
                    get_settings,
                    get_answer,
                  )
                  refl
          ]
        ]
