-- ===== src/Http/SettingsHandlers.antt =====
-- internal/adapters/http/handlers.go: settings and logins. The parameters are those of the settings
-- store, bcrypt, the JSON decoders and Deps.ApplySettings; none stands for a nil function.
use cuearr.Prelude.{
  Text, lit, text_eq, Bool, not, ◌&&◌, Option, none, some, List, [], ◌∷◌, if◌then◌else◌, is_nil,
}
use cuearr.Errors.{Error, Result, ok, err, error_text}
use cuearr.Settings.{Settings, AuthSettings}
use cuearr.Settings.Stored.{SettingsDb, get_settings, put_settings}
use cuearr.Job.{Time}
use cuearr.Job.Retry.{max_attempts}
use cuearr.Auth.{hash_password, check_password, new_session_cookie, clear_session_cookie}
use cuearr.Auth.Oidc.{seven_days}
use cuearr.Http.{Cookie, Request, Response, Reply, stop, go, ◌>>=◌, ◌>>◌, stop_if, method_is, need}
use cuearr.Http.Payload.{
  SettingsPutJson, AuthSettingsJson, settings_to_json, merge_auth_settings, given_or, decode_json,
}
use cuearr.Http.Handlers.{
  Body, settings_body, ok_body, write_json, write_error, answered, server_error,
}

abbrev set_cookie : Cookie → Response Body → Response Body
set_cookie c answer = record answer { cookies = c ∷ [] }

unfoldable pub handle_logout : Bool → Request → Response Body
handle_logout cookie_secure r =
    answered (method_is (lit "POST") r.method)
      (λ u. set_cookie (clear_session_cookie (some cookie_secure)) (write_json 200 ok_body))

-- the settings of the body, with the secrets that it leaves out
abbrev pub put_of : SettingsPutJson → Settings → AuthSettings → Settings
put_of body existing auth = record {
  watch_dirs = body.watch_dirs;
  out_dir = body.out_dir;
  in_place = body.in_place;
  engine = body.engine;
  lidarr_url = body.lidarr_url;
  lidarr_api_key = given_or body.lidarr_api_key existing.lidarr_api_key;
  lidarr_import_enabled = body.lidarr_import_enabled;
  lidarr_path_map = body.lidarr_path_map;
  lidarr_poll_interval_sec = body.lidarr_poll_interval_sec;
  max_retries = max_attempts body.max_retries;
  auth = auth;
}

module _ (marshal : Settings → Text) (unmarshal : Text → Result Settings) where
  abbrev stored_answer : Reply Settings → Response Body
  stored_answer found = answered found (λ s. write_json 200 (settings_body (settings_to_json s)))

  -- the engine and the watched directories of the process, where the settings have none
  abbrev or_engine : Text → Settings → Settings
  or_engine engine s =
      if is_nil s.engine && not (is_nil engine) then record s { engine = engine } else s

  abbrev or_watch_dirs : List Text → Settings → Settings
  or_watch_dirs dirs s =
      if is_nil s.watch_dirs && not (is_nil dirs) then record s { watch_dirs = dirs } else s

  unfoldable pub handle_get_settings :
      Text → List Text → Request → SettingsDb → Response Body × SettingsDb
  handle_get_settings engine dirs r db = elim (method_is (lit "GET") r.method) [
    | stop status what ↦ (write_error status what, db)
    | go u ↦
        let (found, db') = get_settings marshal unmarshal db in
        (
          stored_answer
              (need found server_error >>= λ s. go (or_watch_dirs dirs (or_engine engine s))),
          db',
        )
  ]

  -- bcrypt, and the decoders of the bodies
  module _ (generate : Text → Result Text) (compare : Text → Text → Bool) where
    abbrev pub auth_of : Settings → Option AuthSettingsJson → Result AuthSettings
    auth_of existing none = ok existing.auth
    auth_of existing (some update) = merge_auth_settings generate compare existing.auth update

    abbrev pub put_checks :
        (Text → Option (SettingsPutJson × Bool)) → Request → Reply SettingsPutJson
    put_checks decoder r = do
      method_is (lit "PUT") r.method
      body ← decode_json decoder r.body
      stop_if (text_eq body.engine (lit "native")) 400
          (lit "native engine is not supported; use shntool")
      go body

    abbrev pub applied : Option (Settings → Option Error) → Settings → Option Error
    applied none s = none
    applied (some apply) s = apply s

    -- after the settings are stored: they are applied, or the existing ones are stored again
    abbrev pub apply_or_restore :
        Settings → Settings → Option Error → SettingsDb → Response Body × SettingsDb
    apply_or_restore existing s none db = (write_json 200 (settings_body (settings_to_json s)), db)
    apply_or_restore existing s (some e) db =
        (write_error 400 (error_text e), (put_settings marshal unmarshal existing db).1)

    abbrev pub store_and_apply :
        Option (Settings → Option Error)
        → Settings
        → Settings
        → Option Error × SettingsDb
        → Response Body × SettingsDb
    store_and_apply apply existing s (some e, db) = (write_error 500 (error_text e), db)
    store_and_apply apply existing s (none, db) = apply_or_restore existing s (applied apply s) db

    -- with the settings that are stored
    abbrev pub put_over :
        Option (Settings → Option Error)
        → SettingsPutJson
        → Reply Settings
        → SettingsDb
        → Response Body × SettingsDb
    put_over apply body (stop status what) db = (write_error status what, db)
    put_over apply body (go existing) db = elim (auth_of existing body.auth) [
      | err e ↦ (write_error 500 (error_text e), db)
      | ok auth ↦
          let s = put_of body existing auth in
          store_and_apply apply existing s (put_settings marshal unmarshal s db)
    ]

    unfoldable pub handle_put_settings :
        (Text → Option (SettingsPutJson × Bool))
        → Option (Settings → Option Error)
        → Request
        → SettingsDb
        → Response Body × SettingsDb
    handle_put_settings decoder apply r db = elim (put_checks decoder r) [
      | stop status what ↦ (write_error status what, db)
      | go body ↦
          let (found, db') = get_settings marshal unmarshal db in
          put_over apply body (need found server_error) db'
    ]

    -- the password and the API key of the body, where no password is set yet
    abbrev pub first_auth : Text × Text → Settings → Text → Settings
    first_auth given s hash = record s {
      auth = record s.auth { password_hash = hash; api_key = given_or given.1 s.auth.api_key };
    }

    abbrev pub auth_checks :
        (Text → Option ((Text × Text) × Bool)) → Request → Settings → Reply Settings
    auth_checks decoder r s = do
      stop_if (not (is_nil s.auth.password_hash)) 403 (lit "auth already configured")
      given ← decode_json decoder r.body
      stop_if (is_nil given.0) 400 (lit "password is required")
      hash ← need (hash_password generate compare given.0) server_error
      go (first_auth given s hash)

    abbrev stored : Option Error × SettingsDb → Response Body × SettingsDb
    stored (none, db) = (write_json 200 ok_body, db)
    stored (some e, db) = (write_error 500 (error_text e), db)

    abbrev pub put_auth_with : Reply Settings → SettingsDb → Response Body × SettingsDb
    put_auth_with (stop status what) db = (write_error status what, db)
    put_auth_with (go s) db = stored (put_settings marshal unmarshal s db)

    -- the decoder answers the password and the API key
    unfoldable pub handle_put_settings_auth :
        (Text → Option ((Text × Text) × Bool)) → Request → SettingsDb → Response Body × SettingsDb
    handle_put_settings_auth decoder r db = elim (method_is (lit "PUT") r.method) [
      | stop status what ↦ (write_error status what, db)
      | go u ↦
          let (found, db') = get_settings marshal unmarshal db in
          put_auth_with (need found server_error >>= auth_checks decoder r) db'
    ]

    module _ (signature : Text → Text → Text) where
      abbrev pub login_checks : Text → Time → Bool → Text → Settings → Reply Cookie
      login_checks secret now cookie_secure password s = do
        stop_if (is_nil s.auth.password_hash) 401 (lit "password not configured")
        stop_if (not (check_password generate compare s.auth.password_hash password)) 401
            (lit "invalid credentials")
        need (new_session_cookie signature secret now seven_days (some cookie_secure))
            (λ e. (500, lit "session error"))

      unfoldable pub handle_login :
          (Text → Option (Text × Bool))
          → Text
          → Time
          → Bool
          → Request
          → SettingsDb
          → Response Body × SettingsDb
      handle_login decoder secret now cookie_secure r db =
          elim (method_is (lit "POST") r.method >> decode_json decoder r.body) [
            | stop status what ↦ (write_error status what, db)
            | go password ↦
                let (found, db') = get_settings marshal unmarshal db in
                let session =
                  need found server_error >>= login_checks secret now cookie_secure password in
                (answered session (λ c. set_cookie c (write_json 200 ok_body)), db')
          ]
