-- ===== src/Http/PutSettings.antt =====
-- internal/adapters/http/handlers.go: a PUT of the settings takes place as a whole or not at all.
use cuearr.Prelude.{
  ℕ, Text, Bool, Option, none, some, ltb, ◌≡◌, ◌⊎◌, refl, sym, ap, ◌∙◌, inl, inr, Bool-cases,
  Option-cases, arith,
}
use cuearr.Errors.{Error, Result, ok, Result-cases}
use cuearr.Settings.{Settings, AuthSettings}
use cuearr.Settings.Stored.{
  SettingsDb, get_settings, put_settings, read_payload, get_answer, put_outcome, fault_of,
  later_faults, default_settings, Faithful,
}
use cuearr.Job.Retry.{max_attempts}
use cuearr.Http.{Request, Response, Reply, go, Reply-cases}
use cuearr.Http.Payload.{SettingsPutJson, settings_to_json}
use cuearr.Http.Handlers.{Body, write_json, write_error, settings_body}
use cuearr.Http.SettingsHandlers.{
  handle_put_settings, put_of, auth_of, put_checks, put_over, store_and_apply, applied,
}
use cuearr.Http.Protects.{stored_in, read_payload-default}

put_of-default :
    (body : SettingsPutJson) (existing : Settings) (auth : AuthSettings)
    → default_settings (put_of body existing auth) ≡ put_of body existing auth
unfolding default_settings max_attempts
put_of-default body existing auth = elim (Bool-cases (ltb body.max_retries 1)) [
  | inl h ↦ rw h refl
  | inr h ↦ rw (h, h) refl
]

module _ (marshal : Settings → Text) (unmarshal : Text → Result Settings)
    (f : Faithful marshal unmarshal) where
  abbrev stored : SettingsDb → Result Settings
  stored = stored_in marshal unmarshal

  read-marshal :
      (s : Settings)
      → default_settings s ≡ s
      → read_payload marshal unmarshal (some (marshal (default_settings s))) ≡ ok s
  read-marshal s d = rw (d, f.written s, f.back s) (ap (λ t. ok t) d)

  stored-put :
      (s : Settings) (db : SettingsDb)
      → default_settings s ≡ s
      → fault_of db.faults ≡ none
      → stored (put_settings marshal unmarshal s db).1 ≡ ok s
  unfolding put_settings
  stored-put s db d k = rw (k, put_outcome) (read-marshal s d)

  stored_got :
      (db : SettingsDb) (s : Settings)
      → (get_settings marshal unmarshal db).0 ≡ ok s
      → stored db ≡ ok s
  unfolding get_settings
  stored_got db s h = elim (Option-cases (fault_of db.faults)) [
    | inl k ↦ rw (k, get_answer) at h
    | inr (fault, k) ↦ absurd (ground arith)
  ]

  module _ (generate : Text → Result Text) (compare : Text → Text → Bool) where
    -- The settings of the body are stored, with the secrets that it leaves out, or an error is
    -- answered and the stored settings are those of before.
    abbrev pub Outcome : Reply SettingsPutJson → SettingsDb → Response Body × SettingsDb → Type 0
    Outcome checks db after =
        ((body : SettingsPutJson) × (existing : Settings) × (auth : AuthSettings) × (checks
            ≡ go body)
          × (stored db ≡ ok existing)
          × (auth_of marshal unmarshal generate compare existing body.auth ≡ ok auth)
          × (after.0
              ≡ write_json 200 (settings_body (settings_to_json (put_of body existing auth))))
          × (stored after.1 ≡ ok (put_of body existing auth)))
        ⊎ ((status : ℕ) × (what : Text) × (after.0 ≡ write_error status what)
            × (stored after.1 ≡ stored db))

    -- the settings are stored, and then applied or restored
    stored-Outcome :
        (apply : Option (Settings → Option Error)) (checks : Reply SettingsPutJson)
        (body : SettingsPutJson) (existing : Settings) (auth : AuthSettings) (db db' : SettingsDb)
        → checks ≡ go body
        → stored db ≡ ok existing
        → auth_of marshal unmarshal generate compare existing body.auth ≡ ok auth
        → db'.payload ≡ db.payload
        → fault_of (later_faults db'.faults) ≡ none
        → let s = put_of body existing auth in
          Outcome checks db (
            store_and_apply marshal unmarshal generate compare apply existing s
              (put_settings marshal unmarshal s db'))
    unfolding put_settings
    stored-Outcome apply checks body existing auth db db' c h a same last =
        let s = put_of body existing auth in
        elim (Option-cases (fault_of db'.faults)) [
          | inr (fault, k) ↦
              rw (k, put_outcome) (inr (_, _, refl, ap (read_payload marshal unmarshal) same))
          | inl k ↦ elim (Option-cases (applied marshal unmarshal generate compare apply s)) [
            | inl l ↦
                rw (k, l, put_outcome)
                  (inl (
                    body,
                    existing,
                    auth,
                    c,
                    h,
                    a,
                    refl,
                    read-marshal s (put_of-default body existing auth),
                  ))
            | inr (e, l) ↦
                rw (k, l, put_outcome)
                  (inr (
                    _,
                    _,
                    refl,
                    stored-put existing
                          (record {
                            payload = some (marshal (default_settings s));
                            faults = later_faults db'.faults;
                          })
                          (read_payload-default marshal unmarshal db.payload existing h) last
                        ∙ sym h,
                  ))
          ]
        ]

    -- A PUT of the settings stores all that its body gives, and keeps the secrets that it leaves out;
    -- where it is answered with an error, also one of applying the settings, those of before are
    -- stored. The statement that stores them again, the third of the request, does not fail.
    pub handle_put_settings-Outcome :
        (decoder : Text → Option (SettingsPutJson × Bool))
        (apply : Option (Settings → Option Error)) (r : Request) (db : SettingsDb)
        → fault_of (later_faults (later_faults db.faults)) ≡ none
        → Outcome
            (put_checks marshal unmarshal generate compare decoder r)
            db
            (handle_put_settings marshal unmarshal generate compare decoder apply r db)
    unfolding handle_put_settings get_settings
    handle_put_settings-Outcome decoder apply r db last =
        let checks = put_checks marshal unmarshal generate compare decoder r in
        elim (Reply-cases checks) [
          | inr (status, what, a) ↦ rw (a, handle_put_settings) (inr (status, what, refl, refl))
          | inl (body, a) ↦ elim (Result-cases (get_settings marshal unmarshal db).0) [
            | inr (e, b) ↦ rw (a, b, handle_put_settings) (inr (_, _, refl, refl))
            | inl (existing, b) ↦
                elim (Result-cases
                  (auth_of marshal unmarshal generate compare existing body.auth)) [
                    | inr (e, c) ↦
                        rw (a, b, c, handle_put_settings, put_over) (inr (_, _, refl, refl))
                    | inl (auth, c) ↦
                        rw (a, b, c, handle_put_settings, put_over)
                          (stored-Outcome apply (go body) body existing auth db
                            (get_settings marshal unmarshal db).1 refl (stored_got db existing b) c
                            refl last)
                  ]
          ]
        ]
