-- ===== src/Http/Diagnostics.antt =====
-- internal/adapters/http/diagnostics.go: the export for bug reports. url.Parse and utf8.ValidString
-- are parameters; the probes' goroutines and the log are not modelled.
use cuearr.Prelude.{
  ℕ, zero, suc, ◌-◌, Text, lit, Bool, true, false, not, Option, none, some, List, [], ◌∷◌, ◌++◌,
  map, if◌then◌else◌, is_nil, leb, length, take, cut_prefix,
}
use cuearr.Errors.{Result, ok, err, error_text}
use cuearr.Settings.{Settings, AuthSettings}
use cuearr.Settings.Stored.{SettingsDb, get_settings}
use cuearr.Job.{Job, JobStatus}
use cuearr.Job.Retry.{max_attempts}
use cuearr.Store.{Db, list}
use cuearr.Filepath.{base, dir}
use cuearr.Http.{Response}

pub record DiagnosticsAuthJson : Type 0 where
  pub password_configured : Bool
  pub api_key_set : Bool
  pub oidc_enabled : Bool

pub record DiagnosticsToolJson : Type 0 where
  pub available : Bool
  pub error : Text

pub record DiagnosticsJobJson : Type 0 where
  pub id : Text
  pub status : JobStatus
  pub album_label : Text
  pub cue_file : Text
  pub image_file : Text
  pub log : Text
  pub error : Text
  pub attempt_count : ℕ

-- the tools are shntool and metaflac
pub record DiagnosticsJson : Type 0 where
  pub version : Text
  pub engine : Text
  pub watch_dirs : List Text
  pub out_dir : Text
  pub in_place : Bool
  pub max_retries : ℕ
  pub lidarr_import_enabled : Bool
  pub lidarr_host : Text
  pub auth : DiagnosticsAuthJson
  pub shntool : DiagnosticsToolJson
  pub metaflac : DiagnosticsToolJson
  pub jobs : List DiagnosticsJobJson

-- strings.ReplaceAll with a text that is not empty; the first number counts bytes of a match to skip
unfoldable pub replace_from : Text → Text → ℕ → Text → Text
replace_from old new skip [] = []
replace_from old new (suc skip) (c ∷ s) = replace_from old new skip s
replace_from old new zero (c ∷ s) =
    let matched = new ++ replace_from old new (length old - 1) s in
    let other = c ∷ replace_from old new zero s in
    elim (cut_prefix old (c ∷ s)) [ some rest ↦ matched | none ↦ other ]

abbrev pub replace_all : Text → Text → Text → Text
replace_all s old new = replace_from old new zero s

abbrev pub redact_each : List Text → Text → Text
redact_each [] text = text
redact_each (secret ∷ secrets) text =
    redact_each secrets (if is_nil secret then text else replace_all text secret (lit "[redacted]"))

unfoldable pub redact_known_secrets : Text → AuthSettings → List Text → Text
redact_known_secrets text auth extra =
    redact_each (auth.password_hash ∷ auth.api_key ∷ auth.oidc_client_secret ∷ extra) text

abbrev pub shorten_each : List Text → Text → Text
shorten_each [] text = text
shorten_each (path ∷ paths) text =
    shorten_each paths (if is_nil path then text else replace_all text path (base path))

unfoldable pub redact_job_text : Text → Job → AuthSettings → List Text → Text
redact_job_text text job auth extra =
    shorten_each (job.cue_path ∷ job.image_path ∷ job.out_dir ∷ [])
      (redact_known_secrets text auth extra)

unfoldable pub album_label : Job → Text
album_label job =
    let path = if is_nil job.cue_path then job.image_path else job.cue_path in
    if is_nil path then [] else base (dir path)

abbrev pub diagnostics_job_limit : ℕ
diagnostics_job_limit = 20

abbrev pub diagnostics_log_limit : ℕ
diagnostics_log_limit = 2_048

abbrev pub probed : AuthSettings → Option (Result (Unit {0})) → DiagnosticsToolJson
probed auth none = record { available = false; error = lit "probe not configured" }
probed auth (some (ok u)) = record { available = true; error = [] }
probed auth (some (err e)) = record {
  available = false;
  error = redact_known_secrets (error_text e) auth [];
}

pub data DiagnosticsBody : Type 0 where
  failed : Text → DiagnosticsBody
  exported : DiagnosticsJson → DiagnosticsBody

abbrev pub answer_with : ℕ → DiagnosticsBody → Response DiagnosticsBody
answer_with status body = record { status = status; body = body; cookies = []; location = [] }

module _ (valid : Text → Bool) where
  -- the loop that takes the last byte away while what is left is no UTF-8
  unfoldable pub valid_prefix : ℕ → Text → Text
  valid_prefix zero text = []
  valid_prefix (suc n) text =
      let shorter = valid_prefix n text in
      if valid (take (suc n) text) then take (suc n) text else shorter

  unfoldable pub truncate_utf8 : Text → ℕ → Text
  truncate_utf8 text limit = if leb (length text) limit then text else valid_prefix limit text

  unfoldable pub diagnostics_job_to_json : Job → AuthSettings → Text → DiagnosticsJobJson
  diagnostics_job_to_json job auth lidarr_api_key = record {
    id = job.id;
    status = job.status;
    album_label = album_label job;
    cue_file = base job.cue_path;
    image_file = base job.image_path;
    log =
        truncate_utf8 (redact_job_text job.log job auth (lidarr_api_key ∷ []))
          diagnostics_log_limit;
    error = redact_job_text job.error job auth (lidarr_api_key ∷ []);
    attempt_count = job.attempt_count;
  }

  -- url.Parse with the host of its answer; Deps.RuntimeSettings, Engine, WatchDirs, Version and what
  -- the probes answer
  module _ (host_of : Text → Option Text) (runtime_settings : Option Settings) (engine : Text)
      (watch_dirs : List Text) (version : Text) (shntool metaflac : Option (Result (Unit {0})))
      (marshal : Settings → Text) (unmarshal : Text → Result Settings) where
    unfoldable pub redacted_lidarr_host : Text → Text
    redacted_lidarr_host url = elim (host_of url) [ none ↦ [] | some host ↦ host ]

    abbrev pub in_force : Settings → Settings
    in_force stored =
        let s = elim runtime_settings as (λ _. Settings) [
          | none ↦ stored
          | some runtime ↦ record runtime { auth = stored.auth }
        ] in
        record s {
          engine = if is_nil s.engine then engine else s.engine;
          watch_dirs = if is_nil s.watch_dirs then watch_dirs else s.watch_dirs;
        }

    abbrev pub export : Settings → List Job → DiagnosticsJson
    export s jobs = record {
      version = version;
      engine = s.engine;
      watch_dirs = s.watch_dirs;
      out_dir = s.out_dir;
      in_place = s.in_place;
      max_retries = max_attempts s.max_retries;
      lidarr_import_enabled = s.lidarr_import_enabled;
      lidarr_host = redacted_lidarr_host s.lidarr_url;
      auth = record {
        password_configured = not (is_nil s.auth.password_hash);
        api_key_set = not (is_nil s.auth.api_key);
        oidc_enabled = s.auth.oidc_enabled;
      };
      shntool = probed s.auth shntool;
      metaflac = probed s.auth metaflac;
      jobs = map (λ job. diagnostics_job_to_json job s.auth s.lidarr_api_key) jobs;
    }

    abbrev exported_with : Settings → Result (List Job) → Response DiagnosticsBody
    exported_with s (err e) = answer_with 500 (failed (lit "load diagnostics jobs"))
    exported_with s (ok jobs) = answer_with 200 (exported (export s jobs))

    abbrev diagnosed :
        Result Settings → SettingsDb → Db → Response DiagnosticsBody × (SettingsDb × Db)
    diagnosed (err e) sdb db =
        (answer_with 500 (failed (lit "load diagnostics settings")), (sdb, db))
    diagnosed (ok stored) sdb db =
        let (jobs, db') = list diagnostics_job_limit db in
        (exported_with (in_force stored) jobs, (sdb, db'))

    unfoldable pub handle_diagnostics :
        SettingsDb → Db → Response DiagnosticsBody × (SettingsDb × Db)
    handle_diagnostics sdb db =
        let (found, sdb') = get_settings marshal unmarshal sdb in diagnosed found sdb' db
