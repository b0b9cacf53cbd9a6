-- ===== src/Http/Payload.antt =====
-- internal/adapters/http/handlers.go: what requests and answers say of jobs and settings, and how
-- bodies are read. encoding/json and Time.Format are parameters.
use cuearr.Prelude.{
  ℕ, Text, lit, Bool, not, Option, none, some, List, [], ◌∷◌, if◌then◌else◌, is_nil, ltb, length,
}
use cuearr.Errors.{Result, ok, err}
use cuearr.Settings.{Settings, AuthSettings, PathMapRule}
use cuearr.Job.{Job, JobStatus, JobAttempt, ImportStatus, Time, is_zero}
use cuearr.Job.Retry.{max_attempts}
use cuearr.Store.{import_status_or_none}
use cuearr.Auth.{hash_password}
use cuearr.Http.{Reply, stop, go, ◌>>=◌, ◌>>◌, stop_if}

-- omitted times are empty
pub record JobJson : Type 0 where
  pub id : Text
  pub fingerprint : Text
  pub cue_path : Text
  pub image_path : Text
  pub out_dir : Text
  pub status : JobStatus
  pub engine : Text
  pub log : Text
  pub error : Text
  pub attempt_count : ℕ
  pub attempts : List JobAttempt
  pub created_at : Text
  pub started_at : Text
  pub finished_at : Text
  pub import_status : ImportStatus
  pub import_error : Text
  pub import_requested_at : Text
  pub import_finished_at : Text

-- no list stands for nil
pub record AuthSettingsJson : Type 0 where
  pub password_configured : Bool
  pub api_key_set : Bool
  pub oidc_client_secret_set : Bool
  pub password : Text
  pub api_key : Text
  pub oidc_enabled : Bool
  pub oidc_issuer : Text
  pub oidc_client_id : Text
  pub oidc_client_secret : Text
  pub oidc_redirect_url : Text
  pub oidc_allowed_email_domains : Option (List Text)

pub record SettingsJson : Type 0 where
  pub watch_dirs : List Text
  pub out_dir : Text
  pub in_place : Bool
  pub engine : Text
  pub max_retries : ℕ
  pub lidarr_url : Text
  pub lidarr_api_key : Text
  pub lidarr_api_key_set : Bool
  pub lidarr_import_enabled : Bool
  pub lidarr_path_map : List PathMapRule
  pub lidarr_poll_interval_sec : ℕ
  pub auth : AuthSettingsJson

pub record SettingsPutJson : Type 0 where
  pub watch_dirs : List Text
  pub out_dir : Text
  pub in_place : Bool
  pub engine : Text
  pub max_retries : ℕ
  pub lidarr_url : Text
  pub lidarr_api_key : Text
  pub lidarr_import_enabled : Bool
  pub lidarr_path_map : List PathMapRule
  pub lidarr_poll_interval_sec : ℕ
  pub auth : Option AuthSettingsJson

-- t.UTC().Format(time.RFC3339Nano)
module _ (format_time : Time → Text) where
  abbrev pub time_or_empty : Time → Text
  time_or_empty t = if is_zero t then [] else format_time t

  unfoldable pub job_to_json : Job → JobJson
  job_to_json j = record {
    id = j.id;
    fingerprint = j.fingerprint;
    cue_path = j.cue_path;
    image_path = j.image_path;
    out_dir = j.out_dir;
    status = j.status;
    engine = j.engine;
    log = j.log;
    error = j.error;
    attempt_count = j.attempt_count;
    attempts = j.attempt_log;
    created_at = format_time j.created_at;
    started_at = time_or_empty j.started_at;
    finished_at = time_or_empty j.finished_at;
    import_status = import_status_or_none j.import_status;
    import_error = j.import_error;
    import_requested_at = time_or_empty j.import_requested_at;
    import_finished_at = time_or_empty j.import_finished_at;
  }

abbrev pub nil_or : List Text → Option (List Text)
nil_or [] = none
nil_or (t ∷ ts) = some (t ∷ ts)

unfoldable pub settings_to_json : Settings → SettingsJson
settings_to_json s = record {
  watch_dirs = s.watch_dirs;
  out_dir = s.out_dir;
  in_place = s.in_place;
  engine = s.engine;
  max_retries = max_attempts s.max_retries;
  lidarr_url = s.lidarr_url;
  lidarr_api_key = [];
  lidarr_api_key_set = not (is_nil s.lidarr_api_key);
  lidarr_import_enabled = s.lidarr_import_enabled;
  lidarr_path_map = s.lidarr_path_map;
  lidarr_poll_interval_sec = s.lidarr_poll_interval_sec;
  auth = record {
    password_configured = not (is_nil s.auth.password_hash);
    api_key_set = not (is_nil s.auth.api_key);
    oidc_client_secret_set = not (is_nil s.auth.oidc_client_secret);
    password = [];
    api_key = [];
    oidc_enabled = s.auth.oidc_enabled;
    oidc_issuer = s.auth.oidc_issuer;
    oidc_client_id = s.auth.oidc_client_id;
    oidc_client_secret = [];
    oidc_redirect_url = s.auth.oidc_redirect_url;
    oidc_allowed_email_domains = nil_or s.auth.oidc_allowed_email_domains;
  };
}

-- the new value where it is given
abbrev pub given_or : Text → Text → Text
given_or [] old = old
given_or (c ∷ new) old = c ∷ new

abbrev pub domains_or : Option (List Text) → List Text → List Text
domains_or none old = old
domains_or (some new) old = new

module _ (generate : Text → Result Text) (compare : Text → Text → Bool) where
  abbrev pub merged : AuthSettings → AuthSettingsJson → Text → AuthSettings
  merged existing update hash = record {
    password_hash = hash;
    api_key = given_or update.api_key existing.api_key;
    oidc_enabled = update.oidc_enabled;
    oidc_issuer = update.oidc_issuer;
    oidc_client_id = update.oidc_client_id;
    oidc_client_secret = given_or update.oidc_client_secret existing.oidc_client_secret;
    oidc_redirect_url = update.oidc_redirect_url;
    oidc_allowed_email_domains =
        domains_or update.oidc_allowed_email_domains existing.oidc_allowed_email_domains;
  }

  abbrev pub merged_with : AuthSettings → AuthSettingsJson → Result Text → Result AuthSettings
  merged_with existing update (err e) = err e
  merged_with existing update (ok hash) = ok (merged existing update hash)

  unfoldable pub merge_auth_settings : AuthSettings → AuthSettingsJson → Result AuthSettings
  merge_auth_settings existing update =
      if is_nil update.password
      then ok (merged existing update existing.password_hash)
      else merged_with existing update (hash_password generate compare update.password)

abbrev pub max_request_body : ℕ
max_request_body = 1_048_576

unfoldable pub read_request_body : Text → Reply Text
read_request_body body =
    stop_if (ltb max_request_body (length body)) 413 (lit "request body too large") >> go body

abbrev pub single_value : {A : Type 0} → Option (A × Bool) → Reply A
single_value none = stop 400 (lit "invalid JSON body")
single_value (some (a, only)) = stop_if (not only) 400 (lit "invalid JSON body") >> go a

-- decodeJSON and writeRequestError; the decoder answers a value of the request's struct with known
-- fields only, and whether nothing follows it
unfoldable pub decode_json : {A : Type 0} → (Text → Option (A × Bool)) → Text → Reply A
decode_json decoder body = read_request_body body >>= λ text. single_value (decoder text)
