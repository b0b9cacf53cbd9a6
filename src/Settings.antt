-- ===== src/Settings.antt =====
-- internal/domain/settings.go: the daemon's settings and the mapping of paths for Lidarr.
-- MaxRetries and LidarrPollIntervalSec below zero are 0 here: every use of them tests `< 1` or `<= 0`.
pub mod PathMap
pub mod Stored
use cuearr.Prelude.{
  ℕ, Text, Bool, ◌||◌, Option, none, some, List, [], ◌∷◌, ◌++◌, if◌then◌else◌, ◌==◌, is_nil,
  cut_prefix, trim_right,
}

pub record AuthSettings : Type 0 where
  pub password_hash : Text
  pub api_key : Text
  pub oidc_enabled : Bool
  pub oidc_issuer : Text
  pub oidc_client_id : Text
  pub oidc_client_secret : Text
  pub oidc_redirect_url : Text
  pub oidc_allowed_email_domains : List Text

pub record PathMapRule : Type 0 where
  pub from : Text
  pub to : Text

pub record Settings : Type 0 where
  pub watch_dirs : List Text
  pub out_dir : Text
  pub in_place : Bool
  pub engine : Text
  pub lidarr_url : Text
  pub lidarr_api_key : Text
  pub lidarr_import_enabled : Bool
  pub lidarr_path_map : List PathMapRule
  pub lidarr_poll_interval_sec : ℕ
  pub max_retries : ℕ
  pub auth : AuthSettings

abbrev pub is_separator : ℕ → Bool
is_separator c = c == b'/' || c == b'\\'

-- what a rule makes of the text behind its prefix: nothing where that goes on in the same element
abbrev pub map_rest : PathMapRule → Text → Option Text
map_rest rule [] = some rule.to
map_rest rule (c ∷ rest) =
    if is_separator c then some (trim_right is_separator rule.to ++ (c ∷ rest)) else none

abbrev pub after_prefix : PathMapRule → Option Text → Option Text
after_prefix rule none = none
after_prefix rule (some rest) = map_rest rule rest

-- one round of the loop: the path that it returns, if it does
unfoldable pub apply_rule : PathMapRule → Text → Option Text
apply_rule rule path =
    if is_nil rule.from
    then none
    else after_prefix rule (cut_prefix (trim_right is_separator rule.from) path)

abbrev or_else : Option Text → Text → Text
or_else none later = later
or_else (some t) later = t

unfoldable pub map_lidarr_path : Text → List PathMapRule → Text
map_lidarr_path path [] = path
map_lidarr_path path (rule ∷ rules) = or_else (apply_rule rule path) (map_lidarr_path path rules)
