-- ===== src/Lidarr.antt =====
-- internal/adapters/lidarr/client.go: requests to Lidarr. net/http, with the request that it refuses
-- to build, and encoding/json are parameters; times and the log are not modelled.
use cuearr.Prelude.{
  ℕ, Text, lit, Bool, true, false, ◌||◌, Option, none, some, List, ◌++◌, if◌then◌else◌, is_nil, ltb,
  leb, take, trim_right, trim_space, ◌==◌,
}
use cuearr.Prelude.Int.{pos}
use cuearr.Strconv.{itoa}
use cuearr.Errors.{Error, Result, ok, err, message, wrapped}
use cuearr.Settings.{PathMapRule, map_lidarr_path}
use cuearr.Http.Diagnostics.{replace_all}

pub record Client : Type 0 where
  pub base_url : Text
  pub api_key : Text
  pub path_map : List PathMapRule

pub record LidarrRequest : Type 0 where
  pub method : Text
  pub url : Text
  pub body : Option Text
  pub api_key : Text
  pub is_json : Bool

-- the status, and the body or the error of reading it
pub record LidarrResponse : Type 0 where
  pub status : ℕ
  pub body : Result Text

abbrev pub response_snippet_limit : ℕ
response_snippet_limit = 4_096

unfoldable pub sanitize : Client → Text → Text
sanitize c value =
    if is_nil c.api_key then value else replace_all value c.api_key (lit "[REDACTED]")

unfoldable pub request_to : Client → Text → Text → Option Text → LidarrRequest
request_to c method endpoint body = record {
  method = method;
  url = trim_right (λ b. b == b'/') c.base_url ++ endpoint;
  body = body;
  api_key = c.api_key;
  is_json = elim body [ none ↦ false | some _ ↦ true ];
}

abbrev pub returned : ℕ → Text
returned status = lit "Lidarr returned HTTP " ++ itoa (pos status)

abbrev pub rejection : Client → ℕ → Result Text → Error
rejection c status (err e) = wrapped (returned status ++ lit "; read response") e
rejection c status (ok body) =
    message
      (returned status ++ (lit ": " ++ sanitize c (trim_space (take response_snippet_limit body))))

abbrev pub outcome_of : Client → Result LidarrResponse → Option Error
outcome_of c (err e) = some (wrapped (lit "send Lidarr request") e)
outcome_of c (ok response) =
    if ltb response.status 200 || leb 300 response.status
    then some (rejection c response.status response.body)
    else none

module _ {S : Type 0} (build : LidarrRequest → Option Error)
    (send : LidarrRequest → S → Result LidarrResponse × S) where
  unfoldable pub do_request : Client → Text → Text → Option Text → S → Option Error × S
  do_request c method endpoint body s =
      let request = request_to c method endpoint body in
      let (response, s') = send request s in
      elim (build request) [
        | some e ↦ (some (wrapped (lit "build Lidarr request") e), s)
        | none ↦ (outcome_of c response, s')
      ]

  unfoldable pub ping : Client → S → Option Error × S
  ping c = do_request c (lit "GET") (lit "/api/v1/system/status") none

  -- with the JSON of a command's name and path
  unfoldable pub request_import : (Text → Text → Text) → Client → Text → S → Option Error × S
  request_import encode c album_path =
      do_request c (lit "POST") (lit "/api/v1/command")
        (some (encode (lit "DownloadedAlbumsScan") (map_lidarr_path album_path c.path_map)))
