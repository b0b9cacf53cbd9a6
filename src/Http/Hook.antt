-- ===== src/Http/Hook.antt =====
-- internal/adapters/http/lidarr.go: the hook that Lidarr calls, and the directory that it names.
-- encoding/json is a parameter: an object's members as JSON texts, and a text as a string, as a list
-- of strings, or as a list of objects with a path.
use cuearr.Prelude.{
  ℕ, Text, lit, text_eq, Bool, true, false, ◌||◌, Option, none, some, List, [], ◌∷◌, if◌then◌else◌,
  is_nil, trim_space, split, ◌==◌,
}
use cuearr.Errors.{Error, Result, ok, err, message, error_text, is_err_image_not_found}
use cuearr.Filepath.{clean, dir, ext}
use cuearr.Fs.{Fs, Answer, found, refused, not_exist, Node, directory, file, stat_node}
use cuearr.Fs.Acts.{os_error_text}
use cuearr.Job.{Job}
use cuearr.Http.{Request, Response, Reply, stop, go, ◌>>=◌, ◌>>◌, method_is, need}
use cuearr.Http.Payload.{read_request_body}
use cuearr.Http.Handlers.{Body, ok_body, hook_body, write_json, write_error, answered}

abbrev pub lidarr_path_top_level_keys : List Text
lidarr_path_top_level_keys =
    lit "path"
    ∷ lit "DownloadPath"
    ∷ lit "DownloadFolder"
    ∷ lit "lidarr_trackfile_path"
    ∷ lit "lidarr_release_path"
    ∷ lit "Lidarr_AddedTrackPaths"
    ∷ []

abbrev pub lidarr_path_nested_keys : List Text
lidarr_path_nested_keys =
    lit "DownloadPath"
    ∷ lit "DownloadFolder"
    ∷ lit "path"
    ∷ lit "Lidarr_AddedTrackPaths"
    ∷ lit "lidarr_trackfile_path"
    ∷ lit "lidarr_release_path"
    ∷ []

abbrev pub contains : ℕ → Text → Bool
contains sep [] = false
contains sep (c ∷ s) = let rest = contains sep s in if c == sep then true else rest

unfoldable pub split_added_track_paths : Text → List Text
split_added_track_paths raw =
    if contains b'|' raw
    then split b'|' raw
    else if contains b';' raw
    then split b';' raw
    else if contains 10 raw
    then split 10 raw
    else raw ∷ []

abbrev pub first_word : List Text → Text
first_word [] = []
first_word (p ∷ ps) =
    let rest = first_word ps in let path = trim_space p in if is_nil path then rest else path

-- the first text that is not empty
abbrev pub or_else : Text → Text → Text
or_else [] later = later
or_else (c ∷ s) later = c ∷ s

abbrev pub member : List (Text × Text) → Text → Option Text
member [] key = none
member ((k, v) ∷ rest) key = let later = member rest key in if text_eq k key then some v else later

module _ (object_of : Text → Option (List (Text × Text))) (string_of : Text → Option Text)
    (strings_of : Text → Option (List Text)) (paths_of : Text → Option (List Text)) where
  abbrev or_empty : Option Text → Text
  or_empty none = []
  or_empty (some s) = s

  abbrev read_string : Option Text → Text
  read_string none = []
  read_string (some raw) = or_empty (string_of raw)

  unfoldable pub json_string_field : List (Text × Text) → Text → Text
  json_string_field obj key = read_string (member obj key)

  abbrev list_or_parts : Text → Option (List Text) → Text
  list_or_parts raw none = first_word (split_added_track_paths raw)
  list_or_parts raw (some paths) = first_word paths

  abbrev trimmed_paths : Text → Text
  trimmed_paths [] = []
  trimmed_paths (c ∷ raw) =
      if c == b'['
      then list_or_parts (c ∷ raw) (strings_of (c ∷ raw))
      else first_word (split_added_track_paths (c ∷ raw))

  unfoldable pub first_path_from_added_track_paths : Text → Text
  first_path_from_added_track_paths raw = trimmed_paths (trim_space raw)

  unfoldable pub lidarr_path_from_string_field : List (Text × Text) → Text → Text
  lidarr_path_from_string_field obj key =
      let s = json_string_field obj key in
      if is_nil s
      then []
      else if text_eq key (lit "Lidarr_AddedTrackPaths")
      then first_path_from_added_track_paths s
      else s

  abbrev first_field : List (Text × Text) → List Text → Text
  first_field obj [] = []
  first_field obj (key ∷ keys) =
      or_else (lidarr_path_from_string_field obj key) (first_field obj keys)

  abbrev nested_fields : Option (List (Text × Text)) → Text
  nested_fields none = []
  nested_fields (some nested) = first_field nested lidarr_path_nested_keys

  abbrev nested_in : Option Text → Text
  nested_in none = []
  nested_in (some raw) = nested_fields (object_of raw)

  unfoldable pub nested_lidarr_path_field : List (Text × Text) → Text → Text
  nested_lidarr_path_field obj key = nested_in (member obj key)

  abbrev first_of : Option (List Text) → Text
  first_of none = []
  first_of (some []) = []
  first_of (some (p ∷ ps)) = p

  abbrev first_in : Option Text → Text
  first_in none = []
  first_in (some raw) = first_of (paths_of raw)

  unfoldable pub json_track_files_first_path : List (Text × Text) → Text
  json_track_files_first_path obj = first_in (member obj (lit "trackFiles"))

  abbrev path_in : List (Text × Text) → Text
  path_in top = or_else (first_field top lidarr_path_top_level_keys) (
      or_else (json_track_files_first_path top) (
        or_else (nested_lidarr_path_field top (lit "environment"))
          (nested_lidarr_path_field top (lit "env"))))

  abbrev path_or_missing : Text → Result Text
  path_or_missing [] = err (message (lit "download path not found in payload"))
  path_or_missing (c ∷ s) = ok (c ∷ s)

  unfoldable pub extract_lidarr_scan_path : Text → Result Text
  extract_lidarr_scan_path body = elim (object_of body) [
    | none ↦ err (message (lit "invalid JSON body"))
    | some top ↦ path_or_missing (path_in top)
  ]

  abbrev scan_dir : Text → Answer Node → Result Text
  scan_dir path (found directory) = ok path
  scan_dir path (found (file contents)) = ok (dir path)
  scan_dir path (refused not_exist) = ok (if is_nil (ext path) then path else dir path)
  scan_dir path (refused e) = err (message (os_error_text e))

  unfoldable pub lidarr_dir_for_scan : Text → Fs → Result Text × Fs
  lidarr_dir_for_scan raw fs =
      let path = clean raw in
      let (answer, fs') = stat_node path fs in
      if is_nil path || text_eq path (lit ".")
      then (err (message (lit "path is required")), fs)
      else (scan_dir path answer, fs')

  abbrev bad_request : Error → ℕ × Text
  bad_request e = (400, error_text e)

  abbrev create_error : Error → ℕ × Text
  create_error e = (if is_err_image_not_found e then 404 else 500, error_text e)

  abbrev hooked : Result (Job × Bool) → Response Body
  hooked result =
      answered (need result create_error)
        (λ jc. write_json (if jc.1 then 201 else 200) (hook_body jc.0.id jc.1))

  abbrev create_in :
      {S : Type 0}
      → (Text → S → Result (Job × Bool) × S)
      → Result Text × Fs
      → S
      → Response Body × Fs × S
  create_in create_job (err e, fs) s = (write_error 400 (error_text e), fs, s)
  create_in create_job (ok path, fs) s =
      let (result, s') = create_job path s in (hooked result, fs, s')

  abbrev raw_path :
      {S : Type 0}
      → Option (Text → S → Result (Job × Bool) × S)
      → Text
      → Fs
      → S
      → Response Body × Fs × S
  raw_path none body fs s = (write_error 500 (lit "create job not configured"), fs, s)
  raw_path (some create_job) body fs s = elim (extract_lidarr_scan_path body) [
    | err e ↦ (write_error 400 (error_text e), fs, s)
    | ok raw ↦ create_in create_job (lidarr_dir_for_scan raw fs) s
  ]

  -- with the event's type, and Deps.CreateJob on the state that it works on
  unfoldable pub handle_lidarr_hook :
      {S : Type 0}
      → (Text → Option Text)
      → Option (Text → S → Result (Job × Bool) × S)
      → Request
      → Fs
      → S
      → Response Body × Fs × S
  handle_lidarr_hook event_type create_job r fs s =
      elim (do
        method_is (lit "POST") r.method
        body ← read_request_body r.body
        elim (event_type body) as (λ _. Reply (Text × Text)) [
          | none ↦ stop 400 (lit "invalid JSON body")
          | some event ↦ go (event, body)
        ]) [
          | stop status what ↦ (write_error status what, fs, s)
          | go eb ↦
              if text_eq eb.0 (lit "Test")
              then (write_json 200 ok_body, fs, s)
              else raw_path create_job eb.1 fs s
        ]
