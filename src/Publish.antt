-- ===== src/Publish.antt =====
-- internal/app/publish.go: verified tracks go from the staging directory to the album directory.
-- encoding/json is a parameter: how a manifest is written.
pub mod Preserves
pub mod Swap
pub mod Publication
pub mod Installs
use cuearr.Prelude.{
  Text, lit, text_eq, Bool, false, ◌||◌, none, some, List, [], ◌∷◌, ◌++◌, map, if◌then◌else◌,
  is_nil,
}
use cuearr.Errors.{Error, cross_device_rename, sentinel, message, wrapped, annotated, quoted}
use cuearr.Filepath.{join, dir, base, is_abs}
use cuearr.Fs.{OsError, not_exist, system, remove_all, mkdir_all, stat, rename, write_file}
use cuearr.Fs.Acts.{
  Act, ◌>>=◌, ◌>>◌, pure, fail, attempt, require, require_or_absent, on_error, os_error_text,
  report,
}

pub data PublishMode : Type 0 where
  publish_replace_dir publish_merge_into : PublishMode

pub record PublicationManifest : Type 0 where
  pub job_id : Text
  pub files : List Text

abbrev pub publication_file : Text
publication_file = lit ".cuearr-publication.json"

unfoldable pub staging_dir : Text → Text → Text
staging_dir base_out job_id = join (join base_out (lit ".cuearr-staging")) job_id

unfoldable pub prepare_staging : Text → Text → Act Text
prepare_staging base_out job_id = do
  let staging = staging_dir base_out job_id
  require_or_absent (report (lit "remove existing staging") staging) (remove_all staging)
  require (report (lit "create staging") staging) (mkdir_all staging)
  pure staging

unfoldable pub cleanup_staging : Text → Act (Unit {0})
cleanup_staging [] = pure tt
cleanup_staging (c ∷ s) = require (report (lit "remove staging") (c ∷ s)) (remove_all (c ∷ s))

-- errors.Is(err, syscall.EXDEV)
unfoldable pub is_cross_device_rename_err : OsError → Bool
is_cross_device_rename_err (system f) = f.cross_device
is_cross_device_rename_err e = false

unfoldable pub rename_error : Text → Text → OsError → Error
unfolding is_cross_device_rename_err
rename_error from to e =
    if is_cross_device_rename_err e
    then annotated (sentinel cross_device_rename) (os_error_text e)
    else report (lit "rename " ++ (quoted from ++ lit " ->")) to e

unfoldable pub rename_path : Text → Text → Act (Unit {0})
rename_path from to = require (rename_error from to) (rename from to)

unfoldable pub track_source_path : Text → Text → Text
track_source_path staging name =
    if is_abs name then name else if is_nil staging then name else join staging name

unfoldable pub move_tracks : Text → Text → List Text → Act (Unit {0})
move_tracks staging dest_dir [] = pure tt
move_tracks staging dest_dir (name ∷ files) = do
  let src = track_source_path staging name
  rename_path src (join dest_dir (base src))
  move_tracks staging dest_dir files

unfoldable pub published_paths : Text → List Text → List Text
published_paths final_out [] = []
published_paths final_out (name ∷ files) =
    join final_out (base (track_source_path [] name)) ∷ published_paths final_out files

-- Join(parent, "."+base+".publishing-"+jobID)
unfoldable pub publish_dir_of : Text → Text → Text
publish_dir_of final_out job_id =
    join (dir final_out) (lit "." ++ (base final_out ++ (lit ".publishing-" ++ job_id)))

-- Join(parent, "."+base+".aside-"+jobID)
unfoldable pub aside_dir_of : Text → Text → Text
aside_dir_of final_out job_id =
    join (dir final_out) (lit "." ++ (base final_out ++ (lit ".aside-" ++ job_id)))

unfoldable pub is_invalid_final : Text → Bool
is_invalid_final final_out =
    is_nil (dir final_out)
    || is_nil (base final_out)
    || text_eq (base final_out) (lit ".")
    || text_eq (base final_out) (lit "/")

abbrev pub restore_error : Text → Text → OsError → Error
restore_error aside final_out e =
    wrapped (lit "restore interrupted album swap") (rename_error aside final_out e)

abbrev pub final_error : Text → OsError → Error
final_error final_out e =
    wrapped (lit "stat final out " ++ (quoted final_out ++ lit " during recovery"))
      (message (os_error_text e))

-- an interrupted swap is undone: the old album stands aside and nothing is at its place
unfoldable pub restore_aside : Text → Text → Act (Unit {0})
restore_aside aside final_out = do
  there ← attempt (stat aside)
  elim there [
    | some not_exist ↦ pure tt
    | some e ↦ fail (report (lit "stat album backup") aside e)
    | none ↦ do
      final ← attempt (stat final_out)
      elim final [
        | some not_exist ↦ require (restore_error aside final_out) (rename aside final_out)
        | none ↦ fail (message (lit "stale album backup requires recovery: " ++ aside))
        | some e ↦ fail (final_error final_out e)
      ]
  ]

-- the swap: the old album goes aside, the new one takes its place, and the old one is removed;
-- where the second rename fails the old album is put back
unfoldable pub swap_over : Text → Text → Text → Act (Unit {0})
swap_over publish_dir aside final_out = do
  on_error (remove_all publish_dir) (rename_path final_out aside)
  moved ← attempt (rename publish_dir final_out)
  elim moved [
    | some e ↦ do
      attempt (rename aside final_out) >>= λ restored. pure tt
      attempt (remove_all publish_dir) >>= λ removed. pure tt
      fail (rename_error publish_dir final_out e)
    | none ↦ attempt (remove_all aside) >>= λ removed. pure tt
  ]

unfoldable pub swap_in : Text → Text → Text → Act (Unit {0})
swap_in publish_dir aside final_out = do
  final ← attempt (stat final_out)
  elim final [
    | none ↦ swap_over publish_dir aside final_out
    | some not_exist ↦ on_error (remove_all publish_dir) (rename_path publish_dir final_out)
    | some e ↦ on_error (remove_all publish_dir) (fail (report (lit "stat final out") final_out e))
  ]

module _ (marshal : PublicationManifest → Text) where
  abbrev pub manifest_of : Text → List Text → PublicationManifest
  manifest_of job_id files = record { job_id = job_id; files = map base files }

  unfoldable pub replace_dir : Text → Text → Text → List Text → Act (List Text)
  replace_dir staging final_out job_id files =
      let parent = dir final_out in
      let publish_dir = publish_dir_of final_out job_id in
      let aside = aside_dir_of final_out job_id in
      if is_invalid_final final_out
      then fail (message (lit "invalid final out " ++ quoted final_out))
      else do
        require (report (lit "ensure final parent") parent) (mkdir_all parent)
        require_or_absent (report (lit "remove leftover publish dir") publish_dir)
            (remove_all publish_dir)
        restore_aside aside final_out
        require (report (lit "create publish dir") publish_dir) (mkdir_all publish_dir)
        on_error (remove_all publish_dir) (move_tracks staging publish_dir files)
        on_error (remove_all publish_dir) (
            require (λ e. wrapped (lit "write publication manifest") (message (os_error_text e)))
              (write_file (join publish_dir publication_file) (marshal (manifest_of job_id files))))
        swap_in publish_dir aside final_out
        pure (published_paths final_out files)

  unfoldable pub publish_tracks : Text → Text → Text → List Text → PublishMode → Act (List Text)
  publish_tracks staging final_out job_id files publish_merge_into =
      fail (message (lit "merge publish is not atomic; use directory replacement"))
  publish_tracks staging final_out job_id files publish_replace_dir =
      replace_dir staging final_out job_id files
