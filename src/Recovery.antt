-- ===== src/Recovery.antt =====
-- internal/app/publication_recovery.go: jobs that were left publishing are settled from what the
-- file system shows. JSON is a parameter: how a manifest is read.
pub mod Isolation
use cuearr.Prelude.{
  ℕ, Text, lit, text_eq, ◌++◌, Bool, true, false, not, ◌&&◌, Option, none, some, List, [], ◌∷◌,
  if◌then◌else◌, is_nil,
}
use cuearr.Errors.{Error, message, wrapped, error_text, join_errors, Result, ok, err}
use cuearr.Job.{Job, job_failed, job_queued, job_completed, Time, zero_time}
use cuearr.Filepath.{join, dir, base}
use cuearr.Fs.{
  Fs, OsError, not_exist, Outcome, Node, directory, file, Answer, found, refused, read_file,
  stat_node, stat, remove_all, rename,
}
use cuearr.Fs.Acts.{Act, ◌>>=◌, ◌>>◌, pure, fail, attempt, require, os_error_text}
use cuearr.Publish.{
  PublicationManifest, publication_file, aside_dir_of, publish_dir_of, cleanup_staging, staging_dir,
}
use cuearr.Settings.{Settings}
use cuearr.Store.{Db, update, list_publishing}
use cuearr.Importer.{ImportService, after_split_complete}
use cuearr.World.{World, Run, after, on_db, on_fs, ask}

abbrev plain : OsError → Error
plain e = message (os_error_text e)

-- `return false, err` for a call of package os
abbrev must : (Fs → Outcome) → Act (Unit {0})
must = require plain

abbrev pub answer_of : {A : Type 0} → (Fs → Answer A × Fs) → Act (Answer A)
answer_of op fs = (ok (op fs).0, (op fs).1)

abbrev pub check_node : Answer Node → Option Error
check_node (refused e) = some (plain e)
check_node (found directory) = some (message (lit "published track is not a regular file"))
check_node (found (file data')) = none

-- the loop over the files of the manifest
unfoldable pub check_files : Text → List Text → Act (Unit {0})
check_files out_dir [] = pure tt
check_files out_dir (name ∷ names) =
    if not (text_eq (base name) name)
    then fail (message (lit "invalid publication file name"))
    else answer_of (stat_node (join out_dir name)) >>= λ node. elim (check_node node) [
      | some e ↦ fail e
      | none ↦ check_files out_dir names
    ]

-- a manifest of this job that lists files, all of which are there, says that the swap was done
unfoldable pub is_complete : Job → PublicationManifest → Act Bool
is_complete job manifest =
    if text_eq manifest.job_id job.id && not (is_nil manifest.files)
    then check_files job.out_dir manifest.files >> pure true
    else pure false

-- the branches behind the read of the manifest: the old album is removed, or put back
unfoldable pub settle_aside : Job → Bool → Act (Unit {0})
settle_aside job true = must (remove_all (aside_dir_of job.out_dir job.id))
settle_aside job false = do
  final ← attempt (stat job.out_dir)
  elim final [
    | none ↦ pure tt
    | some not_exist ↦ do
      aside ← attempt (stat (aside_dir_of job.out_dir job.id))
      elim aside [
        | none ↦ must (rename (aside_dir_of job.out_dir job.id) job.out_dir)
        | some not_exist ↦ pure tt
        | some e ↦ fail (plain e)
      ]
    | some e ↦ fail (plain e)
  ]

module _ (unmarshal : Text → Result PublicationManifest) where
  abbrev pub judge_manifest : Job → Result PublicationManifest → Act Bool
  judge_manifest job (err e) = fail e
  judge_manifest job (ok manifest) = is_complete job manifest

  unfoldable pub completeness : Job → Answer Text → Act Bool
  completeness job (found data') = judge_manifest job (unmarshal data')
  completeness job (refused not_exist) = pure false
  completeness job (refused e) = fail (plain e)

  unfoldable pub recover_publication : Job → Act Bool
  recover_publication job =
      if is_nil job.out_dir
      then fail (message (lit "publication output is empty"))
      else answer_of (read_file (join job.out_dir publication_file)) >>= λ data'.
          completeness job data' >>= λ complete.
          settle_aside job complete
          >> must (remove_all (publish_dir_of job.out_dir job.id))
          >> cleanup_staging (staging_dir (dir job.out_dir) job.id)
          >> pure complete

pub record Recoverer : Type 0 where
  pub unmarshal : Text → Result PublicationManifest
  pub clock : ℕ → Time
  pub importer : Option ImportService
  pub settings : ℕ → Settings

module _ (w : Recoverer) where
  abbrev pub settled : Job → Bool → Time → Job
  settled job true now = record job { status = job_completed; finished_at = now }
  settled job false now = record job { status = job_queued; started_at = zero_time }

  abbrev pub recovery_error : Job → Error → Error
  recovery_error job e = wrapped (lit "recover publication " ++ job.id) e

  abbrev pub quarantined : Job → Error → Time → Job
  quarantined job e now = record job {
    status = job_failed;
    finished_at = now;
    error = error_text (recovery_error job e);
  }

  -- the part where the file system cannot be recovered
  unfoldable pub quarantine_or_fail : Job → Bool → Error → Run (Option Error)
  quarantine_or_fail job false e world = (some (recovery_error job e), world)
  quarantine_or_fail job true e world =
      after (ask w.clock world) (λ now. on_db (update (quarantined job e now)))

  -- the import behind a recovered publication; its error is only logged
  unfoldable pub import_recovered : Job → Bool → Run (Option Error)
  import_recovered job false world = (none, world)
  import_recovered job true world = elim w.importer [
    | none ↦ (none, world)
    | some importer ↦ after (ask w.settings world) (λ settings world.
        after (after_split_complete importer job settings world) (λ imported world. (none, world)))
  ]

  -- time.Now() is asked only for a job that is complete
  unfoldable pub settled_now : Job → Bool → Run Job
  settled_now job true world =
      after (ask w.clock world) (λ now world. (settled job true now, world))
  settled_now job false world = (settled job false zero_time, world)

  unfoldable pub store_settled : Bool → Job → Run (Option Error)
  store_settled complete job world =
      after (on_db (update job) world) (λ e world. elim e [
        | some e ↦ (some e, world)
        | none ↦ import_recovered job complete world
      ])

  unfoldable pub recover_publishing_job : Bool → Job → Run (Option Error)
  recover_publishing_job quarantine job world =
      after (on_fs (recover_publication w.unmarshal job) world) (λ outcome world. elim outcome [
        | err e ↦ quarantine_or_fail job quarantine e world
        | ok complete ↦ after (settled_now job complete world) (store_settled complete)
      ])

  -- the loop; without `isolate` it stops at the first error
  unfoldable pub recover_jobs : Bool → List Job → Run (Option Error)
  recover_jobs isolate [] world = (none, world)
  recover_jobs isolate (job ∷ jobs) world =
      after (recover_publishing_job isolate job world) (λ e world. elim e [
        | none ↦ recover_jobs isolate jobs world
        | some e ↦
            if isolate
            then after (recover_jobs isolate jobs world)
                (λ later world. (join_errors (some e) later, world))
            else (some e, world)
      ])

  unfoldable pub recover_publications : Bool → Run (Option Error)
  recover_publications isolate world = after (on_db list_publishing world) (λ listed world.
      elim listed [ err e ↦ (some e, world) | ok jobs ↦ recover_jobs isolate jobs world ])
