-- ===== src/Runner.antt =====
-- internal/app/run.go: one attempt of a job, from the preflight to the published album. The
-- splitter, the inspectors, the tagger, the clock, the hash and JSON are parameters.
pub mod Outcomes
pub mod Keys
use cuearr.Prelude.{
  ℕ, ◌+◌, Text, lit, text_eq, ◌++◌, Bool, true, false, not, ◌&&◌, ◌||◌, Option, none, some, List,
  [], ◌∷◌, take, if◌then◌else◌, is_nil, ltb, ◌==◌, trim_space, to_lower,
}
use cuearr.Errors.{
  Error, sentinel, message, wrapped, joined, quoted, error_text, join_errors, publication_pending,
  preflight_unavailable, Result, ok, err,
}
use cuearr.Job.{Job, job_failed, job_publishing, job_completed, Time}
use cuearr.Job.Retry.{begin_attempt}
use cuearr.Filepath.{join, dir, ext}
use cuearr.Fs.{Fs}
use cuearr.Album.{SplitPlan}
use cuearr.Settings.{Settings}
use cuearr.Store.{update}
use cuearr.Publish.{
  PublicationManifest, prepare_staging, cleanup_staging, publish_tracks, publish_replace_dir,
  published_paths,
}
use cuearr.Preflight.{Preflight, check}
use cuearr.Verify.{FlacInfo, Verifier, verify_split}
use cuearr.Importer.{ImportService, after_split_complete}
use cuearr.World.{World, Run, ◌>>=◌, ◌>>◌, pure, on_db, on_fs, ask, call}

pub record SplitResult : Type 0 where
  pub output_files : List Text
  pub log : Text

pub record Splitter : Type 0 where
  pub split : ℕ → SplitPlan → Text → Fs → (SplitResult × Option Error) × Fs

pub record JobRunner : Type 0 where
  pub splitter : Splitter
  pub verifier : Verifier
  pub wav_inspect : Option (ℕ → Text → Fs → Result FlacInfo × Fs)
  pub preflight : Option Preflight
  pub importer : Option ImportService
  pub settings : ℕ → Settings
  pub clock : ℕ → Time
  pub sha256_hex : Text → Text
  pub marshal : PublicationManifest → Text

abbrev pub is_safe_byte : ℕ → Bool
is_safe_byte c =
    not (ltb c b'a' || ltb b'z' c)
    || not (ltb c b'A' || ltb b'Z' c)
    || not (ltb c b'0' || ltb b'9' c)
    || c == b'-'
    || c == b'_'

unfoldable pub is_safe_key : Text → Bool
is_safe_key [] = true
is_safe_key (c ∷ cs) = let rest = is_safe_key cs in is_safe_byte c && rest

-- the fingerprint where it is safe as a name, or else eight bytes of a hash in hexadecimal
unfoldable pub album_output_key : (Text → Text) → Job → Text
unfolding is_safe_key
album_output_key sha256_hex job =
    let key = trim_space job.fingerprint in
    if not (is_nil key) && is_safe_key key
    then key
    else lit "album-" ++ take 16 (sha256_hex (job.cue_path ++ (0 ∷ (job.image_path ++ (0 ∷ key)))))

abbrev pub file_lines : List Text → Text
file_lines [] = []
file_lines (f ∷ files) = lit "- " ++ (f ++ (b'\n' ∷ file_lines files))

abbrev pub listing : Text → List Text → Text
listing log [] = []
listing log (f ∷ files) =
    (if is_nil log then [] else b'\n' ∷ []) ++ (lit "output files:\n" ++ file_lines (f ∷ files))

unfoldable pub build_job_log : SplitResult → Text
build_job_log result = trim_space (result.log ++ listing result.log result.output_files)

abbrev pub no_result : SplitResult
no_result = record { output_files = []; log = [] }

module _ (r : JobRunner) where
  abbrev pub failed_as : Job → SplitResult → Error → Time → Job
  failed_as finished result e now = record finished {
    finished_at = now;
    status = job_failed;
    error = error_text e;
    log = build_job_log result;
  }

  abbrev pub failed_with : Job → Error → Option Error → Job × Option Error
  failed_with job run_err none = (job, some run_err)
  failed_with job run_err (some e) = (job, some e)

  unfoldable pub fail_job : Job → SplitResult → Error → Run (Job × Option Error)
  fail_job finished result run_err = do
    now ← ask r.clock
    e ← on_db (update (failed_as finished result run_err now))
    pure (failed_with (failed_as finished result run_err now) run_err e)

  abbrev pub joined_with : Error → Result (Unit {0}) → Error
  joined_with run_err (ok u) = run_err
  joined_with run_err (err e) = joined run_err e

  -- `runErr := cleanup(err); return r.failJob(...)`
  unfoldable pub clean_and_fail : Text → Job → SplitResult → Error → Run (Job × Option Error)
  clean_and_fail staging finished result run_err = do
    cleaned ← on_fs (cleanup_staging staging)
    fail_job finished result (joined_with run_err cleaned)

  abbrev pub is_wav : Text → Bool
  is_wav path = text_eq (to_lower (ext path)) (lit ".wav")

  unfoldable pub inspect_source : Text → Run (Result FlacInfo)
  inspect_source path =
      if is_wav path
      then elim r.wav_inspect [
        | none ↦ pure (err (message (lit "WAV source inspector is unavailable")))
        | some inspect ↦ call (λ n. inspect n path)
      ]
      else call (λ n. r.verifier.inspect n path)

  -- an error of the import does not fail the job
  unfoldable pub import_completed : Job → Run (Job × Option Error)
  import_completed job = elim r.importer [
    | none ↦ pure (job, none)
    | some importer ↦ do
      settings ← ask r.settings
      imported ← after_split_complete importer job settings
      pure (imported.0, none)
  ]

  abbrev pub completed_at : Job → Time → Job
  completed_at finished now = record finished { status = job_completed; finished_at = now }

  abbrev pub pending : Job → Error → Job × Option Error
  pending finished e = (finished, some (joined (sentinel publication_pending) e))

  -- the part behind PublishTracks: from here on a failure leaves the job publishing
  unfoldable pub complete_job : Text → Job → Run (Job × Option Error)
  complete_job staging finished = do
    cleaned ← on_fs (cleanup_staging staging)
    elim cleaned [
      | err e ↦ pure (pending finished e)
      | ok u ↦ do
        now ← ask r.clock
        e ← on_db (update (completed_at finished now))
        elim e [
          | some e ↦ pure (pending finished e)
          | none ↦ import_completed (completed_at finished now)
        ]
    ]

  abbrev pub intent_of : Job → SplitResult → Job
  intent_of finished result = record finished {
    status = job_publishing;
    log = build_job_log result;
  }

  -- the part behind VerifySplit: the intent is stored, and the tracks are published
  unfoldable pub publish_job : Text → Job → SplitResult → Run (Job × Option Error)
  publish_job staging finished split_result = do
    let final_out = finished.out_dir
    let result = record split_result {
      output_files = published_paths final_out split_result.output_files;
    }
    e ← on_db (update (intent_of finished result))
    elim e [
      | some e ↦
          clean_and_fail staging (intent_of finished result) result
            (wrapped (lit "persist publication intent") e)
      | none ↦ do
        published ← on_fs (
            publish_tracks r.marshal staging final_out finished.id split_result.output_files
              publish_replace_dir)
        elim published [
          | err e ↦ clean_and_fail staging (intent_of finished result) result e
          | ok files ↦ complete_job staging (intent_of finished result)
        ]
    ]

  -- the part behind Split, where it produced files
  unfoldable pub verify_job : Text → Job → SplitResult → Run (Job × Option Error)
  verify_job staging finished result = do
    info ← inspect_source finished.image_path
    elim info [
      | err e ↦
          clean_and_fail staging finished result
            (wrapped (lit "inspect source image " ++ quoted finished.image_path) e)
      | ok image ↦ do
        off ← verify_split r.verifier finished.cue_path result.output_files image.duration
        elim off [
          | some e ↦ clean_and_fail staging finished result e
          | none ↦ publish_job staging finished result
        ]
    ]

  abbrev pub plan_of : Job → SplitPlan
  plan_of job = record {
    cue_path = job.cue_path;
    image_path = job.image_path;
    work_dir = dir job.image_path;
    tracks = [];
    fingerprint = [];
  }

  unfoldable pub split_job : Text → Job → Run (Job × Option Error)
  split_job staging finished = do
    outcome ← call (λ n. r.splitter.split n (plan_of finished) staging)
    elim outcome.1 [
      | some e ↦ clean_and_fail staging finished outcome.0 e
      | none ↦
          if is_nil outcome.0.output_files
          then clean_and_fail staging finished outcome.0
              (message (lit "split produced no output files"))
          else verify_job staging finished outcome.0
    ]

  unfoldable pub attempt_job : Text → Job → Preflight → Run (Job × Option Error)
  attempt_job staging_base finished preflight = do
    refused ← check preflight finished.image_path staging_base
    elim refused [
      | some e ↦ fail_job finished no_result e
      | none ↦ do
        staged ← on_fs (prepare_staging staging_base finished.id)
        elim staged [
          | err e ↦ fail_job finished no_result e
          | ok staging ↦ split_job staging finished
        ]
    ]

  -- the part behind the first Update; the `finished` of the source is `running` with its output
  unfoldable pub start_job : Text → Job → Run (Job × Option Error)
  start_job staging_base finished = elim r.preflight [
    | none ↦ fail_job finished no_result (sentinel preflight_unavailable)
    | some preflight ↦ attempt_job staging_base finished preflight
  ]

  abbrev pub staging_base_of : Job → Text → Bool → Text
  staging_base_of job out_dir in_place = if in_place then dir job.image_path else out_dir

  unfoldable pub run_job : Job → Text → Bool → Run (Job × Option Error)
  run_job job out_dir in_place = do
    let base = staging_base_of job out_dir in_place
    let final_out = join base (album_output_key r.sha256_hex job)
    now ← ask r.clock
    e ← on_db (update (begin_attempt now job now))
    elim e [
      | some e ↦ pure (job, some e)
      | none ↦ start_job base (record (begin_attempt now job now) { out_dir = final_out })
    ]
