-- ===== src/Runner/Outcomes.antt =====
-- internal/app/run.go: how an attempt can end.
use cuearr.Prelude.{
  inl, inr, ◌+◌, ◌≡◌, refl, Text, Bool, true, false, Option, none, some, Option-cases,
  if◌then◌else◌, is_nil,
}
use cuearr.Errors.{
  Error, Result, ok, err, sentinel, publication_pending, joined, is_err_publication_pending,
}
use cuearr.Job.{Job, job_failed, job_publishing, is_completed}
use cuearr.Job.Retry.{begin_attempt}
use cuearr.Importer.Outcome.{after_split_complete-completed}
use cuearr.Store.{update}
use cuearr.Preflight.{Preflight, check}
use cuearr.Verify.{verify_split}
use cuearr.Publish.{
  cleanup_staging, prepare_staging, publish_tracks, publish_replace_dir, published_paths,
}
use cuearr.World.{World, Run, call}
use cuearr.Runner.{
  JobRunner, SplitResult, fail_job, failed_with, no_result, failed_as, plan_of, clean_and_fail,
  import_completed, complete_job, publish_job, verify_job, split_job, attempt_job, start_job,
  run_job, inspect_source, intent_of, completed_at,
}

-- The job and the error that an attempt of a job answers.
pub data Ending (original : Job) : Job × Option Error → Type 0 where
  -- the attempt could not be stored, and nothing was done
  unstarted : {e : Error} → Ending original (original, some e)
  -- it failed, and the job says so
  failed : {job : Job} {e : Error} → job.status ≡ job_failed → Ending original (job, some e)
  -- the album is in place but its job is still publishing
  pending :
      {job : Job} {e : Error}
      → job.status ≡ job_publishing
      → is_err_publication_pending e ≡ true
      → Ending original (job, some e)
  -- the album is in place, and the job went through the import
  published : {job : Job} → is_completed job.status ≡ true → Ending original (job, none)

failed_with-Ending :
    (r : JobRunner) (o job : Job) (e : Error) (stored : Option Error)
    → job.status ≡ job_failed
    → Ending o (failed_with r job e stored)
failed_with-Ending r o job e none h = failed h
failed_with-Ending r o job e (some x) h = failed h

pending-is-pending :
    (e : Error) → is_err_publication_pending (joined (sentinel publication_pending) e) ≡ true
unfolding is_err_publication_pending
pending-is-pending e = refl

-- A branch of an attempt that ends well ends well as a whole.
module _ {o : Job} where
  by-option :
      {E : Type 0} (x : Option E) (w : World) (f : Run (Job × Option Error))
      (g : E → Run (Job × Option Error))
      → Ending o (f w).0
      → ((e : E) → Ending o (g e w).0)
      → Ending o ((elim x as (λ _. Run (Job × Option Error)) [ none ↦ f | some e ↦ g e ]) w).0
  by-option none w f g h k = h
  by-option (some e) w f g h k = k e

  by-result :
      {A : Type 0} (x : Result A) (w : World) (f : A → Run (Job × Option Error))
      (g : Error → Run (Job × Option Error))
      → ((a : A) → Ending o (f a w).0)
      → ((e : Error) → Ending o (g e w).0)
      → Ending o ((elim x as (λ _. Run (Job × Option Error)) [ ok a ↦ f a | err e ↦ g e ]) w).0
  by-result (ok a) w f g h k = h a
  by-result (err e) w f g h k = k e

  by-test :
      (x : Bool) (w : World) (f g : Run (Job × Option Error))
      → Ending o (f w).0
      → Ending o (g w).0
      → Ending o ((if x then f else g) w).0
  by-test true w f g h k = h
  by-test false w f g h k = k

module _ (r : JobRunner) (o : Job) where
  fail_job-Ending :
      (finished : Job) (result : SplitResult) (e : Error) (w : World)
      → Ending o (fail_job r finished result e w).0
  unfolding fail_job
  fail_job-Ending finished result e w =
      failed_with-Ending r o (failed_as r finished result e (r.clock w.ticks)) e
        (update (failed_as r finished result e (r.clock w.ticks)) w.db).0 refl

  clean_and_fail-Ending :
      (staging : Text) (finished : Job) (result : SplitResult) (e : Error) (w : World)
      → Ending o (clean_and_fail r staging finished result e w).0
  unfolding clean_and_fail
  clean_and_fail-Ending staging finished result e w = fail_job-Ending finished result _ _

  import_completed-Ending :
      (job : Job) (w : World)
      → is_completed job.status ≡ true
      → Ending o (import_completed r job w).0
  unfolding import_completed
  import_completed-Ending job w h = elim (Option-cases r.importer) [
    | inl e ↦ rw e (published h)
    | inr (importer, e) ↦ rw e (published (after_split_complete-completed importer job _ _ h))
  ]

  complete_job-Ending :
      (staging : Text) (finished : Job) (w : World)
      → finished.status ≡ job_publishing
      → Ending o (complete_job r staging finished w).0
  unfolding complete_job
  complete_job-Ending staging finished w h =
      let cleaned = cleanup_staging staging w.fs in
      let job = completed_at r finished (r.clock w.ticks) in
      by-result cleaned.0 (record w { fs = cleaned.1 }) _ _
        (λ u.
          by-option (update job w.db).0 _ _ _ (import_completed-Ending job _ refl)
            (λ e. pending h (pending-is-pending e)))
        (λ e. pending h (pending-is-pending e))

  publish_job-Ending :
      (staging : Text) (finished : Job) (result : SplitResult) (w : World)
      → Ending o (publish_job r staging finished result w).0
  unfolding publish_job
  publish_job-Ending staging finished result w =
      let files = result.output_files in
      let placed = record result { output_files = published_paths finished.out_dir files } in
      let intent = intent_of r finished placed in
      let stored = update intent w.db in
      let world = record w { db = stored.1 } in
      let published' =
        publish_tracks r.marshal staging finished.out_dir finished.id files publish_replace_dir
          w.fs in
      by-option stored.0 world _ _
        (by-result published'.0 (record world { fs = published'.1 }) _ _
          (λ files. complete_job-Ending staging intent _ refl)
          (λ e. clean_and_fail-Ending staging intent placed e _))
        (λ e. clean_and_fail-Ending staging intent placed _ world)

  verify_job-Ending :
      (staging : Text) (finished : Job) (result : SplitResult) (w : World)
      → Ending o (verify_job r staging finished result w).0
  unfolding verify_job
  verify_job-Ending staging finished result w =
      let info = inspect_source r finished.image_path w in
      by-result info.0 info.1 _ _
        (λ image.
          let off =
            verify_split r.verifier finished.cue_path result.output_files image.duration info.1 in
          by-option off.0 off.1 _ _ (publish_job-Ending staging finished result off.1)
            (λ e. clean_and_fail-Ending staging finished result e off.1))
        (λ e. clean_and_fail-Ending staging finished result _ info.1)

  split_job-Ending :
      (staging : Text) (finished : Job) (w : World) → Ending o (split_job r staging finished w).0
  unfolding split_job
  split_job-Ending staging finished w =
      let called = call (λ n. r.splitter.split n (plan_of r finished) staging) w in
      let result = called.0.0 in
      by-option called.0.1 called.1 _ _
        (by-test (is_nil result.output_files) called.1 _ _
          (clean_and_fail-Ending staging finished result _ called.1)
          (verify_job-Ending staging finished result called.1))
        (λ e. clean_and_fail-Ending staging finished result e called.1)

  attempt_job-Ending :
      (base : Text) (finished : Job) (preflight : Preflight) (w : World)
      → Ending o (attempt_job r base finished preflight w).0
  unfolding attempt_job
  attempt_job-Ending base finished preflight w =
      let checked = check preflight finished.image_path base w in
      let staged = prepare_staging base finished.id checked.1.fs in
      let world = record checked.1 { fs = staged.1 } in
      by-option checked.0 checked.1 _ _
        (by-result staged.0 world _ _ (λ staging. split_job-Ending staging finished world)
          (λ e. fail_job-Ending finished no_result e world))
        (λ e. fail_job-Ending finished no_result e checked.1)

  start_job-Ending :
      (base : Text) (finished : Job) (w : World) → Ending o (start_job r base finished w).0
  unfolding start_job
  start_job-Ending base finished w =
      by-option r.preflight w _ _ (fail_job-Ending finished no_result _ w)
        (λ preflight. attempt_job-Ending base finished preflight w)

-- Whatever the store, the file system and the tools answer, an attempt ends in one of four ways: it
-- was not stored as begun, and the job is as it was; it failed, with an error, and its job has the
-- status failed; it is published with an error that says that publication is pending, and its job
-- has the status publishing; or there is no error, and the job has the status completed, whatever
-- became of the import.
pub run_job-Ending :
    (r : JobRunner) (job : Job) (out_dir : Text) (in_place : Bool) (w : World)
    → Ending job (run_job r job out_dir in_place w).0
unfolding run_job
run_job-Ending r job out_dir in_place w =
    let now = r.clock w.ticks in
    let running = begin_attempt now job now in
    let stored = update running w.db in
    by-option stored.0 (record w { db = stored.1; ticks = w.ticks + 1 }) _ _
      (start_job-Ending r job _ _ _) (λ e. unstarted)
