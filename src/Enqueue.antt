-- ===== src/Enqueue.antt =====
-- internal/app/enqueue.go: a split plan becomes a queued job, once for each fingerprint.
-- `id` is the new uuid, and `now` what time.Now() answers.
pub mod Again
use cuearr.Prelude.{Text, Bool, true, false, Option, none, some, [], if◌then◌else◌}
use cuearr.Errors.{Error, is_err_not_found, is_err_conflict, Result, ok, err}
use cuearr.Job.{Job, JobStatus, job_queued, job_failed, import_unset, Time, zero_time, is_failed}
use cuearr.Album.{SplitPlan}
use cuearr.Store.{Db, find_by_fingerprint, update, create}

-- the job that a failed one is queued again as
unfoldable pub retry_of : Job → Job
retry_of existing = record existing {
  status = job_queued;
  error = [];
  log = [];
  started_at = zero_time;
  finished_at = zero_time;
}

abbrev pub retried : Job → Option Error × Db → Result (Job × Bool) × Db
retried retry (some e, db) = (err e, db)
retried retry (none, db) = (ok (retry, true), db)

-- the branch of a fingerprint that is known: only a failed job is queued again
unfoldable pub enqueue_existing : Job → Db → Result (Job × Bool) × Db
enqueue_existing existing db =
    if is_failed existing.status
    then retried (retry_of existing) (update (retry_of existing) db)
    else (ok (existing, false), db)

unfoldable pub new_job : Text → Time → SplitPlan → Text → Job
new_job id now plan engine = record {
  id = id;
  fingerprint = plan.fingerprint;
  cue_path = plan.cue_path;
  image_path = plan.image_path;
  out_dir = [];
  status = job_queued;
  engine = engine;
  log = [];
  error = [];
  import_status = import_unset;
  import_error = [];
  created_at = now;
  started_at = zero_time;
  finished_at = zero_time;
  import_requested_at = zero_time;
  import_finished_at = zero_time;
  attempt_count = 0;
  attempt_log = [];
}

-- after a conflict: the job that another caller created, or else the errors in their order
abbrev pub after_conflict : Error → Result Job × Db → Result (Job × Bool) × Db
after_conflict e (ok existing, db) = (ok (existing, false), db)
after_conflict e (err find_err, db) =
    if is_err_not_found find_err then (err e, db) else (err find_err, db)

unfoldable pub enqueue_created : Text → Result Job × Db → Result (Job × Bool) × Db
enqueue_created fp (ok created, db) = (ok (created, true), db)
enqueue_created fp (err e, db) =
    if is_err_conflict e then after_conflict e (find_by_fingerprint fp db) else (err e, db)

unfoldable pub enqueue_found :
    Text → Time → SplitPlan → Text → Result Job × Db → Result (Job × Bool) × Db
enqueue_found id now plan engine (ok existing, db) = enqueue_existing existing db
enqueue_found id now plan engine (err e, db) =
    if is_err_not_found e
    then enqueue_created plan.fingerprint (create (new_job id now plan engine) db)
    else (err e, db)

unfoldable pub enqueue : Text → Time → SplitPlan → Text → Db → Result (Job × Bool) × Db
enqueue id now plan engine db =
    enqueue_found id now plan engine (find_by_fingerprint plan.fingerprint db)
