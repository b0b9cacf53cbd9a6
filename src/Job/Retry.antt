-- ===== src/Job/Retry.antt =====
-- internal/domain/retry.go, with the bound on attempts of internal/domain/settings.go.
-- `now` is what `time.Now().UTC()` answers; MaxRetries below one, negative ones included, is 0 here.
pub mod Budget
use cuearr.Prelude.{ℕ, ◌+◌, Text, Bool, true, false, ltb, if◌then◌else◌, ◌∷◌, [], ◌++◌}
use cuearr.Errors.{Sentinel, conflict, sentinel, Result, ok, err}
use cuearr.Job.{
  Job, JobStatus, job_queued, job_running, job_failed, Time, is_zero, zero_time, is_failed,
}

abbrev pub default_max_retries : ℕ
default_max_retries = 3

-- Settings.MaxAttempts, on the field MaxRetries
unfoldable pub max_attempts : ℕ → ℕ
max_attempts max_retries = if ltb max_retries 1 then default_max_retries else max_retries

unfoldable pub begin_attempt : Time → Job → Time → Job
begin_attempt now job at =
    let at' = if is_zero at then now else at in
    record job {
      attempt_count = job.attempt_count + 1;
      status = job_running;
      started_at = at';
      finished_at = zero_time;
      error = [];
    }

unfoldable pub apply_attempt_failure : Time → Job → Text → Time → ℕ → Job
apply_attempt_failure now job err_msg at max_attempts =
    let max' = if ltb max_attempts 1 then default_max_retries else max_attempts in
    let at' = if is_zero at then now else at in
    let count = if ltb job.attempt_count 1 then 1 else job.attempt_count in
    let logged = record job {
      attempt_count = count;
      error = err_msg;
      attempt_log = job.attempt_log ++ (record { number = count; at = at'; error = err_msg } ∷ []);
    } in
    if ltb count max'
    then record logged { status = job_queued; started_at = zero_time; finished_at = zero_time }
    else record logged { status = job_failed; finished_at = at' }

unfoldable pub requeue_failed_job : Job → Result Job
requeue_failed_job job =
    if is_failed job.status
    then ok (record job {
      status = job_queued;
      attempt_count = 0;
      error = [];
      log = [];
      started_at = zero_time;
      finished_at = zero_time;
    })
    else err (sentinel conflict)
