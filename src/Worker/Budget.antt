-- ===== src/Worker/Budget.antt =====
-- internal/app/worker.go and internal/app/enqueue.go: a job that is queued again by Enqueue keeps
-- the count of its attempts, and the worker's bound on attempts still counts them.
use cuearr.Prelude.{ℕ, lit, ◌≤◌, ◌≡◌, arith}
use cuearr.Errors.{ok}
use cuearr.Job.{Job, job_failed}
use cuearr.Job.Retry.{max_attempts, requeue_failed_job}
use cuearr.Settings.{Settings}
use cuearr.Store.{update}
use cuearr.World.{World, after}
use cuearr.Enqueue.{retry_of}
use cuearr.Runner.{Splitter, run_job}
use cuearr.Worker.{Worker, run_claimed, give_up, runner_with, after_run}

pub max_attempts_positive : (n : ℕ) → 1 ≤ max_attempts n
unfolding max_attempts
max_attempts_positive n = ground arith

-- A failed job whose attempts are used up, and which Enqueue queued again, is not run when the worker
-- takes it: no file is touched, and the store is asked at once to update its row to the queued job
-- with the status failed, the error "retry budget exhausted during crash recovery" and the clock's
-- time as its end. Requeued by RequeueFailedJob, it is run.
pub retry_of-exhausted :
    (w : Worker) (settings : Settings) (splitter : Splitter) (job requeued : Job) (world : World)
    → max_attempts settings.max_retries ≤ job.attempt_count
    → requeue_failed_job job ≡ ok requeued
    → ((run_claimed w (retry_of job) (settings, splitter) world).1.fs ≡ world.fs)
      × ((run_claimed w (retry_of job) (settings, splitter) world).1.db
          ≡ (update
              (record (retry_of job) {
                status = job_failed;
                finished_at = w.runner.clock world.ticks;
                error = lit "retry budget exhausted during crash recovery";
              })
              world.db).1)
      × (run_claimed w requeued (settings, splitter) world
          ≡ after
              (run_job (runner_with w splitter) requeued settings.out_dir settings.in_place world)
              (after_run w (max_attempts settings.max_retries)))
unfolding run_claimed give_up retry_of requeue_failed_job
retry_of-exhausted w settings splitter job requeued world h e =
    (ground arith, ground arith, ground (arith, max_attempts_positive settings.max_retries))
