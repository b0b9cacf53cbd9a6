-- ===== src/Worker.antt =====
-- internal/app/worker.go: the loop that claims the oldest queued job and runs it. A tick of the
-- ticker is one step; the context that ends the loop is the end of the ticks.
pub mod Budget
use cuearr.Prelude.{
  ℕ, zero, suc, Text, lit, Bool, true, false, Option, none, some, if◌then◌else◌, leb,
}
use cuearr.Errors.{
  Error, is_err_not_found, is_err_publication_pending, error_text, join_errors, Result, ok, err,
}
use cuearr.Job.{Job, job_failed, Time}
use cuearr.Job.Retry.{apply_attempt_failure, max_attempts}
use cuearr.Settings.{Settings}
use cuearr.Store.{update, claim_next_queued, recover_running}
use cuearr.Runner.{JobRunner, Splitter, run_job}
use cuearr.Recovery.{Recoverer, recover_publications}
use cuearr.World.{World, Run, ◌>>=◌, ◌>>◌, pure, on_db, ask}

-- the fields of Worker: what its runners are made of, the settings and the splitter of a moment
-- (Runtime, or else the worker's own), and whether the attempts are bound by settings
pub record Worker : Type 0 where
  pub runner : JobRunner
  pub recoverer : Recoverer
  pub snapshot : ℕ → Settings × Splitter

module _ (w : Worker) where
  abbrev pub exhausted_as : Job → Time → Job
  exhausted_as job now = record job {
    status = job_failed;
    finished_at = now;
    error = lit "retry budget exhausted during crash recovery";
  }

  -- an exhausted job is failed as it is
  unfoldable pub give_up : Job → Run (Option Error)
  give_up job = do now ← ask w.runner.clock; on_db (update (exhausted_as job now))

  -- what the worker makes of the end of a run
  unfoldable pub after_run : ℕ → Job × Option Error → Run (Option Error)
  after_run bound (finished, none) = pure none
  after_run bound (finished, some e) =
      if is_err_publication_pending e
      then pure (some e)
      else ask w.runner.clock >>= λ now.
          on_db (update (apply_attempt_failure now finished (error_text e) now bound))

  abbrev pub runner_with : Splitter → JobRunner
  runner_with splitter = record w.runner { splitter = splitter }

  unfoldable pub run_claimed : Job → Settings × Splitter → Run (Option Error)
  run_claimed job (settings, splitter) =
      let bound = max_attempts settings.max_retries in
      if leb bound job.attempt_count
      then give_up job
      else run_job (runner_with splitter) job settings.out_dir settings.in_place >>= after_run bound

  unfoldable pub claim_and_run : Run (Option Error)
  claim_and_run = do
    now ← ask w.runner.clock
    claim ← on_db (claim_next_queued now now)
    elim claim [
      | err e ↦ pure (if is_err_not_found e then none else some e)
      | ok job ↦ do snapshot ← ask w.snapshot; run_claimed job snapshot
    ]

  unfoldable pub run_once : Run (Option Error)
  run_once = do
    recover_err ← recover_publications w.recoverer true
    e ← claim_and_run
    pure (join_errors recover_err e)

  -- the error of a tick is only logged
  unfoldable pub ticks_of : ℕ → Run (Option Error)
  ticks_of zero = pure none
  ticks_of (suc n) = run_once >>= λ e. ticks_of n

  abbrev pub recovered_then : ℕ → Result ℕ → Run (Option Error)
  recovered_then n (err e) = pure (some e)
  recovered_then n (ok recovered) = ticks_of n

  -- Run, until the nth tick has passed
  unfoldable pub run : ℕ → Run (Option Error)
  run n = do
    recover_err ← recover_publications w.recoverer false
    elim recover_err [
      | some e ↦ pure (some e)
      | none ↦ do recovered ← on_db recover_running; recovered_then n recovered
    ]
