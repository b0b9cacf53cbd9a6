-- ===== src/Job/Retry/Budget.antt =====
-- internal/domain/retry.go over a whole run of failing attempts: how many a job gets.
use cuearr.Prelude.{
  ℕ, ◌+◌, ◌<◌, Text, List, [], ◌∷◌, ◌++◌, ◌≡◌, arith, length, ltb, if◌then◌else◌, ◌∙◌, sym, ap,
}
use mathlib.Core.List.{append-nil, append_assoc}
use cuearr.Errors.{ok}
use cuearr.Job.{Job, JobAttempt, JobStatus, job_queued, job_failed, Time}
use cuearr.Job.Retry.{max_attempts, begin_attempt, apply_attempt_failure, requeue_failed_job}

-- One run that fails: the worker begins an attempt, and records its failure.
abbrev pub fail_once : Time → ℕ → Job → Text → Job
fail_once at max job msg = apply_attempt_failure at (begin_attempt at job at) msg at max

-- Runs that fail with these errors, one after another.
abbrev pub fail_all : Time → ℕ → Job → List Text → Job
fail_all at max job [] = job
fail_all at max job (msg ∷ msgs) = fail_all at max (fail_once at max job msg) msgs

-- The entries that the log gets, numbered from `n` + 1 on.
abbrev pub entries : Time → ℕ → List Text → List JobAttempt
entries at n [] = []
entries at n (msg ∷ msgs) =
    record { number = n + 1; at = at; error = msg } ∷ entries at (n + 1) msgs

abbrev pub status_after : ℕ → ℕ → JobStatus
status_after count max = if ltb count max then job_queued else job_failed

record Failed (at : Time) (max : ℕ) (job : Job) (msg : Text) : Type 0 where
  count : (fail_once at max job msg).attempt_count ≡ job.attempt_count + 1
  status : (fail_once at max job msg).status ≡ status_after (job.attempt_count + 1) max
  log :
      (fail_once at max job msg).attempt_log
      ≡ job.attempt_log ++ (record { number = job.attempt_count + 1; at = at; error = msg } ∷ [])

fail_once-Failed :
    (at : Time) (max : ℕ) (job : Job) (msg : Text) → 0 < at → 0 < max → Failed at max job msg
unfolding begin_attempt apply_attempt_failure
fail_once-Failed at max job msg h k = record {
  count = ground arith;
  status = ground arith;
  log = ground arith;
}

-- The count, the log and the status after some failing runs.
record FailedAll (at : Time) (max : ℕ) (job : Job) (msgs : List Text) : Type 0 where
  count : (fail_all at max job msgs).attempt_count ≡ job.attempt_count + length msgs
  log :
      (fail_all at max job msgs).attempt_log ≡ job.attempt_log ++ entries at job.attempt_count msgs

fail_all-FailedAll :
    (at : Time) (max : ℕ) (job : Job) (msgs : List Text)
    → 0 < at
    → 0 < max
    → FailedAll at max job msgs
fail_all-FailedAll at max job [] h k = record {
  count = omega arith;
  log = sym (append-nil job.attempt_log);
}
fail_all-FailedAll at max job (msg ∷ msgs) h k =
    let f = fail_once-Failed at max job msg h k in
    let rest = fail_all-FailedAll at max (fail_once at max job msg) msgs h k in
    record {
      count = omega (arith, rest.count, f.count);
      log =
          rest.log
          ∙ ap (λ n. (fail_once at max job msg).attempt_log ++ entries at n msgs) f.count
          ∙ ap (λ l. l ++ entries at (job.attempt_count + 1) msgs) f.log
          ∙ append_assoc job.attempt_log _ _;
    }

fail_all_status :
    (at : Time) (max : ℕ) (job : Job) (msg : Text) (msgs : List Text)
    → 0 < at
    → 0 < max
    → (fail_all at max job (msg ∷ msgs)).status
      ≡ status_after (job.attempt_count + length (msg ∷ msgs)) max
fail_all_status at max job msg [] h k = (fail_once-Failed at max job msg h k).status
fail_all_status at max job msg (next ∷ msgs) h k =
    fail_all_status at max (fail_once at max job msg) next msgs h k
    ∙ ap (λ n. status_after n max) (omega (arith, (fail_once-Failed at max job msg h k).count))

pub max_attempts_pos : (n : ℕ) → 0 < max_attempts n
unfolding max_attempts
max_attempts_pos n = ground arith

-- A job that fails run after run, from any count of attempts: after at least one failing run at a
-- time that is not the zero time, the count has grown by the number of runs, the log has gained one
-- entry for each run in order, with its number and its error, and the job is queued again exactly
-- if the count is still below the bound that the setting MaxRetries stands for, and failed if not.
pub retry_budget :
    (at : Time) (max_retries : ℕ) (job : Job) (msg : Text) (msgs : List Text)
    → 0 < at
    → let final = fail_all at (max_attempts max_retries) job (msg ∷ msgs) in
      (final.attempt_count ≡ job.attempt_count + length (msg ∷ msgs))
      × (final.attempt_log ≡ job.attempt_log ++ entries at job.attempt_count (msg ∷ msgs))
      × (final.status
          ≡ status_after (job.attempt_count + length (msg ∷ msgs)) (max_attempts max_retries))
retry_budget at max_retries job msg msgs h =
    let k = max_attempts_pos max_retries in
    let all = fail_all-FailedAll at (max_attempts max_retries) job (msg ∷ msgs) h k in
    (all.count, all.log, fail_all_status at (max_attempts max_retries) job msg msgs h k)

-- A manual retry is accepted exactly for a failed job; it keeps the attempt log, and the job then
-- has the whole budget again: it fails for good at the run whose number reaches the bound.
pub requeue_budget :
    (at : Time) (max_retries : ℕ) (job fresh : Job) (msg : Text) (msgs : List Text)
    → 0 < at
    → requeue_failed_job job ≡ ok fresh
    → (job.status ≡ job_failed)
      × (fresh.status ≡ job_queued)
      × (fresh.attempt_log ≡ job.attempt_log)
      × ((fail_all at (max_attempts max_retries) fresh (msg ∷ msgs)).status
          ≡ status_after (length (msg ∷ msgs)) (max_attempts max_retries))
unfolding requeue_failed_job
requeue_budget at max_retries job fresh msg msgs h e =
    let zero_count : fresh.attempt_count ≡ 0 = ground arith in
    let k = max_attempts_pos max_retries in
    (
      ground arith,
      ground arith,
      ground arith,
      fail_all_status at (max_attempts max_retries) fresh msg msgs h k
          ∙ ap (λ n. status_after n (max_attempts max_retries)) (omega (arith, zero_count)),
    )
