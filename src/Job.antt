-- ===== src/Job.antt =====
-- internal/domain/job.go: the record of one split job, with its statuses.
-- A time.Time is the number of nanoseconds since the zero time of Go, so that `IsZero` is `== 0`.
pub mod Retry
pub mod Import
use cuearr.Prelude.{ℕ, Text, Bool, true, false, List, ◌==◌}

-- JobQueued, ...; a status column may hold any other text
pub data JobStatus : Type 0 where
  job_queued job_running job_publishing job_completed job_failed : JobStatus
  job_other : Text → JobStatus

-- "", ImportNone, ...
pub data ImportStatus : Type 0 where
  import_unset import_none import_requested import_imported import_failed : ImportStatus
  import_skipped : ImportStatus
  import_other : Text → ImportStatus

abbrev pub Time : Type 0
Time = ℕ

abbrev pub is_zero : Time → Bool
is_zero t = t == 0

-- time.Time{}
abbrev pub zero_time : Time
zero_time = 0

pub record JobAttempt : Type 0 where
  pub number : ℕ
  pub at : Time
  pub error : Text

pub record Job : Type 0 where
  pub id : Text
  pub fingerprint : Text
  pub cue_path : Text
  pub image_path : Text
  pub out_dir : Text
  pub status : JobStatus
  pub engine : Text
  pub log : Text
  pub error : Text
  pub import_status : ImportStatus
  pub import_error : Text
  pub created_at : Time
  pub started_at : Time
  pub finished_at : Time
  pub import_requested_at : Time
  pub import_finished_at : Time
  pub attempt_count : ℕ
  pub attempt_log : List JobAttempt

-- status == domain.JobCompleted, and so on
abbrev pub is_queued : JobStatus → Bool
is_queued job_queued = true
is_queued _ = false

abbrev pub is_running : JobStatus → Bool
is_running job_running = true
is_running _ = false

abbrev pub is_publishing : JobStatus → Bool
is_publishing job_publishing = true
is_publishing _ = false

abbrev pub is_completed : JobStatus → Bool
is_completed job_completed = true
is_completed _ = false

abbrev pub is_failed : JobStatus → Bool
is_failed job_failed = true
is_failed _ = false
