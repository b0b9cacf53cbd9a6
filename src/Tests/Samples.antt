-- ===== src/Tests/Samples.antt =====
-- Jobs and rows for the tests.
use cuearr.Prelude.{lit, [], ◌∷◌, List}
use cuearr.Job.{Job, job_queued, job_failed, job_completed, import_none}
use cuearr.Store.{Row, row_of_job}

abbrev pub queued_job : Job
queued_job = record {
  id = lit "a1";
  fingerprint = lit "f1";
  cue_path = lit "/w/a.cue";
  image_path = lit "/w/a.flac";
  out_dir = [];
  status = job_queued;
  engine = lit "shntool";
  log = [];
  error = [];
  import_status = import_none;
  import_error = [];
  created_at = 5_000_000_000;
  started_at = 0;
  finished_at = 0;
  import_requested_at = 0;
  import_finished_at = 0;
  attempt_count = 0;
  attempt_log = [];
}

abbrev pub other_job : Job
other_job = record queued_job { id = lit "b2"; fingerprint = lit "f2"; created_at = 4_000_000_000 }

abbrev pub done_job : Job
done_job = record queued_job { status = job_completed; out_dir = lit "/out/f1" }

abbrev pub exhausted_job : Job
exhausted_job = record queued_job { status = job_failed; attempt_count = 3 }

abbrev pub two_rows : List Row
two_rows = row_of_job queued_job ∷ row_of_job other_job ∷ []
