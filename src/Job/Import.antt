-- ===== src/Job/Import.antt =====
-- internal/domain/import.go: the import status of a completed job.
pub mod Cycle
use cuearr.Prelude.{
  ℕ, ◌+◌, ◌++◌, Text, lit, Bool, true, false, ltb, if◌then◌else◌, [], Option, none, some,
}
use cuearr.Errors.{Error, message, quoted}
use cuearr.Job.{
  Job, ImportStatus, import_unset, import_none, import_requested, import_imported, import_failed,
  import_skipped, import_other, Time, zero_time,
}

-- 2 * time.Minute
abbrev pub import_request_cooldown : ℕ
import_request_cooldown = 120_000_000_000

abbrev pub cooldown_error : Error
cooldown_error = message (lit "import request is within 2m0s cooldown")

abbrev pub already_imported : Error
already_imported = message (lit "import already completed")

abbrev pub import_status_text : ImportStatus → Text
import_status_text import_unset = []
import_status_text import_none = lit "none"
import_status_text import_requested = lit "requested"
import_status_text import_imported = lit "imported"
import_status_text import_failed = lit "failed"
import_status_text import_skipped = lit "skipped"
import_status_text (import_other t) = t

-- the switch of BeginImportRequest, after "" was taken for ImportNone: the error, if it refuses
unfoldable pub import_refusal : ImportStatus → Job → Time → Option Error
import_refusal import_unset job now = none
import_refusal import_none job now = none
import_refusal import_failed job now = none
import_refusal import_requested job now =
    if ltb now (job.import_requested_at + import_request_cooldown)
    then some cooldown_error
    else none
import_refusal import_imported job now = some already_imported
import_refusal status job now =
    some (message (lit "cannot request import from status " ++ quoted (import_status_text status)))

unfoldable pub begin_import_request : Job → Time → Job × Option Error
unfolding import_refusal
begin_import_request job now = elim (import_refusal job.import_status job now) [
  | some e ↦ (job, some e)
  | none ↦ (
    record job {
      import_status = import_requested;
      import_error = [];
      import_requested_at = now;
      import_finished_at = zero_time;
    },
    none,
  )
]

unfoldable pub complete_import_ok : Job → Time → Job
complete_import_ok job now = record job {
  import_status = import_imported;
  import_error = [];
  import_finished_at = now;
}

unfoldable pub complete_import_fail : Job → Time → Text → Job
complete_import_fail job now err_msg = record job {
  import_status = import_failed;
  import_error = err_msg;
  import_finished_at = now;
}

unfoldable pub skip_import : Job → Text → Job
skip_import job reason = record job { import_status = import_skipped; import_error = reason }
