-- ===== src/Importer.antt =====
-- internal/app/import.go: the import service, which asks Lidarr to import a completed job. The
-- client and the clock are parameters; the store's julianday is one, too.
pub mod Outcome
pub mod Settled
use cuearr.Prelude.{
  ℕ, zero, suc, ◌+◌, ◌-◌, Text, lit, ◌++◌, Bool, true, false, not, ◌&&◌, ◌||◌, Option, none, some,
  List, [], ◌∷◌, if◌then◌else◌, is_nil, ltb, ◌==◌, leb, trim_space, length,
}
use cuearr.Errors.{Error, message, wrapped, quoted, error_text, join_errors, Result, ok, err}
use cuearr.Job.{
  Job, ImportStatus, import_unset, import_none, import_failed, import_requested, Time, is_completed,
}
use cuearr.Job.Import.{
  complete_import_ok, complete_import_fail, skip_import, import_request_cooldown,
}
use cuearr.Settings.{Settings}
use cuearr.Store.{claim_import, finish_import, update, get, list_pending_imports}
use cuearr.Store.Times.{TimeText}
use cuearr.World.{World, Run, ◌>>=◌, ◌>>◌, pure, on_db, ask}

-- s.Client and s.now; the nth question's answer
pub record ImportService : Type 0 where
  pub client : Option (ℕ → Text → Option Error)
  pub clock : ℕ → Time

abbrev pub import_pending : ImportStatus → Bool
import_pending import_unset = true
import_pending import_none = true
import_pending import_failed = true
import_pending s = false

abbrev pub is_import_failed : ImportStatus → Bool
is_import_failed import_failed = true
is_import_failed s = false

abbrev pub is_import_requested : ImportStatus → Bool
is_import_requested import_requested = true
is_import_requested s = false

abbrev pub persisted : Text → Job → Option Error → Job × Option Error
persisted what job none = (job, none)
persisted what job (some e) = (job, some (wrapped what e))

unfoldable pub skip_if_pending : Job → Text → Run (Job × Option Error)
skip_if_pending job reason =
    if not (import_pending job.import_status) || is_import_failed job.import_status
    then pure (job, none)
    else do
      e ← on_db (update (skip_import job reason))
      pure (persisted (lit "persist skipped import") (skip_import job reason) e)

abbrev pub not_configured : Settings → Bool
not_configured settings =
    not settings.lidarr_import_enabled
    || is_nil (trim_space settings.lidarr_url)
    || is_nil (trim_space settings.lidarr_api_key)

-- the job after the answer of Lidarr
unfoldable pub answered : Job → Time → Option Error → Job
answered requested now (some e) = complete_import_fail requested now (error_text e)
answered requested now none = complete_import_ok requested now

-- the error of the request, with the one of FinishImport
abbrev pub finish_errors : Option Error → Option Error → Option Error
finish_errors request_err none = request_err
finish_errors request_err (some e) =
    join_errors request_err (some (wrapped (lit "persist import result") e))

-- the part behind ClaimImport
unfoldable pub request_and_finish :
    (ℕ → Text → Option Error) → Time → Job → Run (Job × Option Error)
request_and_finish request now requested = do
  request_err ← ask (λ t. request t requested.out_dir)
  let result = answered requested now request_err
  e ← on_db (finish_import result)
  pure (result, finish_errors request_err e)

unfoldable pub claim_and_request :
    ImportService → (ℕ → Text → Option Error) → Job → Run (Job × Option Error)
claim_and_request s request job = do
  now ← ask s.clock
  claim ← on_db (claim_import job.id now)
  elim claim [
    | err e ↦ pure (job, some e)
    | ok requested ↦ request_and_finish request now requested
  ]

abbrev pub disabled : Text
disabled = lit "Lidarr import disabled or not configured"

unfoldable pub after_split_complete : ImportService → Job → Settings → Run (Job × Option Error)
after_split_complete s job settings =
    if not (is_completed job.status)
    then pure (job, some (message (lit "job " ++ (quoted job.id ++ lit " is not completed"))))
    else if settings.in_place
    then skip_if_pending job (lit "in-place output")
    else if not_configured settings
    then skip_if_pending job disabled
    else elim s.client [
      | none ↦ skip_if_pending job disabled
      | some request ↦ claim_and_request s request job
    ]

-- the manual request; a job that is not found is the zero Job there, and an error here
unfoldable pub request_import_for_job :
    ImportService → Text → Settings → Run (Result (Job × Option Error))
request_import_for_job s job_id settings = do
  job ← on_db (get job_id)
  elim job [
    | err e ↦ pure (err e)
    | ok j ↦ do result ← after_split_complete s j settings; pure (ok result)
  ]

abbrev pub error_in : Result (Job × Option Error) → Option Error
error_in (err e) = some e
error_in (ok (job, e)) = e

abbrev pub for_job : Text → Option Error → Option Error
for_job id none = none
for_job id (some e) = some (wrapped (lit "job " ++ id) e)

abbrev pub pending_import_list_limit : ℕ
pending_import_list_limit = 1000

-- the `continue` of the loop
abbrev pub is_passed_over : Job → Time → Bool
is_passed_over job now =
    not (is_completed job.status)
    || (not (import_pending job.import_status)
        && not (
            is_import_requested job.import_status
            && not (ltb now (job.import_requested_at + import_request_cooldown))))

abbrev pub asks_now : Job → Bool
asks_now job = is_import_requested job.import_status

-- s.now() is called only for a job whose import was requested
abbrev pub pass_over : ImportService → Job → Run Bool
pass_over s job =
    if asks_now job
    then (ask s.clock >>= λ now. pure (is_passed_over job now))
    else pure (is_passed_over job 0)

-- one round of the loop over a page
unfoldable pub poll_job : ImportService → Settings → Job → Bool → Run (ℕ × Option Error)
poll_job s settings job true = pure (0, none)
poll_job s settings job false = do
  result ← request_import_for_job s job.id settings
  pure (1, for_job job.id (error_in result))

-- the jobs of one page: how many were requested, and their errors
unfoldable pub poll_jobs : ImportService → Settings → List Job → Run (ℕ × Option Error)
poll_jobs s settings [] = pure (0, none)
poll_jobs s settings (job ∷ jobs) = do
  passed ← pass_over s job
  here ← poll_job s settings job passed
  later ← poll_jobs s settings jobs
  pure (here.0 + later.0, join_errors here.1 later.1)

abbrev pub last_id : Job → List Job → Text
last_id job [] = job.id
last_id job (j ∷ jobs) = last_id j jobs

module _ (julian_day : TimeText → ℕ) (s : ImportService) (settings : Settings) where
  -- The loop over the pages, on fuel: the ids of a page are above those of the pages before, so the
  -- rows of the table plus one are enough.
  unfoldable pub poll_pages : ℕ → Time → Text → Run (ℕ × Option Error)
  poll_pages zero stale_before after_id = pure (0, none)
  poll_pages (suc fuel) stale_before after_id = do
    page ← on_db (list_pending_imports julian_day stale_before after_id pending_import_list_limit)
    elim page [
      | err e ↦ pure (0, some e)
      | ok [] ↦ pure (0, none)
      | ok (job ∷ jobs) ↦ do
        here ← poll_jobs s settings (job ∷ jobs)
        rest ←
            (if ltb (length (job ∷ jobs)) pending_import_list_limit
              then pure (0, none)
              else poll_pages fuel stale_before (last_id job jobs))
        pure (here.0 + rest.0, join_errors here.1 rest.1)
    ]

  unfoldable pub poll_pending_imports : ℕ → Run (ℕ × Option Error)
  poll_pending_imports fuel =
      if leb settings.lidarr_poll_interval_sec 0
      then pure (0, none)
      else do now ← ask s.clock; poll_pages fuel (now - import_request_cooldown) []
