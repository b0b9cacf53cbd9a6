-- ===== src/Store.antt =====
-- internal/adapters/store/sqlite: the jobs table and the statements of the Store.
-- The table is a list of rows in the order of insertion. SQLite itself may refuse any statement (a
-- full disk, a closed database): `faults` says in order what happens to the statements to come, and
-- from its end on each succeeds. A refused statement changes nothing. One connection is open, so
-- each statement is atomic. JSON stands for the attempts that it encodes.
pub mod Times
pub mod Rows
pub mod Updates
pub mod Claims
pub mod Imports
pub mod Restart
pub mod Refines
use cuearr.Prelude.{
  ℕ, zero, suc, ◌+◌, Text, lit, text_eq, Bool, true, false, not, ◌&&◌, ◌||◌, Option, none, some,
  List, [], ◌∷◌, ◌++◌, map, if◌then◌else◌, ltb, leb, ◌==◌, take, length,
}
use cuearr.Errors.{
  Error, Sentinel, conflict, not_found, sentinel, message, wrapped, annotated, error_text, Result,
  ok, err,
}
use cuearr.Job.{
  Job, JobStatus, job_queued, job_running, job_publishing, job_completed, JobAttempt, ImportStatus,
  import_unset, import_none, import_requested, import_failed, Time, zero_time, is_queued,
  is_running, is_publishing, is_completed,
}
use cuearr.Job.Import.{begin_import_request}
use cuearr.Store.Times.{
  TimeText, format_time, parse_time, nullable_time, read_time, time_text_ltb, text_ltb,
}

pub record Row : Type 0 where
  pub id : Text
  pub fingerprint : Text
  pub cue_path : Text
  pub image_path : Text
  pub out_dir : Text
  pub status : JobStatus
  pub engine : Text
  pub log_text : Text
  pub error_text : Text
  pub import_status : ImportStatus
  pub import_error : Text
  pub import_requested_at : Option TimeText
  pub import_finished_at : Option TimeText
  pub attempt_count : ℕ
  pub attempt_log : List JobAttempt
  pub created_at : TimeText
  pub started_at : Option TimeText
  pub finished_at : Option TimeText

pub record Db : Type 0 where
  pub rows : List Row
  pub faults : List (Option Text)

-- the values that Create and Update bind to the columns
unfoldable pub row_of_job : Job → Row
unfolding format_time nullable_time
row_of_job job = record {
  id = job.id;
  fingerprint = job.fingerprint;
  cue_path = job.cue_path;
  image_path = job.image_path;
  out_dir = job.out_dir;
  status = job.status;
  engine = job.engine;
  log_text = job.log;
  error_text = job.error;
  import_status = job.import_status;
  import_error = job.import_error;
  import_requested_at = nullable_time job.import_requested_at;
  import_finished_at = nullable_time job.import_finished_at;
  attempt_count = job.attempt_count;
  attempt_log = job.attempt_log;
  created_at = format_time job.created_at;
  started_at = nullable_time job.started_at;
  finished_at = nullable_time job.finished_at;
}

abbrev pub import_status_or_none : ImportStatus → ImportStatus
import_status_or_none import_unset = import_none
import_status_or_none s = s

unfoldable pub scan_job_row : Row → Job
unfolding parse_time read_time
scan_job_row row = record {
  id = row.id;
  fingerprint = row.fingerprint;
  cue_path = row.cue_path;
  image_path = row.image_path;
  out_dir = row.out_dir;
  status = row.status;
  engine = row.engine;
  log = row.log_text;
  error = row.error_text;
  import_status = import_status_or_none row.import_status;
  import_error = row.import_error;
  created_at = parse_time row.created_at;
  started_at = read_time row.started_at;
  finished_at = read_time row.finished_at;
  import_requested_at = read_time row.import_requested_at;
  import_finished_at = read_time row.import_finished_at;
  attempt_count = row.attempt_count;
  attempt_log = row.attempt_log;
}

-- a fault of the next statement, if there is one, and the database behind it
unfoldable pub next_fault : List (Option Text) → Option Text × List (Option Text)
next_fault [] = (none, [])
next_fault (f ∷ fs) = (f, fs)

-- the outcome of one statement, whose fault is given
abbrev pub execute :
    {A : Type 0}
    → Option Text
    → (Text → Error)
    → List (Option Text)
    → (List Row → Result A × List Row)
    → List Row
    → Result A × Db
execute (some t) fail faults run rows = (err (fail t), record { rows = rows; faults = faults })
execute none fail faults run rows = ((run rows).0, record { rows = (run rows).1; faults = faults })

-- Runs one statement that answers from the rows and may change them.
abbrev pub statement :
    {A : Type 0} → (Text → Error) → Db → (List Row → Result A × List Row) → Result A × Db
statement fail db run = execute (next_fault db.faults).0 fail (next_fault db.faults).1 run db.rows

-- fmt.Errorf("<what>: %w", err)
abbrev pub while_doing : Text → Text → Error
while_doing what t = wrapped what (message t)

abbrev pub first_row : (Row → Bool) → List Row → Option Row
first_row test [] = none
first_row test (r ∷ rs) = let rest = first_row test rs in if test r then some r else rest

abbrev pub has_id : Text → Row → Bool
has_id id r = text_eq r.id id

abbrev pub has_fingerprint : Text → Row → Bool
has_fingerprint fp r = text_eq r.fingerprint fp

abbrev pub job_or_not_found : Option Row → Result Job
job_or_not_found none = err (sentinel not_found)
job_or_not_found (some r) = ok (scan_job_row r)

abbrev pub unique_id : Error
unique_id = wrapped (lit "insert job") (message (lit "UNIQUE constraint failed: jobs.id"))

abbrev pub is_some : Option Row → Bool
is_some none = false
is_some (some r) = true

-- the INSERT, with the two unique columns of the table
unfoldable pub insert_row : Row → List Row → Result (Unit {0}) × List Row
insert_row row rows =
    if is_some (first_row (has_id row.id) rows)
    then (err unique_id, rows)
    else if is_some (first_row (has_fingerprint row.fingerprint) rows)
    then (err (sentinel conflict), rows)
    else (ok tt, rows ++ (row ∷ []))

abbrev pub returning : Job → Result (Unit {0}) × Db → Result Job × Db
returning job (ok u, db) = (ok job, db)
returning job (err e, db) = (err e, db)

unfoldable pub create : Job → Db → Result Job × Db
create job db =
    returning job (statement (while_doing (lit "insert job")) db (insert_row (row_of_job job)))

unfoldable pub get : Text → Db → Result Job × Db
get id db = statement message db (λ rows. (job_or_not_found (first_row (has_id id) rows), rows))

unfoldable pub find_by_fingerprint : Text → Db → Result Job × Db
find_by_fingerprint fp db =
    statement message db (λ rows. (job_or_not_found (first_row (has_fingerprint fp) rows), rows))

-- the rows with the row of this id replaced
abbrev pub replace_row : Row → List Row → List Row
replace_row row [] = []
replace_row row (r ∷ rs) =
    let rest = replace_row row rs in if text_eq r.id row.id then row ∷ rest else r ∷ rest

abbrev pub clashes : Row → Row → Bool
clashes row r = text_eq r.fingerprint row.fingerprint && not (text_eq r.id row.id)

abbrev pub unique_fingerprint : Error
unique_fingerprint =
    wrapped (lit "update job") (message (lit "UNIQUE constraint failed: jobs.fingerprint"))

-- the UPDATE by id: ErrNotFound if it affects no row
unfoldable pub update_row : Row → List Row → Result (Unit {0}) × List Row
update_row row rows =
    if not (is_some (first_row (has_id row.id) rows))
    then (err (sentinel not_found), rows)
    else if is_some (first_row (clashes row) rows)
    then (err unique_fingerprint, rows)
    else (ok tt, replace_row row rows)

abbrev pub error_of : Result (Unit {0}) × Db → Option Error × Db
error_of (ok u, db) = (none, db)
error_of (err e, db) = (some e, db)

unfoldable pub update : Job → Db → Option Error × Db
update job db =
    error_of (statement (while_doing (lit "update job")) db (update_row (row_of_job job)))

-- ORDER BY created_at ASC LIMIT 1 among the queued rows: the least text; of equal ones, the first
abbrev pub earlier : Row → Option Row → Option Row
earlier r none = some r
earlier r (some best) = if time_text_ltb best.created_at r.created_at then some best else some r

unfoldable pub oldest_queued : List Row → Option Row
oldest_queued [] = none
oldest_queued (r ∷ rs) =
    let best = oldest_queued rs in if is_queued r.status then earlier r best else best

abbrev pub claimed : TimeText → Row → Row
claimed started_at row = record row {
  status = job_running;
  started_at = some started_at;
  finished_at = none;
  error_text = [];
}

-- UPDATE ... WHERE id = (SELECT ...) RETURNING ...
unfoldable pub claim_row : TimeText → List Row → Result Job × List Row
unfolding oldest_queued
claim_row started_at rows = elim (oldest_queued rows) [
  | none ↦ (err (sentinel not_found), rows)
  | some row ↦
      (ok (scan_job_row (claimed started_at row)), replace_row (claimed started_at row) rows)
]

-- `now` is what time.Now() answers, for a zero `started_at`
unfoldable pub claim_next_queued : Time → Time → Db → Result Job × Db
claim_next_queued now started_at db =
    let at = if started_at == 0 then now else started_at in
    statement (while_doing (lit "claim next queued")) db (claim_row (format_time at))

abbrev pub recovered : Row → Row
recovered row =
    if is_running row.status
    then record row {
      status = job_queued;
      started_at = none;
      finished_at = none;
      error_text = [];
      log_text = [];
    }
    else row

abbrev pub count_running : List Row → ℕ
count_running [] = 0
count_running (r ∷ rs) = (if is_running r.status then 1 else 0) + count_running rs

unfoldable pub recover_running : Db → Result ℕ × Db
recover_running db =
    statement (while_doing (lit "recover running jobs")) db
      (λ rows. (ok (count_running rows), map recovered rows))

abbrev pub rows_where : (Row → Bool) → List Row → List Row
rows_where test [] = []
rows_where test (r ∷ rs) = let rest = rows_where test rs in if test r then r ∷ rest else rest

unfoldable pub list_publishing : Db → Result (List Job) × Db
list_publishing db =
    statement message db
      (λ rows. (ok (map scan_job_row (rows_where (λ r. is_publishing r.status) rows)), rows))

-- insertion by a strict order: equal rows keep their order
abbrev pub insert_by : (Row → Row → Bool) → Row → List Row → List Row
insert_by before r [] = r ∷ []
insert_by before r (s ∷ ss) =
    let rest = insert_by before r ss in if before s r then s ∷ rest else r ∷ s ∷ ss

abbrev pub sort_by : (Row → Row → Bool) → List Row → List Row
sort_by before [] = []
sort_by before (r ∷ rs) = insert_by before r (sort_by before rs)

-- ORDER BY created_at DESC LIMIT ?
unfoldable pub list : ℕ → Db → Result (List Job) × Db
list limit db =
    let limit' = if limit == 0 then 100 else limit in
    statement (while_doing (lit "list jobs")) db (λ rows. (
      ok (
          map scan_job_row
            (take limit' (sort_by (λ a b. time_text_ltb b.created_at a.created_at) rows))),
      rows,
    ))

-- what the statement of ClaimImport writes
abbrev pub request_import : TimeText → Row → Row
request_import at row = record row {
  import_status = import_requested;
  import_error = [];
  import_requested_at = some at;
  import_finished_at = none;
}

-- the part of ClaimImport between the query and the UPDATE: the job that is handed out
unfoldable pub claimable : Row → Time → Result Job
claimable row at =
    let job = scan_job_row row in
    let (requested, refusal) = begin_import_request job at in
    if not (is_completed job.status) then err (sentinel conflict) else elim refusal [
      | some e ↦ err (annotated (sentinel conflict) (error_text e))
      | none ↦ ok requested
    ]

-- The transaction of ClaimImport. It is one entry of `faults`: where any of its statements or its
-- commit is refused it is rolled back as a whole.
unfoldable pub claim_import_row : Text → Time → List Row → Result Job × List Row
unfolding claimable format_time
claim_import_row id at rows = elim (first_row (has_id id) rows) [
  | none ↦ (err (sentinel not_found), rows)
  | some row ↦ elim (claimable row at) [
    | err e ↦ (err e, rows)
    | ok job ↦ (ok job, replace_row (request_import (format_time at) row) rows)
  ]
]

unfoldable pub claim_import : Text → Time → Db → Result Job × Db
claim_import id at db = statement message db (claim_import_row id at)

abbrev pub is_requested : ImportStatus → Bool
is_requested import_requested = true
is_requested s = false

abbrev pub time_text_eq : Option TimeText → TimeText → Bool
time_text_eq none t = false
time_text_eq (some s) t = s.seconds == t.seconds && text_eq s.fraction t.fraction

-- id = ? AND import_status = 'requested' AND import_requested_at = ?
abbrev pub awaits : Job → Row → Bool
awaits job r =
    text_eq r.id job.id
    && is_requested r.import_status
    && time_text_eq r.import_requested_at (format_time job.import_requested_at)

abbrev pub finished : Job → Row → Row
finished job r = record r {
  import_status = job.import_status;
  import_error = job.import_error;
  import_finished_at = nullable_time job.import_finished_at;
}

abbrev pub finish_rows : Job → List Row → List Row
finish_rows job [] = []
finish_rows job (r ∷ rs) =
    let rest = finish_rows job rs in if awaits job r then finished job r ∷ rest else r ∷ rest

-- the UPDATE; the id is the primary key, so it affects one row or none
unfoldable pub finish_import_row : Job → List Row → Result (Unit {0}) × List Row
unfolding format_time nullable_time
finish_import_row job rows =
    if is_some (first_row (awaits job) rows)
    then (ok tt, finish_rows job rows)
    else (err (sentinel conflict), rows)

unfoldable pub finish_import : Job → Db → Option Error × Db
finish_import job db = error_of (statement message db (finish_import_row job))

abbrev pub wants_import : ImportStatus → Bool
wants_import import_unset = true
wants_import import_none = true
wants_import import_failed = true
wants_import s = false

-- SQLite's julianday stands as a parameter: the day number of a time's text, in some unit.
module _ (julian_day : TimeText → ℕ) where
  abbrev pub is_stale : Option TimeText → TimeText → Bool
  is_stale none before = true
  is_stale (some at) before = leb (julian_day at) (julian_day before)

  abbrev pub is_pending : TimeText → Row → Bool
  is_pending before r =
      is_completed r.status
      && (wants_import r.import_status
          || (is_requested r.import_status && is_stale r.import_requested_at before))

  unfoldable pub list_pending_imports : Time → Text → ℕ → Db → Result (List Job) × Db
  list_pending_imports stale_before after_id limit db = statement message db (λ rows. (
    ok (
        map scan_job_row (
          take limit (
            sort_by (λ a b. text_ltb a.id b.id)
              (rows_where (λ r. text_ltb after_id r.id && is_pending (format_time stale_before) r)
                rows)))),
    rows,
  ))
