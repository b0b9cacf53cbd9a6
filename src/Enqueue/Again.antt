-- ===== src/Enqueue/Again.antt =====
-- internal/app/enqueue.go: the same plan, enqueued twice.
use cuearr.Prelude.{
  inl, inr, ◌≡◌, refl, Text, text_eq_refl, Bool, true, false, Bool-cases, none, some, List, [], ◌∷◌,
  ◌++◌, arith,
}
use cuearr.Errors.{ok, is_err_not_found}
use cuearr.Job.{Job, job_queued, Time, is_failed}
use cuearr.Album.{SplitPlan}
use cuearr.Store.{
  Db, Row, next_fault, first_row, has_id, has_fingerprint, row_of_job, scan_job_row, insert_row,
  create, find_by_fingerprint,
}
use cuearr.Store.Rows.{as_stored, scan_job_row-row_of_job}
use cuearr.Enqueue.{new_job, enqueue_existing, enqueue_created, enqueue_found, enqueue}

first_row-append :
    (test : Row → Bool) (rows : List Row) (r : Row)
    → first_row test rows ≡ none
    → test r ≡ true
    → first_row test (rows ++ (r ∷ [])) ≡ some r
first_row-append test [] r h e = ground arith
first_row-append test (s ∷ rows) r h e = elim (Bool-cases (test s)) [
  | inl fits ↦ absurd (ground arith)
  | inr other ↦ ground (arith, first_row-append test rows r)
]

enqueue-known :
    (id : Text) (now : Time) (plan : SplitPlan) (engine : Text) (rows : List Row) (row : Row)
    (job : Job)
    → first_row (has_fingerprint plan.fingerprint) rows ≡ some row
    → scan_job_row row ≡ job
    → is_failed job.status ≡ false
    → enqueue id now plan engine (record { rows = rows; faults = [] })
      ≡ (ok (job, false), record { rows = rows; faults = [] })
unfolding enqueue enqueue_found find_by_fingerprint next_fault enqueue_existing
enqueue-known id now plan engine rows row job found e status = rw (found, e, status) refl

create-new :
    (job : Job) (rows : List Row)
    → first_row (has_id (row_of_job job).id) rows ≡ none
    → first_row (has_fingerprint (row_of_job job).fingerprint) rows ≡ none
    → create job (record { rows = rows; faults = [] })
      ≡ (ok job, record { rows = rows ++ (row_of_job job ∷ []); faults = [] })
unfolding create insert_row next_fault
create-new job rows fresh new = rw (fresh, new) refl

enqueue-unknown :
    (id : Text) (now : Time) (plan : SplitPlan) (engine : Text) (rows : List Row) (db : Db)
    → first_row (has_fingerprint plan.fingerprint) rows ≡ none
    → create (new_job id now plan engine) (record { rows = rows; faults = [] })
      ≡ (ok (new_job id now plan engine), db)
    → enqueue id now plan engine (record { rows = rows; faults = [] })
      ≡ (ok (new_job id now plan engine, true), db)
unfolding enqueue enqueue_found enqueue_created find_by_fingerprint next_fault is_err_not_found
enqueue-unknown id now plan engine rows db new made = rw (new, made) refl

row-fingerprint :
    (id : Text) (now : Time) (plan : SplitPlan) (engine : Text)
    → has_fingerprint plan.fingerprint (row_of_job (new_job id now plan engine)) ≡ true
unfolding row_of_job new_job
row-fingerprint id now plan engine = text_eq_refl plan.fingerprint

new_job-stored :
    (id : Text) (now : Time) (plan : SplitPlan) (engine : Text)
    → is_failed (as_stored (new_job id now plan engine)).status ≡ false
unfolding new_job
new_job-stored id now plan engine = refl

create-new_job :
    (id : Text) (now : Time) (plan : SplitPlan) (engine : Text) (rows : List Row)
    → first_row (has_fingerprint plan.fingerprint) rows ≡ none
    → first_row (has_id id) rows ≡ none
    → create (new_job id now plan engine) (record { rows = rows; faults = [] }) ≡ (
      ok (new_job id now plan engine),
      record { rows = rows ++ (row_of_job (new_job id now plan engine) ∷ []); faults = [] },
    )
unfolding row_of_job new_job
create-new_job id now plan engine rows new fresh =
    create-new (new_job id now plan engine) rows fresh new

new_job-queued :
    (id : Text) (now : Time) (plan : SplitPlan) (engine : Text)
    → (new_job id now plan engine).status ≡ job_queued
unfolding new_job
new_job-queued id now plan engine = refl

new_job-fresh :
    (id : Text) (now : Time) (plan : SplitPlan) (engine : Text)
    → (new_job id now plan engine).attempt_count ≡ 0
unfolding new_job
new_job-fresh id now plan engine = refl

-- In a store that meets no fault, where neither the fingerprint nor the new id is known, a plan is
-- queued as a new job without attempts; the same plan, at any later time and with any id, is then answered with that
-- job, and nothing is queued or changed.
pub enqueue-again :
    (id id' : Text) (now now' : Time) (plan : SplitPlan) (engine engine' : Text) (rows : List Row)
    → first_row (has_fingerprint plan.fingerprint) rows ≡ none
    → first_row (has_id id) rows ≡ none
    → let job = new_job id now plan engine in
      let db : Db = record { rows = rows ++ (row_of_job job ∷ []); faults = [] } in
      (enqueue id now plan engine (record { rows = rows; faults = [] }) ≡ (ok (job, true), db))
      × (enqueue id' now' plan engine' db ≡ (ok (as_stored job, false), db))
      × (job.status ≡ job_queued)
      × (job.attempt_count ≡ 0)
enqueue-again id id' now now' plan engine engine' rows new fresh =
    let job = new_job id now plan engine in
    let there =
      first_row-append (has_fingerprint plan.fingerprint) rows (row_of_job job) new
        (row-fingerprint id now plan engine) in
    (
      enqueue-unknown id now plan engine rows _ new
          (create-new_job id now plan engine rows new fresh),
      enqueue-known id' now' plan engine' (rows ++ (row_of_job job ∷ [])) (row_of_job job)
          (as_stored job) there (scan_job_row-row_of_job job) (new_job-stored id now plan engine),
      new_job-queued id now plan engine,
      new_job-fresh id now plan engine,
    )
