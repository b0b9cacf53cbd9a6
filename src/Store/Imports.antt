-- ===== src/Store/Imports.antt =====
-- internal/adapters/store/sqlite: ClaimImport and FinishImport.
use cuearr.Prelude.{
  inl, inr, ◌+◌, ◌<◌, ◌≡◌, refl, sym, ap, ◌∙◌, Text, text_eq, text_eq_iff, text_eq_refl, true,
  Bool-cases, none, some, Option-cases, List, [], ◌∷◌, arith,
}
use cuearr.Errors.{
  Error, Result-cases, ok, err, sentinel, conflict, not_found, annotated, error_text,
}
use cuearr.Job.{Job, Time, is_completed, import_requested}
use cuearr.Job.Import.{
  begin_import_request, import_refusal, import_request_cooldown, cooldown_error,
}
use cuearr.Store.Times.{format_time, read_time, parse_time-format_time}
use cuearr.Store.{
  Db, Row, next_fault, first_row, has_id, replace_row, scan_job_row, claimable, claim_import_row,
  claim_import, request_import,
}

claimable-completed :
    (row : Row) (at : Time) {job : Job} → claimable row at ≡ ok job → is_completed job.status ≡ true
unfolding claimable begin_import_request
claimable-completed row at {job} h = elim (Bool-cases (is_completed (scan_job_row row).status)) [
  | inr other ↦ absurd (ground arith)
  | inl done ↦
      elim (Option-cases (import_refusal (scan_job_row row).import_status (scan_job_row row) at)) [
        | inl e ↦ ground arith
        | inr (x, e) ↦ absurd (ground arith)
      ]
]

claim_import_row-completed :
    (id : Text) (at : Time) (rows : List Row) {job : Job}
    → (claim_import_row id at rows).0 ≡ ok job
    → is_completed job.status ≡ true
unfolding claim_import_row
claim_import_row-completed id at rows {job} h = elim (Option-cases (first_row (has_id id) rows)) [
  | inl e ↦ absurd (ground arith)
  | inr (row, e) ↦ elim (Result-cases (claimable row at)) [
    | inl (requested, k) ↦ claimable-completed row at {job = job} (ground arith)
    | inr (x, k) ↦ absurd (ground arith)
  ]
]

-- Only a completed job is handed out for an import.
pub claim_import-completed :
    (id : Text) (at : Time) (db : Db) {job : Job}
    → (claim_import id at db).0 ≡ ok job
    → is_completed job.status ≡ true
unfolding claim_import
claim_import-completed id at db {job} h = elim (Option-cases (next_fault db.faults).0) [
  | inl e ↦ claim_import_row-completed id at db.rows {job = job} (ground arith)
  | inr (t, e) ↦ absurd (ground arith)
]

pub first_row-replace_row :
    (id : Text) (row new : Row) (rows : List Row)
    → first_row (has_id id) rows ≡ some row
    → new.id ≡ id
    → first_row (has_id id) (replace_row new rows) ≡ some new
first_row-replace_row id row new [] h e = absurd (ground arith)
first_row-replace_row id row new (r ∷ rows) h e = elim (Bool-cases (text_eq r.id id)) [
  | inl same ↦ ground (arith, text_eq_refl id)
  | inr other ↦ ground (arith, first_row-replace_row id row new rows, text_eq_refl id)
]

pub claimable-requested :
    (row : Row) (at : Time) {job : Job}
    → claimable row at ≡ ok job
    → (job.import_status ≡ import_requested)
      × (job.import_requested_at ≡ at)
      × (is_completed row.status ≡ true)
unfolding claimable begin_import_request scan_job_row
claimable-requested row at {job} h = elim (Bool-cases (is_completed row.status)) [
  | inr other ↦ absurd (ground arith)
  | inl done ↦
      elim (Option-cases (import_refusal (scan_job_row row).import_status (scan_job_row row) at)) [
        | inl e ↦ (ground arith, ground arith, done)
        | inr (x, e) ↦ absurd (ground arith)
      ]
]

claimable-again :
    (row : Row) (at later : Time)
    → is_completed row.status ≡ true
    → later < at + import_request_cooldown
    → claimable (request_import (format_time at) row) later
      ≡ err (annotated (sentinel conflict) (error_text cooldown_error))
unfolding claimable begin_import_request scan_job_row import_refusal read_time
claimable-again row at later done soon = ground (arith, parse_time-format_time at)

pub first_row-id :
    (id : Text) (rows : List Row) {row : Row} → first_row (has_id id) rows ≡ some row → row.id ≡ id
first_row-id id [] h = absurd (ground arith)
first_row-id id (r ∷ rows) {row} h = elim (Bool-cases (text_eq r.id id)) [
  | inl same ↦
      (let e : r ≡ row = ground arith in ap (λ x. x.id) (sym e) ∙ (text_eq_iff r.id id).0 same)
  | inr other ↦ first_row-id id rows {row = row} (ground arith)
]

pub claim_import_row-ok :
    (id : Text) (at : Time) (rows : List Row) (row : Row) (job : Job)
    → first_row (has_id id) rows ≡ some row
    → claimable row at ≡ ok job
    → claim_import_row id at rows ≡ (ok job, replace_row (request_import (format_time at) row) rows)
unfolding claim_import_row
claim_import_row-ok id at rows row job e k = ground arith

pub claim_import_row-none :
    (id : Text) (at : Time) (rows : List Row)
    → first_row (has_id id) rows ≡ none
    → claim_import_row id at rows ≡ (err (sentinel not_found), rows)
unfolding claim_import_row
claim_import_row-none id at rows e = ground arith

pub claim_import_row-err :
    (id : Text) (at : Time) (rows : List Row) (row : Row) (x : Error)
    → first_row (has_id id) rows ≡ some row
    → claimable row at ≡ err x
    → claim_import_row id at rows ≡ (err x, rows)
unfolding claim_import_row
claim_import_row-err id at rows row x e k = ground arith

requested_at-request_import :
    (at : Time) (row : Row)
    → read_time (request_import (format_time at) row).import_requested_at ≡ at
unfolding read_time
requested_at-request_import at row = parse_time-format_time at

-- A claim that succeeds hands out the job as requested at the moment of the request. The row of its
-- id is there afterwards, is marked as requested, and the time stored in it is read back as that
-- moment. Another claim within the cooldown is refused as a conflict, and
-- changes nothing.
pub claim_import_row-twice :
    (id : Text) (at later : Time) (rows : List Row) {job : Job}
    → (claim_import_row id at rows).0 ≡ ok job
    → later < at + import_request_cooldown
    → let rows' = (claim_import_row id at rows).1 in
      (job.import_status ≡ import_requested)
      × (job.import_requested_at ≡ at)
      × ((row : Row) × (first_row (has_id id) rows' ≡ some row)
          × (row.import_status ≡ import_requested)
          × (read_time row.import_requested_at ≡ at))
      × (claim_import_row id later rows'
          ≡ (err (annotated (sentinel conflict) (error_text cooldown_error)), rows'))
claim_import_row-twice id at later rows {job} h soon =
    elim (Option-cases (first_row (has_id id) rows)) [
      | inl e ↦ absurd (ground (arith, claim_import_row-none id at rows))
      | inr (row, e) ↦ elim (Result-cases (claimable row at)) [
        | inr (x, k) ↦ absurd (ground (arith, claim_import_row-err id at rows row x))
        | inl (requested, k) ↦
            let (status, moment, done) = claimable-requested row at {job = requested} k in
            let again = claimable-again row at later done soon in
            let there =
              first_row-replace_row id row (request_import (format_time at) row) rows e
                (first_row-id id rows e) in
            (
              ground (arith, claim_import_row-ok id at rows row requested),
              ground (arith, claim_import_row-ok id at rows row requested),
              (
                request_import (format_time at) row,
                ground (arith, there, claim_import_row-ok id at rows row requested),
                refl,
                requested_at-request_import at row,
              ),
              ground (
                arith,
                claim_import_row-ok id at rows row requested,
                claim_import_row-err id later
                    (replace_row (request_import (format_time at) row) rows)
                    (request_import (format_time at) row)
                    (annotated (sentinel conflict) (error_text cooldown_error)),
              ),
            )
      ]
    ]
