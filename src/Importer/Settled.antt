-- ===== src/Importer/Settled.antt =====
-- internal/app/import.go and the store: the answer of Lidarr reaches the row that was claimed.
use mathlib.Core.Path.{subst}
use cuearr.Prelude.{
  inl, inr, ◌≡◌, refl, sym, ap, ◌∙◌, Text, text_eq, text_eq_refl, true, Bool-cases, Option, none,
  some, Option-cases, List, [], ◌∷◌, arith,
}
use cuearr.Errors.{Error, Result, Result-cases, ok}
use cuearr.Job.{Job, Time, ImportStatus, import_failed, import_imported, is_completed}
use cuearr.Job.Import.{
  begin_import_request, import_refusal, complete_import_ok, complete_import_fail,
}
use cuearr.Store.{
  Row, first_row, has_id, is_some, awaits, finished, finish_rows, finish_import_row,
  claim_import_row, claimable, request_import, replace_row, time_text_eq, scan_job_row,
}
use cuearr.Store.Times.{TimeText, format_time}
use cuearr.Store.Imports.{
  claimable-requested, first_row-id, first_row-replace_row, claim_import_row-ok,
  claim_import_row-err, claim_import_row-none,
}
use cuearr.Importer.{answered}

time_text_eq_refl : (t : TimeText) → time_text_eq (some t) t ≡ true
time_text_eq_refl t = ground (arith, text_eq_refl t.fraction)

awaits-claimed :
    (row : Row) (at : Time) (job : Job)
    → job.id ≡ row.id
    → job.import_requested_at ≡ at
    → awaits job (request_import (format_time at) row) ≡ true
awaits-claimed row at job e k =
    rw (e, k, text_eq_refl row.id, time_text_eq_refl (format_time at)) refl

awaited :
    (job : Job) (id : Text) (r : Row) (rows : List Row)
    → first_row (has_id id) rows ≡ some r
    → awaits job r ≡ true
    → is_some (first_row (awaits job) rows) ≡ true
awaited job id r [] h a = absurd (ground arith)
awaited job id r (s ∷ rows) h a = elim (Bool-cases (awaits job s)) [
  | inl e ↦ rw e refl
  | inr e ↦ elim (Bool-cases (text_eq s.id id)) [
    | inl same ↦ absurd (let k : s ≡ r = ground arith in ground arith)
    | inr other ↦ rw e (awaited job id r rows (ground arith) a)
  ]
]

finish_rows-found :
    (job : Job) (id : Text) (r : Row) (rows : List Row)
    → first_row (has_id id) rows ≡ some r
    → awaits job r ≡ true
    → first_row (has_id id) (finish_rows job rows) ≡ some (finished job r)
finish_rows-found job id r [] h a = absurd (ground arith)
finish_rows-found job id r (s ∷ rows) h a = elim (Bool-cases (text_eq s.id id)) [
  | inl same ↦
      (let k : s ≡ r = ground arith in
        let b : awaits job s ≡ true = subst (λ x. awaits job x ≡ true) (sym k) a in
        rw (b, same) (ap (λ x. some (finished job x)) k))
  | inr other ↦ elim (Bool-cases (awaits job s)) [
    | inl e ↦ rw (e, other) (finish_rows-found job id r rows (ground arith) a)
    | inr e ↦ rw (e, other) (finish_rows-found job id r rows (ground arith) a)
  ]
]

claimable-id : (row : Row) (at : Time) {job : Job} → claimable row at ≡ ok job → job.id ≡ row.id
unfolding claimable begin_import_request scan_job_row
claimable-id row at {job} h = elim (Bool-cases (is_completed row.status)) [
  | inr other ↦ absurd (ground arith)
  | inl done ↦
      elim (Option-cases (import_refusal (scan_job_row row).import_status (scan_job_row row) at)) [
        | inl e ↦ ground arith
        | inr (x, e) ↦ absurd (ground arith)
      ]
]

answered-keeps :
    (job : Job) (now : Time) (e : Option Error)
    → ((answered job now e).id ≡ job.id)
      × ((answered job now e).import_requested_at ≡ job.import_requested_at)
unfolding answered complete_import_ok complete_import_fail
answered-keeps job now none = (refl, refl)
answered-keeps job now (some e) = (refl, refl)

finish_import_row-ok :
    (job : Job) (rows : List Row)
    → is_some (first_row (awaits job) rows) ≡ true
    → finish_import_row job rows ≡ (ok tt, finish_rows job rows)
unfolding finish_import_row
finish_import_row-ok job rows h = rw h refl

abbrev pub status_after : Option Error → ImportStatus
status_after none = import_imported
status_after (some e) = import_failed

answered-status :
    (job : Job) (now : Time) (e : Option Error)
    → (answered job now e).import_status ≡ status_after e
unfolding answered complete_import_ok complete_import_fail
answered-status job now none = refl
answered-status job now (some e) = refl

-- What FinishImport answers, and what the row of this id says behind it.
abbrev pub Settled : Text → Option Error → Result (Unit {0}) × List Row → Type 0
Settled id e outcome =
    (outcome.0 ≡ ok tt)
    × ((row : Row) × (first_row (has_id id) outcome.1 ≡ some row)
        × (row.import_status ≡ status_after e))

-- An import that was claimed is finished with the answer of Lidarr, if no other write comes between:
-- FinishImport finds the claimed row, and that row then says imported, or failed where the request
-- failed.
pub finish_import_row-claimed :
    (id : Text) (at now : Time) (e : Option Error) (rows : List Row) {job : Job}
    → (claim_import_row id at rows).0 ≡ ok job
    → let outcome = finish_import_row (answered job now e) (claim_import_row id at rows).1 in
      (outcome.0 ≡ ok tt)
      × ((row : Row) × (first_row (has_id id) outcome.1 ≡ some row)
          × (row.import_status ≡ status_after e))
finish_import_row-claimed id at now e rows {job} h =
    elim (Option-cases (first_row (has_id id) rows)) [
      | inl x ↦ absurd (ground (arith, claim_import_row-none id at rows))
      | inr (row, found) ↦ elim (Result-cases (claimable row at)) [
        | inr (x, k) ↦ absurd (ground (arith, claim_import_row-err id at rows row x))
        | inl (requested, k) ↦
            let ran = claim_import_row-ok id at rows row requested found k in
            let same : job ≡ requested = ground arith in
            let (_, moment, _) = claimable-requested row at {job = requested} k in
            let new = request_import (format_time at) row in
            let rows' = replace_row new rows in
            let there = first_row-replace_row id row new rows found (first_row-id id rows found) in
            let final = answered requested now e in
            let (id_kept, at_kept) = answered-keeps requested now e in
            let fits =
              awaits-claimed row at final (id_kept ∙ claimable-id row at {job = requested} k)
                (at_kept ∙ moment) in
            let done = finish_import_row-ok final rows' (awaited final id new rows' there fits) in
            subst
              (λ j.
                Settled id e (finish_import_row (answered j now e) (claim_import_row id at rows).1))
              (sym same)
              (subst (λ c. Settled id e (finish_import_row final c.1)) (sym ran)
                (subst (Settled id e) (sym done) (
                  refl,
                  (
                    finished final new,
                    finish_rows-found final id new rows' there fits,
                    answered-status requested now e,
                  ),
                )))
      ]
    ]
