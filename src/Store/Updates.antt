-- ===== src/Store/Updates.antt =====
-- internal/adapters/store/sqlite/sqlite.go: Create and Update on the whole table.
use cuearr.Prelude.{
  ◌≡◌, refl, ◌∙◌, ap, Text, lit, text_eq, text_eq_refl, Bool, true, false, Option, none, some, List,
  [], ◌∷◌, ◌++◌, arith, inl, inr, Bool-cases,
}
use cuearr.Errors.{Error, Result, ok, err}
use cuearr.Job.{Job}
use cuearr.Store.{
  Row, Db, row_of_job, first_row, has_id, has_fingerprint, insert_row, update_row, clashes, create,
  update, is_some, next_fault, execute, while_doing, error_of, returning,
}
use cuearr.Store.Rows.{
  row_of, job_in, stored, as_stored, scan_job_row-row_of_job, row_of-replace_row_self,
  row_of-replace_row_ne, IsUnique, append-IsUnique, replace_row-IsUnique, NoClash-of_none,
}

-- Lookups behind an appended row.
row_of-append_ne :
    (id : Text) (row : Row) (rows : List Row)
    → text_eq row.id id ≡ false
    → row_of id (rows ++ (row ∷ [])) ≡ row_of id rows
row_of-append_ne id row [] h = rw h
row_of-append_ne id row (r ∷ rs) h = ground (arith, row_of-append_ne id row rs h)

row_of-append_self :
    (row : Row) (rows : List Row)
    → is_some (row_of row.id rows) ≡ false
    → row_of row.id (rows ++ (row ∷ [])) ≡ some row
row_of-append_self row [] h = rw (text_eq_refl row.id)
row_of-append_self row (r ∷ rs) h = ground (arith, row_of-append_self row rs)

-- What a statement that writes one job leaves: the job under its id, and all else as it was.
record Writes (job : Job) (rows rows' : List Row) : Type 0 where
  found : job_in (row_of job.id rows') ≡ some (as_stored job)
  others : (id : Text) → text_eq job.id id ≡ false → row_of id rows' ≡ row_of id rows
  unique : IsUnique rows → IsUnique rows'

found_of :
    (job : Job) {o : Option Row} → o ≡ some (row_of_job job) → job_in o ≡ some (as_stored job)
found_of job e = ap job_in e ∙ ap some (scan_job_row-row_of_job job)

abbrev succeeds : Result (Unit {0}) → Bool
succeeds (ok u) = true
succeeds (err e) = false

id-row_of_job : (job : Job) → (row_of_job job).id ≡ job.id
unfolding row_of_job
id-row_of_job job = refl

insert_row-Writes :
    (job : Job) (rows : List Row)
    → succeeds (insert_row (row_of_job job) rows).0 ≡ true
    → Writes job rows (insert_row (row_of_job job) rows).1
unfolding insert_row
insert_row-Writes job rows h =
    let row = row_of_job job in
    elim (Bool-cases (is_some (first_row (has_id row.id) rows))) [
      | inl taken ↦ absurd (ground arith)
      | inr new ↦ elim (Bool-cases (is_some (first_row (has_fingerprint row.fingerprint) rows))) [
        | inl taken ↦ absurd (ground arith)
        | inr fresh ↦
            rw (new, fresh)
              (record {
                found = found_of job (unfold row_of_job in row_of-append_self row rows new);
                others = λ id ne. row_of-append_ne id row rows (unfold row_of_job in ne);
                unique = append-IsUnique row rows new fresh;
              })
      ]
    ]

update_row-Writes :
    (job : Job) (rows : List Row)
    → succeeds (update_row (row_of_job job) rows).0 ≡ true
    → Writes job rows (update_row (row_of_job job) rows).1
unfolding update_row
update_row-Writes job rows h =
    let row = row_of_job job in
    elim (Bool-cases (is_some (first_row (has_id row.id) rows))) [
      | inr missing ↦ absurd (ground arith)
      | inl there ↦ elim (Bool-cases (is_some (first_row (clashes row) rows))) [
        | inl taken ↦ absurd (ground arith)
        | inr apart ↦
            rw (there, apart)
              (record {
                found = found_of job (unfold row_of_job in row_of-replace_row_self row rows there);
                others = λ id ne. row_of-replace_row_ne row id rows (unfold row_of_job in ne);
                unique = replace_row-IsUnique row rows (NoClash-of_none row rows apart);
              })
      ]
    ]

insert_row_refused :
    (row : Row) (rows : List Row)
    → succeeds (insert_row row rows).0 ≡ false
    → (insert_row row rows).1 ≡ rows
unfolding insert_row
insert_row_refused row rows h = ground arith

update_row_refused :
    (row : Row) (rows : List Row)
    → succeeds (update_row row rows).0 ≡ false
    → (update_row row rows).1 ≡ rows
unfolding update_row
update_row_refused row rows h = ground arith

-- The table after a write of a job that succeeded.
abbrev pub Written : Job → Db → Db → Type 0
Written job db db' =
    (stored db' job.id ≡ some (as_stored job))
    × ((id : Text) → text_eq job.id id ≡ false → stored db' id ≡ stored db id)

abbrev is_err : Option Error → Bool
is_err none = false
is_err (some e) = true

Written-of : (job : Job) (db db' : Db) → Writes job db.rows db'.rows → Written job db db'
Written-of job db db' w = (w.found, λ id ne. ap job_in (w.others id ne))

record Updates (job : Job) (db : Db) (outcome : Option Error × Db) : Type 0 where
  written : outcome.0 ≡ none → Written job db outcome.1
  kept : (x : Error) → outcome.0 ≡ some x → outcome.1.rows ≡ db.rows
  unique : IsUnique db.rows → IsUnique outcome.1.rows

abbrev outcome_of : List (Option Text) → Result (Unit {0}) × List Row → Option Error × Db
outcome_of faults r = error_of (r.0, record { rows = r.1; faults = faults })

outcome-Updates :
    (job : Job) (db : Db) (faults : List (Option Text)) (r : Result (Unit {0}) × List Row)
    → (succeeds r.0 ≡ true → Writes job db.rows r.1)
    → (succeeds r.0 ≡ false → r.1 ≡ db.rows)
    → Updates job db (outcome_of faults r)
outcome-Updates job db faults (ok u, rows) w k = record {
  written = λ e. Written-of job db (record { rows = rows; faults = faults }) (w refl);
  kept = λ x e. cc;
  unique = λ u. (w refl).unique u;
}
outcome-Updates job db faults (err e, rows) w k = record {
  written = λ e. cc;
  kept = λ x e. k refl;
  unique = λ u. rw (k refl) u;
}

update-Updates :
    (job : Job) (db : Db) (fault : Option Text) (faults : List (Option Text))
    → Updates job db (
        error_of (
          execute fault
            (while_doing (lit "update job"))
            faults
            (update_row (row_of_job job))
            db.rows))
update-Updates job db (some t) faults = record {
  written = λ e. cc;
  kept = λ x e. refl;
  unique = λ u. u;
}
update-Updates job db none faults =
    outcome-Updates job db faults (update_row (row_of_job job) db.rows)
      (update_row-Writes job db.rows) (update_row_refused (row_of_job job) db.rows)

-- Update, whatever the database does: where it reports no error, the table holds the job under its
-- id and every other job as before; where it reports one, the table is unchanged; and ids and
-- fingerprints that were unique stay so.
pub update_lem :
    (job : Job) (db : Db)
    → let (e, db') = update job db in
      (e ≡ none → Written job db db')
      × ((x : Error) → e ≡ some x → db'.rows ≡ db.rows)
      × (IsUnique db.rows → IsUnique db'.rows)
unfolding update
update_lem job db =
    let u = update-Updates job db (next_fault db.faults).0 (next_fault db.faults).1 in
    (u.written, u.kept, u.unique)

record Creates (job : Job) (db : Db) (outcome : Result Job × Db) : Type 0 where
  written : (j : Job) → outcome.0 ≡ ok j → (j ≡ job) × Written job db outcome.1
  kept : (x : Error) → outcome.0 ≡ err x → outcome.1.rows ≡ db.rows
  unique : IsUnique db.rows → IsUnique outcome.1.rows

abbrev created_of : Job → List (Option Text) → Result (Unit {0}) × List Row → Result Job × Db
created_of job faults r = returning job (r.0, record { rows = r.1; faults = faults })

outcome-Creates :
    (job : Job) (db : Db) (faults : List (Option Text)) (r : Result (Unit {0}) × List Row)
    → (succeeds r.0 ≡ true → Writes job db.rows r.1)
    → (succeeds r.0 ≡ false → r.1 ≡ db.rows)
    → Creates job db (created_of job faults r)
outcome-Creates job db faults (ok u, rows) w k = record {
  written = λ j e. (cc, Written-of job db (record { rows = rows; faults = faults }) (w refl));
  kept = λ x e. cc;
  unique = λ u. (w refl).unique u;
}
outcome-Creates job db faults (err e, rows) w k = record {
  written = λ j e. cc;
  kept = λ x e. k refl;
  unique = λ u. rw (k refl) u;
}

create-Creates :
    (job : Job) (db : Db) (fault : Option Text) (faults : List (Option Text))
    → Creates job db (
        returning job (
          execute fault
            (while_doing (lit "insert job"))
            faults
            (insert_row (row_of_job job))
            db.rows))
create-Creates job db (some t) faults = record {
  written = λ j e. cc;
  kept = λ x e. refl;
  unique = λ u. u;
}
create-Creates job db none faults =
    outcome-Creates job db faults (insert_row (row_of_job job) db.rows)
      (insert_row-Writes job db.rows) (insert_row_refused (row_of_job job) db.rows)

-- Create, whatever the database does: where it returns a job, that is the given one, the table
-- holds it under its id, and every other job as before; where it returns an error, the table is
-- unchanged; and ids and fingerprints that were unique stay so.
pub create_lem :
    (job : Job) (db : Db)
    → let (answer, db') = create job db in
      ((j : Job) → answer ≡ ok j → (j ≡ job) × Written job db db')
      × ((x : Error) → answer ≡ err x → db'.rows ≡ db.rows)
      × (IsUnique db.rows → IsUnique db'.rows)
unfolding create
create_lem job db =
    let c = create-Creates job db (next_fault db.faults).0 (next_fault db.faults).1 in
    (c.written, c.kept, c.unique)
