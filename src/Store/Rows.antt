-- ===== src/Store/Rows.antt =====
-- internal/adapters/store/sqlite/sqlite.go: a job goes to its row and back, and the table keeps its
-- two unique columns.
use cuearr.Prelude.{
  ◌≡◌, refl, Text, text_eq, text_eq_iff, text_eq_refl, true, false, Option, none, some, List, [],
  ◌∷◌, ◌++◌, arith, inl, inr, Bool-cases, All,
}
use cuearr.Job.{Job, Time}
use cuearr.Store.Times.{nullable_time, read_time, parse_time-format_time}
use cuearr.Store.{
  Row, Db, row_of_job, scan_job_row, import_status_or_none, first_row, has_id, has_fingerprint,
  replace_row, clashes, is_some,
}

read_time-nullable_time : (t : Time) → read_time (nullable_time t) ≡ t
unfolding read_time nullable_time
read_time-nullable_time t = ground (arith, parse_time-format_time t)

-- What a job reads back as: an import status that was never set reads as "none".
abbrev pub as_stored : Job → Job
as_stored job = record job { import_status = import_status_or_none job.import_status }

-- A job that is written to its row and read again is the same job, all its times to the nanosecond
-- included, but for an import status never set, which reads as "none".
pub scan_job_row-row_of_job : (job : Job) → scan_job_row (row_of_job job) ≡ as_stored job
unfolding scan_job_row row_of_job
scan_job_row-row_of_job job = ground (
  arith,
  parse_time-format_time job.created_at,
  read_time-nullable_time job.started_at,
  read_time-nullable_time job.finished_at,
  read_time-nullable_time job.import_requested_at,
  read_time-nullable_time job.import_finished_at,
)

-- The row of an id, and the job that it holds.
abbrev pub row_of : Text → List Row → Option Row
row_of id = first_row (has_id id)

abbrev pub job_in : Option Row → Option Job
job_in none = none
job_in (some r) = some (scan_job_row r)

abbrev pub stored : Db → Text → Option Job
stored db id = job_in (row_of id db.rows)

-- Lookups behind a replaced row.
pub row_of-replace_row_self :
    (row : Row) (rows : List Row)
    → is_some (row_of row.id rows) ≡ true
    → row_of row.id (replace_row row rows) ≡ some row
row_of-replace_row_self row [] h = cc
row_of-replace_row_self row (r ∷ rs) h =
    ground (arith, text_eq_refl row.id, row_of-replace_row_self row rs)

pub row_of-replace_row_ne :
    (row : Row) (id : Text) (rows : List Row)
    → text_eq row.id id ≡ false
    → row_of id (replace_row row rows) ≡ row_of id rows
row_of-replace_row_ne row id [] h = refl
row_of-replace_row_ne row id (r ∷ rs) h =
    ground (arith, row_of-replace_row_ne row id rs h, text_eq_iff r.id row.id, text_eq_iff r.id id)

-- No two rows have one id, and no two have one fingerprint.
abbrev pub IsFresh : Row → List Row → Type 0
IsFresh row =
    All (λ r. (text_eq r.id row.id ≡ false) × (text_eq r.fingerprint row.fingerprint ≡ false))

abbrev pub IsUnique : List Row → Type 0
IsUnique [] = Unit
IsUnique (r ∷ rs) = IsFresh r rs × IsUnique rs

pub text_eq_comm : (s t : Text) → text_eq s t ≡ text_eq t s
text_eq_comm s t = ground (arith, text_eq_iff s t, text_eq_iff t s)

-- A row whose columns are those of no row before may be appended.
IsFresh-append :
    (r row : Row) (rs : List Row)
    → IsFresh r rs
    → text_eq row.id r.id ≡ false
    → text_eq row.fingerprint r.fingerprint ≡ false
    → IsFresh r (rs ++ (row ∷ []))
IsFresh-append r row [] h k l = ((k, l), tt)
IsFresh-append r row (s ∷ rs) h k l = (h.0, IsFresh-append r row rs h.1 k l)

pub append-IsUnique :
    (row : Row) (rows : List Row)
    → is_some (first_row (has_id row.id) rows) ≡ false
    → is_some (first_row (has_fingerprint row.fingerprint) rows) ≡ false
    → IsUnique rows
    → IsUnique (rows ++ (row ∷ []))
append-IsUnique row [] h k u = (tt, tt)
append-IsUnique row (r ∷ rs) h k u = (
  IsFresh-append r row rs u.0 (ground (arith, text_eq_comm r.id row.id))
      (ground (arith, text_eq_comm r.fingerprint row.fingerprint)),
  append-IsUnique row rs (ground arith) (ground arith) u.1,
)

-- A row may take the place of the row with its id, unless another row has its fingerprint.
IsFresh-replace :
    (r row : Row) (rs : List Row)
    → IsFresh r rs
    → text_eq row.id r.id ≡ false
    → text_eq row.fingerprint r.fingerprint ≡ false
    → IsFresh r (replace_row row rs)
IsFresh-replace r row [] h k l = tt
IsFresh-replace r row (s ∷ rs) h k l =
    let rest = IsFresh-replace r row rs h.1 k l in
    elim (Bool-cases (text_eq s.id row.id)) [
      | inl same ↦ rw same ((k, l), rest)
      | inr other ↦ rw other (h.0, rest)
    ]

-- No row of `rows` has the row's fingerprint but one with its id.
abbrev pub NoClash : Row → List Row → Type 0
NoClash row = All (λ r. clashes row r ≡ false)

IsFresh-replaced :
    (r row : Row) (rs : List Row)
    → IsFresh r rs
    → text_eq r.id row.id ≡ true
    → NoClash row rs
    → IsFresh row (replace_row row rs)
IsFresh-replaced r row [] h k n = tt
IsFresh-replaced r row (s ∷ rs) h k n =
    let rest = IsFresh-replaced r row rs h.1 k n.1 in
    let apart : text_eq s.id row.id ≡ false = ground (arith, h.0, text_eq_iff r.id row.id) in
    rw apart ((apart, ground (arith, n.0)), rest)

pub replace_row-IsUnique :
    (row : Row) (rows : List Row)
    → NoClash row rows
    → IsUnique rows
    → IsUnique (replace_row row rows)
replace_row-IsUnique row [] n u = tt
replace_row-IsUnique row (r ∷ rs) n u = elim (Bool-cases (text_eq r.id row.id)) [
  | inl same ↦ rw same (IsFresh-replaced r row rs u.0 same n.1, replace_row-IsUnique row rs n.1 u.1)
  | inr other ↦ rw other (
    IsFresh-replace r row rs u.0 (ground (arith, text_eq_comm r.id row.id))
        (ground (arith, n.0, text_eq_comm r.fingerprint row.fingerprint)),
    replace_row-IsUnique row rs n.1 u.1,
  )
]

pub NoClash-of_none :
    (row : Row) (rows : List Row)
    → is_some (first_row (clashes row) rows) ≡ false
    → NoClash row rows
NoClash-of_none row [] h = tt
NoClash-of_none row (r ∷ rs) h = elim (Bool-cases (clashes row r)) [
  | inl clash ↦ absurd (ground arith)
  | inr fine ↦ (fine, NoClash-of_none row rs (rw fine at h))
]
