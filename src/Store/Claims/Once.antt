-- ===== src/Store/Claims/Once.antt =====
-- internal/adapters/store/sqlite/sqlite.go: a claim takes one queued job off the queue, and no job
-- is claimed twice.
use cuearr.Prelude.{
  ℕ, zero, suc, ◌+◌, ◌≡◌, refl, ◌∙◌, ap, Text, text_eq, text_eq_iff, text_eq_refl, true, false,
  none, some, List, [], ◌∷◌, arith, ◌⊎◌, inl, inr, Bool-cases, Option-cases, All, length, min,
}
use mathlib.Core.Path.{subst}
use cuearr.Errors.{Result, ok, err, not_found, sentinel}
use cuearr.Job.{Job, job_running, is_queued}
use cuearr.Store.Times.{TimeText}
use cuearr.Store.{Row, oldest_queued, claimed, claim_row, replace_row, scan_job_row, is_some}
use cuearr.Store.Rows.{
  row_of, IsUnique, IsFresh, NoClash, replace_row-IsUnique, row_of-replace_row_self,
  row_of-replace_row_ne, text_eq_comm,
}
use cuearr.Store.Claims.{In, here, there, Finds, Found, queued_count, oldest_queued-Finds}

-- A row that is fresh among others differs from each of them.
Fresh-In :
    (h r : Row) (rows : List Row)
    → IsFresh h rows
    → In r rows
    → (text_eq r.id h.id ≡ false) × (text_eq r.fingerprint h.fingerprint ≡ false)
Fresh-In h r [] f m = elim m [ ]
Fresh-In h r (s ∷ rows) f here = f.0
Fresh-In h r (s ∷ rows) f (there m) = Fresh-In h r rows f.1 m

NoClash-of_fresh :
    (at : TimeText) (r : Row) (rows : List Row) → IsFresh r rows → NoClash (claimed at r) rows
NoClash-of_fresh at r [] f = tt
NoClash-of_fresh at r (s ∷ rows) f = (ground (arith, f.0), NoClash-of_fresh at r rows f.1)

In-NoClash :
    (at : TimeText) (r : Row) (rows : List Row)
    → IsUnique rows
    → In r rows
    → NoClash (claimed at r) rows
In-NoClash at r [] u m = elim m [ ]
In-NoClash at r (s ∷ rows) u here =
    (ground (arith, text_eq_refl s.id), NoClash-of_fresh at s rows u.0)
In-NoClash at r (s ∷ rows) u (there m) = (
  ground (arith, Fresh-In s r rows u.0 m, text_eq_comm s.fingerprint r.fingerprint),
  In-NoClash at r rows u.1 m,
)

replace_row_absent :
    (row r : Row) (rows : List Row) → IsFresh r rows → row.id ≡ r.id → replace_row row rows ≡ rows
replace_row_absent row r [] f e = refl
replace_row_absent row r (s ∷ rows) f e =
    let apart : text_eq s.id row.id ≡ false = rw e (f.0.0) in
    rw apart (ap (λ l. s ∷ l) (replace_row_absent row r rows f.1 e))

queued_count-claimed :
    (at : TimeText) (r : Row) (rows : List Row)
    → IsUnique rows
    → In r rows
    → is_queued r.status ≡ true
    → queued_count (replace_row (claimed at r) rows) + 1 ≡ queued_count rows
queued_count-claimed at r [] u m q = elim m [ ]
queued_count-claimed at r (s ∷ rows) u here q =
    rw (text_eq_refl s.id)
      (rw (replace_row_absent (claimed at s) s rows u.0 refl) (rw q (omega arith)))
queued_count-claimed at r (s ∷ rows) u (there m) q =
    let apart : text_eq s.id r.id ≡ false = text_eq_comm s.id r.id ∙ (Fresh-In s r rows u.0 m).0 in
    rw apart (omega (arith, queued_count-claimed at r rows u.1 m q))

row_of-In : (r : Row) (rows : List Row) → In r rows → is_some (row_of r.id rows) ≡ true
row_of-In r [] m = elim m [ ]
row_of-In r (s ∷ rows) here = rw (text_eq_refl s.id)
row_of-In r (s ∷ rows) (there m) = ground (arith, row_of-In r rows m)

-- What a claim does where a job is queued: `best` is handed out.
pub record Claims (at : TimeText) (rows : List Row) (best : Row) : Type 0 where
  pub found : Found best rows
  pub answer : (claim_row at rows).0 ≡ ok (scan_job_row (claimed at best))
  pub running : row_of best.id (claim_row at rows).1 ≡ some (claimed at best)
  pub status : (scan_job_row (claimed at best)).status ≡ job_running
  pub others :
      (id : Text) → text_eq best.id id ≡ false → row_of id (claim_row at rows).1 ≡ row_of id rows
  pub shrinks : queued_count (claim_row at rows).1 + 1 ≡ queued_count rows
  pub unique : IsUnique (claim_row at rows).1

claim_row-some :
    (at : TimeText) (rows : List Row) (best : Row)
    → oldest_queued rows ≡ some best
    → claim_row at rows ≡ (ok (scan_job_row (claimed at best)), replace_row (claimed at best) rows)
unfolding claim_row
claim_row-some at rows best e = rw (e, claim_row) refl

claim_row-none :
    (at : TimeText) (rows : List Row)
    → oldest_queued rows ≡ none
    → claim_row at rows ≡ (err (sentinel not_found), rows)
unfolding claim_row
claim_row-none at rows e = rw (e, claim_row) refl

claim_found :
    (at : TimeText) (rows : List Row) (best : Row)
    → IsUnique rows
    → oldest_queued rows ≡ some best
    → Claims at rows best
unfolding scan_job_row
claim_found at rows best u e =
    let f : Found best rows = subst (λ o. Finds o rows) e (oldest_queued-Finds rows) in
    let run = claim_row-some at rows best e in
    record {
      found = f;
      answer = rw run refl;
      running =
          rw run (row_of-replace_row_self (claimed at best) rows (row_of-In best rows f.member));
      status = refl;
      others = λ id ne. rw run (row_of-replace_row_ne (claimed at best) id rows ne);
      shrinks = rw run (queued_count-claimed at best rows u f.member f.queued);
      unique =
          rw run
            (replace_row-IsUnique (claimed at best) rows (In-NoClash at best rows u f.member) u);
    }

-- A claim on a table with unique ids and fingerprints. Where no row is queued it answers
-- ErrNotFound and changes nothing. Where one is, it hands out a queued row with the least creation
-- text, as running; every other row is unchanged, exactly one row fewer is queued, and the ids and
-- fingerprints stay unique.
pub claim_row_lem :
    (at : TimeText) (rows : List Row)
    → IsUnique rows
    → ((queued_count rows ≡ 0) × (claim_row at rows ≡ (err (sentinel not_found), rows)))
      ⊎ ((best : Row) × Claims at rows best)
claim_row_lem at rows u = elim (Option-cases (oldest_queued rows)) [
  | inl e ↦ inl (subst (λ o. Finds o rows) e (oldest_queued-Finds rows), claim_row-none at rows e)
  | inr (best, e) ↦ inr (best, claim_found at rows best u e)
]

-- The jobs that `n` claims in a row hand out.
abbrev answered : Result Job → List Job → List Job
answered (ok job) rest = job ∷ rest
answered (err e) rest = rest

abbrev pub claim_many : TimeText → ℕ → List Row → List Job
claim_many at zero rows = []
claim_many at (suc n) rows = answered (claim_row at rows).0 (claim_many at n (claim_row at rows).1)

-- A job that no longer waits in the queue.
abbrev IsTaken : Text → List Row → Type 0
IsTaken id rows = (r : Row) × (row_of id rows ≡ some r) × (is_queued r.status ≡ false)

row_of-In_eq : (r : Row) (rows : List Row) → IsUnique rows → In r rows → row_of r.id rows ≡ some r
row_of-In_eq r [] u m = elim m [ ]
row_of-In_eq r (s ∷ rows) u here = rw (text_eq_refl s.id)
row_of-In_eq r (s ∷ rows) u (there m) =
    ground (arith, Fresh-In s r rows u.0 m, text_eq_comm s.id r.id, row_of-In_eq r rows u.1 m)

taken_not_best :
    (at : TimeText) (id : Text) (rows : List Row) (best : Row)
    → IsUnique rows
    → IsTaken id rows
    → Found best rows
    → text_eq best.id id ≡ false
taken_not_best at id rows best u (r, e, q) f = elim (Bool-cases (text_eq best.id id)) [
  | inr other ↦ other
  | inl same ↦
      let path : best.id ≡ id = (text_eq_iff best.id id).0 same in
      let there_best : row_of id rows ≡ some best =
        rw (← path) (row_of-In_eq best rows u f.member) in
      absurd (ground (arith, f.queued))
]

-- `id` is that of none of the jobs.
abbrev Absent : Text → List Job → Type 0
Absent id = All (λ (j : Job). text_eq j.id id ≡ false)

abbrev pub DistinctIds : List Job → Type 0
DistinctIds [] = Unit
DistinctIds (j ∷ js) = Absent j.id js × DistinctIds js

id-scan_job_row : (at : TimeText) (r : Row) → (scan_job_row (claimed at r)).id ≡ r.id
unfolding scan_job_row
id-scan_job_row at r = refl

IsTaken-kept :
    (at : TimeText) (id : Text) (rows : List Row) (best : Row)
    → Claims at rows best
    → text_eq best.id id ≡ false
    → IsTaken id rows
    → IsTaken id (claim_row at rows).1
IsTaken-kept at id rows best c ne (r, e, q) = (r, c.others id ne ∙ e, q)

claim_many-Absent :
    (at : TimeText) (n : ℕ) (id : Text) (rows : List Row)
    → IsUnique rows
    → IsTaken id rows
    → Absent id (claim_many at n rows)
claim_many-Absent at zero id rows u t = tt
claim_many-Absent at (suc n) id rows u t = elim (claim_row_lem at rows u) [
  | inl (_, e) ↦ rw e (claim_many-Absent at n id rows u t)
  | inr (best, c) ↦
      let ne = taken_not_best at id rows best u t c.found in
      rw (c.answer) (
        rw (id-scan_job_row at best) ne,
        claim_many-Absent at n id _ c.unique (IsTaken-kept at id rows best c ne t),
      )
]

claim_many_distinct :
    (at : TimeText) (n : ℕ) (rows : List Row) → IsUnique rows → DistinctIds (claim_many at n rows)
claim_many_distinct at zero rows u = tt
claim_many_distinct at (suc n) rows u = elim (claim_row_lem at rows u) [
  | inl (_, e) ↦ rw e (claim_many_distinct at n rows u)
  | inr (best, c) ↦ rw (c.answer) (
    rw (id-scan_job_row at best)
        (claim_many-Absent at n best.id _ c.unique (claimed at best, c.running, refl)),
    claim_many_distinct at n _ c.unique,
  )
]

length-claim_many :
    (at : TimeText) (n : ℕ) (rows : List Row)
    → IsUnique rows
    → length (claim_many at n rows) ≡ min n (queued_count rows)
length-claim_many at zero rows u = omega arith
length-claim_many at (suc n) rows u = elim (claim_row_lem at rows u) [
  | inl (z, e) ↦ rw e (omega (arith, length-claim_many at n rows u, z))
  | inr (best, c) ↦ rw (c.answer) (omega (arith, length-claim_many at n _ c.unique, c.shrinks))
]

-- Claims in a row, from a table with unique ids and fingerprints, hand out as many jobs as there
-- are queued rows, or as claims if those are fewer, and no job twice.
pub claim_many_lem :
    (at : TimeText) (n : ℕ) (rows : List Row)
    → IsUnique rows
    → (length (claim_many at n rows) ≡ min n (queued_count rows))
      × DistinctIds (claim_many at n rows)
claim_many_lem at n rows u = (length-claim_many at n rows u, claim_many_distinct at n rows u)
