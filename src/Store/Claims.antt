-- ===== src/Store/Claims.antt =====
-- internal/adapters/store/sqlite/sqlite.go: ClaimNextQueued hands out each queued job once.
pub mod Once
use cuearr.Prelude.{
  ℕ, zero, suc, ◌+◌, ◌<◌, ◌≡◌, ◌≢◌, refl, ◌∙◌, sym, ap, Text, text_eq, text_eq_iff, text_eq_refl,
  Bool, true, false, Option, none, some, List, [], ◌∷◌, ◌++◌, arith, ◌⊎◌, inl, inr, Bool-cases,
  Option-cases, if◌then◌else◌, ◌&&◌, not, All,
}
use mathlib.Core.Path.{subst}
use cuearr.Errors.{Error, Result, ok, err, not_found, sentinel}
use cuearr.Job.{Job, JobStatus, job_running, job_queued, is_queued, is_running}
use cuearr.Store.Times.{
  TimeText, time_text_ltb, time_text_ltb_neg_trans, time_text_ltb_irrefl, time_text_ltb_asym,
}
use cuearr.Store.{
  Row, oldest_queued, earlier, claimed, claim_row, replace_row, scan_job_row, clashes, first_row,
  has_id,
}
use cuearr.Store.Rows.{row_of, IsUnique, IsFresh, NoClash, replace_row-IsUnique, text_eq_comm}

-- A row of a list.
pub data In (r : Row) : List Row → Type 0 where
  here : {rs : List Row} → In r (r ∷ rs)
  there : {s : Row} {rs : List Row} → In r rs → In r (s ∷ rs)

-- No queued row has a smaller text for its time of creation.
abbrev pub IsOldest : Row → List Row → Type 0
IsOldest best =
    All (λ r. is_queued r.status ≡ true → time_text_ltb r.created_at best.created_at ≡ false)

abbrev pub queued_count : List Row → ℕ
queued_count [] = 0
queued_count (r ∷ rs) = (if is_queued r.status then 1 else 0) + queued_count rs

-- What `oldest_queued` finds.
pub record Found (best : Row) (rows : List Row) : Type 0 where
  pub member : In best rows
  pub queued : is_queued best.status ≡ true
  pub oldest : IsOldest best rows

abbrev pub Finds : Option Row → List Row → Type 0
Finds none rows = queued_count rows ≡ 0
Finds (some best) rows = Found best rows

IsOldest-weaken :
    (best r : Row) (rows : List Row)
    → time_text_ltb best.created_at r.created_at ≡ false
    → IsOldest best rows
    → IsOldest r rows
IsOldest-weaken best r [] h k = tt
IsOldest-weaken best r (s ∷ rows) h k = (
  λ q. time_text_ltb_neg_trans s.created_at best.created_at r.created_at (k.0 q) h,
  IsOldest-weaken best r rows h k.1,
)

IsOldest-of_none : (r : Row) (rows : List Row) → queued_count rows ≡ 0 → IsOldest r rows
IsOldest-of_none r [] h = tt
IsOldest-of_none r (s ∷ rows) h =
    (λ q. absurd (ground arith), IsOldest-of_none r rows (omega arith))

earlier-Finds :
    (r : Row) (o : Option Row) (rows : List Row)
    → is_queued r.status ≡ true
    → Finds o rows
    → Finds (earlier r o) (r ∷ rows)
earlier-Finds r none rows q f = record {
  member = here;
  queued = q;
  oldest = (λ _. time_text_ltb_irrefl r.created_at, IsOldest-of_none r rows f);
}
earlier-Finds r (some best) rows q f =
    elim (Bool-cases (time_text_ltb best.created_at r.created_at)) [
      | inl before ↦ rw before (record {
        member = there f.member;
        queued = f.queued;
        oldest = (λ _. time_text_ltb_asym best.created_at r.created_at before, f.oldest);
      })
      | inr after ↦ rw after (record {
        member = here;
        queued = q;
        oldest =
            (λ _. time_text_ltb_irrefl r.created_at, IsOldest-weaken best r rows after f.oldest);
      })
    ]

Finds-skip :
    (r : Row) (o : Option Row) (rows : List Row)
    → is_queued r.status ≡ false
    → Finds o rows
    → Finds o (r ∷ rows)
Finds-skip r none rows q f = rw q (omega (arith, f))
Finds-skip r (some best) rows q f = record {
  member = there f.member;
  queued = f.queued;
  oldest = (λ h. cc, f.oldest);
}

pub oldest_queued-Finds : (rows : List Row) → Finds (oldest_queued rows) rows
unfolding oldest_queued
oldest_queued-Finds [] = refl
oldest_queued-Finds (r ∷ rows) = elim (Bool-cases (is_queued r.status)) [
  | inl queued ↦
      rw queued (earlier-Finds r (oldest_queued rows) rows queued (oldest_queued-Finds rows))
  | inr other ↦ rw other (Finds-skip r (oldest_queued rows) rows other (oldest_queued-Finds rows))
]
