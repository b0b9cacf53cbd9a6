-- ===== src/Http/Retried.antt =====
-- internal/adapters/http/handlers.go: what a request to retry a job leaves in the jobs table.
use cuearr.Prelude.{
  ℕ, Text, lit, text_eq, true, ◌≡◌, ◌⊎◌, refl, ap, ◌∙◌, inl, inr, Bool-cases, Option-cases, arith,
}
use cuearr.Errors.{ok, Result-cases}
use cuearr.Job.{Job, job_queued, Time, is_failed}
use cuearr.Job.Retry.{requeue_failed_job}
use cuearr.Store.{Db, get, update, next_fault}
use cuearr.Store.Rows.{job_in, row_of}
use cuearr.Store.Updates.{Written, update_lem}
use cuearr.Http.{Request}
use cuearr.Http.Payload.{job_to_json}
use cuearr.Http.Handlers.{job_body, write_json, write_error, handle_retry_job, retry_with}

get-rows : (id : Text) (db : Db) → (get id db).1.rows ≡ db.rows
unfolding get
get-rows id db = elim (Option-cases (next_fault db.faults).0) [
  | inl k ↦ rw k refl
  | inr (fault, k) ↦ rw k refl
]

requeued :
    (job q : Job)
    → requeue_failed_job job ≡ ok q
    → (is_failed job.status ≡ true)
      × (q.status ≡ job_queued)
      × (q.attempt_count ≡ 0)
      × (q.id ≡ job.id)
unfolding requeue_failed_job
requeued job q h = elim (Bool-cases (is_failed job.status)) [
  | inr k ↦ absurd (ground arith)
  | inl k ↦ (k, ground arith, ground arith, ground arith)
]

carried_over :
    (q : Job) (db db' after : Db) → db'.rows ≡ db.rows → Written q db' after → Written q db after
carried_over q db db' after same (here, others) =
    (here, λ id other. others id other ∙ ap (λ rows. job_in (row_of id rows)) same)

-- What a request to retry does, whatever the database does: the failed job of the id is in the table
-- as queued and without attempts, every other job as before, and it is answered; or the answer is an
-- error and the table is as before.
pub handle_retry_job_lem :
    (format_time : Time → Text) (id : Text) (r : Request) (db : Db)
    → let (answer, after) = handle_retry_job format_time id r db in
      ((job : Job) × (q : Job) × ((get id db).0 ≡ ok job)
        × (is_failed job.status ≡ true)
        × (q.status ≡ job_queued)
        × (q.attempt_count ≡ 0)
        × (q.id ≡ job.id)
        × (answer ≡ write_json 200 (job_body (job_to_json format_time q)))
        × Written q db after)
      ⊎ ((status : ℕ) × (what : Text) × (answer ≡ write_error status what) × (after.rows ≡ db.rows))
unfolding handle_retry_job
handle_retry_job_lem format_time id r db =
    let db' = (get id db).1 in
    let same = get-rows id db in
    elim (Bool-cases (text_eq r.method (lit "POST"))) [
      | inr a ↦ rw (a, handle_retry_job) (inr (_, _, refl, refl))
      | inl a ↦ elim (Result-cases (get id db).0) [
        | inr (e, b) ↦ rw (a, b, handle_retry_job, retry_with) (inr (_, _, refl, same))
        | inl (job, b) ↦ elim (Result-cases (requeue_failed_job job)) [
          | inr (e, c) ↦ rw (a, b, c, handle_retry_job, retry_with) (inr (_, _, refl, same))
          | inl (q, c) ↦
              let (failed, queued, zero', same_id) = requeued job q c in
              let u = update_lem q db' in
              elim (Option-cases (update q db').0) [
                | inr (e, d) ↦
                    rw (a, b, c, d, handle_retry_job, retry_with) (inr (_, _, refl, u.1 e d ∙ same))
                | inl d ↦
                    rw (a, b, c, d, handle_retry_job, retry_with)
                      (inl (
                        job,
                        q,
                        refl,
                        failed,
                        queued,
                        zero',
                        same_id,
                        refl,
                        carried_over q db db' (update q db').1 same (u.0 d),
                      ))
              ]
        ]
      ]
    ]
