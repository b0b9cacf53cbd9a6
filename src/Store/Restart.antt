-- ===== src/Store/Restart.antt =====
-- internal/adapters/store/sqlite: RecoverRunning, at the start of the daemon.
use cuearr.Prelude.{
  inl, inr, ◌+◌, ◌≡◌, refl, Text, true, false, Bool-cases, List, [], ◌∷◌, map, arith,
}
use cuearr.Errors.{ok}
use cuearr.Job.{
  JobStatus, job_queued, job_running, job_publishing, job_completed, job_failed, job_other,
  is_running, is_queued,
}
use cuearr.Store.{Row, next_fault, recovered, count_running, recover_running}
use cuearr.Store.Claims.{queued_count}

running-not-queued : (s : JobStatus) → is_running s ≡ true → is_queued s ≡ false
running-not-queued job_queued h = cc
running-not-queued job_running h = refl
running-not-queued job_publishing h = refl
running-not-queued job_completed h = refl
running-not-queued job_failed h = refl
running-not-queued (job_other t) h = refl

abbrev pub keys : List Row → List (Text × Text)
keys = map (λ r. (r.id, r.fingerprint))

recovered-keys : (rows : List Row) → keys (map recovered rows) ≡ keys rows
recovered-keys [] = refl
recovered-keys (r ∷ rows) = elim (Bool-cases (is_running r.status)) [
  | inl e ↦ rw (e, recovered-keys rows) refl
  | inr e ↦ rw (e, recovered-keys rows) refl
]

recovered-counts :
    (rows : List Row)
    → (count_running (map recovered rows) ≡ 0)
      × (queued_count (map recovered rows) ≡ queued_count rows + count_running rows)
recovered-counts [] = (refl, omega arith)
recovered-counts (r ∷ rows) =
    let (none_runs, all_queued) = recovered-counts rows in
    elim (Bool-cases (is_running r.status)) [
      | inl e ↦ (ground arith, rw (e, running-not-queued r.status e) (omega arith))
      | inr e ↦ (ground arith, ground arith)
    ]

-- In a store that meets no fault, the recovery at the start queues every running job again and says
-- how many they were: no job is running behind it, the queue grows by just these, and the ids and
-- fingerprints of the table stay as they are, in their order.
pub recover_running_lem :
    (rows : List Row)
    → let outcome = recover_running (record { rows = rows; faults = [] }) in
      (outcome.0 ≡ ok (count_running rows))
      × (count_running outcome.1.rows ≡ 0)
      × (queued_count outcome.1.rows ≡ queued_count rows + count_running rows)
      × (keys outcome.1.rows ≡ keys rows)
unfolding recover_running next_fault
recover_running_lem rows =
    (refl, (recovered-counts rows).0, (recovered-counts rows).1, recovered-keys rows)
