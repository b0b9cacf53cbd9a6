-- ===== src/Importer/Outcome.antt =====
-- internal/app/import.go: what a request of an import leaves of the job.
use cuearr.Prelude.{
  inl, inr, ℕ, ◌≡◌, refl, Text, true, Bool-cases, Option, none, some, Option-cases, not, ◌||◌,
}
use cuearr.Errors.{Error, Result-cases}
use cuearr.Job.{Job, Time, is_completed}
use cuearr.Job.Import.{complete_import_ok, complete_import_fail, skip_import}
use cuearr.Settings.{Settings}
use cuearr.Store.{claim_import}
use cuearr.Store.Imports.{claim_import-completed}
use cuearr.World.{World}
use cuearr.Importer.{
  ImportService, skip_if_pending, import_pending, is_import_failed, not_configured, answered,
  request_and_finish, claim_and_request, after_split_complete, persisted,
}

answered-completed :
    (requested : Job) (now : Time) (e : Option Error)
    → is_completed requested.status ≡ true
    → is_completed (answered requested now e).status ≡ true
unfolding answered complete_import_ok complete_import_fail
answered-completed requested now none h = h
answered-completed requested now (some e) h = h

persisted-job : (what : Text) (job : Job) (e : Option Error) → (persisted what job e).0 ≡ job
persisted-job what job none = refl
persisted-job what job (some e) = refl

skip_if_pending-completed :
    (job : Job) (reason : Text) (w : World)
    → is_completed job.status ≡ true
    → is_completed (skip_if_pending job reason w).0.0.status ≡ true
unfolding skip_if_pending skip_import
skip_if_pending-completed job reason w h =
    elim (Bool-cases
      (not (import_pending job.import_status) || is_import_failed job.import_status)) [
        | inl e ↦ rw e h
        | inr e ↦ rw (e, persisted-job) h
      ]

claim_and_request-completed :
    (s : ImportService) (request : ℕ → Text → Option Error) (job : Job) (w : World)
    → is_completed job.status ≡ true
    → is_completed (claim_and_request s request job w).0.0.status ≡ true
unfolding claim_and_request request_and_finish
claim_and_request-completed s request job w h =
    elim (Result-cases (claim_import job.id (s.clock w.ticks) w.db).0) [
      | inr (x, e) ↦ rw e h
      | inl (requested, e) ↦
          rw e (answered-completed requested _ _ (claim_import-completed job.id _ w.db e))
    ]

-- A completed job stays completed, whatever the import service, the store and Lidarr make of it.
pub after_split_complete-completed :
    (s : ImportService) (job : Job) (settings : Settings) (w : World)
    → is_completed job.status ≡ true
    → is_completed (after_split_complete s job settings w).0.0.status ≡ true
unfolding after_split_complete
after_split_complete-completed s job settings w h = rw h (elim (Bool-cases settings.in_place) [
  | inl e ↦ rw e (skip_if_pending-completed job _ w h)
  | inr e ↦ rw e (elim (Bool-cases (not_configured settings)) [
    | inl k ↦ rw k (skip_if_pending-completed job _ w h)
    | inr k ↦ rw k (elim (Option-cases s.client) [
      | inl c ↦ rw c (skip_if_pending-completed job _ w h)
      | inr (request, c) ↦ rw c (claim_and_request-completed s request job w h)
    ])
  ])
])
