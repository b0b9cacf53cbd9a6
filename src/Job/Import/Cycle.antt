-- ===== src/Job/Import/Cycle.antt =====
-- internal/domain/import.go: when an import may be requested, and what never changes again.
use cuearr.Prelude.{◌+◌, ◌≤◌, ◌≡◌, ◌⊎◌, ◌↔◌, arith, none, some, []}
use cuearr.Errors.{Error}
use cuearr.Job.{Job, Time, import_unset, import_none, import_requested, import_failed}
use cuearr.Job.Import.{import_request_cooldown, begin_import_request}

-- No import was requested, the last one failed, or its request is as old as the cooldown.
abbrev pub MayRequest : Job → Time → Type 0
MayRequest job now =
    (job.import_status ≡ import_unset)
    ⊎ (job.import_status ≡ import_none)
    ⊎ (job.import_status ≡ import_failed)
    ⊎ ((job.import_status ≡ import_requested)
        × (job.import_requested_at + import_request_cooldown ≤ now))

module _ (job : Job) (now : Time) where
  pub begin-MayRequest : (begin_import_request job now).1 ≡ none → MayRequest job now
  unfolding begin_import_request
  begin-MayRequest h = ground arith

  pub MayRequest-begin : MayRequest job now → (begin_import_request job now).1 ≡ none
  unfolding begin_import_request
  MayRequest-begin h = ground arith

  begin_accepted :
      (begin_import_request job now).1 ≡ none
      → (begin_import_request job now).0 ≡ record job {
        import_status = import_requested;
        import_error = [];
        import_requested_at = now;
        import_finished_at = 0;
      }
  unfolding begin_import_request
  begin_accepted h = ground arith

  begin_refused :
      (x : Error)
      → (begin_import_request job now).1 ≡ some x
      → (begin_import_request job now).0 ≡ job
  unfolding begin_import_request
  begin_refused x h = ground arith

  -- An import request is accepted exactly where none was made, the last one failed, or the last one
  -- is at least the cooldown old; the job then differs in its import fields alone, which hold the
  -- request and its time. A refused request leaves the job as it was.
  pub begin_import_request_lem :
      let (job', e) = begin_import_request job now in
      ((e ≡ none) ↔ MayRequest job now)
      × (e ≡ none
          → job' ≡ record job {
            import_status = import_requested;
            import_error = [];
            import_requested_at = now;
            import_finished_at = 0;
          })
      × ((x : Error) → e ≡ some x → job' ≡ job)
  begin_import_request_lem = ((begin-MayRequest, MayRequest-begin), begin_accepted, begin_refused)
