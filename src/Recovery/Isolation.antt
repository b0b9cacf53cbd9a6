-- ===== src/Recovery/Isolation.antt =====
-- internal/app/publication_recovery.go: the loop over the jobs that are publishing.
use cuearr.Prelude.{inl, inr, ◌≡◌, refl, true, false, some, Option-cases, List, [], ◌∷◌, ◌++◌}
use cuearr.Errors.{Error}
use cuearr.Job.{Job}
use cuearr.World.{World}
use cuearr.Recovery.{Recoverer, recover_publishing_job, recover_jobs}

-- With isolation, whatever becomes of the first jobs, their errors included, the jobs behind them are
-- recovered from the world that the first ones leave, as if they stood alone.
pub recover_jobs-append :
    (w : Recoverer) (first rest : List Job) (world : World)
    → (recover_jobs w true (first ++ rest) world).1
      ≡ (recover_jobs w true rest (recover_jobs w true first world).1).1
unfolding recover_jobs
recover_jobs-append w [] rest world = refl
recover_jobs-append w (job ∷ first) rest world =
    elim (Option-cases (recover_publishing_job w true job world).0) [
      | inl e ↦ rw e (recover_jobs-append w first rest (recover_publishing_job w true job world).1)
      | inr (error, e) ↦
          rw e (recover_jobs-append w first rest (recover_publishing_job w true job world).1)
    ]

-- Without isolation, the first job that fails ends the loop: its error is the answer, and no later
-- job is touched.
pub recover_jobs-stops :
    (w : Recoverer) (job : Job) (rest : List Job) (world : World) (error : Error)
    → (recover_publishing_job w false job world).0 ≡ some error
    → recover_jobs w false (job ∷ rest) world
      ≡ (some error, (recover_publishing_job w false job world).1)
unfolding recover_jobs
recover_jobs-stops w job rest world error e = rw e refl
