-- ===== src/Scan.antt =====
-- internal/app/scan.go: a directory becomes a queued job, and the directories of a scan in order.
-- What WalkCueDirs answers is given; cancelled contexts are not modelled.
use cuearr.Prelude.{Text, Bool, Option, none, some, List, [], ◌∷◌, ◌++◌, ◌≡◌, ◌∙◌, sym, refl}
use cuearr.Errors.{Error, Result, ok, err}
use cuearr.Job.{Job, Time}
use cuearr.Album.{AlbumReader, SplitPlan, detect_album}
use cuearr.Enqueue.{enqueue}
use cuearr.Store.{Db}

abbrev enqueued : Text → Time → Text → Result SplitPlan → Db → Result (Job × Bool) × Db
enqueued id now engine (err e) db = (err e, db)
enqueued id now engine (ok plan) db = enqueue id now plan engine db

unfoldable pub scan_dir : AlbumReader → Text → Time → Text → Text → Db → Result (Job × Bool) × Db
scan_dir reader id now engine dir db = enqueued id now engine (detect_album reader dir) db

module _ {S : Type 0} (on_dir : Text → S → Option Error × S) where
  abbrev after_dir : Option Error × S → (S → Option Error × S) → Option Error × S
  after_dir (some e, s) rest = (some e, s)
  after_dir (none, s) rest = rest s

  unfoldable pub scan_dirs : List Text → S → Option Error × S
  scan_dirs [] s = (none, s)
  scan_dirs (dir ∷ dirs) s = after_dir (on_dir dir s) (scan_dirs dirs)

  unfoldable pub scan_all : Result (List Text) → S → Option Error × S
  scan_all (err e) s = (some e, s)
  scan_all (ok dirs) s = scan_dirs dirs s

  after_dir_assoc :
      (r : Option Error × S) (f g : S → Option Error × S)
      → after_dir (after_dir r f) g ≡ after_dir r (λ s. after_dir (f s) g)
  after_dir_assoc (none, s) f g = refl
  after_dir_assoc (some e, s) f g = refl

  after_dir_cong :
      (r : Option Error × S) (f g : S → Option Error × S)
      → ((s : S) → f s ≡ g s)
      → after_dir r f ≡ after_dir r g
  after_dir_cong (none, s) f g h = h s
  after_dir_cong (some e, s) f g h = refl

  -- A scan in two parts is the scan of both: the second part is reached exactly where the first one
  -- meets no error.
  pub scan_dirs-append :
      (ds es : List Text) (s : S)
      → scan_dirs (ds ++ es) s ≡ after_dir (scan_dirs ds s) (scan_dirs es)
  unfolding scan_dirs
  scan_dirs-append [] es s = refl
  scan_dirs-append (d ∷ ds) es s =
      after_dir_cong (on_dir d s) (scan_dirs (ds ++ es))
        (λ t. after_dir (scan_dirs ds t) (scan_dirs es)) (scan_dirs-append ds es)
      ∙ sym (after_dir_assoc (on_dir d s) (scan_dirs ds) (scan_dirs es))
