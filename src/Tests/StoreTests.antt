-- ===== src/Tests/StoreTests.antt =====
-- internal/adapters/store/sqlite, the mapping of paths and the choice of files at concrete inputs.
use cuearr.Prelude.{
  ◌+◌, ℕ, ◌<◌, ◌≡◌, ◌≢◌, ◌⊎◌, refl, lit, true, none, some, List, [], ◌∷◌, ◌++◌, arith, min, length,
  map, is_nil, if◌then◌else◌, has_suffix, to_lower,
}
use cuearr.Errors.{message, Error, ok, err, sentinel, not_found, conflict, annotated, error_text}
use cuearr.Job.{Job, import_requested, job_running}
use cuearr.Job.Import.{cooldown_error, begin_import_request}
use cuearr.Cue.{CueSheet}
use cuearr.Filepath.{join}
use cuearr.Settings.{PathMapRule, map_lidarr_path}
use cuearr.Settings.PathMap.{FirstRewrite, NoneFits, map_lidarr_path_lem}
use cuearr.Album.{
  DirEntry, SplitPlan, image_name, build_split_plan, pick_single_cue_file, candidates, entry_exists,
  pick_cue_from, pick_single_audio,
}
use cuearr.Album.Plan.{In, cue_names, only_name, pick_single_cue_file_lem, build_split_plan_lem}
use cuearr.Store.{
  Row, Db, row_of_job, scan_job_row, create, update, claim_row, claim_import_row, count_running,
  recover_running, first_row, has_id, finish_import_row,
}
use cuearr.Importer.{answered}
use cuearr.Importer.Settled.{status_after, finish_import_row-claimed}
use cuearr.Store.Times.{
  TimeText, format_time, parse_time, read_time, time_text_ltb, later_sorts_first,
}
use cuearr.Store.Rows.{IsUnique}
use cuearr.Store.Restart.{keys, recover_running_lem}
use cuearr.Store.Updates.{Written, update_lem, create_lem}
use cuearr.Store.Claims.{queued_count}
use cuearr.Store.Claims.Once.{Claims, claim_many, DistinctIds, claim_row_lem, claim_many_lem}
use cuearr.Store.Imports.{claim_import_row-twice}
use cuearr.Tests.Samples.{queued_job, other_job, done_job, two_rows}

abbrev music : List PathMapRule
music = record { from = lit "/data/"; to = lit "/music" } ∷ []

map_lidarr_path_lem_example :
    FirstRewrite (lit "/data/a") (map_lidarr_path (lit "/data/a") music) music
    ⊎ (NoneFits (lit "/data/a") music × (map_lidarr_path (lit "/data/a") music ≡ lit "/data/a"))
map_lidarr_path_lem_example = map_lidarr_path_lem (lit "/data/a") music

later_sorts_first_example :
    let earlier : TimeText = record { seconds = 9; fraction = 1 ∷ [] } in
    let later : TimeText = record { seconds = 9; fraction = (1 ∷ []) ++ (5 ∷ []) } in
    (parse_time earlier < parse_time later) × (time_text_ltb later earlier ≡ true)
later_sorts_first_example =
    later_sorts_first 9 (1 ∷ []) 5 [] (omega arith) (omega arith) (omega arith)

abbrev two_jobs : Db
two_jobs = record { rows = two_rows; faults = none ∷ some (lit "disk full") ∷ [] }

update_lem_example :
    let (e, db') = update other_job two_jobs in
    (e ≡ none → Written other_job two_jobs db')
    × ((x : Error) → e ≡ some x → db'.rows ≡ two_jobs.rows)
    × (IsUnique two_jobs.rows → IsUnique db'.rows)
update_lem_example = update_lem other_job two_jobs

abbrev third_job : Job
third_job = record other_job { id = lit "c3"; fingerprint = lit "f3" }

create_lem_example :
    let (answer, db') = create third_job two_jobs in
    ((j : Job) → answer ≡ ok j → (j ≡ third_job) × Written third_job two_jobs db')
    × ((x : Error) → answer ≡ err x → db'.rows ≡ two_jobs.rows)
    × (IsUnique two_jobs.rows → IsUnique db'.rows)
create_lem_example = create_lem third_job two_jobs

claim_row_lem_example :
    ((queued_count two_rows ≡ 0)
      × (claim_row (format_time 9) two_rows ≡ (err (sentinel not_found), two_rows)))
    ⊎ ((best : Row) × Claims (format_time 9) two_rows best)
unfolding row_of_job
claim_row_lem_example = claim_row_lem (format_time 9) two_rows (((refl, refl), tt), (tt, tt))

claim_many_lem_example :
    (length (claim_many (format_time 9) 3 two_rows) ≡ min 3 (queued_count two_rows))
    × DistinctIds (claim_many (format_time 9) 3 two_rows)
unfolding row_of_job
claim_many_lem_example = claim_many_lem (format_time 9) 3 two_rows (((refl, refl), tt), (tt, tt))

abbrev running_rows : List Row
running_rows = row_of_job (record queued_job { status = job_running }) ∷ row_of_job other_job ∷ []

recover_running_lem_example :
    let outcome = recover_running (record { rows = running_rows; faults = [] }) in
    (outcome.0 ≡ ok (count_running running_rows))
    × (count_running outcome.1.rows ≡ 0)
    × (queued_count outcome.1.rows ≡ queued_count running_rows + count_running running_rows)
    × (keys outcome.1.rows ≡ keys running_rows)
recover_running_lem_example = recover_running_lem running_rows

abbrev done_rows : List Row
done_rows = row_of_job done_job ∷ []

abbrev claimed_job : Job
claimed_job = record done_job { import_status = import_requested; import_requested_at = 100 }

claim_import_row-twice_example :
    let rows' = (claim_import_row (lit "a1") 100 done_rows).1 in
    (claimed_job.import_status ≡ import_requested)
    × (claimed_job.import_requested_at ≡ 100)
    × ((row : Row) × (first_row (has_id (lit "a1")) rows' ≡ some row)
        × (row.import_status ≡ import_requested)
        × (read_time row.import_requested_at ≡ 100))
    × (claim_import_row (lit "a1") 200 rows'
        ≡ (err (annotated (sentinel conflict) (error_text cooldown_error)), rows'))
unfolding claim_import_row row_of_job scan_job_row begin_import_request
claim_import_row-twice_example =
    claim_import_row-twice (lit "a1") 100 200 done_rows {job = claimed_job} refl (omega arith)

finish_import_row-claimed_example :
    let outcome =
      finish_import_row
        (answered claimed_job 900 (some (message (lit "timeout"))))
        (claim_import_row (lit "a1") 100 done_rows).1 in
    (outcome.0 ≡ ok tt)
    × ((row : Row) × (first_row (has_id (lit "a1")) outcome.1 ≡ some row)
        × (row.import_status ≡ status_after (some (message (lit "timeout")))))
unfolding claim_import_row row_of_job scan_job_row begin_import_request
finish_import_row-claimed_example =
    finish_import_row-claimed (lit "a1") 100 900 (some (message (lit "timeout"))) done_rows
      {job = claimed_job} refl

abbrev entries : List DirEntry
entries = record { name = lit "a.cue" } ∷ record { name = lit "a.flac" } ∷ []

pick_single_cue_file_lem_example : pick_single_cue_file entries ≡ only_name (cue_names entries)
pick_single_cue_file_lem_example = pick_single_cue_file_lem entries

abbrev sheet : CueSheet
sheet = record { genre = []; date = []; performer = []; title = []; file = []; tracks = [] }

abbrev plan : SplitPlan
plan = record {
  cue_path = lit "/w/a.cue";
  image_path = lit "/w/a.flac";
  work_dir = lit "/w";
  tracks = [];
  fingerprint = [];
}

build_split_plan_lem_example :
    In (image_name sheet entries) (map (λ e. e.name) entries)
    × (image_name sheet entries ≢ [])
    × (plan.image_path ≡ join (lit "/w") (image_name sheet entries))
    × (plan.tracks ≡ sheet.tracks)
    × ((cue_name : List ℕ) × (only_name (cue_names entries) ≡ ok cue_name)
        × (plan.cue_path ≡ (if is_nil cue_name then [] else join (lit "/w") cue_name)))
unfolding build_split_plan pick_single_cue_file pick_cue_from has_suffix to_lower pick_single_audio
    candidates entry_exists join
build_split_plan_lem_example = build_split_plan_lem (lit "/w") sheet entries {plan = plan} refl
