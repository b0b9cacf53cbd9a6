-- ===== src/Tests/AppTests.antt =====
-- internal/app at concrete inputs.
use cuearr.Prelude.{
  ◌+◌, ◌*◌, ◌≤◌, ◌≡◌, ◌≢◌, refl, Text, lit, true, false, none, some, List, [], ◌∷◌, ◌++◌, arith,
  min, max, length, split, fields, trim_space, All,
}
use cuearr.Prelude.Int.{ℤ, pos}
use cuearr.Errors.{Error, ok, err, message}
use cuearr.Job.{Job, job_queued, job_failed, is_completed}
use cuearr.Job.Retry.{max_attempts, requeue_failed_job}
use cuearr.Settings.{Settings}
use cuearr.Cue.{
  CueSheet, parse_cue, parse_lines, parse_line, parse_words, dispatch, keyword, add_track,
  add_index, set_index, parse_cue_file,
}
use cuearr.Cue.Timing.{
  expected_track_durations, check_fields, lengths_of_starts, parse_cue_index, parse_number,
  parse_parts, track_starts,
}
use cuearr.Strconv.{atoi}
use cuearr.Album.{SplitPlan}
use cuearr.Store.{Db, row_of_job, update}
use cuearr.Store.Rows.{as_stored}
use cuearr.World.{World, after, call}
use cuearr.Enqueue.{new_job, enqueue, retry_of}
use cuearr.Enqueue.Again.{enqueue-again}
use cuearr.Preflight.{
  Preflight, FileSafetyProbe, check, gap_of, default_stability_gap, required_free_space, max_uint64,
  free_space_reserve, check_destination, check_stable, check_with,
}
use cuearr.Preflight.Space.{required_free_space_lem}
use cuearr.Preflight.Checks.{Safe, check_lem}
use cuearr.Verify.{
  Verifier, verify_split, verify_read, expectations, apply_all_tags, check_durations, judge,
  verify_durations,
}
use cuearr.Verify.Tolerance.{Measured, verify_split_lem}
use cuearr.Importer.{ImportService, after_split_complete}
use cuearr.Importer.Outcome.{after_split_complete-completed}
use cuearr.Runner.{JobRunner, Splitter, run_job}
use cuearr.Runner.{album_output_key}
use cuearr.Runner.Keys.{SafeByte, HexDigit, album_output_key-SafeByte}
use cuearr.Runner.Outcomes.{Ending, run_job-Ending}
use cuearr.Recovery.{Recoverer, recover_jobs, recovery_error}
use cuearr.Recovery.Isolation.{recover_jobs-append}
use cuearr.Worker.{Worker, run_claimed, runner_with, after_run}
use cuearr.Worker.Budget.{retry_of-exhausted}
use cuearr.Tests.Samples.{queued_job, done_job, exhausted_job, two_rows}

required_free_space_lem_example :
    required_free_space 700_000_000
    ≡ min (max (700_000_000 * 2) (700_000_000 + free_space_reserve)) max_uint64
required_free_space_lem_example = required_free_space_lem 700_000_000 (omega arith)

abbrev probe : FileSafetyProbe
probe = record {
  stat_size = λ t p. ok (pos 10);
  ensure_writable = λ t p. none;
  free_space = λ t p. ok 999_999_999;
}

abbrev preflight : Preflight
preflight = record { probe = some probe; stability_gap = 0; wait = λ t d. none }

abbrev world : World
world = record {
  db = record { rows = two_rows; faults = [] };
  fs = record { nodes = []; faults = [] };
  ticks = 0;
}

check_lem_example :
    Safe preflight (lit "/w/a.flac") (lit "/out") 0 × (default_stability_gap ≤ gap_of preflight)
unfolding check check_with check_destination required_free_space check_stable
check_lem_example = check_lem preflight (lit "/w/a.flac") (lit "/out") world refl

abbrev one_track : Text
one_track = lit "FILE \"a.flac\" WAVE\nTRACK 01 AUDIO\nINDEX 01 00:00:00\n"

abbrev verifier : Verifier
verifier = record {
  read_cue = λ n p fs. (ok one_track, fs);
  inspect = λ n p fs. (
    ok (record {
      sample_rate = pos 44_100;
      total_samples = pos 132_300;
      duration = pos 3_000_000_000;
    }),
    fs,
  );
  apply_tags = λ n p t fs. (none, fs);
}

abbrev total : ℤ
total = pos 3_050_000_000

verify_split_lem_example :
    (text : Text) × (sheet : CueSheet) × (expected : List ℤ) × (call
        (λ n. verifier.read_cue n (lit "/w/a.cue"))
        world).0
      ≡ ok text
    × (parse_cue text ≡ ok sheet)
    × (length (lit "/s/1.flac" ∷ []) ≡ length sheet.tracks)
    × (expected_track_durations sheet total ≡ ok expected)
    × (length expected ≡ length sheet.tracks)
    × Measured verifier
        (call (λ n. verifier.read_cue n (lit "/w/a.cue")) world).1
        (lit "/s/1.flac" ∷ [])
        expected
unfolding verify_split verify_read expectations parse_cue parse_lines split parse_line parse_words
    fields trim_space dispatch keyword add_track atoi add_index set_index expected_track_durations
    check_fields lengths_of_starts parse_cue_index parse_number parse_parts track_starts
    parse_cue_file apply_all_tags check_durations judge verify_durations
verify_split_lem_example =
    verify_split_lem verifier (lit "/w/a.cue") (lit "/s/1.flac" ∷ []) total world refl

abbrev plan : SplitPlan
plan = record {
  cue_path = lit "/v/c.cue";
  image_path = lit "/v/c.flac";
  work_dir = lit "/v";
  tracks = [];
  fingerprint = lit "f9";
}

enqueue-again_example :
    let job = new_job (lit "c3") 7 plan (lit "shntool") in
    let db : Db = record { rows = two_rows ++ (row_of_job job ∷ []); faults = [] } in
    (enqueue (lit "c3") 7 plan (lit "shntool") (record { rows = two_rows; faults = [] })
      ≡ (ok (job, true), db))
    × (enqueue (lit "d4") 8 plan (lit "shntool") db ≡ (ok (as_stored job, false), db))
    × (job.status ≡ job_queued)
    × (job.attempt_count ≡ 0)
unfolding row_of_job
enqueue-again_example =
    enqueue-again (lit "c3") (lit "d4") 7 8 plan (lit "shntool") (lit "shntool") two_rows refl refl

abbrev settings : Settings
settings = record {
  watch_dirs = [];
  out_dir = lit "/out";
  in_place = false;
  engine = lit "shntool";
  lidarr_url = lit "http://l";
  lidarr_api_key = lit "k";
  lidarr_import_enabled = true;
  lidarr_path_map = [];
  lidarr_poll_interval_sec = 60;
  max_retries = 3;
  auth = record {
    password_hash = [];
    api_key = [];
    oidc_enabled = false;
    oidc_issuer = [];
    oidc_client_id = [];
    oidc_client_secret = [];
    oidc_redirect_url = [];
    oidc_allowed_email_domains = [];
  };
}

abbrev importer : ImportService
importer = record { client = some (λ t path. none); clock = λ t. t + 1_000 }

after_split_complete-completed_example :
    is_completed (after_split_complete importer done_job settings world).0.0.status ≡ true
after_split_complete-completed_example =
    after_split_complete-completed importer done_job settings world refl

abbrev splitter : Splitter
splitter = record {
  split = λ t plan out fs. ((record { output_files = lit "1.flac" ∷ []; log = [] }, none), fs);
}

abbrev runner : JobRunner
runner = record {
  splitter = splitter;
  verifier = verifier;
  wav_inspect = none;
  preflight = some preflight;
  importer = some importer;
  settings = λ t. settings;
  clock = λ t. t + 1_000;
  sha256_hex = λ s. s;
  marshal = λ m. m.job_id;
}

run_job-Ending_example : Ending queued_job (run_job runner queued_job (lit "/out") false world).0
run_job-Ending_example = run_job-Ending runner queued_job (lit "/out") false world

abbrev digest : Text → Text
digest s = lit "0123456789abcdef"

abbrev odd_job : Job
odd_job = record queued_job { fingerprint = lit "../f" }

digest-HexDigit : (s : Text) → All HexDigit (digest s)
digest-HexDigit s = ground arith

album_output_key-SafeByte_example :
    (album_output_key digest odd_job ≢ []) × All SafeByte (album_output_key digest odd_job)
album_output_key-SafeByte_example = album_output_key-SafeByte digest odd_job digest-HexDigit

abbrev recoverer : Recoverer
recoverer = record {
  unmarshal = λ s. err (message (lit "unexpected end of JSON input"));
  clock = λ t. t + 1_000;
  importer = none;
  settings = λ t. settings;
}

recover_jobs-append_example :
    (recover_jobs recoverer true ((queued_job ∷ []) ++ (done_job ∷ [])) world).1
    ≡ (recover_jobs recoverer true
        (done_job ∷ [])
        (recover_jobs recoverer true (queued_job ∷ []) world).1).1
recover_jobs-append_example = recover_jobs-append recoverer (queued_job ∷ []) (done_job ∷ []) world

abbrev no_output : Error
no_output = recovery_error recoverer queued_job (message (lit "publication output is empty"))

abbrev worker : Worker
worker = record { runner = runner; recoverer = recoverer; snapshot = λ t. (settings, splitter) }

abbrev requeued : Job
requeued = record exhausted_job { status = job_queued; attempt_count = 0 }

retry_of-exhausted_example :
    ((run_claimed worker (retry_of exhausted_job) (settings, splitter) world).1.fs ≡ world.fs)
    × ((run_claimed worker (retry_of exhausted_job) (settings, splitter) world).1.db
        ≡ (update
            (record (retry_of exhausted_job) {
              status = job_failed;
              finished_at = worker.runner.clock world.ticks;
              error = lit "retry budget exhausted during crash recovery";
            })
            world.db).1)
    × (run_claimed worker requeued (settings, splitter) world
        ≡ after
            (run_job
              (runner_with worker splitter)
              requeued
              settings.out_dir
              settings.in_place
              world)
            (after_run worker (max_attempts settings.max_retries)))
unfolding max_attempts requeue_failed_job
retry_of-exhausted_example =
    retry_of-exhausted worker settings splitter exhausted_job requeued world (omega arith) refl
