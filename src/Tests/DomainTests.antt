-- ===== src/Tests/DomainTests.antt =====
-- internal/domain at concrete inputs.
use cuearr.Prelude.{
  ℕ, ◌+◌, ◌*◌, ◌/◌, ◌≡◌, ◌↔◌, refl, Text, lit, List, [], ◌∷◌, ◌++◌, arith, none, some, length, map,
  sum, split, ◌≤◌, fields, trim_space,
}
use cuearr.Prelude.Int.{pos}
use cuearr.Errors.{Error, ok}
use cuearr.Job.{Job, job_queued, job_failed, import_unset, import_requested}
use cuearr.Job.Retry.{max_attempts, requeue_failed_job}
use cuearr.Job.Retry.Budget.{fail_all, entries, status_after, retry_budget, requeue_budget}
use cuearr.Job.Import.{begin_import_request}
use cuearr.Job.Import.Cycle.{MayRequest, begin_import_request_lem}
use cuearr.Cue.{
  CueSheet, CueTrack, parse_cue, add_index, add_track, dispatch, keyword, parse_cue_file,
  parse_line, parse_lines, parse_words, set_index, set_title, unquote_rest,
}
use cuearr.Cue.Timing.{
  parse_cue_index, expected_track_durations, check_fields, parse_number, parse_parts,
}
use cuearr.Cue.Timing.Index.{parse_cue_index_text}
use cuearr.Cue.Timing.Lengths.{expected_track_durations-sum}
use cuearr.Cue.Sheets.{numbers, track_numbers, file_lines, parse_cue_tracks}
use cuearr.Cue.Sheets.Quoting.{file_text, parse_cue_file-file_text}
use cuearr.Strconv.{atoi, itoa, decimal}

abbrev new_job : Job
new_job = record {
  id = lit "a1";
  fingerprint = lit "f1";
  cue_path = lit "/w/a.cue";
  image_path = lit "/w/a.flac";
  out_dir = [];
  status = job_queued;
  engine = lit "shntool";
  log = [];
  error = [];
  import_status = import_unset;
  import_error = [];
  created_at = 5;
  started_at = 0;
  finished_at = 0;
  import_requested_at = 0;
  import_finished_at = 0;
  attempt_count = 0;
  attempt_log = [];
}

retry_budget_example :
    let final = fail_all 7 (max_attempts 2) new_job (lit "x" ∷ lit "y" ∷ []) in
    (final.attempt_count ≡ 0 + 2)
    × (final.attempt_log ≡ [] ++ entries 7 0 (lit "x" ∷ lit "y" ∷ []))
    × (final.status ≡ status_after (0 + 2) (max_attempts 2))
retry_budget_example = retry_budget 7 2 new_job (lit "x") (lit "y" ∷ []) (omega arith)

abbrev failed_job : Job
failed_job = record new_job { status = job_failed; attempt_count = 2 }

requeue_budget_example :
    (failed_job.status ≡ job_failed)
    × (new_job.status ≡ job_queued)
    × (new_job.attempt_log ≡ failed_job.attempt_log)
    × ((fail_all 7 (max_attempts 1) new_job (lit "x" ∷ [])).status
        ≡ status_after 1 (max_attempts 1))
unfolding requeue_failed_job
requeue_budget_example = requeue_budget 7 1 failed_job new_job (lit "x") [] (omega arith) refl

abbrev requested_job : Job
requested_job = record new_job { import_status = import_requested; import_requested_at = 100 }

begin_import_request_lem_example :
    let (job', e) = begin_import_request requested_job 200 in
    ((e ≡ none) ↔ MayRequest requested_job 200)
    × (e ≡ none
        → job' ≡ record requested_job {
          import_status = import_requested;
          import_error = [];
          import_requested_at = 200;
          import_finished_at = 0;
        })
    × ((x : Error) → e ≡ some x → job' ≡ requested_job)
begin_import_request_lem_example = begin_import_request_lem requested_job 200

parse_cue_index_text_example :
    parse_cue_index (lit "00:03:07") ≡ ok (pos (((0 * 60 + 3) * 75 + 7) * 1_000_000_000 / 75))
unfolding itoa decimal
parse_cue_index_text_example =
    parse_cue_index_text 1 0 1 3 1 7 (omega arith) (omega arith) (omega arith)

abbrev first_track : CueTrack
first_track = record {
  number = pos 1;
  title = lit "One";
  performer = [];
  index_00 = [];
  index_01 = lit "00:02:00";
}

abbrev second_track : CueTrack
second_track = record {
  number = pos 2;
  title = lit "Two";
  performer = [];
  index_00 = [];
  index_01 = lit "00:05:00";
}

abbrev two_tracks : CueSheet
two_tracks = record {
  genre = [];
  date = [];
  performer = lit "P";
  title = lit "T";
  file = lit "a.flac";
  tracks = first_track ∷ second_track ∷ [];
}

expected_track_durations-sum_example :
    (lengths : List ℕ) × ((pos 3_000_000_000 ∷ pos 5_000_000_000 ∷ []) ≡ map pos lengths)
    × (2_000_000_000 + sum lengths ≡ 10_000_000_000)
    × (length (pos 3_000_000_000 ∷ pos 5_000_000_000 ∷ []) ≡ length two_tracks.tracks)
unfolding expected_track_durations parse_cue_index parse_parts parse_number atoi check_fields
expected_track_durations-sum_example =
    expected_track_durations-sum first_track (second_track ∷ []) two_tracks 2_000_000_000
      10_000_000_000 (pos 3_000_000_000 ∷ pos 5_000_000_000 ∷ []) refl refl (omega arith) refl

abbrev sheet_text : Text
sheet_text =
    lit
      "TITLE \"T\"\nFILE \"a.flac\" WAVE\n  TRACK 01 AUDIO\n    TITLE \"One\"\n    INDEX 01 00:02:00\n"

abbrev parsed : CueSheet
parsed = record {
  genre = [];
  date = [];
  performer = [];
  title = lit "T";
  file = lit "a.flac";
  tracks = first_track ∷ [];
}

parse_cue_tracks_example :
    (numbers parsed.tracks ≡ track_numbers (split b'\n' sheet_text))
    × (file_lines (split b'\n' sheet_text) ≤ 1)
unfolding parse_cue parse_lines split parse_line parse_words fields trim_space dispatch keyword
    add_track atoi add_index set_index set_title unquote_rest parse_cue_file
parse_cue_tracks_example = parse_cue_tracks sheet_text parsed refl

parse_cue_file-file_text_example :
    parse_cue_file (file_text (lit "a \"b\".wav")) ≡ lit "a \"b\".wav"
parse_cue_file-file_text_example = parse_cue_file-file_text (lit "a \"b\".wav")
