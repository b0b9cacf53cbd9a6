-- ===== src/Tests/HttpTests.antt =====
-- internal/adapters/http, the jobs table as a map, WAV files and the run-time settings at concrete
-- inputs.
use cuearr.Prelude.{
  ℕ, ◌/◌, ◌*◌, ◌%◌, ◌≡◌, ◌≢◌, ◌⊎◌, refl, Text, lit, Bool, true, false, Option, none, some, List, [],
  ◌∷◌, ◌++◌, arith, length,
}
use cuearr.Prelude.Int.{pos}
use cuearr.Errors.{Result, ok, err, message}
use cuearr.Settings.{Settings}
use cuearr.Settings.Stored.{SettingsDb, no_settings, no_auth, default_settings}
use cuearr.Job.{Job, job_queued, job_failed, is_failed, Time}
use cuearr.Job.Retry.{max_attempts}
use cuearr.Store.{Db, row_of_job, get}
use cuearr.Store.Rows.{stored}
use cuearr.Store.Updates.{Written}
use cuearr.Store.Refines.{
  Operation, creates, updates, perform_all, reported, replay, perform_all-replay,
}
use cuearr.Http.{Request}
use cuearr.Http.Payload.{job_to_json}
use cuearr.Http.Handlers.{job_body, write_json, write_error, handle_retry_job}
use cuearr.Http.Retried.{handle_retry_job_lem}
use cuearr.Http.SettingsHandlers.{handle_put_settings_auth}
use cuearr.Http.Protects.{stored_in, handle_put_settings_auth-configured}
use cuearr.Verify.{FlacInfo}
use cuearr.Wav.{inspect}
use cuearr.Wav.Loop.{inspect-some}
use cuearr.Wav.Canonical.{canonical, inspect-canonical}
use cuearr.Runtime.{
  RuntimeConfig, Channels, no_channels, make_channel, close_channel, new_runtime_config, apply,
  snapshot_with_changes, is_closed,
}
use cuearr.Runtime.Updates.{Applied, unchanged, then_apply, snapshot_with_changes-is_closed}
use cuearr.Tests.Samples.{queued_job, other_job, exhausted_job}

-- the second operation meets a fault
abbrev some_operations : List Operation
some_operations =
    creates queued_job
    ∷ creates other_job
    ∷ updates (record queued_job { status = job_failed })
    ∷ []

abbrev faulty : Db
faulty = record { rows = []; faults = none ∷ some (lit "database is locked") ∷ [] }

perform_all-replay_example :
    stored (perform_all some_operations faulty) (lit "a1")
    ≡ replay (reported some_operations faulty) (stored faulty) (lit "a1")
perform_all-replay_example = perform_all-replay some_operations faulty (lit "a1")

abbrev seconds_text : Time → Text
seconds_text t = t / 1_000_000_000 ∷ []

abbrev post : Request
post = record {
  method = lit "POST";
  path = lit "/api/v1/jobs/a1/retry";
  remote_addr = lit "10.0.0.7:4000";
  tls = false;
  headers = [];
  query = [];
  cookies = [];
  body = [];
}

abbrev failed_table : Db
failed_table = record { rows = row_of_job exhausted_job ∷ row_of_job other_job ∷ []; faults = [] }

handle_retry_job_lem_example :
    let (answer, after) = handle_retry_job seconds_text (lit "a1") post failed_table in
    ((job : Job) × (q : Job) × ((get (lit "a1") failed_table).0 ≡ ok job)
      × (is_failed job.status ≡ true)
      × (q.status ≡ job_queued)
      × (q.attempt_count ≡ 0)
      × (q.id ≡ job.id)
      × (answer ≡ write_json 200 (job_body (job_to_json seconds_text q)))
      × Written q failed_table after)
    ⊎ ((status : ℕ) × (what : Text) × (answer ≡ write_error status what)
        × (after.rows ≡ failed_table.rows))
handle_retry_job_lem_example = handle_retry_job_lem seconds_text (lit "a1") post failed_table

-- settings with a password, behind a JSON text of one letter
abbrev with_password : Settings
with_password = record no_settings { auth = record no_auth { password_hash = lit "h" } }

abbrev to_letter : Settings → Text
to_letter s = lit "s"

abbrev of_letter : Text → Result Settings
of_letter t = ok with_password

abbrev protected : SettingsDb
protected = record { payload = some (lit "s"); faults = [] }

protected-stored : stored_in to_letter of_letter protected ≡ ok (default_settings with_password)
unfolding default_settings max_attempts
protected-stored = refl

still_set : (default_settings with_password).auth.password_hash ≢ []
unfolding default_settings
still_set = λ e. cc

abbrev hashed : Text → Result Text
hashed plain = ok (lit "h" ++ plain)

abbrev same_hash : Text → Text → Bool
same_hash hash plain = false

abbrev any_password : Text → Option ((Text × Text) × Bool)
any_password body = some ((lit "new", []), true)

handle_put_settings_auth-configured_example :
    (handle_put_settings_auth to_letter of_letter hashed same_hash any_password
      (record post { method = lit "PUT" })
      protected).1.payload
    ≡ some (lit "s")
handle_put_settings_auth-configured_example =
    handle_put_settings_auth-configured to_letter of_letter hashed same_hash any_password
      (record post { method = lit "PUT" }) protected (default_settings with_password)
      protected-stored still_set

-- three samples of two bytes at 44.1 kHz
abbrev three_samples : Text
three_samples = canonical 1 44_100 88_200 2 16 6 (1 ∷ 2 ∷ 3 ∷ 4 ∷ 5 ∷ 6 ∷ [])

inspect-some_example :
    (a : Result FlacInfo) × (inspect (length three_samples) three_samples ≡ some a)
inspect-some_example = inspect-some three_samples (length three_samples) (omega arith)

inspect-canonical_example :
    (6 % 2 ≡ 0
      × (inspect 2 three_samples
          ≡ some (
              ok (record {
                sample_rate = pos 44_100;
                total_samples = pos (6 / 2);
                duration = pos (6 / 2 * 1_000_000_000 / 44_100);
              }))))
    ⊎ (6 % 2 ≢ 0
        × (inspect 2 three_samples
            ≡ some (err (message (lit "WAV data size is not sample-aligned")))))
inspect-canonical_example =
    inspect-canonical 1 44_100 88_200 2 16 6 (1 ∷ 2 ∷ 3 ∷ 4 ∷ 5 ∷ 6 ∷ []) 0 (omega arith)
      (omega arith) (omega arith) (omega arith) (omega arith) refl

abbrev first_config : RuntimeConfig Text × Channels
first_config = (
  record { settings = no_settings; splitter = lit "shntool"; changed = 0 },
  record { made = 1; closed = [] },
)

abbrev second_config : RuntimeConfig Text × Channels
second_config = (
  record { settings = with_password; splitter = lit "native"; changed = 1 },
  record { made = 2; closed = 0 ∷ [] },
)

from_start : Applied (new_runtime_config no_settings (lit "shntool") no_channels) first_config
unfolding new_runtime_config make_channel
from_start = unchanged first_config

applied_once : apply with_password (lit "native") first_config ≡ some second_config
unfolding apply close_channel make_channel is_closed
applied_once = refl

snapshot_with_changes-is_closed_example :
    (((is_closed 0 second_config.1 ≡ false)
        × (snapshot_with_changes second_config.0 ≡ snapshot_with_changes first_config.0))
      ⊎ (is_closed 0 second_config.1 ≡ true))
    × ((t : Settings) (new : Text)
        → (e : RuntimeConfig Text × Channels) × (apply t new second_config ≡ some e)
          × (snapshot_with_changes e.0 ≡ (t, new, e.0.changed))
          × (is_closed 0 e.1 ≡ true)
          × (is_closed e.0.changed e.1 ≡ false))
snapshot_with_changes-is_closed_example =
    snapshot_with_changes-is_closed no_settings (lit "shntool") first_config second_config
      from_start (then_apply with_password (lit "native") (unchanged first_config) applied_once)
