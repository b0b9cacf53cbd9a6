-- ===== src/Http/Handlers.antt =====
-- internal/adapters/http/handlers.go: the handlers of the API, on the jobs table and the settings.
-- The functions of the server's Deps are parameters; none stands for a nil one. Logging, contexts
-- and the goroutine of a scan are not modelled.
use cuearr.Prelude.{
  ℕ, Text, lit, Bool, true, false, Option, none, some, List, [], map, if◌then◌else◌, is_nil, ltb,
}
use cuearr.Prelude.Int.{ℤ, pos, negsuc}
use cuearr.Strconv.{atoi}
use cuearr.Errors.{
  Error, Result, ok, err, error_text, is_err_not_found, is_err_conflict, is_err_image_not_found,
}
use cuearr.Job.{Job, Time}
use cuearr.Job.Retry.{requeue_failed_job}
use cuearr.Store.{Db, get, update, list}
use cuearr.Http.{
  get as value_of, Request, Response, Reply, stop, go, ◌>>=◌, ◌>>◌, stop_if, method_is, need,
}
use cuearr.Http.Payload.{JobJson, SettingsJson, job_to_json, decode_json}

-- what is written as JSON
pub data Body : Type 0 where
  error_body : Text → Body
  job_body : JobJson → Body
  jobs_body : List JobJson → Body
  created_body : JobJson → Bool → Body
  hook_body : Text → Bool → Body
  settings_body : SettingsJson → Body
  health_body : Bool → Option Bool → Body
  status_body : Text → Body
  ok_body : Body

abbrev pub write_json : ℕ → Body → Response Body
write_json status body = record { status = status; body = body; cookies = []; location = [] }

abbrev pub write_error : ℕ → Text → Response Body
write_error status what = write_json status (error_body what)

-- the answer of a handler that has gone on, or the error that stopped it
abbrev pub answered : {A : Type 0} → Reply A → (A → Response Body) → Response Body
answered (stop status what) done = write_error status what
answered (go a) done = done a

abbrev pub server_error : Error → ℕ × Text
server_error e = (500, error_text e)

abbrev pub job_error : Error → ℕ × Text
job_error e = if is_err_not_found e then (404, lit "job not found") else (500, error_text e)

abbrev pub ready_or : Result (Unit {0}) → Bool
ready_or (ok u) = true
ready_or (err e) = false

abbrev pub tool_ready : Option (Result (Unit {0})) → Option Bool
tool_ready none = none
tool_ready (some r) = some (ready_or r)

abbrev pub store_ready : Option (Result (Unit {0})) → Bool
store_ready none = true
store_ready (some r) = ready_or r

-- with what CheckSQLite and CheckShntool answer
unfoldable pub handle_health :
    Option (Result (Unit {0})) → Option (Result (Unit {0})) → Request → Response Body
handle_health sqlite shntool r = answered (method_is (lit "GET") r.method) (λ u.
    write_json (if store_ready sqlite then 200 else 503)
      (health_body (store_ready sqlite) (tool_ready shntool)))

abbrev pub positive : Option ℤ → Reply ℕ
positive none = stop 400 (lit "invalid limit")
positive (some (negsuc n)) = stop 400 (lit "invalid limit")
positive (some (pos n)) = stop_if (ltb n 1) 400 (lit "invalid limit") >> go n

abbrev pub limit_of : Text → Reply ℕ
limit_of q = if is_nil q then go 100 else positive (atoi q)

module _ (format_time : Time → Text) where
  abbrev listed : Result (List Job) → Response Body
  listed jobs =
      answered (need jobs server_error)
        (λ js. write_json 200 (jobs_body (map (job_to_json format_time) js)))

  unfoldable pub handle_list_jobs : Request → Db → Response Body × Db
  handle_list_jobs r db =
      elim (method_is (lit "GET") r.method >> limit_of (value_of r.query (lit "limit"))) [
        | stop status what ↦ (write_error status what, db)
        | go limit ↦ let (jobs, db') = list limit db in (listed jobs, db')
      ]

  abbrev create_error : Error → ℕ × Text
  create_error e = (if is_err_image_not_found e then 404 else 500, error_text e)

  abbrev created_answer : Result (Job × Bool) → Response Body
  created_answer result = answered (need result create_error) (λ jc.
      write_json (if jc.1 then 201 else 200) (created_body (job_to_json format_time jc.0) jc.1))

  -- with Deps.CreateJob, on the state that it works on
  unfoldable pub handle_create_job :
      {S : Type 0}
      → Option (Text → S → Result (Job × Bool) × S)
      → (Text → Option (Text × Bool))
      → Request
      → S
      → Response Body × S
  handle_create_job none decoder r s = (
    answered (method_is (lit "POST") r.method)
        (λ u. write_error 500 (lit "create job not configured")),
    s,
  )
  handle_create_job (some create_job) decoder r s =
      elim (do
        method_is (lit "POST") r.method
        path ← decode_json decoder r.body
        stop_if (is_nil path) 400 (lit "path is required")
        go path) [
          | stop status what ↦ (write_error status what, s)
          | go path ↦ let (result, s') = create_job path s in (created_answer result, s')
        ]

  abbrev job_answer : Result Job → Response Body
  job_answer found =
      answered (need found job_error) (λ j. write_json 200 (job_body (job_to_json format_time j)))

  unfoldable pub handle_get_job : Text → Request → Db → Response Body × Db
  handle_get_job id r db = elim (method_is (lit "GET") r.method) [
    | stop status what ↦ (write_error status what, db)
    | go u ↦ let (found, db') = get id db in (job_answer found, db')
  ]

  abbrev requeue_error : Error → ℕ × Text
  requeue_error e =
      if is_err_conflict e then (409, lit "job is not failed") else (500, error_text e)

  abbrev retried : Job → Option Error → Response Body
  retried job none = write_json 200 (job_body (job_to_json format_time job))
  retried job (some e) = write_error (job_error e).0 (job_error e).1

  abbrev pub retry_with : Db → Reply Job → Response Body × Db
  retry_with db (stop status what) = (write_error status what, db)
  retry_with db (go requeued) = let (e, db') = update requeued db in (retried requeued e, db')

  unfoldable pub handle_retry_job : Text → Request → Db → Response Body × Db
  handle_retry_job id r db = elim (method_is (lit "POST") r.method) [
    | stop status what ↦ (write_error status what, db)
    | go u ↦
        let (found, db') = get id db in
        retry_with db' (need found job_error >>= λ job. need (requeue_failed_job job) requeue_error)
  ]

  abbrev import_error_answer : Error → ℕ × Text
  import_error_answer e = (if is_err_not_found e then 404 else 500, error_text e)

  -- with Deps.RequestImport, on the state that it works on
  unfoldable pub handle_import_job :
      {S : Type 0} → Option (Text → S → Result Job × S) → Text → S → Response Body × S
  handle_import_job none id s = (write_error 500 (lit "import not configured"), s)
  handle_import_job (some request_import) id s =
      let (result, s') = request_import id s in
      (
        answered (need result import_error_answer)
            (λ j. write_json 200 (job_body (job_to_json format_time j))),
        s',
      )
