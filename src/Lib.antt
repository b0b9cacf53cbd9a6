-- ===== src/Lib.antt =====
-- cuearr: a daemon that finds albums stored as one image with a CUE sheet, splits them into tracks
-- with an external tool, publishes the tracks and asks Lidarr to import them.
--
-- The parts and the files that model them; paths are from the root of the repository.
--   Job, Job/Retry, Job/Import   internal/domain/job.go, retry.go, import.go: a job, its attempts and
--                                the status of its import
--   Settings                     internal/domain/settings.go: settings and MapLidarrPath
--   Errors                       internal/domain/errors.go: error values with wrapping and errors.Is
--   Cue, Cue/Timing              internal/domain/cue.go, cue_timing.go: ParseCue, ParseCueIndex and
--                                ExpectedTrackDurations
--   Album                        internal/domain/album.go, internal/app/detect.go: from a directory to
--                                a split plan with a fingerprint
--   Store, Store/Times           internal/adapters/store/sqlite/sqlite.go: each statement on the table
--                                of jobs, and the texts of times
--   Publish                      internal/app/publish.go: staging and the swap of album directories
--   Enqueue                      internal/app/enqueue.go: a plan becomes a queued job
--   Preflight, Verify            internal/app/preflight.go, verify.go: the checks before and after a
--                                split
--   Importer                     internal/app/import.go: the requests to Lidarr
--   Auth, Auth/Session           internal/adapters/auth/password.go, apikey.go: sessions and keys
--   Auth/Middleware, Auth/Oidc   internal/adapters/auth/middleware.go, oidc.go: who may pass to the API
--                                and the login with a provider
--   Auth/Bootstrap               internal/adapters/auth/bootstrap.go, session_secret.go
--   Http, Http/Payload           requests, answers and JSON bodies of internal/adapters/http/handlers.go
--   Http/Handlers,
--   Http/SettingsHandlers        internal/adapters/http/handlers.go: jobs, and settings with logins
--   Http/Hook, Http/Diagnostics  internal/adapters/http/lidarr.go, diagnostics.go
--   Settings/Stored, Runtime     internal/adapters/store/sqlite/sqlite.go (SettingsStore) and
--                                internal/app/runtime.go: the settings that are stored and in force
--   Scan                         internal/app/scan.go: the directories of a scan become jobs
--   Lidarr                       internal/adapters/lidarr/client.go: requests to Lidarr
--   Wav                          internal/adapters/audio/wavduration/wav.go: the length of a WAV file
--   Runner, Worker, Recovery     internal/app/run.go, worker.go, publication_recovery.go: one attempt
--                                of a job, the loop that claims jobs, and the recovery of publications
--   Prelude, Strconv, Filepath, Fs, World
--                                what these use: lists and bytes, and of Go's library strconv,
--                                path/filepath and package os, with the state that internal/app works on
--
-- A watcher or a request calls Enqueue, which stores a job under the fingerprint of its album. The
-- worker claims the oldest queued job and runs it: preflight, split into a staging directory,
-- verification against the CUE sheet, the publishing status as a durable intent, the swap of the
-- album directory, completion and import. Before each claim it settles what was left publishing.
--
-- Text is a list of bytes, a time the number of nanoseconds since Go's zero time, and a duration an
-- integer that wraps around at 64 bits. The table of jobs is a list of rows, and the file system a
-- list of places; each carries an oracle that says which operations to come are refused, so that
-- the theorems hold under every sequence of faults. Clock, tools, network, probes, JSON, SHA-256
-- and SQLite's julianday are parameters, as are bcrypt, HMAC, UTF-8 tests and the OpenID libraries;
-- those that are asked again and again are given a count of the questions so far, since they may
-- answer differently. The worker's loop runs for a given number of ticks. The poller of imports has
-- fuel for the pages that it reads: ids grow from page to page, so one more than the rows of the
-- table is enough. The WAV parser has fuel too: each round takes at least the eight bytes of a
-- chunk's header, so that the length of the file is enough. All other loops are structural.
--
-- A request passes the middleware to one handler, which reads and writes the tables of jobs and
-- settings. A new version of the settings is stored and then put in force, or the old one is stored
-- again. JSON bodies are the records before encoding/json writes them and after it has read them.
--
-- Not modelled: logging, cancelled contexts, symbolic links, the table of routes and the background
-- scan of the HTTP server, static files, the watcher and the search for directories, the runners of
-- external tools, the configuration from the environment and the wiring in cmd/cuearr.
mod Prelude
pub mod Errors
pub mod Strconv
pub mod Job
pub mod Cue
pub mod Filepath
pub mod Fs
pub mod Publish
pub mod Settings
pub mod Album
pub mod Auth
pub mod Http
pub mod Wav
pub mod Lidarr
pub mod Runtime
pub mod Store
pub mod World
pub mod Enqueue
pub mod Scan
pub mod Preflight
pub mod Verify
pub mod Importer
pub mod Runner
pub mod Recovery
pub mod Worker
mod Tests
