-- ===== src/Lib.antt =====
-- chowkidar watches the containers of one or more Docker hosts and heals them: it scans for
-- unhealthy, restarting and exited containers, matches them with the user's jobs, and hands an
-- action (restart, start, stop, a script) to a pool of workers, under retry limits, waits and
-- maintenance windows. This library models the program's core and proves what makes it right.
--
-- The parts, in the order in which they build on each other, with their files here and in the
-- repository:
-- - Prelude, Text, Model, Names: native numbers, Go's int64 with its wrap-around, strings and maps;
--   the records of internal/config (Job, MaintenanceWindow, Config) and of a container summary.
-- - Jobs: internal/config/jobs.go: normalizeJob, UpsertJob, DeleteJob, migrateJobs; the search and the
--   pages of the list of jobs, from cmd/server/util.go.
-- - Calendar, Schedule, Occurrence: internal/config/maintenance_schedule.go: when a window is open,
--   when it opened last and when it opens next, for each of the six strategies.
-- - Pause, Transitions: cmd/server/maintenance.go: which jobs and hosts the open windows hold back,
--   the OnStart behaviour that governs a job, the edges at which windows open and close.
-- - Server: cmd/server/state.go and the part of `app` in main.go that scans and actions share; each
--   accessor that holds the mutex is one atomic function of the state. Server/Requests: handleResetCooldown
--   of cmd/server/handlers.go.
-- - Match: the filters of monitor.go and util.go; Settings: the numbers of a job; Docker, Exit:
--   retryDocker and parseExitCode.
-- - Execute, Action: cmd/server/action.go: executeAction as the one call that it makes, and Run split
--   at that call: start_job is Run up to it, complete_job what follows. Between the two other workers
--   and scans run; Action/Claims/Exclusion makes the interleaving a step relation.
-- - Due, Process, Recovery, Scan: cmd/server/monitor.go: computeDueJobs, timeUntilNextJobDue, the
--   loops over the containers of a host, scanHost, finalizeState. Hosts, Pulses, Cycle: the outage notices of
--   an extra host, recordHealthPulses, and scanOnce.
-- - Worker: internal/worker/pool.go, and enqueueJob, replacePool and stopPool of main.go: pools with a
--   bounded queue, as moves of senders, workers and the app that interleave. The swap of the app's pool under
--   its lock and the Stop of the old one, which comes later, are two moves.
-- - Table, Windows: the table of maintenance windows of internal/config/maintenance.go and the requests on
--   /api/maintenance of cmd/server/maintenance_handlers.go. Windows/Valid says what a stored window looks
--   like; Windows/Spec is what the requests promise, a partial function from identifiers to windows, and
--   Windows/Refine relates the two.
-- - History: internal/history/store.go and the requests on /api/history of cmd/server/handlers.go: pages,
--   pruning.
-- - Auth: cmd/server/auth.go: sessions, logins, the change of the password.
-- - Crypto, DockerHosts, Profiles: internal/crypto/crypto.go; the Docker hosts and the notification
--   profiles of internal/config, their validation or tidying, their secrets at rest, the templates, the
--   addresses of services and the migration of identifiers.
-- - Notify: cmd/server/notify.go and the counters of cmd/server/persistence.go: sendJobNotifications with
--   the limits of each profile, its suspension, and restarts.
-- - Tests: the theorems at concrete inputs.
--
-- What is outside the repository is an argument: the zone database and gronx (Calendar.Library), the
-- answers of the Docker daemon (Docker.Host, Match.Inspect, Execute.World), the clock (`now`), bcrypt
-- (Auth.Bcrypt), AES-GCM with its key and nonces (Crypto.Cipher), the program that delivers a notice and
-- the templating (Notify.NotifyEnv), url.QueryEscape, and whether a file can be written. The
-- hypotheses on them are IsRegular (the clock changes of a zone stay within one day each, as those of the
-- United States and of Europe do, so that time.Date finds the day that it was asked for; Tests/Zones has a
-- zone with summer time), IsCron (gronx looks to the side that it is asked about), IsBcrypt (a hash matches its password) and IsCipher (what was sealed
-- with a key is opened with it).
--
-- Bounds. A time is a number of nanoseconds since Go's zero time. Loops are structural, with the
-- number of days or attempts that the code gives as the count (8 days for a weekly window, 32 for a
-- monthly one, the retry count of a query); decimal numerals count on their value, which is more than
-- their digits. Multiplication of a user's int by a second or a minute wraps around as int64 does;
-- counters (cycles, stable scans) are natural numbers, since they grow by one per scan or action.
--
-- Not modelled: log lines; in scans and actions the rendering and delivery of notices, of which the fact
-- and the recipients are kept; the notices about Docker hosts; the addresses of Discord and mail, which
-- need regular expressions; the cancellation of a running Docker call, of which the set of cancelled jobs is kept;
-- the format of files and of HTTP, and the requests that change jobs, settings and profiles. A scan, and the round
-- of one recipient of a notice, read the clock once. A Go map is a list of entries with one order. The loop
-- around the scans is not modelled. Calls of sendJobNotifications follow one another; the display zone may
-- change between them, and the usage file may fail to be written (NotifyEnv). What else sends to a profile,
-- the test of a profile and the notices about Docker hosts, is not counted there by the code either.
pub mod Prelude
pub mod Text
pub mod Model
pub mod Names
pub mod Jobs
pub mod Calendar
pub mod Schedule
pub mod Occurrence
pub mod Pause
pub mod Transitions
pub mod Server
pub mod Match
pub mod Settings
pub mod Execute
pub mod Action
pub mod Due
pub mod Docker
pub mod Exit
pub mod Process
pub mod Recovery
pub mod Scan
pub mod Hosts
pub mod Pulses
pub mod Cycle
pub mod Table
pub mod Windows
pub mod History
pub mod Auth
pub mod Crypto
pub mod DockerHosts
pub mod Profiles
pub mod Notify
pub mod Worker
pub mod Tests
