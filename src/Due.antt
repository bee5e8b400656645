-- ===== src/Due.antt =====
-- cmd/server/monitor.go: which jobs are due for a scan, and when the next one will be.
pub mod Spacing
use Prim.Native.Nat.{min}
use chowkidar.Prelude.{
  ℕ, ◌+◌, ◌-◌, ◌*◌, Bool, true, false, ◌&&◌, String, List, [], ◌∷◌, Option, none, some, lookup,
  get_or, ltb, leb, nat_eq, if◌then◌else◌, Assoc, insert,
}
use chowkidar.Model.{Time, second, Job, Window}
use chowkidar.Calendar.{Library}
use chowkidar.Settings.{scan_interval}
use chowkidar.Pause.{Pause, compute_maintenance_pause, filter_paused_jobs}
use chowkidar.Server.{App, Env, set_last_job_scan}

-- A job that was never scanned is due, any other when its interval has passed.
abbrev pub has_passed : Time → ℕ → Option Time → Bool
has_passed now interval none = true
has_passed now interval (some last) = leb (last + interval) now

unfoldable pub is_due : Assoc Time → Time → Job → Bool
unfolding scan_interval
is_due scans now j = has_passed now (scan_interval j) (lookup j.id scans)

-- The guards of the loop: a job that is disabled or not due is passed over.
unfoldable pub is_taken : Assoc Time → Time → Job → Bool
unfolding is_due
is_taken scans now j = j.enabled && is_due scans now j

-- computeDueJobs: the due jobs, each noted as scanned, also for the jobs after it.
unfoldable pub compute_due_jobs : Time → List Job → Assoc Time → List Job × Assoc Time
unfolding is_taken
compute_due_jobs now [] scans = ([], scans)
compute_due_jobs now (j ∷ js) scans =
    let skip = compute_due_jobs now js scans in
    let (due, after) = compute_due_jobs now js (insert j.id now scans) in
    if is_taken scans now j then (j ∷ due, after) else skip

-- The earliest instant at which an enabled job is due, and 0 for none.
abbrev pub sooner : Time → Time → Time
sooner next due = if nat_eq next 0 then due else if ltb due next then due else next

abbrev pub due_at : Assoc Time → Job → Time
due_at scans j = get_or 0 (lookup j.id scans) + scan_interval j

unfoldable pub next_due : Assoc Time → Time → List Job → Time
next_due scans next [] = next
next_due scans next (j ∷ js) =
    let now_next = next_due scans (sooner next (due_at scans j)) js in
    let skip = next_due scans next js in if j.enabled then now_next else skip

-- time.Duration's largest value, where Time.Sub saturates.
abbrev pub max_duration : ℕ
max_duration = 9223372036854775807

abbrev pub sleep_until : Time → Time → ℕ
sleep_until now next =
    if nat_eq next 0
    then 60 * second
    else if ltb now next
    then min (next - now) max_duration
    else second

-- timeUntilNextJobDue.
unfoldable pub time_until_next_job_due : Env → Time → App → ℕ
unfolding next_due
time_until_next_job_due env now a =
    let pause = compute_maintenance_pause env.lib env.windows env.jobs now in
    if pause.skip_entire_scan
    then 60 * second
    else sleep_until now (next_due a.last_job_scan 0 (filter_paused_jobs env.jobs pause))
