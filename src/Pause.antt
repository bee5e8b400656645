-- ===== src/Pause.antt =====
-- cmd/server/maintenance.go: which jobs and hosts the active maintenance windows pause, and how
-- strictly. `jobs_for_host` is from cmd/server/monitor.go. A Go map that only ever holds `true` is
-- the list of its keys.
pub mod Spec
pub mod Strength
pub mod Cleanup
use chowkidar.Prelude.{
  ℕ, ◌+◌, Bool, true, false, ◌&&◌, ◌||◌, not, String, List, [], ◌∷◌, Option, none, some, Assoc,
  lookup, insert, get_or, ltb, ◌==◌, if◌then◌else◌, select, elem, length,
}
use chowkidar.Model.{Time, minute, Job, Window, manual, single_strategy, force_cancel, allow_finish}
use chowkidar.Calendar.{Library}
use chowkidar.Occurrence.{active_maintenance_windows}

abbrev pub no_names : List String → Bool
no_names [] = true
no_names (_ ∷ _) = false

-- Whether a job applies to a host: it names the host, or no host at all.
abbrev pub applies_to : String → Job → Bool
applies_to host j = no_names j.docker_host_ids || elem host j.docker_host_ids

-- jobsForHost.
unfoldable pub jobs_for_host : List Job → String → List Job
jobs_for_host jobs host = select (applies_to host) jobs

pub record Pause : Type 0 where
  pub skip_entire_scan : Bool
  pub paused_job_ids : List String
  pub paused_host_ids : List String
  pub active : List Window
  pub job_on_start : Assoc String
  pub local_on_start : String

unfoldable pub on_start_rank : String → ℕ
on_start_rank v = if v == force_cancel then 2 else if v == allow_finish then 1 else 0

unfoldable pub stronger_on_start : String → String → String
unfolding on_start_rank
stronger_on_start a b = if ltb (on_start_rank a) (on_start_rank b) then b else a

-- p.pausedJobIDs[id] = true, and p.jobOnStart[id] made the stronger of the two.
unfoldable pub pause_job : String → Pause → String → Pause
pause_job on_start p id = record p {
  paused_job_ids = id ∷ p.paused_job_ids;
  job_on_start =
      insert id (stronger_on_start (get_or "" (lookup id p.job_on_start)) on_start) p.job_on_start;
}

unfoldable pub pause_jobs : String → Pause → List String → Pause
unfolding pause_job
pause_jobs on_start p [] = p
pause_jobs on_start p (id ∷ rest) = pause_jobs on_start (pause_job on_start p id) rest

abbrev pub job_ids : List Job → List String
job_ids [] = []
job_ids (j ∷ js) = j.id ∷ job_ids js

-- The host itself, and the whole scan where it is the built-in one.
unfoldable pub mark_host : String → Pause → String → Pause
mark_host on_start p host =
    let q = record p { paused_host_ids = host ∷ p.paused_host_ids } in
    if host == "local"
    then record q {
      skip_entire_scan = true;
      local_on_start = stronger_on_start p.local_on_start on_start;
    }
    else q

unfoldable pub pause_hosts : List Job → String → Pause → List String → Pause
unfolding mark_host
pause_hosts jobs on_start p [] = p
pause_hosts jobs on_start p (host ∷ rest) =
    pause_hosts jobs on_start
      (pause_jobs on_start (mark_host on_start p host) (job_ids (jobs_for_host jobs host))) rest

-- One round of the loop over the active windows.
unfoldable pub pause_window : List Job → Pause → Window → Pause
pause_window jobs p w =
    pause_hosts jobs w.on_start (pause_jobs w.on_start p w.job_ids) w.docker_host_ids

unfoldable pub pause_windows : List Job → Pause → List Window → Pause
pause_windows jobs p [] = p
pause_windows jobs p (w ∷ ws) = pause_windows jobs (pause_window jobs p w) ws

abbrev pub no_pause : List Window → Pause
no_pause active = record {
  skip_entire_scan = false;
  paused_job_ids = [];
  paused_host_ids = [];
  active = active;
  job_on_start = [];
  local_on_start = "";
}

unfoldable pub pause_of : List Job → List Window → Pause
pause_of jobs active = pause_windows jobs (no_pause active) active

unfoldable pub compute_maintenance_pause : Library → List Window → List Job → Time → Pause
compute_maintenance_pause lib windows jobs now =
    pause_of jobs (active_maintenance_windows lib windows now)

unfoldable pub on_start_for : Pause → String → String
on_start_for p id = if id == "" then p.local_on_start else get_or "" (lookup id p.job_on_start)

-- (*app).maintenanceOnStartFor.
unfoldable pub maintenance_on_start_for : Library → List Window → List Job → Time → String → String
maintenance_on_start_for lib windows jobs now id =
    on_start_for (compute_maintenance_pause lib windows jobs now) id

abbrev pub job_paused : Pause → String → Bool
job_paused p id = elem id p.paused_job_ids

abbrev pub host_paused : Pause → String → Bool
host_paused p id = elem id p.paused_host_ids

unfoldable pub filter_paused_jobs : List Job → Pause → List Job
filter_paused_jobs jobs p = select (λ j. not (job_paused p j.id)) jobs

-- The containers whose running action cancelForceCancelledJobs interrupts; the registry gives the
-- job of each.
unfoldable pub force_cancelled : Pause → Assoc String → List String
force_cancelled p [] = []
force_cancelled p ((container, job) ∷ rest) =
    let others = force_cancelled p rest in
    if on_start_for p job == force_cancel then container ∷ others else others

-- maintenanceAutoRemoveGrace.
abbrev pub auto_remove_grace : ℕ
auto_remove_grace = 43200000000000

abbrev pub past_grace : Time → Option Time → Bool
past_grace now none = false
past_grace now (some end) = ltb (end + auto_remove_grace) now

abbrev pub single_end : Window → Option Time
single_end w = elim w.single [ none ↦ none | some s ↦ some s.end ]

unfoldable pub should_auto_remove_maintenance_window : Window → Time → Bool
should_auto_remove_maintenance_window w now =
    if w.strategy == single_strategy
    then past_grace now (single_end w)
    else if w.strategy == manual
    then past_grace now w.effective_to
    else false
