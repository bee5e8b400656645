-- ===== src/Settings.antt =====
-- cmd/server/action.go and util.go: the numbers that govern a job's retries, waits and time limits.
pub mod Bounds
use Prim.Native.Nat.{max}
use chowkidar.Prelude.{
  ℕ, ◌+◌, ◌-◌, ◌*◌, ◌/◌, Bool, true, false, ◌&&◌, ◌||◌, not, String, List, [], ◌∷◌, ◌++◌, Option,
  none, some, ltb, leb, ◌==◌, if◌then◌else◌, any, ℤ, pos, negsuc, ltb_ℤ, leb_ℤ, scale,
}
use chowkidar.Text.{trim_space, to_lower, is_empty}
use chowkidar.Model.{Time, second, minute, Job, Config, Window, Container}
use chowkidar.Calendar.{Library}
use chowkidar.Pause.{maintenance_on_start_for}
use chowkidar.Server.{
  App, Env, ActionJob, ScriptEntry, container_name, log_action_history, notify,
  increment_action_cycle, is_retries_exhausted, set_retries_exhausted, should_notify,
  claim_active_job, release_active_job, register_active_job_cancel, unregister_active_job_cancel,
  set_last_action_failed, set_last_job_scan, record_job_tracking, set_post_action_deadline,
  post_action_wait_remaining, reset_action_cooldown,
}

-- The scan interval of a job: below 5 seconds it is a minute.
abbrev pub at_least_five : ℤ → ℕ
at_least_five (pos n) = if ltb n (5 * second) then 60 * second else n
at_least_five (negsuc n) = 60 * second

unfoldable pub scan_interval : Job → ℕ
scan_interval j = at_least_five (scale j.monitor_interval_seconds second)

-- A quotient of durations that is at least 1.
abbrev pub retries_in : ℤ → ℕ → ℕ
retries_in (pos n) interval = max (n / interval) 1
retries_in (negsuc n) interval = 1

abbrev pub count_of : ℤ → ℕ
count_of (pos n) = n
count_of (negsuc n) = 0

unfoldable pub effective_retry_count : Option Job → ℕ
unfolding scan_interval
effective_retry_count none = 0
effective_retry_count (some j) =
    if ltb_ℤ (pos 0) j.max_monitoring_duration_minutes
    then retries_in (scale j.max_monitoring_duration_minutes minute) (scan_interval j)
    else count_of j.retry_count

-- applyMatchedJobSettings.
unfoldable pub apply_matched_job_settings : ActionJob → Option Job → ActionJob
unfolding effective_retry_count
apply_matched_job_settings job none = job
apply_matched_job_settings job (some j) = record job {
  retry_count = effective_retry_count (some j);
  action_timeout_seconds =
      if ltb_ℤ (pos 0) j.action_timeout_seconds
      then j.action_timeout_seconds
      else job.action_timeout_seconds;
  post_action_wait_seconds =
      if leb_ℤ j.post_action_wait_seconds (pos 0)
      then j.monitor_interval_seconds
      else j.post_action_wait_seconds;
}

-- resolveJobSettings.
unfoldable pub resolve_job_settings : ActionJob → Config → ℕ × ℤ
resolve_job_settings j cfg = if is_empty j.job_id then (1, cfg.action_timeout_seconds) else (
  j.retry_count,
  if ltb_ℤ j.action_timeout_seconds (pos 1)
      then cfg.action_timeout_seconds
      else j.action_timeout_seconds,
)
