-- ===== src/Tests/Actions.antt =====
-- The theorems about actions at concrete inputs.
use chowkidar.Prelude.{
  suc, ◌+◌, ◌*◌, ◌≤◌, ◌<◌, ◌≡◌, refl, true, false, [], ◌∷◌, none, some, inl, pos, ltb, ltb_ℤ, not,
  ◌||◌, if◌then◌else◌, arith, ltb,
}
use chowkidar.Model.{second}
use chowkidar.Settings.{scan_interval, effective_retry_count}
use chowkidar.Execute.{execute_action, effective_timeout}
use chowkidar.Execute.Allowed.{IsSafe, execute_action-IsSafe}
use chowkidar.Server.{should_notify, is_active_job, container_name}
use chowkidar.Action.{start_job, skipped, acting}
use chowkidar.Action.Retries.{start_job_acts, idle, cycle_of}
use chowkidar.Action.Retries.Limit.{Attempt, actions, actions-le}
use chowkidar.Action.Claims.Exclusion.{Running, stay, next, begin, IsExclusive, exclusive}
use chowkidar.Tests.Data.{noon, web, settings, quiet_env, fresh, heal}

after_start : Running
after_start = ((start_job quiet_env heal noon fresh).0, (heal, 1) ∷ [])

started : (start_job quiet_env heal noon fresh).1 ≡ acting 1
unfolding start_job chowkidar.Server.claim_active_job chowkidar.Prelude.lookup
    chowkidar.Server.is_retries_exhausted chowkidar.Server.register_active_job_cancel
    chowkidar.Server.post_action_wait_remaining chowkidar.Pause.maintenance_on_start_for
    chowkidar.Pause.on_start_for chowkidar.Pause.compute_maintenance_pause chowkidar.Pause.pause_of
    chowkidar.Pause.pause_windows chowkidar.Occurrence.active_maintenance_windows
    chowkidar.Server.increment_action_cycle
started = refl

exclusive_example : IsExclusive after_start
unfolding after_start
exclusive_example =
    exclusive fresh after_start refl (next stay (begin quiet_env heal noon fresh [] 1 refl started))

one_try : Attempt
one_try = record {
  env = quiet_env;
  world = λ host call. record { output = ""; error = some "no such container" };
  job = heal;
  now = noon;
  done = noon + second;
}

actions-le_example : actions (one_try ∷ one_try ∷ []) fresh + cycle_of "web" fresh ≤ 3
unfolding one_try container_name chowkidar.Text.trim_prefix chowkidar.Settings.resolve_job_settings
    chowkidar.Prelude.lookup
actions-le_example =
    actions-le "web" 3 (one_try ∷ one_try ∷ []) fresh ((refl, refl, refl), ((refl, refl, refl), tt))
      (inl (omega arith))

start_job_acts_example : (start_job quiet_env heal noon fresh).1 ≡ (
    if is_active_job fresh (container_name heal.container) || idle quiet_env heal noon fresh
    then skipped
    else acting (suc (cycle_of (container_name heal.container) fresh)))
start_job_acts_example = start_job_acts quiet_env heal noon fresh refl

execute_action-IsSafe_example :
    IsSafe quiet_env web
      (effective_timeout (pos 0) settings)
      (execute_action quiet_env "run-script" "" web (pos 0))
execute_action-IsSafe_example = execute_action-IsSafe quiet_env "run-script" "" web (pos 0)
