-- ===== src/Execute.antt =====
-- cmd/server/action.go, executeAction: what an action asks of Docker or of a script.
pub mod Allowed
use Prim.Native.Nat.{max}
use chowkidar.Prelude.{
  ℕ, ◌+◌, ◌-◌, ◌*◌, ◌/◌, Bool, true, false, ◌&&◌, ◌||◌, not, String, List, [], ◌∷◌, ◌++◌, Option,
  none, some, ltb, leb, ◌==◌, if◌then◌else◌, any, ℤ, pos, negsuc, ltb_ℤ, leb_ℤ, scale,
}
use chowkidar.Text.{trim_space, to_lower, is_empty}
use chowkidar.Model.{Time, second, minute, Job, Config, Window, Container}
use chowkidar.Calendar.{Library}
use chowkidar.Pause.{maintenance_on_start_for}
use chowkidar.Server.{
  App, Env, ActionJob, ScriptEntry, container_name, log_action_history, notify,
  increment_action_cycle, is_retries_exhausted, set_retries_exhausted, should_notify,
  claim_active_job, release_active_job, register_active_job_cancel, unregister_active_job_cancel,
  set_last_action_failed, set_last_job_scan, record_job_tracking, set_post_action_deadline,
  post_action_wait_remaining, reset_action_cooldown,
}

-- A call of the Docker API or of a script, with its time limit in nanoseconds.
pub data Call : Type 0 where
  restart : String → ℕ → ℕ → Call
  start : String → ℕ → Call
  stop : String → ℕ → ℕ → Call
  inline_script : String → String → String → ℕ → Call
  script_file : String → String → String → ℕ → Call

-- What a call gives back: its output, and its error if it fails.
pub record Outcome : Type 0 where
  pub output : String
  pub error : Option String

-- What executeAction does: a call, or an answer without one.
pub data Request : Type 0 where
  calls : Call → Request
  answers : Outcome → Request

abbrev pub fails : String → Request
fails message = answers (record { output = ""; error = some message })

-- effectiveTimeout.
abbrev pub at_least : ℤ → ℕ
at_least (pos n) = max n (5 * second)
at_least (negsuc n) = 5 * second

unfoldable pub effective_timeout : ℤ → Config → ℕ
effective_timeout sec cfg =
    at_least (scale (if ltb_ℤ sec (pos 1) then cfg.action_timeout_seconds else sec) second)

-- isScriptAllowed.
unfoldable pub is_script_allowed : List ScriptEntry → String → Bool
is_script_allowed entries path =
    let p = trim_space path in
    not (is_empty p) && any (λ (s : ScriptEntry). s.enabled && trim_space s.path == p) entries

-- executeRunScript. The temporary file of an inline script is part of the call.
unfoldable pub execute_run_script : Env → String → Container → ℕ → Request
execute_run_script env script c timeout =
    if not (is_empty (trim_space script))
    then calls (inline_script script c.id (container_name c) timeout)
    else if is_empty (trim_space env.config.run_script_path)
    then fails "run-script action selected but RUN_SCRIPT_PATH is empty"
    else if not (is_script_allowed env.scripts env.config.run_script_path)
    then fails "run-script path is not in scripts allowlist"
    else calls (script_file env.config.run_script_path c.id (container_name c) timeout)

-- executeAction.
unfoldable pub execute_action : Env → String → String → Container → ℤ → Request
unfolding effective_timeout execute_run_script
execute_action env action script c sec =
    let timeout = effective_timeout sec env.config in
    if action == "restart"
    then calls (restart c.id 10 timeout)
    else if action == "start"
    then calls (start c.id timeout)
    else if action == "stop"
    then calls (stop c.id 10 timeout)
    else if action == "none"
    then answers (record { output = ""; error = none })
    else if action == "run-script"
    then execute_run_script env script c timeout
    else fails "unsupported action"

abbrev pub World : Type 0
World = String → Call → Outcome

unfoldable pub perform : World → String → Request → Outcome
perform world host (calls c) = world host c
perform world host (answers o) = o
