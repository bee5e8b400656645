-- ===== src/Action.antt =====
-- cmd/server/action.go and util.go: how an action job runs. What the Docker daemon and the scripts
-- answer is the argument `world`, by host and call. `now` is the clock when the job starts and `done`
-- when the action has returned.
pub mod Retries
pub mod Claims
use Prim.Native.Nat.{max}
use chowkidar.Prelude.{
  ℕ, ◌+◌, ◌-◌, ◌*◌, ◌/◌, Bool, true, false, ◌&&◌, ◌||◌, not, String, List, [], ◌∷◌, ◌++◌, Option,
  none, some, ltb, leb, ◌==◌, if◌then◌else◌, any, ℤ, pos, negsuc, ltb_ℤ, leb_ℤ, scale,
}
use chowkidar.Text.{trim_space, to_lower, is_empty}
use chowkidar.Model.{Time, second, minute, Job, Config, Window, Container}
use chowkidar.Calendar.{Library}
use chowkidar.Pause.{maintenance_on_start_for}
use chowkidar.Settings.{resolve_job_settings}
use chowkidar.Execute.{Request, Outcome, World, execute_action, perform}
use chowkidar.Server.{
  App, Env, ActionJob, ScriptEntry, container_name, log_action_history, notify,
  increment_action_cycle, is_retries_exhausted, set_retries_exhausted, should_notify,
  claim_active_job, release_active_job, register_active_job_cancel, unregister_active_job_cancel,
  set_last_action_failed, set_last_job_scan, record_job_tracking, set_post_action_deadline,
  post_action_wait_remaining, reset_action_cooldown,
}

-- The client that an action uses: the job's, or else the one of the local daemon.
abbrev pub client_of : ActionJob → String
client_of j = elim j.docker [ none ↦ "local" | some host ↦ host ]

-- The action's name, or the global default where the job gives none.
unfoldable pub action_of : Env → ActionJob → String
action_of env j =
    let action = to_lower (trim_space j.action) in
    if is_empty action then to_lower env.config.action else action

-- notifyRetriesExhausted.
unfoldable pub notify_retries_exhausted :
    Env → ActionJob → String → String → ℕ → Bool → Time → App → App
notify_retries_exhausted env j name action cycle failed now a =
    let event = if failed then "action failed" else "retry limit reached" in
    let a₁ = set_retries_exhausted name true a in
    let a₂ =
      log_action_history j.container j.reason action cycle "exhausted"
        "monitoring paused — max retries reached" "" 0 now a₁ in
    let (a₃, sends) = should_notify env.config now name a₂ in
    if sends
    then notify event name cycle (some j.notifications) (notify event name cycle none a₃)
    else a₃

-- Whether a job went on to its action, and in which cycle.
pub data Started : Type 0 where
  skipped : Started
  acting : ℕ → Started

-- The deferred calls, in the order in which they run.
unfoldable pub give_up_claim : String → App → App
give_up_claim name a = release_active_job name (unregister_active_job_cancel name a)

-- The cycle is counted before the action is tried.
unfoldable pub begin_cycle : ActionJob → String → App → App × Started
begin_cycle j name a =
    let (a₁, cycle) = increment_action_cycle name a in
    (notify "retrying" name cycle (some j.notifications) a₁, acting cycle)

abbrev skip_entry : Env → ActionJob → String → Time → App → App
skip_entry env j why now a =
    log_action_history j.container j.reason (action_of env j) 0 "skipped" why "" 0 now a

-- The tests after the claim; each one that stops the job gives up the claim.
unfoldable pub guarded : Env → ActionJob → String → Time → App → App × Started
unfolding give_up_claim begin_cycle
guarded env j name now a =
    if is_retries_exhausted a name
    then (give_up_claim name a, skipped)
    else let (a₁, remaining) = post_action_wait_remaining name now a in
      if ltb 0 remaining
      then (give_up_claim name (skip_entry env j "cooldown active" now a₁), skipped)
      else if not (is_empty (maintenance_on_start_for env.lib env.windows env.jobs now j.job_id))
      then (give_up_claim name (skip_entry env j "maintenance window started" now a₁), skipped)
      else begin_cycle j name a₁

-- Run, up to the action.
unfoldable pub start_job : Env → ActionJob → Time → App → App × Started
unfolding guarded
start_job env j now a =
    let name = container_name j.container in
    if j.force
    then begin_cycle j name (reset_action_cooldown name a)
    else let (a₁, claimed) = claim_active_job name a in
      if claimed
      then guarded env j name now (register_active_job_cancel name j.job_id a₁)
      else (a₁, skipped)

abbrev after_wait : Time → ℤ → Time
after_wait done (pos n) = done + n
after_wait done (negsuc n) = done

abbrev pub retries_spent : ℕ → ℕ → Bool
retries_spent limit cycle = ltb 0 limit && leb limit cycle

-- The wait after a success; a wait that is not positive is none.
unfoldable pub schedule_wait : ActionJob → String → Time → App → App
schedule_wait j name done a =
    let wait = scale j.post_action_wait_seconds second in
    if ltb_ℤ (pos 0) wait
    then notify "cooldown" name 0 (some j.notifications)
        (set_post_action_deadline name (after_wait done wait) a)
    else a

unfoldable pub after_success : Env → ActionJob → String → ℕ → String → ℕ → Time → App → App
unfolding schedule_wait notify_retries_exhausted
after_success env j name cycle output duration done a =
    let limit = (resolve_job_settings j env.config).0 in
    let action = action_of env j in
    let a₁ = set_last_action_failed name false (
      log_action_history j.container j.reason action cycle "success" "" output duration done
        (schedule_wait j name done a)) in
    if j.force
    then reset_action_cooldown name a₁
    else if retries_spent limit cycle
    then notify_retries_exhausted env j name action cycle false done a₁
    else if is_empty j.job_id
    then a₁
    else record_job_tracking name j.notifications j.job_name a₁

unfoldable pub after_failure : Env → ActionJob → String → ℕ → String → String → ℕ → Time → App → App
unfolding notify_retries_exhausted
after_failure env j name cycle message output duration done a =
    let limit = (resolve_job_settings j env.config).0 in
    let action = action_of env j in
    let a₁ =
      log_action_history j.container j.reason action cycle "failed" message output duration done
        a in
    if j.force
    then a₁
    else let a₂ = set_last_action_failed name true a₁ in
      let a₃ = if is_empty j.job_id then a₂ else set_last_job_scan j.job_id done a₂ in
      if retries_spent limit cycle
      then notify_retries_exhausted env j name action cycle true done a₃
      else a₃

unfoldable pub after_action :
    Env → ActionJob → String → ℕ → Option String → String → ℕ → Time → App → App
unfolding after_success after_failure
after_action env j name cycle none output duration done a =
    after_success env j name cycle output duration done a
after_action env j name cycle (some message) output duration done a =
    after_failure env j name cycle message output duration done a

-- Run, from the action's outcome to the end; a forced job holds no claim.
unfoldable pub complete_job : Env → ActionJob → ℕ → Outcome → ℕ → Time → App → App
unfolding after_action give_up_claim
complete_job env j cycle o duration done a =
    let name = container_name j.container in
    let settled = after_action env j name cycle o.error o.output duration done a in
    if j.force then settled else give_up_claim name settled

-- What Run asks of the world.
unfoldable pub request_of : Env → ActionJob → Request
request_of env j =
    execute_action env (action_of env j) j.script j.container (resolve_job_settings j env.config).1

finish_started : Env → World → ActionJob → Time → Time → App → Started → App
finish_started env world j now done a skipped = a
finish_started env world j now done a (acting cycle) =
    complete_job env j cycle (perform world (client_of j) (request_of env j))
      ((done - now) / 1000000) done a

-- (actionJob).Run, with nothing else going on.
unfoldable pub run : Env → World → ActionJob → Time → Time → App → App
unfolding finish_started
run env world j now done a =
    let (a₁, started) = start_job env j now a in finish_started env world j now done a₁ started
