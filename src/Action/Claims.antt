-- ===== src/Action/Claims.antt =====
-- Which operations of an action touch the claims on containers, a.activeJobs.
pub mod Exclusion
use chowkidar.Prelude.{
  ℕ, suc, ◌-◌, ◌≡◌, refl, ap, sym, ◌∙◌, Bool, true, false, not, ◌||◌, String, Option, none, some,
  lookup, insert, delete, Assoc, ltb, leb_ℤ, ltb_ℤ, pos, nat_eq, scale, if◌then◌else◌, Bool-cases,
  inl, inr, arith, ◌==◌,
}
use chowkidar.Text.{is_empty}
use chowkidar.Model.{Time, Config, second}
use chowkidar.Pause.{maintenance_on_start_for}
use chowkidar.Settings.{resolve_job_settings}
use chowkidar.Execute.{Outcome}
use chowkidar.Server.{
  App, Env, ActionJob, CycleState, container_name, is_active_job, should_notify,
  post_action_wait_remaining, log_action_history, is_retries_exhausted, set_retries_exhausted,
  set_last_action_failed, set_last_job_scan, set_post_action_deadline, record_job_tracking,
  increment_action_cycle, release_active_job, register_active_job_cancel,
  unregister_active_job_cancel, notify,
}
use chowkidar.Server.Cycles.{should_notify-active_jobs, post_action_wait_remaining-active_jobs}
use chowkidar.Action.{
  Started, skipped, acting, action_of, notify_retries_exhausted, give_up_claim, begin_cycle,
  guarded, schedule_wait, after_success, after_failure, after_action, complete_job, retries_spent,
}

-- Of two states with the same claims either one will do.
either :
    (b : Bool) (m : Assoc Bool) (x y : App)
    → x.active_jobs ≡ m
    → y.active_jobs ≡ m
    → (if b then x else y).active_jobs ≡ m
either true m x y h k = h
either false m x y h k = k

latter :
    (b : Bool) (m : Assoc Bool) (x y : App)
    → b ≡ false
    → y.active_jobs ≡ m
    → (if b then x else y).active_jobs ≡ m
latter b m x y f h = rw f h

notify_retries_exhausted-active_jobs :
    (env : Env) (j : ActionJob) (name action : String) (n : ℕ) (failed : Bool) (now : Time)
    (a : App)
    → (notify_retries_exhausted env j name action n failed now a).active_jobs ≡ a.active_jobs
unfolding notify_retries_exhausted log_action_history set_retries_exhausted
notify_retries_exhausted-active_jobs env j name action n failed now a =
    let b =
      log_action_history j.container j.reason action n "exhausted"
        "monitoring paused — max retries reached" "" 0 now (set_retries_exhausted name true a) in
    let e = should_notify-active_jobs env.config now name b in
    either (should_notify env.config now name b).1 a.active_jobs _ _ e e

schedule_wait-active_jobs :
    (j : ActionJob) (name : String) (done : Time) (a : App)
    → (schedule_wait j name done a).active_jobs ≡ a.active_jobs
unfolding schedule_wait set_post_action_deadline
schedule_wait-active_jobs j name done a =
    either (ltb_ℤ (pos 0) (scale j.post_action_wait_seconds second)) a.active_jobs _ _ refl refl

after_success-active_jobs :
    (env : Env) (j : ActionJob) (name : String) (n : ℕ) (output : String) (d : ℕ) (done : Time)
    (a : App)
    → j.force ≡ false
    → (after_success env j name n output d done a).active_jobs ≡ a.active_jobs
unfolding after_success log_action_history set_last_action_failed record_job_tracking
after_success-active_jobs env j name n output d done a f =
    let b = set_last_action_failed name false (
      log_action_history j.container j.reason (action_of env j) n "success" "" output d done
        (schedule_wait j name done a)) in
    let e = schedule_wait-active_jobs j name done a in
    latter j.force a.active_jobs _ _ f (
      either (retries_spent (resolve_job_settings j env.config).0 n) a.active_jobs _ _
        (notify_retries_exhausted-active_jobs env j name (action_of env j) n false done b ∙ e)
        (either (is_empty j.job_id) a.active_jobs _ _ e e))

after_failure-active_jobs :
    (env : Env) (j : ActionJob) (name : String) (n : ℕ) (message output : String) (d : ℕ)
    (done : Time) (a : App)
    → j.force ≡ false
    → (after_failure env j name n message output d done a).active_jobs ≡ a.active_jobs
unfolding after_failure log_action_history set_last_action_failed set_last_job_scan
after_failure-active_jobs env j name n message output d done a f =
    let b = set_last_action_failed name true (
      log_action_history j.container j.reason (action_of env j) n "failed" message output d done
        a) in
    let c = if is_empty j.job_id then b else set_last_job_scan j.job_id done b in
    let e : c.active_jobs ≡ a.active_jobs =
      either (is_empty j.job_id) a.active_jobs _ _ refl refl in
    latter j.force a.active_jobs _ _ f (
      either (retries_spent (resolve_job_settings j env.config).0 n) a.active_jobs _ _
        (notify_retries_exhausted-active_jobs env j name (action_of env j) n true done c ∙ e) e)

after_action-active_jobs :
    (env : Env) (j : ActionJob) (name : String) (n : ℕ) (e : Option String) (output : String)
    (d : ℕ) (done : Time) (a : App)
    → j.force ≡ false
    → (after_action env j name n e output d done a).active_jobs ≡ a.active_jobs
unfolding after_action
after_action-active_jobs env j name n none output d done a f =
    after_success-active_jobs env j name n output d done a f
after_action-active_jobs env j name n (some message) output d done a f =
    after_failure-active_jobs env j name n message output d done a f

-- A job that is not forced gives up its claim at the end, however its action went.
pub complete_job-active_jobs :
    (env : Env) (j : ActionJob) (n : ℕ) (o : Outcome) (d : ℕ) (done : Time) (a : App)
    → j.force ≡ false
    → (complete_job env j n o d done a).active_jobs
      ≡ delete (container_name j.container) a.active_jobs
unfolding complete_job give_up_claim release_active_job unregister_active_job_cancel
complete_job-active_jobs env j n o d done a f =
    let name = container_name j.container in
    latter j.force (delete name a.active_jobs) _ _ f
      (ap (delete name) (after_action-active_jobs env j name n o.error o.output d done a f))

-- What is left of the claims once the tests have let the job act, or stopped it.
abbrev pub claims_after : Started → String → Assoc Bool → Assoc Bool
claims_after skipped name m = delete name m
claims_after (acting n) name m = m

pub guarded-active_jobs :
    (env : Env) (j : ActionJob) (now : Time) (a : App)
    → let name = container_name j.container in
      (guarded env j name now a).0.active_jobs
      ≡ claims_after (guarded env j name now a).1 name a.active_jobs
unfolding guarded give_up_claim release_active_job unregister_active_job_cancel log_action_history
    begin_cycle increment_action_cycle
guarded-active_jobs env j now a =
    let name = container_name j.container in
    let waits = post_action_wait_remaining-active_jobs name now a in
    elim (Bool-cases (is_retries_exhausted a name)) [
      | inl e ↦ rw e refl
      | inr e ↦ elim (Bool-cases (ltb 0 (post_action_wait_remaining name now a).1)) [
        | inl f ↦ rw (e, f) (ap (delete name) waits)
        | inr f ↦
            elim (Bool-cases
              (is_empty (maintenance_on_start_for env.lib env.windows env.jobs now j.job_id))) [
                | inl g ↦ rw (e, f, g) waits
                | inr g ↦ rw (e, f, g) (ap (delete name) waits)
              ]
      ]
    ]
