-- ===== src/Action/Retries.antt =====
-- How often a job acts on a container before its monitoring stops.
pub mod Limit
use chowkidar.Prelude.{
  ℕ, suc, ◌+◌, ◌*◌, ◌≤◌, ◌<◌, ◌≡◌, refl, sym, ap, ◌∙◌, Bool, true, false, not, ◌&&◌, ◌||◌, String,
  Option, none, some, List, [], ◌∷◌, Assoc, lookup, insert, lookup-insert, ==_refl, get_or, ltb,
  leb, nat_eq, if◌then◌else◌, ◌==◌, Bool-cases, Option-cases, inl, inr, ◌⊎◌, arith, ltb_ℤ, pos,
  scale, ℤ, ◌/◌, ◌-◌,
}
use chowkidar.Text.{is_empty, trim_space}
use chowkidar.Model.{Time, second, Container}
use chowkidar.Pause.{maintenance_on_start_for}
use chowkidar.Settings.{resolve_job_settings}
use chowkidar.Execute.{World, perform, Outcome}
use chowkidar.Server.{
  App, Env, ActionJob, CycleState, zero_state, state_of, with_state, container_name, is_active_job,
  claim_active_job, is_retries_exhausted, set_retries_exhausted, should_notify, notify,
  log_action_history, increment_action_cycle, post_action_wait_remaining, reset_action_cooldown,
  set_last_action_failed, set_post_action_deadline, set_last_job_scan, record_job_tracking,
  release_active_job, register_active_job_cancel, unregister_active_job_cancel,
}
use chowkidar.Server.Cycles.{
  Progress, progress, progress_of, exhaust, should_notify-c_state, set_retries_exhausted-progress,
  set_last_action_failed-progress, set_post_action_deadline-progress,
  increment_action_cycle-progress, post_action_wait_remaining-progress,
  post_action_wait_remaining-same, is_retries_exhausted-progress,
}
use chowkidar.Action.{
  Started, skipped, acting, client_of, action_of, notify_retries_exhausted, give_up_claim,
  begin_cycle, guarded, start_job, schedule_wait, after_success, after_failure, after_action,
  complete_job, request_of, finish_started, run, retries_spent,
}

pub progress-≡ :
    (name : String) (a b : App) → a.c_state ≡ b.c_state → progress name a ≡ progress name b
progress-≡ name a b e = ap (λ m. progress_of (get_or zero_state (lookup name m))) e

log_action_history-c_state :
    (c : Container) (reason action : String) (n : ℕ) (status error output : String) (d : ℕ)
    (now : Time) (a : App)
    → (log_action_history c reason action n status error output d now a).c_state ≡ a.c_state
unfolding log_action_history
log_action_history-c_state c reason action n status error output d now a = refl

-- Two states with the same cycles.
branches :
    (name : String) (b : Bool) (x y : App)
    → x.c_state ≡ y.c_state
    → progress name (if b then x else y) ≡ progress name y
branches name true x y e = progress-≡ name x y e
branches name false x y e = refl

notify_retries_exhausted-progress :
    (env : Env) (j : ActionJob) (name action : String) (n : ℕ) (failed : Bool) (now : Time)
    (a : App)
    → progress name (notify_retries_exhausted env j name action n failed now a)
      ≡ exhaust (progress name a)
unfolding notify_retries_exhausted log_action_history
notify_retries_exhausted-progress env j name action n failed now a =
    let b = set_retries_exhausted name true a in
    let c =
      log_action_history j.container j.reason action n "exhausted"
        "monitoring paused — max retries reached" "" 0 now b in
    branches name _ _ _ refl
    ∙ progress-≡ name (should_notify env.config now name c).0 b
        (should_notify-c_state env.config now name c)
    ∙ set_retries_exhausted-progress name a

schedule_wait-progress :
    (j : ActionJob) (name : String) (done : Time) (a : App)
    → progress name (schedule_wait j name done a) ≡ progress name a
unfolding schedule_wait
schedule_wait-progress j name done a =
    elim (Bool-cases (ltb_ℤ (pos 0) (scale j.post_action_wait_seconds second))) [
      | inl e ↦ rw e (set_post_action_deadline-progress name _ a)
      | inr e ↦ rw e refl
    ]

abbrev pub spend : Bool → Progress → Progress
spend b p = record p { exhausted = p.exhausted || b }

-- A limit that is spent exhausts the container.
settle :
    (env : Env) (j : ActionJob) (name action : String) (n : ℕ) (failed spent : Bool) (now : Time)
    (a b : App)
    → b.c_state ≡ a.c_state
    → progress name (if spent then notify_retries_exhausted env j name action n failed now a else b)
      ≡ spend spent (progress name a)
settle env j name action n failed true now a b e =
    notify_retries_exhausted-progress env j name action n failed now a ∙ ground arith
settle env j name action n failed false now a b e = progress-≡ name b a e ∙ ground arith

pub unforced :
    (name : String) (b : Bool) (x y : App)
    → b ≡ false
    → progress name (if b then x else y) ≡ progress name y
unforced name b x y e = ap (λ (v : Bool). progress name (if v then x else y)) e

tracking :
    (e : Bool) (name : String) (b : App) (j : ActionJob)
    → (if e then b else record_job_tracking name j.notifications j.job_name b).c_state ≡ b.c_state
unfolding record_job_tracking
tracking true name b j = refl
tracking false name b j = refl

scanned :
    (e : Bool) (job_id : String) (t : Time) (b : App)
    → (if e then b else set_last_job_scan job_id t b).c_state ≡ b.c_state
unfolding set_last_job_scan
scanned true job_id t b = refl
scanned false job_id t b = refl

after_success-progress :
    (env : Env) (j : ActionJob) (name : String) (n : ℕ) (output : String) (d : ℕ) (done : Time)
    (a : App)
    → j.force ≡ false
    → progress name (after_success env j name n output d done a)
      ≡ spend (retries_spent (resolve_job_settings j env.config).0 n) (progress name a)
unfolding after_success
after_success-progress env j name n output d done a f =
    let waits = schedule_wait j name done a in
    let logged =
      log_action_history j.container j.reason (action_of env j) n "success" "" output d done
        waits in
    let b = set_last_action_failed name false logged in
    let before : progress name b ≡ progress name a =
      set_last_action_failed-progress name false logged
      ∙ progress-≡ name logged waits (log_action_history-c_state j.container _ _ _ _ _ _ _ _ waits)
      ∙ schedule_wait-progress j name done a in
    let spent = retries_spent (resolve_job_settings j env.config).0 n in
    let c =
      if is_empty j.job_id then b else record_job_tracking name j.notifications j.job_name b in
    unforced name j.force _ _ f
    ∙ settle env j name (action_of env j) n false spent done b c
        (tracking (is_empty j.job_id) name b j)
    ∙ ap (spend spent) before

after_failure-progress :
    (env : Env) (j : ActionJob) (name : String) (n : ℕ) (message output : String) (d : ℕ)
    (done : Time) (a : App)
    → j.force ≡ false
    → progress name (after_failure env j name n message output d done a)
      ≡ spend (retries_spent (resolve_job_settings j env.config).0 n) (progress name a)
unfolding after_failure
after_failure-progress env j name n message output d done a f =
    let logged =
      log_action_history j.container j.reason (action_of env j) n "failed" message output d done
        a in
    let b = set_last_action_failed name true logged in
    let c = if is_empty j.job_id then b else set_last_job_scan j.job_id done b in
    let before : progress name c ≡ progress name a =
      progress-≡ name c b (scanned (is_empty j.job_id) j.job_id done b)
      ∙ set_last_action_failed-progress name true logged
      ∙ progress-≡ name logged a (log_action_history-c_state j.container _ _ _ _ _ _ _ _ a) in
    let spent = retries_spent (resolve_job_settings j env.config).0 n in
    unforced name j.force _ _ f
    ∙ settle env j name (action_of env j) n true spent done c c refl
    ∙ ap (spend spent) before

after_action-progress :
    (env : Env) (j : ActionJob) (name : String) (n : ℕ) (e : Option String) (output : String)
    (d : ℕ) (done : Time) (a : App)
    → j.force ≡ false
    → progress name (after_action env j name n e output d done a)
      ≡ spend (retries_spent (resolve_job_settings j env.config).0 n) (progress name a)
unfolding after_action
after_action-progress env j name n none output d done a f =
    after_success-progress env j name n output d done a f
after_action-progress env j name n (some message) output d done a f =
    after_failure-progress env j name n message output d done a f

pub complete_job-progress :
    (env : Env) (j : ActionJob) (n : ℕ) (o : Outcome) (d : ℕ) (done : Time) (a : App)
    → j.force ≡ false
    → let name = container_name j.container in
      progress name (complete_job env j n o d done a)
      ≡ spend (retries_spent (resolve_job_settings j env.config).0 n) (progress name a)
unfolding complete_job give_up_claim release_active_job unregister_active_job_cancel
complete_job-progress env j n o d done a f =
    let name = container_name j.container in
    unforced name j.force _ _ f ∙ after_action-progress env j name n o.error o.output d done a f

-- The time left to wait, and whether a window holds back the job's actions.
abbrev pub remaining : ActionJob → Time → App → ℕ
remaining j now a = (post_action_wait_remaining (container_name j.container) now a).1

abbrev pub held : Env → ActionJob → Time → Bool
held env j now = not (is_empty (maintenance_on_start_for env.lib env.windows env.jobs now j.job_id))

abbrev pub cycle_of : String → App → ℕ
cycle_of name a = (progress name a).cycle

begin_cycle_acts :
    (j : ActionJob) (name : String) (a : App)
    → (begin_cycle j name a).1 ≡ acting (suc (cycle_of name a))
unfolding begin_cycle increment_action_cycle
begin_cycle_acts j name a = refl

guarded_acts :
    (env : Env) (j : ActionJob) (now : Time) (a : App)
    → let name = container_name j.container in
      (guarded env j name now a).1 ≡ (
        if is_retries_exhausted a name || ltb 0 (remaining j now a) || held env j now
        then skipped
        else acting (suc (cycle_of name a)))
unfolding guarded
guarded_acts env j now a =
    let name = container_name j.container in
    elim (Bool-cases (is_retries_exhausted a name)) [
      | inl e ↦ rw e refl
      | inr e ↦ elim (Bool-cases (ltb 0 (post_action_wait_remaining name now a).1)) [
        | inl f ↦ rw (e, f) refl
        | inr f ↦
            elim (Bool-cases
              (is_empty (maintenance_on_start_for env.lib env.windows env.jobs now j.job_id))) [
                | inl g ↦
                    rw (e, f, g)
                      (begin_cycle_acts j name (post_action_wait_remaining name now a).0
                        ∙ ap (λ (p : Progress). acting (suc p.cycle))
                            (post_action_wait_remaining-progress name now a))
                | inr g ↦ rw (e, f, g) refl
              ]
      ]
    ]

-- Why a job that holds the claim gives it up.
abbrev pub idle : Env → ActionJob → Time → App → Bool
idle env j now a =
    is_retries_exhausted a (container_name j.container)
    || ltb 0 (remaining j now a)
    || held env j now

abbrev verdict : Bool → ℕ → Started
verdict b n = if b then skipped else acting (suc n)

claim_acts :
    (env : Env) (j : ActionJob) (now : Time) (a b : App)
    → b.c_state ≡ a.c_state
    → let name = container_name j.container in
      (guarded env j name now b).1 ≡ verdict (idle env j now a) (cycle_of name a)
unfolding is_retries_exhausted
claim_acts env j now a b e =
    let name = container_name j.container in
    guarded_acts env j now b
    ∙ ap (λ r. verdict (is_retries_exhausted b name || ltb 0 r || held env j now) (cycle_of name b))
        (post_action_wait_remaining-same name now b a e)
    ∙ ap
        (λ (m : Assoc CycleState).
          verdict
            (elim (lookup name m) [ none ↦ false | some s ↦ s.exhausted ]
              || ltb 0 (remaining j now a)
              || held env j now)
            (get_or zero_state (lookup name m)).cycle)
        e

not_forced : (b : Bool) (x y : App × Started) → b ≡ false → (if b then x else y).1 ≡ y.1
not_forced b x y e = ap (λ (v : Bool). (if v then x else y).1) e

-- A job that is not forced acts exactly if no job of its container is running, the retries are not
-- exhausted, no wait is left and no window holds back its actions; it then counts one more cycle.
pub start_job_acts :
    (env : Env) (j : ActionJob) (now : Time) (a : App)
    → j.force ≡ false
    → let name = container_name j.container in
      (start_job env j now a).1 ≡ (
        if is_active_job a name || idle env j now a
        then skipped
        else acting (suc (cycle_of name a)))
unfolding start_job claim_active_job register_active_job_cancel
start_job_acts env j now a f =
    let name = container_name j.container in
    let b =
      register_active_job_cancel name j.job_id
        (record a { active_jobs = insert name true a.active_jobs }) in
    let (a₁, taken) = claim_active_job name a in
    let unforced =
      if taken
      then guarded env j name now (register_active_job_cancel name j.job_id a₁)
      else (a₁, skipped) in
    let rest : unforced.1 ≡ verdict (is_active_job a name || idle env j now a) (cycle_of name a) =
      elim (Bool-cases (is_active_job a name)) [
        | inl e ↦ rw e refl
        | inr e ↦ rw e (claim_acts env j now a b refl)
      ] in
    not_forced j.force (begin_cycle j name (reset_action_cooldown name a)) unforced f ∙ rest
