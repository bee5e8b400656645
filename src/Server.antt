-- ===== src/Server.antt =====
-- cmd/server/main.go and state.go: the part of `app` that scans and actions share, its action jobs,
-- and the accessors that hold the mutex, each one an atomic function of the state. A map that the
-- constructor makes is never nil.
pub mod Cooldown
pub mod Cycles
pub mod Requests
use chowkidar.Prelude.{
  ℕ, suc, ◌+◌, ◌-◌, Bool, true, false, ◌&&◌, not, String, List, [], ◌∷◌, ◌++◌, Option, none, some,
  Assoc, lookup, insert, delete, get_or, ltb, leb, nat_eq, ◌==◌, if◌then◌else◌, ℤ, pos, negsuc,
  leb_ℤ, scale,
}
use chowkidar.Text.{trim_space, trim_prefix, is_empty}
use chowkidar.Model.{Time, second, Job, Config, Window, Container}
use chowkidar.Calendar.{Library, before_add}

-- containerActionState.
pub record CycleState : Type 0 where
  pub cycle : ℕ
  pub exhausted : Bool
  pub deadline : Time
  pub last_failed : Bool
  pub stable_scans : ℕ
  pub stable_scans_required : ℤ

abbrev pub zero_state : CycleState
zero_state = record {
  cycle = 0;
  exhausted = false;
  deadline = 0;
  last_failed = false;
  stable_scans = 0;
  stable_scans_required = pos 0;
}

-- history.Entry.
pub record Entry : Type 0 where
  pub timestamp : Time
  pub container_id : String
  pub container_name : String
  pub reason : String
  pub action : String
  pub attempt : ℕ
  pub status : String
  pub error : String
  pub output : String
  pub duration_ms : ℕ

-- actionJob; `docker` is the host of the client that the job carries, if it carries one.
pub record ActionJob : Type 0 where
  pub docker : Option String
  pub container : Container
  pub reason : String
  pub action : String
  pub script : String
  pub notifications : List String
  pub job_id : String
  pub job_name : String
  pub force : Bool
  pub retry_count : ℕ
  pub action_timeout_seconds : ℤ
  pub post_action_wait_seconds : ℤ

-- A call of sendNotification (no recipients) or of sendJobNotifications.
pub record Notice : Type 0 where
  pub event : String
  pub container_name : String
  pub cycle : ℕ
  pub recipients : Option (List String)

pub record App : Type 0 where
  pub c_state : Assoc CycleState
  pub active_jobs : Assoc Bool
  pub active_job_cancels : Assoc String
  pub last_notified : Assoc Time
  pub last_job_scan : Assoc Time
  pub last_job_notifications : Assoc (List String)
  pub last_job_rule_name : Assoc String
  pub known_names : Assoc String
  pub unhealthy : List Container
  pub exited : List Container
  pub restarting : List Container
  pub total_exited : ℕ
  pub last_scan : Time
  -- The action history, oldest first, if the store is open.
  pub history : Option (List Entry)
  -- What was handed to the worker pool and to the notifiers, oldest first.
  pub queue : List ActionJob
  pub notices : List Notice

-- An entry of the scripts allowlist.
pub record ScriptEntry : Type 0 where
  pub path : String
  pub enabled : Bool

-- What scans and actions only read.
pub record Env : Type 0 where
  pub lib : Library
  pub config : Config
  pub jobs : List Job
  pub windows : List Window
  pub scripts : List ScriptEntry
  pub self_id : String
  pub self_name : String

abbrev first_name : String → List String → String
first_name id [] = id
first_name id (n ∷ _) = trim_prefix n "/"

unfoldable pub container_name : Container → String
container_name c = first_name c.id c.names

-- ensureContainerState, and a write to the bucket that it returns.
abbrev pub state_of : App → String → CycleState
state_of a name = get_or zero_state (lookup name a.c_state)

abbrev pub with_state : String → CycleState → App → App
with_state name s a = record a { c_state = insert name s a.c_state }

unfoldable pub log_action_history :
    Container → String → String → ℕ → String → String → String → ℕ → Time → App → App
log_action_history c reason action attempt status error output duration now a = record a {
  history = elim a.history [
    | none ↦ none
    | some entries ↦ some (
        entries
        ++ record {
          timestamp = now;
          container_id = c.id;
          container_name = container_name c;
          reason = reason;
          action = action;
          attempt = attempt;
          status = status;
          error = error;
          output = trim_space output;
          duration_ms = duration;
        }
          ∷ [])
  ];
}

abbrev pub notify : String → String → ℕ → Option (List String) → App → App
notify event name cycle recipients a = record a {
  notices =
      a.notices
      ++ record { event = event; container_name = name; cycle = cycle; recipients = recipients }
        ∷ [];
}

unfoldable pub increment_action_cycle : String → App → App × ℕ
increment_action_cycle name a =
    let s = state_of a name in (with_state name (record s { cycle = suc s.cycle }) a, suc s.cycle)

unfoldable pub is_retries_exhausted : App → String → Bool
is_retries_exhausted a name = elim (lookup name a.c_state) [ none ↦ false | some s ↦ s.exhausted ]

unfoldable pub set_retries_exhausted : String → Bool → App → App
set_retries_exhausted name v a = with_state name (record (state_of a name) { exhausted = v }) a

-- Within the cooldown of the last notice the answer is no; otherwise it is yes, and the time is kept.
within_cooldown : Time → ℤ → Option Time → Bool
within_cooldown now cooldown none = false
within_cooldown now cooldown (some last) = before_add now last cooldown

unfoldable pub should_notify : Config → Time → String → App → App × Bool
unfolding within_cooldown
should_notify cfg now name a =
    if leb_ℤ cfg.notification_cooldown_seconds (pos 0)
    then (a, true)
    else if within_cooldown now (scale cfg.notification_cooldown_seconds second)
        (lookup name a.last_notified)
    then (a, false)
    else (record a { last_notified = insert name now a.last_notified }, true)

abbrev pub is_active_job : App → String → Bool
is_active_job a name = get_or false (lookup name a.active_jobs)

unfoldable pub claim_active_job : String → App → App × Bool
claim_active_job name a =
    if is_active_job a name
    then (a, false)
    else (record a { active_jobs = insert name true a.active_jobs }, true)

unfoldable pub release_active_job : String → App → App
release_active_job name a = record a { active_jobs = delete name a.active_jobs }

unfoldable pub register_active_job_cancel : String → String → App → App
register_active_job_cancel name job_id a = record a {
  active_job_cancels = insert name job_id a.active_job_cancels;
}

unfoldable pub unregister_active_job_cancel : String → App → App
unregister_active_job_cancel name a = record a {
  active_job_cancels = delete name a.active_job_cancels;
}

unfoldable pub set_last_action_failed : String → Bool → App → App
set_last_action_failed name failed a =
    let s = state_of a name in
    with_state name
      (record s { last_failed = failed; stable_scans = if failed then 0 else s.stable_scans }) a

unfoldable pub set_last_job_scan : String → Time → App → App
set_last_job_scan job_id t a = record a { last_job_scan = insert job_id t a.last_job_scan }

unfoldable pub record_job_tracking : String → List String → String → App → App
record_job_tracking name notifications rule a = record a {
  last_job_notifications = insert name notifications a.last_job_notifications;
  last_job_rule_name = insert name rule a.last_job_rule_name;
}

unfoldable pub set_post_action_deadline : String → Time → App → App
set_post_action_deadline name deadline a =
    with_state name (record (state_of a name) { deadline = deadline }) a

-- The time left until the deadline; a deadline that has passed is cleared.
remaining_of : String → Time → App → Option CycleState → App × ℕ
remaining_of name now a none = (a, 0)
remaining_of name now a (some s) =
    if nat_eq s.deadline 0
    then (a, 0)
    else if ltb now s.deadline
    then (a, s.deadline - now)
    else (with_state name (record s { deadline = 0 }) a, 0)

unfoldable pub post_action_wait_remaining : String → Time → App → App × ℕ
unfolding remaining_of
post_action_wait_remaining name now a = remaining_of name now a (lookup name a.c_state)

unfoldable pub reset_action_cooldown : String → App → App
reset_action_cooldown name a = record a {
  last_notified = delete name a.last_notified;
  c_state = delete name a.c_state;
  active_jobs = delete name a.active_jobs;
  last_job_rule_name = delete name a.last_job_rule_name;
}

unfoldable pub set_stable_scans_required : String → ℤ → App → App
set_stable_scans_required name n a =
    with_state name (record (state_of a name) { stable_scans_required = n }) a

-- enqueueJob, with a pool at hand.
abbrev pub enqueue_job : ActionJob → App → App
enqueue_job j a = record a { queue = a.queue ++ j ∷ [] }
