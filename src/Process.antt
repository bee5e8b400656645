-- ===== src/Process.antt =====
-- cmd/server/monitor.go: what a scan does with the containers that a host reports. The instant of the
-- scan is `now`; `due` holds the IDs of the due jobs.
pub mod Queue
pub mod Origin
use chowkidar.Prelude.{
  ℕ, suc, Bool, true, false, ◌&&◌, ◌||◌, not, String, List, [], ◌∷◌, ◌++◌, Option, none, some,
  lookup, elem, ltb, nat_eq, ◌==◌, if◌then◌else◌, ℤ, pos, negsuc, ltb_ℤ, length,
}
use chowkidar.Text.{is_empty, join, decimal, atoi, trim_space}
use chowkidar.Model.{Time, Job, Config, Container}
use chowkidar.Exit.{parse_exit_code, crash_reason}
use chowkidar.Settings.{apply_matched_job_settings}
use chowkidar.Docker.{Host, HealthCheck, healthy, unhealthy, broken, retry_docker}
use chowkidar.Match.{
  Inspect, Selection, selection_of, job_filters, matches_job, is_match, select_action_for_container,
  should_start_exited_container, is_self_container, has_any_filters, has_any_job_filters,
}
use chowkidar.Server.{
  App, Env, ActionJob, container_name, log_action_history, notify, is_retries_exhausted,
  should_notify, post_action_wait_remaining, set_stable_scans_required, enqueue_job,
}

-- What the monitor has in hand during one scan of one host.
pub record Scan : Type 1 where
  pub env : Env
  pub host : Host
  pub now : Time
  pub due : List String

-- The action job that a selection makes; its client is not set.
unfoldable pub job_of : Container → String → Selection → ActionJob
unfolding apply_matched_job_settings
job_of c reason sel =
    apply_matched_job_settings
      (record {
        docker = none;
        container = c;
        reason = reason;
        action = sel.action;
        script = sel.script;
        notifications = sel.notifications;
        job_id = sel.job_id;
        job_name = sel.job_name;
        force = false;
        retry_count = 0;
        action_timeout_seconds = pos 0;
        post_action_wait_seconds = pos 0;
      })
      sel.job

abbrev require_stable : String → Option Job → App → App
require_stable name none a = a
require_stable name (some j) a =
    if ltb_ℤ (pos 0) j.stable_scans_required
    then set_stable_scans_required name j.stable_scans_required a
    else a

-- enqueueIfReady.
unfoldable pub enqueue_if_ready : Time → Container → String → Selection → App → App × Bool
unfolding job_of
enqueue_if_ready now c reason sel a =
    let name = container_name c in
    if is_retries_exhausted a name
    then (a, false)
    else let (a₁, remaining) = post_action_wait_remaining name now a in
      if ltb 0 remaining
      then (log_action_history c reason sel.action 0 "skipped" "cooldown active" "" 0 now a₁, false)
      else (enqueue_job (job_of c reason sel) (require_stable name sel.job a₁), true)

-- The notice that goes with a queued action, if the container's cooldown allows it.
unfoldable pub tell_unhealthy : Scan → Container → Selection → App × Bool → App
tell_unhealthy s c sel (a, false) = a
tell_unhealthy s c sel (a, true) =
    let name = container_name c in
    let (a₁, sends) = should_notify s.env.config s.now name a in
    if sends then notify "unhealthy detected" name 0 (some sel.notifications) a₁ else a₁

-- A step of a loop over containers: the state, and whether the container joins the loop's result.
abbrev pub Step : Type 0
Step = App × Bool

select_for : Scan → List Job → Container → Option Selection
select_for s jobs c = select_action_for_container s.host.inspect c s.env.config jobs

unhealthy_match : Scan → Container → App → Option Selection → Step
unfolding enqueue_if_ready tell_unhealthy
unhealthy_match s c a none = (a, false)
unhealthy_match s c a (some sel) =
    if elem sel.job_id s.due
    then (tell_unhealthy s c sel (enqueue_if_ready s.now c "unhealthy" sel a), true)
    else (a, true)

-- The body of the loop of processUnhealthyContainers.
unfoldable pub unhealthy_step : Scan → List Job → Container → App → Step
unfolding select_for unhealthy_match
unhealthy_step s jobs c a =
    if is_self_container s.env c then (a, false) else unhealthy_match s c a (select_for s jobs c)

abbrev in_cycle : App → String → Bool
in_cycle a name = elim (lookup name a.c_state) [ none ↦ false | some b ↦ ltb 0 b.cycle ]

queued_match : Scan → Container → String → App → Option Selection → Step
unfolding enqueue_if_ready
queued_match s c reason a none = (a, false)
queued_match s c reason a (some sel) =
    if elem sel.job_id s.due then ((enqueue_if_ready s.now c reason sel a).0, true) else (a, true)

-- The body of the loop of processRestartingContainers.
unfoldable pub restarting_step : Scan → List Job → Container → App → Step
unfolding select_for queued_match
restarting_step s jobs c a =
    if is_self_container s.env c
    then (a, false)
    else if not (in_cycle a (container_name c))
    then (a, false)
    else queued_match s c "stuck-restarting" a (select_for s jobs c)

-- A loop over containers: the new state, and the containers that joined the result.
unfoldable pub each : (Container → App → Step) → List Container → App → App × List Container
each step [] a = (a, [])
each step (c ∷ cs) a =
    let (a₁, joins) = step c a in
    let (a₂, rest) = each step cs a₁ in (a₂, if joins then c ∷ rest else rest)

-- processUnhealthyContainers.
unfoldable pub process_unhealthy_containers :
    Scan → List Job → List Container → App → App × List Container
unfolding each unhealthy_step
process_unhealthy_containers s jobs cs a = each (unhealthy_step s jobs) cs a

or_none : Option (List Container) → List Container
or_none none = []
or_none (some cs) = cs

-- processRestartingContainers: the state, the restarting containers and those that a job takes.
unfoldable pub process_restarting_containers :
    Scan → List Job → App → App × List Container × List Container
unfolding each restarting_step or_none retry_docker
process_restarting_containers s jobs a =
    let found = or_none (retry_docker s.env.config s.host.expired s.host.restarting_containers) in
    let (a₁, matched) = each (restarting_step s jobs) found a in (a₁, found, matched)

-- processCrashedContainer: a container that a job takes joins the result, also where it is not due.
unfoldable pub process_crashed_container : Scan → List Job → Container → ℤ → App → Step
unfolding select_for queued_match crash_reason
process_crashed_container s jobs c exit a =
    queued_match s c (crash_reason exit) a (select_for s jobs c)

-- The job that starts a container which has exited with 0.
abbrev pub start_exited_job : Container → ActionJob
start_exited_job c = record {
  docker = none;
  container = c;
  reason = "exited";
  action = "start";
  script = "";
  notifications = [];
  job_id = "";
  job_name = "";
  force = false;
  retry_count = 0;
  action_timeout_seconds = pos 0;
  post_action_wait_seconds = pos 0;
}

abbrev is_clean : ℤ → Bool
is_clean (pos n) = nat_eq n 0
is_clean (negsuc n) = false

-- A container that has exited: started again if a due job or the settings want it, or handled as a
-- crash. `due_jobs` are the due jobs of all hosts.
unfoldable pub exited_step : Scan → List Job → List Job → Container → App → Step
unfolding process_crashed_container
exited_step s jobs due_jobs c a =
    let exit = parse_exit_code c.status in
    if is_clean exit
    then if should_start_exited_container s.host.inspect c s.env.config due_jobs
      then (enqueue_job (start_exited_job c) a, true)
      else (a, false)
    else process_crashed_container s jobs c exit a

-- The loop of processExitedContainers: the first container of each name, and how many of them have
-- exited with 0.
unfoldable pub exited_loop :
    Scan → List Job → List Job → List String → List Container → App → App × List Container × ℕ
unfolding exited_step
exited_loop s jobs due_jobs seen [] a = (a, [], 0)
exited_loop s jobs due_jobs seen (c ∷ cs) a =
    let name = container_name c in
    let skip = exited_loop s jobs due_jobs seen cs a in
    let (a₁, joins) = exited_step s jobs due_jobs c a in
    let (a₂, rest, clean) = exited_loop s jobs due_jobs (name ∷ seen) cs a₁ in
    if is_self_container s.env c || elem name seen then skip else (
      a₂,
      if joins then c ∷ rest else rest,
      if is_clean (parse_exit_code c.status) then suc clean else clean,
    )

exited_found : Scan → List Job → List Job → App → Option (List Container) → App × List Container
unfolding exited_loop
exited_found s jobs due_jobs a none = (a, [])
exited_found s jobs due_jobs a (some cs) =
    let (a₁, joined, clean) = exited_loop s jobs due_jobs [] cs a in
    (record a₁ { total_exited = clean }, joined)

-- processExitedContainers.
unfoldable pub process_exited_containers : Scan → List Job → List Job → App → App × List Container
unfolding exited_found retry_docker
process_exited_containers s jobs due_jobs a =
    let cfg = s.env.config in
    if not cfg.start_exited && nat_eq (length jobs) 0
    then (a, [])
    else if cfg.require_filter_for_exited
        && not (has_any_filters cfg)
        && not (has_any_job_filters jobs)
    then (a, [])
    else exited_found s jobs due_jobs a (retry_docker cfg s.host.expired s.host.exited_containers)

-- The jobs of processScriptHealthJobs that look at one container, up to the first that finds it
-- unhealthy. A script that cannot be run says nothing.
unfoldable pub script_step : Scan → List Job → Container → App → Step
unfolding tell_unhealthy enqueue_if_ready
script_step s [] c a = (a, false)
script_step s (j ∷ js) c a =
    let next = script_step s js c a in
    if j.enabled && is_match (matches_job s.host.inspect c (job_filters j))
    then elim (s.host.health_check j c) [
      | healthy ↦ next
      | broken ↦ next
      | unhealthy ↦
          if elem j.id s.due
          then (
            tell_unhealthy s c (selection_of j)
                (enqueue_if_ready s.now c "unhealthy" (selection_of j) a),
            true,
          )
          else (a, true)
    ]
    else next

other_than_self : Scan → List Job → Container → App → Step
unfolding script_step
other_than_self s jobs c a =
    if is_self_container s.env c then (a, false) else script_step s jobs c a

-- processScriptHealthJobs.
unfoldable pub process_script_health_jobs : Scan → List Job → App → App × List Container
unfolding each other_than_self or_none retry_docker
process_script_health_jobs s jobs a =
    each (other_than_self s jobs)
      (or_none (retry_docker s.env.config s.host.expired s.host.running_containers)) a
