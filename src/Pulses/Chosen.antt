-- ===== src/Pulses/Chosen.antt =====
-- Which containers get a health pulse.
use chowkidar.Prelude.{
  Option, none, some, ◌≡◌, refl, Bool, ◌&&◌, not, String, List, [], ◌∷◌, elem, ◌==◌, select, arith,
  if◌then◌else◌,
}
use chowkidar.Model.{Time, Job, Container}
use chowkidar.Docker.{Host, retry_docker}
use chowkidar.Server.{App, Env, container_name, log_action_history}
use chowkidar.Match.{is_self_container}
use chowkidar.Pulses.{
  has_due_job, collect_health_pulse_targets, know_names, pulse_each, pulses_of,
  record_health_pulses,
}

-- A container is well if it runs, is not the server's own and has no problem, and its job is due.
abbrev pub is_well : Env → List Job → List String → List String → Container → Bool
is_well env jobs due problematic c =
    (c.state == "running")
    && not (is_self_container env c)
    && not (elem (container_name c) problematic)
    && has_due_job jobs due c

guards :
    {A : Type 0} (u v w x : Bool) (p q : A)
    → (if not u then q else if v then q else if w then q else if x then p else q)
      ≡ (if u && not v && not w && x then p else q)
guards u v w x p q = ground arith

-- The pulses of a host go to the containers that are well, each once, in the order in which Docker
-- lists them.
pub collect_health_pulse_targets-select :
    (env : Env) (jobs : List Job) (due problematic : List String) (cs : List Container)
    → collect_health_pulse_targets env jobs due problematic cs
      ≡ select (is_well env jobs due problematic) cs
unfolding collect_health_pulse_targets
collect_health_pulse_targets-select env jobs due problematic [] = refl
collect_health_pulse_targets-select env jobs due problematic (c ∷ cs) =
    rw (collect_health_pulse_targets-select env jobs due problematic cs) (
      guards (c.state == "running") (is_self_container env c) (elem (container_name c) problematic)
        (has_due_job jobs due c) (c ∷ select (is_well env jobs due problematic) cs) _)

pulse_each-queue :
    (now : Time) (cs : List Container) (a : App) → (pulse_each now cs a).queue ≡ a.queue
unfolding pulse_each log_action_history
pulse_each-queue now [] a = refl
pulse_each-queue now (c ∷ cs) a =
    pulse_each-queue now cs
      (log_action_history c "health check" "healthy" 0 "healthy" "" "" 0 now a)

pulses_of-queue :
    (env : Env) (now : Time) (jobs : List Job) (due problematic : List String) (a : App)
    (found : Option (List Container))
    → (pulses_of env now jobs due problematic a found).queue ≡ a.queue
unfolding pulses_of
pulses_of-queue env now jobs due problematic a none = refl
pulses_of-queue env now jobs due problematic a (some cs) =
    pulse_each-queue now (collect_health_pulse_targets env jobs due problematic cs)
      (record a { known_names = know_names cs a.known_names })

-- Pulses queue nothing.
pub record_health_pulses-queue :
    (env : Env) (host : Host) (now : Time) (jobs : List Job) (due problematic : List String)
    (a : App)
    → (record_health_pulses env host now jobs due problematic a).queue ≡ a.queue
unfolding record_health_pulses
record_health_pulses-queue env host now jobs due problematic a =
    pulses_of-queue env now jobs due problematic a
      (retry_docker env.config host.expired host.all_containers)
