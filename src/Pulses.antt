-- ===== src/Pulses.antt =====
-- cmd/server/monitor.go: recordHealthPulses, which keeps the names of a host's containers and notes in
-- the history those that are well.
pub mod Chosen
use chowkidar.Prelude.{
  Bool, true, false, ◌&&◌, not, String, List, [], ◌∷◌, Option, none, some, Assoc, insert, elem,
  ◌==◌, if◌then◌else◌,
}
use chowkidar.Text.{is_empty}
use chowkidar.Model.{Time, Job, Container}
use chowkidar.Docker.{Host, retry_docker}
use chowkidar.Match.{matching_job_id, is_self_container}
use chowkidar.Server.{App, Env, container_name, log_action_history}

-- The job that a pulse of the container belongs to is a due one.
unfoldable pub has_due_job : List Job → List String → Container → Bool
has_due_job jobs due c =
    let id = matching_job_id (container_name c) c.labels jobs in not (is_empty id) && elem id due

-- collectHealthPulseTargets.
unfoldable pub collect_health_pulse_targets :
    Env → List Job → List String → List String → List Container → List Container
collect_health_pulse_targets env jobs due problematic [] = []
collect_health_pulse_targets env jobs due problematic (c ∷ cs) =
    let rest = collect_health_pulse_targets env jobs due problematic cs in
    if not (c.state == "running")
    then rest
    else if is_self_container env c
    then rest
    else if elem (container_name c) problematic
    then rest
    else if has_due_job jobs due c
    then c ∷ rest
    else rest

unfoldable pub know_names : List Container → Assoc String → Assoc String
know_names [] m = m
know_names (c ∷ cs) m =
    know_names cs (if is_empty c.id then m else insert c.id (container_name c) m)

unfoldable pub pulse_each : Time → List Container → App → App
pulse_each now [] a = a
pulse_each now (c ∷ cs) a =
    pulse_each now cs (log_action_history c "health check" "healthy" 0 "healthy" "" "" 0 now a)

pulses_of : Env → Time → List Job → List String → List String → App → Option (List Container) → App
unfolding collect_health_pulse_targets know_names pulse_each
pulses_of env now jobs due problematic a none = a
pulses_of env now jobs due problematic a (some cs) =
    pulse_each now (collect_health_pulse_targets env jobs due problematic cs)
      (record a { known_names = know_names cs a.known_names })

-- recordHealthPulses.
unfoldable pub record_health_pulses :
    Env → Host → Time → List Job → List String → List String → App → App
unfolding pulses_of retry_docker
record_health_pulses env host now jobs due problematic a =
    pulses_of env now jobs due problematic a
      (retry_docker env.config host.expired host.all_containers)
