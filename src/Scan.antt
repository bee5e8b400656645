-- ===== src/Scan.antt =====
-- cmd/server/monitor.go, scanHost: one scan of one host.
pub mod Queued
use chowkidar.Prelude.{
  ℕ, Bool, true, false, not, String, List, [], ◌∷◌, ◌++◌, Option, none, some, elem, any, select,
  ◌==◌, map, if◌then◌else◌,
}
use chowkidar.Text.{is_empty}
use chowkidar.Model.{Time, Job, Container}
use chowkidar.Pause.{jobs_for_host}
use chowkidar.Docker.{Host, retry_docker}
use chowkidar.Server.{App, Env}
use chowkidar.Process.{
  Scan, process_unhealthy_containers, process_restarting_containers, process_exited_containers,
  process_script_health_jobs,
}

-- jobHealthCheckMode.
abbrev is_script_mode : Job → Bool
is_script_mode j = not (is_empty j.health_check_script)

unfoldable pub native_jobs : List Job → List Job
native_jobs = select (λ j. not (is_script_mode j))

unfoldable pub script_jobs : List Job → List Job
script_jobs = select is_script_mode

-- The due IDs that belong to jobs of the host.
unfoldable pub due_for_host : List Job → List String → List String
due_for_host jobs = select (λ id. any (λ (j : Job). j.id == id) jobs)

-- What the scan of a host finds: filtered, exitedFiltered, restarting and starting.
pub record Found : Type 0 where
  pub filtered : List Container
  pub exited : List Container
  pub restarting : List Container
  pub starting : List Container

abbrev pub nothing : Found
nothing = record { filtered = []; exited = []; restarting = []; starting = [] }

abbrev or_none : Option (List Container) → List Container
or_none none = []
or_none (some cs) = cs

-- Script jobs are run only if the host has some.
abbrev scripts_of : Scan → List Job → App → App × List Container
scripts_of s [] a = (a, [])
scripts_of s (j ∷ js) a = process_script_health_jobs s (j ∷ js) a

scan_found : Scan → List Job → List Job → App → Option (List Container) → App × Found
scan_found s jobs due_jobs a none = (a, nothing)
scan_found s jobs due_jobs a (some unhealthy) =
    let (a₁, matched) = process_unhealthy_containers s (native_jobs jobs) unhealthy a in
    let (a₂, restarting, stuck) = process_restarting_containers s jobs a₁ in
    let (a₃, exited) = process_exited_containers s jobs due_jobs a₂ in
    let starting = or_none (retry_docker s.env.config s.host.expired s.host.starting_containers) in
    let (a₄, failing) = scripts_of s (script_jobs jobs) a₃ in
    (
      a₄,
      record {
        filtered = matched ++ stuck ++ failing;
        exited = exited;
        restarting = restarting;
        starting = starting;
      },
    )

-- `all_jobs` are the jobs of all hosts that are not paused, `due_jobs` those that are due.
unfoldable pub scan_host : Env → Host → Time → List Job → List Job → List String → App → App × Found
unfolding scan_found
scan_host env host now all_jobs due_jobs due a =
    let jobs = jobs_for_host all_jobs host.id in
    let s : Scan = record { env = env; host = host; now = now; due = due_for_host jobs due } in
    scan_found s jobs due_jobs a (retry_docker env.config host.expired host.unhealthy_containers)
