-- ===== src/Scan/Queued.antt =====
-- The actions that the scan of a host queues.
use chowkidar.Prelude.{refl, String, List, [], ◌∷◌, Option, none, some}
use chowkidar.Model.{Time, Job, Container}
use chowkidar.Pause.{jobs_for_host}
use chowkidar.Docker.{Host, retry_docker}
use chowkidar.Server.{App, Env}
use chowkidar.Process.{
  Scan, process_unhealthy_containers, process_restarting_containers, process_exited_containers,
}
use chowkidar.Process.Queue.{Grows, Grows-same, Grows-trans}
use chowkidar.Process.Origin.{
  IsFromScan, process_unhealthy_containers-Grows, process_restarting_containers-Grows,
  process_exited_containers-Grows, process_script_health_jobs-Grows,
}
use chowkidar.Scan.{native_jobs, script_jobs, due_for_host, scripts_of, scan_found, scan_host}

scripts_of-Grows :
    (due_jobs : List Job) (s : Scan) (js : List Job) (a : App)
    → Grows (IsFromScan due_jobs s) a (scripts_of s js a).0
scripts_of-Grows due_jobs s [] a = Grows-same (IsFromScan due_jobs s) a a refl
scripts_of-Grows due_jobs s (j ∷ js) a = process_script_health_jobs-Grows due_jobs s (j ∷ js) a

scan_found-Grows :
    (s : Scan) (jobs due_jobs : List Job) (a : App) (found : Option (List Container))
    → Grows (IsFromScan due_jobs s) a (scan_found s jobs due_jobs a found).0
unfolding scan_found
scan_found-Grows s jobs due_jobs a none = Grows-same (IsFromScan due_jobs s) a a refl
scan_found-Grows s jobs due_jobs a (some cs) =
    let P = IsFromScan due_jobs s in
    let a₁ = (process_unhealthy_containers s (native_jobs jobs) cs a).0 in
    let a₂ = (process_restarting_containers s jobs a₁).0 in
    let a₃ = (process_exited_containers s jobs due_jobs a₂).0 in
    let a₄ = (scripts_of s (script_jobs jobs) a₃).0 in
    Grows-trans P a a₁ a₄ (process_unhealthy_containers-Grows due_jobs s (native_jobs jobs) cs a) (
      Grows-trans P a₁ a₂ a₄ (process_restarting_containers-Grows due_jobs s jobs a₁) (
        Grows-trans P a₂ a₃ a₄ (process_exited_containers-Grows due_jobs s jobs a₂)
          (scripts_of-Grows due_jobs s (script_jobs jobs) a₃)))

abbrev pub scan_of : Env → Host → Time → List Job → List String → Scan
scan_of env host now all_jobs due = record {
  env = env;
  host = host;
  now = now;
  due = due_for_host (jobs_for_host all_jobs host.id) due;
}

-- The scan of a host takes nothing off the queue. Every action that it puts there is about a
-- container other than the server's own, belongs to a due job of that host or starts a container
-- that has exited as a due job or the settings want it, and carries no client, whatever host was scanned.
pub scan_host-Grows :
    (env : Env) (host : Host) (now : Time) (all_jobs due_jobs : List Job) (due : List String)
    (a : App)
    → Grows
        (IsFromScan due_jobs (scan_of env host now all_jobs due))
        a
        (scan_host env host now all_jobs due_jobs due a).0
unfolding scan_host
scan_host-Grows env host now all_jobs due_jobs due a =
    scan_found-Grows (scan_of env host now all_jobs due) (jobs_for_host all_jobs host.id) due_jobs a
      (retry_docker env.config host.expired host.unhealthy_containers)
