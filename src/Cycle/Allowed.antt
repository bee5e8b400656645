-- ===== src/Cycle/Allowed.antt =====
-- What a whole scan hands to the worker pool.
use chowkidar.Prelude.{◌≡◌, true, false, String, none, elem, ◌⊎◌, Memᴰ}
use chowkidar.Model.{Job}
use chowkidar.Pause.{Pause, job_ids, job_paused}
use chowkidar.Server.{Env, ActionJob}
use chowkidar.Match.{is_self_container}
use chowkidar.Process.{start_exited_job}
use chowkidar.Cycle.{Round}

-- Some job that is switched on and not paused starts exited containers, or the settings do.
abbrev pub IsStartAllowed : Env → Pause → Type 0
IsStartAllowed env pause =
    ((k : Job) × Memᴰ k env.jobs
      × (job_paused pause k.id ≡ false)
      × (k.enabled ≡ true)
      × (k.start_exited ≡ true))
    ⊎ (env.config.start_exited ≡ true)

-- An action carries no client, is not about the server's own container, and is one of a job that is not
-- paused, or starts an exited container for such a job or by the settings.
unfoldable pub IsAllowed : Env → Pause → ActionJob → Type 0
IsAllowed env pause j =
    (j.docker ≡ none)
    × (is_self_container env j.container ≡ false)
    × ((job_paused pause j.job_id ≡ false)
        ⊎ ((j ≡ start_exited_job j.container) × IsStartAllowed env pause))

-- No due job of the round is paused, and each is a job of the server.
IsSound : Round → Type 0
IsSound r =
    ((k : String) → elem k (job_ids r.due_jobs) ≡ true → job_paused r.pause k ≡ false)
    × ((k : Job) → Memᴰ k r.due_jobs → Memᴰ k r.env.jobs × (job_paused r.pause k.id ≡ false))
