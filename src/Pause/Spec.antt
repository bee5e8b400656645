-- ===== src/Pause/Spec.antt =====
-- The pause snapshot against what the windows say: a job is paused exactly when some active window
-- names it, or names a host that the job applies to.
use chowkidar.Prelude.{
  ◌≡◌, refl, Bool, ◌&&◌, ◌||◌, String, List, [], ◌∷◌, ◌==◌, elem, any, arith, select,
}
use chowkidar.Model.{Job, Window, Time}
use chowkidar.Calendar.{Library}
use chowkidar.Occurrence.{active_maintenance_windows, is_active}
use chowkidar.Pause.{
  applies_to, jobs_for_host, Pause, pause_job, pause_jobs, job_ids, mark_host, pause_hosts,
  pause_window, pause_windows, no_pause, pause_of, compute_maintenance_pause, job_paused,
}

-- What a window pauses, read off its fields.
abbrev pub covers : List Job → Window → String → Bool
covers jobs w id =
    elem id w.job_ids
    || any (λ host. any (λ (j : Job). j.id == id && applies_to host j) jobs) w.docker_host_ids

paused-pause_jobs :
    (o : String) (p : Pause) (names : List String) (id : String)
    → job_paused (pause_jobs o p names) id ≡ (elem id names || job_paused p id)
unfolding pause_jobs
paused-pause_jobs o p [] id = refl
paused-pause_jobs o p (n ∷ ns) id = ground (arith, paused-pause_jobs o (pause_job o p n) ns id)

pub elem-jobs_for_host :
    (jobs : List Job) (host id : String)
    → elem id (job_ids (jobs_for_host jobs host))
      ≡ any (λ (j : Job). j.id == id && applies_to host j) jobs
unfolding jobs_for_host
elem-jobs_for_host [] host id = refl
elem-jobs_for_host (j ∷ js) host id = ground (arith, elem-jobs_for_host js host id)

-- Marking a host touches no job.
paused-mark_host :
    (o : String) (p : Pause) (host id : String)
    → job_paused (mark_host o p host) id ≡ job_paused p id
unfolding mark_host
paused-mark_host o p host id = ground arith

paused-pause_hosts :
    (jobs : List Job) (o : String) (p : Pause) (hosts : List String) (id : String)
    → job_paused (pause_hosts jobs o p hosts) id ≡ (
        any (λ host. any (λ (j : Job). j.id == id && applies_to host j) jobs) hosts
        || job_paused p id)
unfolding pause_hosts
paused-pause_hosts jobs o p [] id = refl
paused-pause_hosts jobs o p (h ∷ hs) id =
    let marked = mark_host o p h in
    let named = job_ids (jobs_for_host jobs h) in
    ground (
      arith,
      paused-pause_hosts jobs o (pause_jobs o marked named) hs id,
      paused-pause_jobs o marked named id,
      paused-mark_host o p h id,
      elem-jobs_for_host jobs h id,
    )

paused-pause_windows :
    (jobs : List Job) (p : Pause) (ws : List Window) (id : String)
    → job_paused (pause_windows jobs p ws) id ≡ (any (λ w. covers jobs w id) ws || job_paused p id)
unfolding pause_windows pause_window
paused-pause_windows jobs p [] id = refl
paused-pause_windows jobs p (w ∷ ws) id =
    let direct = pause_jobs w.on_start p w.job_ids in
    ground (
      arith,
      paused-pause_windows jobs (pause_hosts jobs w.on_start direct w.docker_host_ids) ws id,
      paused-pause_hosts jobs w.on_start direct w.docker_host_ids id,
      paused-pause_jobs w.on_start p w.job_ids id,
    )

pub any-select {ℓ} :
    {A : Type ℓ} (p q : A → Bool) (xs : List A) → any p (select q xs) ≡ any (λ x. q x && p x) xs
any-select p q [] = refl
any-select p q (x ∷ xs) = ground (arith, any-select p q xs)

-- A job is paused exactly when some window that is active names it, or names a host that it applies
-- to.
pub job_paused-compute :
    (lib : Library) (windows : List Window) (jobs : List Job) (now : Time) (id : String)
    → job_paused (compute_maintenance_pause lib windows jobs now) id
      ≡ any (λ w. is_active lib w now && covers jobs w id) windows
unfolding compute_maintenance_pause pause_of active_maintenance_windows
job_paused-compute lib windows jobs now id =
    let active = select (λ w. is_active lib w now) windows in
    ground (
      arith,
      paused-pause_windows jobs (no_pause active) active id,
      any-select (λ w. covers jobs w id) (λ w. is_active lib w now) windows,
    )
