-- ===== src/Pause/Strength.antt =====
-- How strictly a job is paused: the strictest of the active windows that cover it decides.
use Prim.Native.Nat.{max}
use chowkidar.Prelude.{
  ℕ, ◌≡◌, refl, subst, sym, false, not, nat_eq, Bool, ◌∙◌, ◌&&◌, String, List, [], ◌∷◌, ◌==◌,
  if◌then◌else◌, elem, any, arith, text_iff, lookup, get_or, lookup-insert, ltb, Bool-cases, inl,
  inr,
}
use chowkidar.Model.{Job, Window, Time, force_cancel, allow_finish}
use chowkidar.Calendar.{Library}
use chowkidar.Occurrence.{active_maintenance_windows}
use chowkidar.Pause.Spec.{covers, elem-jobs_for_host}
use chowkidar.Pause.{
  applies_to, jobs_for_host, Pause, pause_job, pause_jobs, job_ids, mark_host, pause_hosts,
  pause_window, pause_windows, no_pause, pause_of, compute_maintenance_pause, on_start_for,
  on_start_rank, stronger_on_start,
}

rank-stronger :
    (a b : String) → on_start_rank (stronger_on_start a b) ≡ max (on_start_rank a) (on_start_rank b)
unfolding stronger_on_start
rank-stronger a b = elim (Bool-cases (ltb (on_start_rank a) (on_start_rank b))) [
  | inl e ↦ rw e (ground arith)
  | inr e ↦ rw e (ground arith)
]

-- The rank that a snapshot holds for a job.
abbrev held : Pause → String → ℕ
held p id = on_start_rank (get_or "" (lookup id p.job_on_start))

held-pause_job :
    (o : String) (p : Pause) (n id : String)
    → held (pause_job o p n) id ≡ (if n == id then max (held p id) (on_start_rank o) else held p id)
unfolding pause_job
held-pause_job o p n id = elim (Bool-cases (n == id)) [
  | inl e ↦ rw (lookup-insert, e, (text_iff n id).0 e) (rank-stronger _ _)
  | inr e ↦ rw (lookup-insert, e)
]

held-pause_jobs :
    (o : String) (p : Pause) (names : List String) (id : String)
    → held (pause_jobs o p names) id
      ≡ (if elem id names then max (held p id) (on_start_rank o) else held p id)
unfolding pause_jobs
held-pause_jobs o p [] id = refl
held-pause_jobs o p (n ∷ ns) id =
    ground (arith, held-pause_jobs o (pause_job o p n) ns id, held-pause_job o p n id)

held-mark_host :
    (o : String) (p : Pause) (host id : String) → held (mark_host o p host) id ≡ held p id
unfolding mark_host
held-mark_host o p host id = ground arith

held-pause_hosts :
    (jobs : List Job) (o : String) (p : Pause) (hosts : List String) (id : String)
    → held (pause_hosts jobs o p hosts) id ≡ (
        if any (λ host. any (λ (j : Job). j.id == id && applies_to host j) jobs) hosts
        then max (held p id) (on_start_rank o)
        else held p id)
unfolding pause_hosts
held-pause_hosts jobs o p [] id = refl
held-pause_hosts jobs o p (h ∷ hs) id =
    let marked = mark_host o p h in
    let named = job_ids (jobs_for_host jobs h) in
    ground (
      arith,
      held-pause_hosts jobs o (pause_jobs o marked named) hs id,
      held-pause_jobs o marked named id,
      held-mark_host o p h id,
      elem-jobs_for_host jobs h id,
    )

held-pause_window :
    (jobs : List Job) (p : Pause) (w : Window) (id : String)
    → held (pause_window jobs p w) id
      ≡ (if covers jobs w id then max (held p id) (on_start_rank w.on_start) else held p id)
unfolding pause_window
held-pause_window jobs p w id =
    let direct = pause_jobs w.on_start p w.job_ids in
    ground (
      arith,
      held-pause_hosts jobs w.on_start direct w.docker_host_ids id,
      held-pause_jobs w.on_start p w.job_ids id,
    )

-- The highest rank among the windows that cover a job.
unfoldable pub strictest : List Job → String → List Window → ℕ
strictest jobs id [] = 0
strictest jobs id (w ∷ ws) =
    max (if covers jobs w id then on_start_rank w.on_start else 0) (strictest jobs id ws)

held-pause_windows :
    (jobs : List Job) (p : Pause) (ws : List Window) (id : String)
    → held (pause_windows jobs p ws) id ≡ max (held p id) (strictest jobs id ws)
unfolding pause_windows strictest
held-pause_windows jobs p [] id = omega arith
held-pause_windows jobs p (w ∷ ws) id =
    ground
      (arith, held-pause_windows jobs (pause_window jobs p w) ws id, held-pause_window jobs p w id)

-- The behaviour that governs a job has the highest rank among the active windows that cover it.
pub on_start_for-strictest :
    (lib : Library) (windows : List Window) (jobs : List Job) (now : Time) (id : String)
    → (id == "") ≡ false
    → on_start_rank (on_start_for (compute_maintenance_pause lib windows jobs now) id)
      ≡ strictest jobs id (active_maintenance_windows lib windows now)
unfolding on_start_for compute_maintenance_pause pause_of
on_start_for-strictest lib windows jobs now id named =
    let active = active_maintenance_windows lib windows now in
    rw named (ground (arith, held-pause_windows jobs (no_pause active) active id, none_held))
  where
    none_held : held (no_pause (active_maintenance_windows lib windows now)) id ≡ 0
    none_held = unfold lookup on_start_rank in refl

-- An active window that covers the job and behaves as `o` at its start.
abbrev pub some_window : List Job → String → String → List Window → Bool
some_window jobs id o ws = any (λ (w : Window). covers jobs w id && w.on_start == o) ws

-- 2 for a force-cancel window, 1 for one that lets actions finish.
abbrev named_rank : List Job → String → List Window → ℕ
named_rank jobs id ws =
    if some_window jobs id force_cancel ws
    then 2
    else if some_window jobs id allow_finish ws
    then 1
    else 0

strictest_named :
    (jobs : List Job) (id : String) (ws : List Window)
    → strictest jobs id ws ≡ named_rank jobs id ws
unfolding strictest on_start_rank
strictest_named jobs id [] = refl
strictest_named jobs id (w ∷ ws) = ground (
  arith,
  strictest_named jobs id ws,
  text_iff w.on_start force_cancel,
  text_iff w.on_start allow_finish,
)

abbrev Ranked : String → Type 0
Ranked x =
    ((x == force_cancel) ≡ nat_eq (on_start_rank x) 2)
    × ((x == allow_finish) ≡ nat_eq (on_start_rank x) 1)

ranked :
    (o : String)
    → ((o == force_cancel) ≡ nat_eq (on_start_rank o) 2)
      × ((o == allow_finish) ≡ nat_eq (on_start_rank o) 1)
unfolding on_start_rank
ranked o = elim (Bool-cases (o == force_cancel)) [
  | inl e ↦ subst Ranked (sym ((text_iff o force_cancel).0 e)) (refl, refl)
  | inr e ↦ elim (Bool-cases (o == allow_finish)) [
    | inl f ↦ subst Ranked (sym ((text_iff o allow_finish).0 f)) (refl, refl)
    | inr f ↦ ground (arith, e, f)
  ]
]

-- A job is under force-cancel exactly if an active window that covers it says so, whatever the other
-- windows say; it is under allow-finish exactly if one says that and none says force-cancel.
pub on_start_for-some_window :
    (lib : Library) (windows : List Window) (jobs : List Job) (now : Time) (id : String)
    → (id == "") ≡ false
    → let governs = on_start_for (compute_maintenance_pause lib windows jobs now) id in
      let active = active_maintenance_windows lib windows now in
      ((governs == force_cancel) ≡ some_window jobs id force_cancel active)
      × ((governs == allow_finish) ≡ (
          some_window jobs id allow_finish active && not (some_window jobs id force_cancel active)))
on_start_for-some_window lib windows jobs now id named =
    let governs = on_start_for (compute_maintenance_pause lib windows jobs now) id in
    let active = active_maintenance_windows lib windows now in
    let (force, allow) = ranked governs in
    let rank =
      on_start_for-strictest lib windows jobs now id named ∙ strictest_named jobs id active in
    ground (arith, force, allow, rank)
