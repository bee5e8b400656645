-- ===== src/Process/Origin.antt =====
-- Where the actions of a scan come from: no container of the server itself, and no job that is not due.
use chowkidar.Prelude.{
  ◌≡◌, refl, Bool, true, false, not, ◌&&◌, String, List, [], ◌∷◌, Option, none, some, elem, nat_eq,
  if◌then◌else◌, Bool-cases, inl, inr, ◌⊎◌, length, any, Memᴰ, arith,
}
use chowkidar.Model.{Job, Container}
use chowkidar.Settings.{apply_matched_job_settings}
use chowkidar.Docker.{HealthCheck, healthy, unhealthy, broken, retry_docker}
use chowkidar.Exit.{parse_exit_code, crash_reason}
use chowkidar.Match.{
  Selection, selection_of, is_self_container, job_filters, matches_job, is_match,
  should_start_exited_container, has_any_filters, has_any_job_filters,
}
use chowkidar.Server.{App, ActionJob, container_name, enqueue_job}
use chowkidar.Process.{
  Scan, Step, job_of, enqueue_if_ready, tell_unhealthy, unhealthy_match, unhealthy_step,
  queued_match, restarting_step, process_unhealthy_containers, process_restarting_containers,
  process_crashed_container, exited_step, exited_loop, exited_found, process_exited_containers,
  script_step, other_than_self, process_script_health_jobs, start_exited_job, select_for, is_clean,
  in_cycle, or_none,
}
use chowkidar.Process.Queue.{
  Grows, Grows-same, Grows-trans, enqueue_if_ready-Grows, tell_unhealthy-queue, each-Grows,
}

any-Memᴰ :
    {A : Type 0} (p : A → Bool) (xs : List A) → any p xs ≡ true → (x : A) × Memᴰ x xs × (p x ≡ true)
any-Memᴰ p [] h = absurd (cc)
any-Memᴰ p (x ∷ xs) h = elim (Bool-cases (p x)) [
  | inl e ↦ (x, Memᴰ.head refl, e)
  | inr e ↦ let (y, m, w) = any-Memᴰ p xs (ground (arith, h, e)) in (y, Memᴰ.tail m, w)
]

module _ (due_jobs : List Job) where
  -- A due job that is switched on starts exited containers, or the settings do.
  abbrev pub IsStartWanted : Scan → Type 0
  IsStartWanted s =
      ((k : Job) × Memᴰ k due_jobs × (k.enabled ≡ true) × (k.start_exited ≡ true))
      ⊎ (s.env.config.start_exited ≡ true)

  -- An action carries no client, is not about the server's own container, and belongs to a due job, or to none
  -- where it starts an exited container for a due job or by the settings.
  unfoldable pub IsFromScan : Scan → ActionJob → Type 0
  IsFromScan s j =
      (j.docker ≡ none)
      × (is_self_container s.env j.container ≡ false)
      × ((elem j.job_id s.due ≡ true) ⊎ ((j ≡ start_exited_job j.container) × IsStartWanted s))

  start-IsStartWanted :
      (s : Scan) (c : Container)
      → should_start_exited_container s.host.inspect c s.env.config due_jobs ≡ true
      → IsStartWanted s
  unfolding should_start_exited_container
  start-IsStartWanted s c h =
      elim (Bool-cases (
        any
          (λ (j : Job).
            j.enabled && j.start_exited && is_match (matches_job s.host.inspect c (job_filters j)))
          due_jobs)) [
            | inr e ↦ inr (ground (arith, h, e))
            | inl e ↦
                let (k, m, w) = any-Memᴰ _ due_jobs e in inl (k, m, ground arith, ground arith)
          ]

  settings-IsFromScan :
      (s : Scan) (b : ActionJob) (j : Option Job)
      → b.docker ≡ none
      → is_self_container s.env b.container ≡ false
      → elem b.job_id s.due ≡ true
      → IsFromScan s (apply_matched_job_settings b j)
  unfolding IsFromScan apply_matched_job_settings
  settings-IsFromScan s b none e h d = (e, h, inl d)
  settings-IsFromScan s b (some j) e h d = (e, h, inl d)

  job_of-IsFromScan :
      (s : Scan) (c : Container) (reason : String) (sel : Selection)
      → is_self_container s.env c ≡ false
      → elem sel.job_id s.due ≡ true
      → IsFromScan s (job_of c reason sel)
  unfolding job_of
  job_of-IsFromScan s c reason sel h d = settings-IsFromScan s _ sel.job refl h d

  unhealthy_match-Grows :
      (s : Scan) (c : Container) (a : App) (o : Option Selection)
      → is_self_container s.env c ≡ false
      → Grows (IsFromScan s) a (unhealthy_match s c a o).0
  unfolding unhealthy_match
  unhealthy_match-Grows s c a none h = Grows-same (IsFromScan s) a a refl
  unhealthy_match-Grows s c a (some sel) h = elim (Bool-cases (elem sel.job_id s.due)) [
    | inr d ↦ rw d (Grows-same (IsFromScan s) a a refl)
    | inl d ↦
        let r = enqueue_if_ready s.now c "unhealthy" sel a in
        rw d (
          Grows-trans (IsFromScan s) a r.0 (tell_unhealthy s c sel r)
            (enqueue_if_ready-Grows (IsFromScan s) s.now c "unhealthy" sel a
              (job_of-IsFromScan s c "unhealthy" sel h d))
            (Grows-same (IsFromScan s) r.0 (tell_unhealthy s c sel r)
              (tell_unhealthy-queue s c sel r)))
  ]

  queued_match-Grows :
      (s : Scan) (c : Container) (reason : String) (a : App) (o : Option Selection)
      → is_self_container s.env c ≡ false
      → Grows (IsFromScan s) a (queued_match s c reason a o).0
  unfolding queued_match
  queued_match-Grows s c reason a none h = Grows-same (IsFromScan s) a a refl
  queued_match-Grows s c reason a (some sel) h = elim (Bool-cases (elem sel.job_id s.due)) [
    | inr d ↦ rw d (Grows-same (IsFromScan s) a a refl)
    | inl d ↦ rw d (
        enqueue_if_ready-Grows (IsFromScan s) s.now c reason sel a
          (job_of-IsFromScan s c reason sel h d))
  ]

  unhealthy_step-Grows :
      (s : Scan) (jobs : List Job) (c : Container) (a : App)
      → Grows (IsFromScan s) a (unhealthy_step s jobs c a).0
  unfolding unhealthy_step
  unhealthy_step-Grows s jobs c a = elim (Bool-cases (is_self_container s.env c)) [
    | inl e ↦ rw e (Grows-same (IsFromScan s) a a refl)
    | inr e ↦ rw e (unhealthy_match-Grows s c a (select_for s jobs c) e)
  ]

  restarting_step-Grows :
      (s : Scan) (jobs : List Job) (c : Container) (a : App)
      → Grows (IsFromScan s) a (restarting_step s jobs c a).0
  unfolding restarting_step
  restarting_step-Grows s jobs c a = elim (Bool-cases (is_self_container s.env c)) [
    | inl e ↦ rw e (Grows-same (IsFromScan s) a a refl)
    | inr e ↦ elim (Bool-cases (in_cycle a (container_name c))) [
      | inl f ↦ rw (e, f) (queued_match-Grows s c "stuck-restarting" a (select_for s jobs c) e)
      | inr f ↦ rw (e, f) (Grows-same (IsFromScan s) a a refl)
    ]
  ]

  exited_step-Grows :
      (s : Scan) (jobs : List Job) (c : Container) (a : App)
      → is_self_container s.env c ≡ false
      → Grows (IsFromScan s) a (exited_step s jobs due_jobs c a).0
  unfolding exited_step process_crashed_container IsFromScan Grows
  exited_step-Grows s jobs c a e = elim (Bool-cases (is_clean (parse_exit_code c.status))) [
    | inr f ↦
        rw f (
          queued_match-Grows s c (crash_reason (parse_exit_code c.status)) a (select_for s jobs c)
            e)
    | inl f ↦
        elim (Bool-cases (should_start_exited_container s.host.inspect c s.env.config due_jobs)) [
          | inr g ↦ rw (f, g) (Grows-same (IsFromScan s) a a refl)
          | inl g ↦ rw (f, g) (started g)
        ]
  ]
    where
      started :
          should_start_exited_container s.host.inspect c s.env.config due_jobs ≡ true
          → Grows (IsFromScan s) a (enqueue_job (start_exited_job c) a)
      started g =
          (start_exited_job c ∷ [], refl, ((refl, e, inr (refl, start-IsStartWanted s c g)), tt))

  exited_loop-Grows :
      (s : Scan) (jobs : List Job) (seen : List String) (cs : List Container) (a : App)
      → Grows (IsFromScan s) a (exited_loop s jobs due_jobs seen cs a).0
  unfolding exited_loop
  exited_loop-Grows s jobs seen [] a = Grows-same (IsFromScan s) a a refl
  exited_loop-Grows s jobs seen (c ∷ cs) a = elim (Bool-cases (is_self_container s.env c)) [
    | inl e ↦ rw e (exited_loop-Grows s jobs seen cs a)
    | inr e ↦ elim (Bool-cases (elem (container_name c) seen)) [
      | inl f ↦ rw (e, f) (exited_loop-Grows s jobs seen cs a)
      | inr f ↦
          rw (e, f)
            (Grows-trans (IsFromScan s) a (exited_step s jobs due_jobs c a).0
              (exited_loop s jobs due_jobs (container_name c ∷ seen) cs
                (exited_step s jobs due_jobs c a).0).0
              (exited_step-Grows s jobs c a e)
              (exited_loop-Grows s jobs (container_name c ∷ seen) cs
                (exited_step s jobs due_jobs c a).0))
    ]
  ]

  pub process_unhealthy_containers-Grows :
      (s : Scan) (jobs : List Job) (cs : List Container) (a : App)
      → Grows (IsFromScan s) a (process_unhealthy_containers s jobs cs a).0
  unfolding process_unhealthy_containers
  process_unhealthy_containers-Grows s jobs cs a =
      each-Grows (IsFromScan s) (unhealthy_step s jobs) (unhealthy_step-Grows s jobs) cs a

  pub process_restarting_containers-Grows :
      (s : Scan) (jobs : List Job) (a : App)
      → Grows (IsFromScan s) a (process_restarting_containers s jobs a).0
  unfolding process_restarting_containers
  process_restarting_containers-Grows s jobs a =
      each-Grows (IsFromScan s) (restarting_step s jobs) (restarting_step-Grows s jobs)
        (or_none (retry_docker s.env.config s.host.expired s.host.restarting_containers)) a

  exited_found-Grows :
      (s : Scan) (jobs : List Job) (a : App) (found : Option (List Container))
      → Grows (IsFromScan s) a (exited_found s jobs due_jobs a found).0
  unfolding exited_found Grows
  exited_found-Grows s jobs a none = Grows-same (IsFromScan s) a a refl
  exited_found-Grows s jobs a (some cs) = exited_loop-Grows s jobs [] cs a

  pub process_exited_containers-Grows :
      (s : Scan) (jobs : List Job) (a : App)
      → Grows (IsFromScan s) a (process_exited_containers s jobs due_jobs a).0
  unfolding process_exited_containers
  process_exited_containers-Grows s jobs a =
      let cfg = s.env.config in
      let found = retry_docker cfg s.host.expired s.host.exited_containers in
      guards (not cfg.start_exited && nat_eq (length jobs) 0)
        (cfg.require_filter_for_exited
          && not (has_any_filters cfg)
          && not (has_any_job_filters jobs))
        (exited_found s jobs due_jobs a found) (exited_found-Grows s jobs a found)
    where
      guards :
          (u v : Bool) (r : App × List Container)
          → Grows (IsFromScan s) a r.0
          → Grows (IsFromScan s) a (if u then (a, []) else if v then (a, []) else r).0
      guards true v r h = Grows-same (IsFromScan s) a a refl
      guards false true r h = Grows-same (IsFromScan s) a a refl
      guards false false r h = h

  script_step-Grows :
      (s : Scan) (jobs : List Job) (c : Container) (a : App)
      → is_self_container s.env c ≡ false
      → Grows (IsFromScan s) a (script_step s jobs c a).0
  unfolding script_step
  script_step-Grows s [] c a h = Grows-same (IsFromScan s) a a refl
  script_step-Grows s (j ∷ js) c a h =
      looks (j.enabled && is_match (matches_job s.host.inspect c (job_filters j)))
        (s.host.health_check j c) (script_step-Grows s js c a h)
    where
      next : Step
      next = script_step s js c a

      r : App × Bool
      r = enqueue_if_ready s.now c "unhealthy" (selection_of j) a

      acts : Bool → Step
      acts d = if d then (tell_unhealthy s c (selection_of j) r, true) else (a, true)

      queued : (d : Bool) → elem j.id s.due ≡ d → Grows (IsFromScan s) a (acts d).0
      queued false e = Grows-same (IsFromScan s) a a refl
      queued true e =
          Grows-trans (IsFromScan s) a r.0 (tell_unhealthy s c (selection_of j) r)
            (enqueue_if_ready-Grows (IsFromScan s) s.now c "unhealthy" (selection_of j) a
              (job_of-IsFromScan s c "unhealthy" (selection_of j) h e))
            (Grows-same (IsFromScan s) r.0 (tell_unhealthy s c (selection_of j) r)
              (tell_unhealthy-queue s c (selection_of j) r))

      looks :
          (m : Bool) (v : HealthCheck)
          → Grows (IsFromScan s) a next.0
          → Grows
              (IsFromScan s)
              a
              (if m
                then elim v [ healthy ↦ next | broken ↦ next | unhealthy ↦ acts (elem j.id s.due) ]
                else next).0
      looks false v k = k
      looks true healthy k = k
      looks true broken k = k
      looks true unhealthy k = queued (elem j.id s.due) refl

  other_than_self-Grows :
      (s : Scan) (jobs : List Job) (c : Container) (a : App)
      → Grows (IsFromScan s) a (other_than_self s jobs c a).0
  unfolding other_than_self
  other_than_self-Grows s jobs c a = elim (Bool-cases (is_self_container s.env c)) [
    | inl e ↦ rw e (Grows-same (IsFromScan s) a a refl)
    | inr e ↦ rw e (script_step-Grows s jobs c a e)
  ]

  pub process_script_health_jobs-Grows :
      (s : Scan) (jobs : List Job) (a : App)
      → Grows (IsFromScan s) a (process_script_health_jobs s jobs a).0
  unfolding process_script_health_jobs
  process_script_health_jobs-Grows s jobs a =
      each-Grows (IsFromScan s) (other_than_self s jobs) (other_than_self-Grows s jobs)
        (or_none (retry_docker s.env.config s.host.expired s.host.running_containers)) a
