-- ===== src/Action/Retries/Limit.antt =====
-- A container is acted on at most as often as the limit says.
use chowkidar.Prelude.{
  ℕ, suc, ◌+◌, ◌≤◌, ◌<◌, ◌≡◌, refl, sym, ap, ◌∙◌, Bool, true, false, ◌||◌, String, insert, ltb,
  if◌then◌else◌, Bool-cases, inl, inr, ◌⊎◌, arith, List, [], ◌∷◌, All, subst, ◌-◌, ◌/◌,
}
use chowkidar.Text.{is_empty}
use chowkidar.Model.{Time}
use chowkidar.Pause.{maintenance_on_start_for}
use chowkidar.Settings.{resolve_job_settings}
use chowkidar.Execute.{World, perform}
use chowkidar.Server.{
  App, Env, ActionJob, container_name, is_active_job, claim_active_job, is_retries_exhausted,
  log_action_history, increment_action_cycle, post_action_wait_remaining, reset_action_cooldown,
  release_active_job, register_active_job_cancel, unregister_active_job_cancel,
}
use chowkidar.Server.Cycles.{
  Progress, progress, increment_action_cycle-progress, post_action_wait_remaining-progress,
  is_retries_exhausted-progress,
}
use chowkidar.Action.{
  Started, skipped, acting, client_of, give_up_claim, begin_cycle, guarded, start_job, request_of,
  finish_started, run, retries_spent,
}
use chowkidar.Action.Retries.{spend, complete_job-progress, cycle_of, idle, verdict, start_job_acts}

advance : Started → Progress → Progress
advance skipped p = p
advance (acting n) p = record p { cycle = n }

begin_cycle-progress :
    (j : ActionJob) (name : String) (a : App)
    → progress name (begin_cycle j name a).0 ≡ advance (begin_cycle j name a).1 (progress name a)
unfolding begin_cycle increment_action_cycle advance
begin_cycle-progress j name a = increment_action_cycle-progress name a

guarded-progress :
    (env : Env) (j : ActionJob) (now : Time) (a : App)
    → let name = container_name j.container in
      progress name (guarded env j name now a).0
      ≡ advance (guarded env j name now a).1 (progress name a)
unfolding guarded advance give_up_claim release_active_job unregister_active_job_cancel
    log_action_history
guarded-progress env j now a =
    let name = container_name j.container in
    elim (Bool-cases (is_retries_exhausted a name)) [
      | inl e ↦ rw e refl
      | inr e ↦ elim (Bool-cases (ltb 0 (post_action_wait_remaining name now a).1)) [
        | inl f ↦ rw (e, f) (post_action_wait_remaining-progress name now a)
        | inr f ↦
            elim (Bool-cases
              (is_empty (maintenance_on_start_for env.lib env.windows env.jobs now j.job_id))) [
                | inl g ↦
                    rw (e, f, g)
                      (begin_cycle-progress j name (post_action_wait_remaining name now a).0
                        ∙ ap
                            (advance
                              (begin_cycle j name (post_action_wait_remaining name now a).0).1)
                            (post_action_wait_remaining-progress name now a))
                | inr g ↦ rw (e, f, g) (post_action_wait_remaining-progress name now a)
              ]
      ]
    ]

start_job-progress :
    (env : Env) (j : ActionJob) (now : Time) (a : App)
    → j.force ≡ false
    → let name = container_name j.container in
      progress name (start_job env j now a).0 ≡ advance (start_job env j now a).1 (progress name a)
unfolding start_job claim_active_job register_active_job_cancel advance
start_job-progress env j now a f =
    let name = container_name j.container in
    let b =
      register_active_job_cancel name j.job_id
        (record a { active_jobs = insert name true a.active_jobs }) in
    let (a₁, taken) = claim_active_job name a in
    let x = begin_cycle j name (reset_action_cooldown name a) in
    let y =
      if taken
      then guarded env j name now (register_active_job_cancel name j.job_id a₁)
      else (a₁, skipped) in
    choose j.force x y f (elim (Bool-cases (is_active_job a name)) [
      | inl e ↦ rw e refl
      | inr e ↦ rw e (guarded-progress env j now b)
    ])
  where
    choose :
        (c : Bool) (x y : App × Started)
        → c ≡ false
        → progress (container_name j.container) y.0
          ≡ advance y.1 (progress (container_name j.container) a)
        → progress (container_name j.container) (if c then x else y).0
          ≡ advance (if c then x else y).1 (progress (container_name j.container) a)
    choose c x y e h = rw e h

abbrev pub limit_of : Env → ActionJob → ℕ
limit_of env j = (resolve_job_settings j env.config).0

-- One run: nothing if it is blocked, or else one more cycle, which may be the last.
ran : ℕ → Bool → Progress → Progress
ran r true p = p
ran r false p = record {
  cycle = suc p.cycle;
  exhausted = p.exhausted || retries_spent r (suc p.cycle);
}

finish_started-progress :
    (env : Env) (world : World) (j : ActionJob) (now done : Time) (a : App) (p : Progress)
    (b : Bool)
    → j.force ≡ false
    → progress (container_name j.container) a ≡ advance (verdict b p.cycle) p
    → progress
        (container_name j.container)
        (finish_started env world j now done a (verdict b p.cycle))
      ≡ ran (limit_of env j) b p
unfolding finish_started ran advance
finish_started-progress env world j now done a p true f e = e
finish_started-progress env world j now done a p false f e =
    complete_job-progress env j (suc p.cycle) (perform world (client_of j) (request_of env j))
      ((done - now) / 1000000) done a f
    ∙ ap (spend (retries_spent (resolve_job_settings j env.config).0 (suc p.cycle))) e

blocked : Env → ActionJob → Time → App → Bool
blocked env j now a = is_active_job a (container_name j.container) || idle env j now a

run-progress :
    (env : Env) (world : World) (j : ActionJob) (now done : Time) (a : App)
    → j.force ≡ false
    → let name = container_name j.container in
      progress name (run env world j now done a)
      ≡ ran (limit_of env j) (blocked env j now a) (progress name a)
unfolding run blocked
run-progress env world j now done a f =
    let name = container_name j.container in
    let a₁ = (start_job env j now a).0 in
    let b = is_active_job a name || idle env j now a in
    let acts = start_job_acts env j now a f in
    let before = start_job-progress env j now a f ∙ ap (λ s. advance s (progress name a)) acts in
    ap (λ s. progress name (finish_started env world j now done a₁ s)) acts
    ∙ finish_started-progress env world j now done a₁ (progress name a) b f before

-- An exhausted container is blocked.
exhausted-blocked :
    (env : Env) (j : ActionJob) (now : Time) (a : App)
    → (progress (container_name j.container) a).exhausted ≡ true
    → blocked env j now a ≡ true
unfolding blocked
exhausted-blocked env j now a h =
    last (is_active_job a (container_name j.container)) _ _ _
      (is_retries_exhausted-progress (container_name j.container) a ∙ h)
  where
    last : (u v w x : Bool) → v ≡ true → (u || (v || w || x)) ≡ true
    last u v w x e = ground arith

-- The cycle is below the limit, or it is the limit and the retries are exhausted.
abbrev pub IsWithin : ℕ → Progress → Type 0
IsWithin r p = (p.cycle < r) ⊎ ((p.cycle ≡ r) × (p.exhausted ≡ true))

count : Started → ℕ
count skipped = 0
count (acting n) = 1

ran-IsWithin :
    (r : ℕ) (b : Bool) (p : Progress)
    → (p.exhausted ≡ true → b ≡ true)
    → IsWithin r p
    → IsWithin r (ran r b p) × (count (verdict b p.cycle) + p.cycle ≡ (ran r b p).cycle)
unfolding ran count
ran-IsWithin r true p h w = (w, omega arith)
ran-IsWithin r false p h (inr (e, k)) = absurd (ground (arith, h))
ran-IsWithin r false p h (inl k) = elim (Bool-cases (ltb (suc p.cycle) r)) [
  | inl e ↦ (inl (ground arith), omega arith)
  | inr e ↦ (inr (ground arith, ground arith), omega arith)
]

-- A run of a job, with what it reads and its times.
pub record Attempt : Type 0 where
  pub env : Env
  pub world : World
  pub job : ActionJob
  pub now : Time
  pub done : Time

abbrev pub attempt : Attempt → App → App
attempt t a = run t.env t.world t.job t.now t.done a

-- How many of the runs get as far as their action.
pub actions : List Attempt → App → ℕ
unfolding count
actions [] a = 0
actions (t ∷ ts) a = count (start_job t.env t.job t.now a).1 + actions ts (attempt t a)

-- A run that is not forced, on the container, with the limit.
abbrev pub IsFor : String → ℕ → Attempt → Type 0
IsFor name r t =
    (t.job.force ≡ false) × (container_name t.job.container ≡ name) × (limit_of t.env t.job ≡ r)

Kept : String → ℕ → Attempt → App → Type 0
Kept name r t a =
    IsWithin r (progress name (attempt t a))
    × (count (start_job t.env t.job t.now a).1 + cycle_of name a ≡ cycle_of name (attempt t a))

own-Kept :
    (t : Attempt) (a : App)
    → t.job.force ≡ false
    → IsWithin (limit_of t.env t.job) (progress (container_name t.job.container) a)
    → Kept (container_name t.job.container) (limit_of t.env t.job) t a
unfolding Kept count blocked
own-Kept t a f w =
    let name = container_name t.job.container in
    let r = limit_of t.env t.job in
    let after = run-progress t.env t.world t.job t.now t.done a f in
    let acts = start_job_acts t.env t.job t.now a f in
    let (v, n) =
      ran-IsWithin r (blocked t.env t.job t.now a) (progress name a)
        (exhausted-blocked t.env t.job t.now a) w in
    (
      subst (IsWithin r) (sym after) v,
      ap (λ s. count s + cycle_of name a) acts ∙ n ∙ ap (λ (p : Progress). p.cycle) (sym after),
    )

attempt-Kept :
    (name : String) (r : ℕ) (t : Attempt) (a : App)
    → IsFor name r t
    → IsWithin r (progress name a)
    → Kept name r t a
attempt-Kept name r t a (f, e, l) =
    subst (λ x. IsWithin x (progress name a) → Kept name x t a) l
      (subst
        (λ x. IsWithin (limit_of t.env t.job) (progress x a) → Kept x (limit_of t.env t.job) t a) e
        (own-Kept t a f))

-- Of any number of runs on one container, none of them forced and all with the same retry limit, the
-- actions that are really taken and the cycle at the start together are at most the limit, if at the
-- start the cycle is below the limit, or is the limit and the retries are exhausted.
pub actions-le :
    (name : String) (r : ℕ) (ts : List Attempt) (a : App)
    → All (IsFor name r) ts
    → IsWithin r (progress name a)
    → actions ts a + cycle_of name a ≤ r
unfolding actions Kept
actions-le name r [] a h w = ground (arith, w)
actions-le name r (t ∷ ts) a (h, hs) w =
    let (v, e) = attempt-Kept name r t a h w in
    omega (arith, e, actions-le name r ts (attempt t a) hs v)
