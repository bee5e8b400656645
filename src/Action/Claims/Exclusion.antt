-- ===== src/Action/Claims/Exclusion.antt =====
-- Actions that run at the same time: the scans and the workers interleave, an action runs between the
-- step that starts it and the step that completes it.
use chowkidar.Prelude.{
  ℕ, ◌≡◌, refl, ap, sym, subst, ◌∙◌, Bool, true, false, ◌||◌, String, List, [], ◌∷◌, ◌++◌, lookup,
  insert, delete, Assoc, get_or, lookup-insert, lookup-delete, if◌then◌else◌, Bool-cases, inl, inr,
  arith, ◌==◌, elem, text_iff, elem-append,
}
use chowkidar.Model.{Time}
use chowkidar.Execute.{Outcome}
use chowkidar.Server.{
  App, Env, ActionJob, container_name, is_active_job, claim_active_job, register_active_job_cancel,
  reset_action_cooldown, log_action_history,
}
use chowkidar.Server.Requests.{container_name_by_id, reset_id, handle_reset_cooldown}
use chowkidar.Text.{is_empty}
use chowkidar.Action.{Started, skipped, acting, begin_cycle, guarded, start_job, complete_job}
use chowkidar.Action.Claims.{complete_job-active_jobs, claims_after, guarded-active_jobs}

-- The shared state, and the actions under way with their cycles.
abbrev pub Running : Type 0
Running = App × List (ActionJob × ℕ)

-- The containers of the actions under way.
pub names : List (ActionJob × ℕ) → List String
names [] = []
names ((j, n) ∷ rs) = container_name j.container ∷ names rs

-- A worker takes up a job, which acts or is skipped, an action that is under way ends, or a request resets
-- a container. No job is forced, and a reset takes no container with an action under way.
pub data Step : Running → Running → Type 0 where
  begin :
      (env : Env) (j : ActionJob) (now : Time) (a : App) (rs : List (ActionJob × ℕ)) (n : ℕ)
      → j.force ≡ false
      → (start_job env j now a).1 ≡ acting n
      → Step (a, rs) ((start_job env j now a).0, (j, n) ∷ rs)
  skip :
      (env : Env) (j : ActionJob) (now : Time) (a : App) (rs : List (ActionJob × ℕ))
      → j.force ≡ false
      → (start_job env j now a).1 ≡ skipped
      → Step (a, rs) ((start_job env j now a).0, rs)
  finish :
      (env : Env) (j : ActionJob) (n : ℕ) (o : Outcome) (d : ℕ) (done : Time) (a : App)
      (before after : List (ActionJob × ℕ))
      → j.force ≡ false
      → Step (a, before ++ (j, n) ∷ after) (complete_job env j n o d done a, before ++ after)
  reset :
      (path : String) (now : Time) (a : App) (rs : List (ActionJob × ℕ))
      → elem (container_name_by_id (reset_id path) a) (names rs) ≡ false
      → Step (a, rs) ((handle_reset_cooldown path now a).0, rs)

pub data Steps : Running → Running → Type 0 where
  stay : {s : Running} → Steps s s
  next : {s t u : Running} → Steps s t → Step t u → Steps s u

-- No container has two actions under way.
pub Distinct : List String → Type 0
Distinct [] = Unit
Distinct (k ∷ ks) = (elem k ks ≡ false) × Distinct ks

-- The claims are the containers of the actions under way, each with one action.
pub IsExclusive : Running → Type 0
IsExclusive (a, rs) = Distinct (names rs) × ((k : String) → is_active_job a k ≡ elem k (names rs))

claims : Assoc Bool → String → Bool
claims m k = get_or false (lookup k m)

claimed_by : Started → String → String → Assoc Bool → Bool
claimed_by skipped name k m = claims m k
claimed_by (acting n) name k m = name == k || claims m k

claims_after-insert :
    (v : Started) (name k : String) (m : Assoc Bool)
    → claims m name ≡ false
    → claims (claims_after v name (insert name true m)) k ≡ claimed_by v name k m
unfolding claims claimed_by
claims_after-insert skipped name k m h = elim (Bool-cases (name == k)) [
  | inl e ↦
      rw (lookup-delete, e)
        (sym (ap (λ x. get_or false (lookup x m)) (sym ((text_iff name k).0 e)) ∙ h))
  | inr e ↦ rw (lookup-delete, e, lookup-insert, e) refl
]
claims_after-insert (acting n) name k m h = elim (Bool-cases (name == k)) [
  | inl e ↦ rw (lookup-insert, e) refl
  | inr e ↦ rw (lookup-insert, e) refl
]

-- How a start moves the claims; it acts only on a container without one.
Moves : ActionJob → App → App × Started → Type 0
Moves j a r =
    ((k : String)
      → claims r.0.active_jobs k ≡ claimed_by r.1 (container_name j.container) k a.active_jobs)
    × ((n : ℕ) → r.1 ≡ acting n → claims a.active_jobs (container_name j.container) ≡ false)

never : {A : Type 0} (n : ℕ) → skipped ≡ acting n → A
never n e = cc

start_job-Moves :
    (env : Env) (j : ActionJob) (now : Time) (a : App)
    → j.force ≡ false
    → Moves j a (start_job env j now a)
unfolding start_job claim_active_job register_active_job_cancel Moves claims claimed_by
start_job-Moves env j now a f =
    let name = container_name j.container in
    let m = insert name true a.active_jobs in
    let b = register_active_job_cancel name j.job_id (record a { active_jobs = m }) in
    let (a₁, taken) = claim_active_job name a in
    let x = begin_cycle j name (reset_action_cooldown name a) in
    let y =
      if taken
      then guarded env j name now (register_active_job_cancel name j.job_id a₁)
      else (a₁, skipped) in
    choose j.force x y f (elim (Bool-cases (is_active_job a name)) [
      | inl e ↦ rw e (λ k. refl, λ n q. never n q)
      | inr e ↦ rw e (
        λ k.
            ap (λ c. claims c k) (guarded-active_jobs env j now b)
            ∙ claims_after-insert (guarded env j name now b).1 name k a.active_jobs e,
        λ n q. refl,
      )
    ])
  where
    choose :
        (c : Bool) (x y : App × Started) → c ≡ false → Moves j a y → Moves j a (if c then x else y)
    choose c x y e h = rw e h

names-append : (xs ys : List (ActionJob × ℕ)) → names (xs ++ ys) ≡ names xs ++ names ys
unfolding names
names-append [] ys = refl
names-append ((j, n) ∷ xs) ys = ap (container_name j.container ∷◌) (names-append xs ys)

-- A name that is taken out of a list of different names is gone, and the others stay.
Distinct-remove :
    (k : String) (xs ys : List String)
    → Distinct (xs ++ k ∷ ys)
    → Distinct (xs ++ ys)
      × ((i : String) → elem i (xs ++ ys) ≡ (if k == i then false else elem i (xs ++ k ∷ ys)))
unfolding Distinct
Distinct-remove k [] ys (new, d) = (
  d,
  λ i. elim (Bool-cases (k == i)) [
    | inl e ↦ rw e (ap (λ x. elem x ys) (sym ((text_iff k i).0 e)) ∙ new)
    | inr e ↦ rw e refl
  ],
)
Distinct-remove k (x ∷ xs) ys (new, d) =
    let (rest, same) = Distinct-remove k xs ys d in
    (
      (ground (arith, same x, new), rest),
      λ i.
          ground (
            arith,
            same i,
            new,
            elem-append x xs (k ∷ ys),
            text_iff x i,
            text_iff k i,
            text_iff k x,
          ),
    )

claims-delete :
    (name k : String) (m : Assoc Bool)
    → claims (delete name m) k ≡ (if name == k then false else claims m k)
unfolding claims
claims-delete name k m = elim (Bool-cases (name == k)) [
  | inl e ↦ rw (lookup-delete, e) refl
  | inr e ↦ rw (lookup-delete, e) refl
]

-- A reset gives up the claim of its container alone, and there is none of it here.
reset-claims :
    (path : String) (now : Time) (a : App) (k : String)
    → claims a.active_jobs (container_name_by_id (reset_id path) a) ≡ false
    → claims (handle_reset_cooldown path now a).0.active_jobs k ≡ claims a.active_jobs k
unfolding handle_reset_cooldown reset_action_cooldown log_action_history
reset-claims path now a k h = elim (Bool-cases (is_empty (reset_id path))) [
  | inl e ↦ rw e refl
  | inr e ↦ rw e (claims-delete name k a.active_jobs ∙ unclaimed)
]
  where
    name : String
    name = container_name_by_id (reset_id path) a

    unclaimed : (if name == k then false else claims a.active_jobs k) ≡ claims a.active_jobs k
    unclaimed = elim (Bool-cases (name == k)) [
      | inl e ↦ rw e (sym (ap (claims a.active_jobs) (sym ((text_iff name k).0 e)) ∙ h))
      | inr e ↦ rw e refl
    ]

-- Every step keeps it so that the claims are the containers of the actions under way, and no container
-- has two of them.
pub Step-IsExclusive : (s t : Running) → Step s t → IsExclusive s → IsExclusive t
unfolding IsExclusive names Moves Distinct claims claimed_by
Step-IsExclusive s t (begin env j now a rs n f e) (d, c) =
    let (moves, free) = start_job-Moves env j now a f in
    (
      (sym (c (container_name j.container)) ∙ free n e, d),
      λ k.
          moves k
          ∙ ap (λ v. claimed_by v (container_name j.container) k a.active_jobs) e
          ∙ ap (λ x. container_name j.container == k || x) (c k),
    )
Step-IsExclusive s t (skip env j now a rs f e) (d, c) =
    let (moves, free) = start_job-Moves env j now a f in
    (d, λ k. moves k ∙ ap (λ v. claimed_by v (container_name j.container) k a.active_jobs) e ∙ c k)
Step-IsExclusive s t (finish env j n o ms end a before after f) (d, c) =
    let name = container_name j.container in
    let (rest, same) =
      Distinct-remove name (names before) (names after)
        (subst Distinct (names-append before ((j, n) ∷ after)) d) in
    (
      subst Distinct (sym (names-append before after)) rest,
      λ k.
          ap (λ m. claims m k) (complete_job-active_jobs env j n o ms end a f)
          ∙ claims-delete name k a.active_jobs
          ∙ ap (λ x. if name == k then false else x)
              (c k ∙ ap (elem k) (names-append before ((j, n) ∷ after)))
          ∙ sym (same k)
          ∙ ap (elem k) (sym (names-append before after)),
    )
Step-IsExclusive s t (reset path now a rs idle) (d, c) =
    (d, λ k. reset-claims path now a k (c (container_name_by_id (reset_id path) a) ∙ idle) ∙ c k)

Steps-IsExclusive : (s t : Running) → Steps s t → IsExclusive s → IsExclusive t
Steps-IsExclusive s t stay h = h
Steps-IsExclusive s t (next xs x) h = Step-IsExclusive _ t x (Steps-IsExclusive s _ xs h)

-- From a start without claims, and as long as no job is forced and no container is reset while an action on
-- it is under way, no interleaving of the workers and of the reset requests has two actions under way for
-- one container, and the claims are the containers with an action under way.
pub exclusive : (a : App) (t : Running) → a.active_jobs ≡ [] → Steps (a, []) t → IsExclusive t
unfolding IsExclusive names Distinct claims lookup
exclusive a t e xs = Steps-IsExclusive (a, []) t xs (tt, λ k. ap (λ m. get_or false (lookup k m)) e)
