-- ===== src/Process/Queue.antt =====
-- What the loops of a scan hand to the worker pool.
use chowkidar.Prelude.{
  ◌≡◌, refl, ap, sym, ◌∙◌, Bool, true, false, ◌||◌, String, List, [], ◌∷◌, ◌++◌, All, Option, none,
  some, ltb, if◌then◌else◌, Bool-cases, inl, inr, pos, ltb_ℤ,
}
use chowkidar.Model.{Time, Job, Container}
use chowkidar.Match.{Selection}
use chowkidar.Server.{
  App, ActionJob, container_name, is_retries_exhausted, should_notify, notify, log_action_history,
  post_action_wait_remaining, set_stable_scans_required,
}
use chowkidar.Server.Cycles.{should_notify-queue, post_action_wait_remaining-queue}
use chowkidar.Process.{Scan, Step, job_of, enqueue_if_ready, tell_unhealthy, each, require_stable}

-- The queue gets no job or more, all of them such that P.
unfoldable pub Grows : (ActionJob → Type 0) → App → App → Type 0
Grows P a b = (js : List ActionJob) × (b.queue ≡ a.queue ++ js) × All P js

append_nil {ℓ} : {A : Type ℓ} (xs : List A) → xs ++ [] ≡ xs
append_nil [] = refl
append_nil (x ∷ xs) = ap (x ∷◌) (append_nil xs)

append_assoc {ℓ} : {A : Type ℓ} (xs ys zs : List A) → (xs ++ ys) ++ zs ≡ xs ++ (ys ++ zs)
append_assoc [] ys zs = refl
append_assoc (x ∷ xs) ys zs = ap (x ∷◌) (append_assoc xs ys zs)

pub All-append {ℓ} :
    {A : Type ℓ} (P : A → Type 0) (xs ys : List A) → All P xs → All P ys → All P (xs ++ ys)
All-append P [] ys h k = k
All-append P (x ∷ xs) ys (p, h) k = (p, All-append P xs ys h k)

pub Grows-same : (P : ActionJob → Type 0) (a b : App) → b.queue ≡ a.queue → Grows P a b
unfolding Grows
Grows-same P a b e = ([], e ∙ sym (append_nil a.queue), tt)

pub Grows-trans : (P : ActionJob → Type 0) (a b c : App) → Grows P a b → Grows P b c → Grows P a c
unfolding Grows
Grows-trans P a b c (xs, e, h) (ys, f, k) =
    (xs ++ ys, f ∙ ap (λ q. q ++ ys) e ∙ append_assoc a.queue xs ys, All-append P xs ys h k)

pub Grows-if :
    (P : ActionJob → Type 0) (v : Bool) (a x y : App)
    → Grows P a x
    → Grows P a y
    → Grows P a (if v then x else y)
Grows-if P true a x y h k = h
Grows-if P false a x y h k = k

pub require_stable-queue :
    (name : String) (j : Option Job) (a : App) → (require_stable name j a).queue ≡ a.queue
unfolding set_stable_scans_required
require_stable-queue name none a = refl
require_stable-queue name (some j) a = go (ltb_ℤ (pos 0) j.stable_scans_required)
  where
    go :
        (b : Bool)
        → (if b then set_stable_scans_required name j.stable_scans_required a else a).queue
          ≡ a.queue
    go true = refl
    go false = refl

-- An action is queued exactly if the retries are not exhausted and no wait is left.
pub enqueue_if_ready-queue :
    (now : Time) (c : Container) (reason : String) (sel : Selection) (a : App)
    → let name = container_name c in
      (enqueue_if_ready now c reason sel a).0.queue ≡ (
        if is_retries_exhausted a name || ltb 0 (post_action_wait_remaining name now a).1
        then a.queue
        else a.queue ++ job_of c reason sel ∷ [])
unfolding enqueue_if_ready log_action_history
enqueue_if_ready-queue now c reason sel a =
    let name = container_name c in
    elim (Bool-cases (is_retries_exhausted a name)) [
      | inl e ↦ rw e refl
      | inr e ↦ elim (Bool-cases (ltb 0 (post_action_wait_remaining name now a).1)) [
        | inl f ↦ rw (e, f) (post_action_wait_remaining-queue name now a)
        | inr f ↦
            rw (e, f)
              (ap (λ q. q ++ job_of c reason sel ∷ [])
                (require_stable-queue name sel.job (post_action_wait_remaining name now a).0
                  ∙ post_action_wait_remaining-queue name now a))
      ]
    ]

pub enqueue_if_ready-Grows :
    (P : ActionJob → Type 0) (now : Time) (c : Container) (reason : String) (sel : Selection)
    (a : App)
    → P (job_of c reason sel)
    → Grows P a (enqueue_if_ready now c reason sel a).0
unfolding Grows
enqueue_if_ready-Grows P now c reason sel a h =
    go
      (is_retries_exhausted a (container_name c)
        || ltb 0 (post_action_wait_remaining (container_name c) now a).1)
      (enqueue_if_ready-queue now c reason sel a)
  where
    go :
        (b : Bool)
        → (enqueue_if_ready now c reason sel a).0.queue
          ≡ (if b then a.queue else a.queue ++ job_of c reason sel ∷ [])
        → Grows P a (enqueue_if_ready now c reason sel a).0
    go true e = ([], e ∙ sym (append_nil a.queue), tt)
    go false e = (job_of c reason sel ∷ [], e, (h, tt))

pub tell_unhealthy-queue :
    (s : Scan) (c : Container) (sel : Selection) (r : App × Bool)
    → (tell_unhealthy s c sel r).queue ≡ r.0.queue
unfolding tell_unhealthy
tell_unhealthy-queue s c sel (a, false) = refl
tell_unhealthy-queue s c sel (a, true) =
    go (should_notify s.env.config s.now (container_name c) a).1
    ∙ should_notify-queue s.env.config s.now (container_name c) a
  where
    go :
        (b : Bool)
        → let x = (should_notify s.env.config s.now (container_name c) a).0 in
          (if b
            then notify "unhealthy detected" (container_name c) 0 (some sel.notifications) x
            else x).queue
          ≡ x.queue
    go true = refl
    go false = refl

pub each-Grows :
    (P : ActionJob → Type 0) (step : Container → App → Step)
    → ((c : Container) (a : App) → Grows P a (step c a).0)
    → (cs : List Container) (a : App) → Grows P a (each step cs a).0
unfolding each
each-Grows P step h [] a = Grows-same P a a refl
each-Grows P step h (c ∷ cs) a =
    Grows-trans P a (step c a).0 _ (h c a) (each-Grows P step h cs (step c a).0)
