-- ===== src/Server/Cycles.antt =====
-- What the accessors do to a container's retry cycle.
use chowkidar.Prelude.{
  ℕ, suc, ◌≡◌, refl, ap, ◌∙◌, Bool, true, false, String, Option, none, some, lookup, lookup-insert,
  ==_refl, get_or, ltb, leb_ℤ, pos, nat_eq, Bool-cases, inl, inr, scale,
}
use chowkidar.Model.{Time, Config}
use chowkidar.Server.{
  App, CycleState, zero_state, state_of, with_state, should_notify, within_cooldown, remaining_of,
  post_action_wait_remaining, set_retries_exhausted, set_last_action_failed,
  set_post_action_deadline, increment_action_cycle, is_retries_exhausted,
}

-- How far a container's retries have come: its cycle, and whether they are exhausted.
pub record Progress : Type 0 where
  pub cycle : ℕ
  pub exhausted : Bool

abbrev pub progress_of : CycleState → Progress
progress_of s = record { cycle = s.cycle; exhausted = s.exhausted }

abbrev pub progress : String → App → Progress
progress name a = progress_of (state_of a name)

abbrev pub exhaust : Progress → Progress
exhaust p = record p { exhausted = true }

pub progress-with_state :
    (name : String) (s : CycleState) (a : App) → progress name (with_state name s a) ≡ progress_of s
progress-with_state name s a = rw (lookup-insert, ==_refl name) refl

pub should_notify-c_state :
    (cfg : Config) (now : Time) (name : String) (a : App)
    → (should_notify cfg now name a).0.c_state ≡ a.c_state
unfolding should_notify
should_notify-c_state cfg now name a =
    elim (Bool-cases (leb_ℤ cfg.notification_cooldown_seconds (pos 0))) [
      | inl e ↦ rw e refl
      | inr e ↦
          elim (Bool-cases (
            within_cooldown now (scale cfg.notification_cooldown_seconds 1000000000)
              (lookup name a.last_notified))) [ inl f ↦ rw (e, f) refl | inr f ↦ rw (e, f) refl ]
    ]

pub set_retries_exhausted-progress :
    (name : String) (a : App)
    → progress name (set_retries_exhausted name true a) ≡ exhaust (progress name a)
unfolding set_retries_exhausted
set_retries_exhausted-progress name a = progress-with_state name _ a

pub set_last_action_failed-progress :
    (name : String) (b : Bool) (a : App)
    → progress name (set_last_action_failed name b a) ≡ progress name a
unfolding set_last_action_failed
set_last_action_failed-progress name b a = progress-with_state name _ a

pub set_post_action_deadline-progress :
    (name : String) (t : Time) (a : App)
    → progress name (set_post_action_deadline name t a) ≡ progress name a
unfolding set_post_action_deadline
set_post_action_deadline-progress name t a = progress-with_state name _ a

pub increment_action_cycle-progress :
    (name : String) (a : App)
    → progress name (increment_action_cycle name a).0
      ≡ record (progress name a) { cycle = suc (state_of a name).cycle }
unfolding increment_action_cycle
increment_action_cycle-progress name a = progress-with_state name _ a

remaining_of-progress :
    (name : String) (now : Time) (a : App) (o : Option CycleState)
    → lookup name a.c_state ≡ o
    → progress name (remaining_of name now a o).0 ≡ progress name a
unfolding remaining_of
remaining_of-progress name now a none e = refl
remaining_of-progress name now a (some s) e = elim (Bool-cases (nat_eq s.deadline 0)) [
  | inl f ↦ rw f refl
  | inr f ↦ elim (Bool-cases (ltb now s.deadline)) [
    | inl g ↦ rw (f, g) refl
    | inr g ↦ rw (f, g) (progress-with_state name _ a ∙ rw e refl)
  ]
]

-- Asking how long to wait leaves the cycle as it is, also where it clears a deadline that has passed.
pub post_action_wait_remaining-progress :
    (name : String) (now : Time) (a : App)
    → progress name (post_action_wait_remaining name now a).0 ≡ progress name a
unfolding post_action_wait_remaining
post_action_wait_remaining-progress name now a = remaining_of-progress name now a _ refl

exhausted_of :
    (o : Option CycleState)
    → elim o [ none ↦ false | some s ↦ s.exhausted ] ≡ (get_or zero_state o).exhausted
exhausted_of none = refl
exhausted_of (some s) = refl

pub is_retries_exhausted-progress :
    (name : String) (a : App) → is_retries_exhausted a name ≡ (progress name a).exhausted
unfolding is_retries_exhausted
is_retries_exhausted-progress name a = exhausted_of (lookup name a.c_state)

remaining_of-same :
    (name : String) (now : Time) (a b : App) (o : Option CycleState)
    → (remaining_of name now a o).1 ≡ (remaining_of name now b o).1
unfolding remaining_of
remaining_of-same name now a b none = refl
remaining_of-same name now a b (some s) = elim (Bool-cases (nat_eq s.deadline 0)) [
  | inl f ↦ rw f refl
  | inr f ↦ elim (Bool-cases (ltb now s.deadline)) [
    | inl g ↦ rw (f, g) refl
    | inr g ↦ rw (f, g) refl
  ]
]

-- What is left to wait depends on the container's bucket alone.
pub post_action_wait_remaining-same :
    (name : String) (now : Time) (a b : App)
    → a.c_state ≡ b.c_state
    → (post_action_wait_remaining name now a).1 ≡ (post_action_wait_remaining name now b).1
unfolding post_action_wait_remaining
post_action_wait_remaining-same name now a b e =
    remaining_of-same name now a b (lookup name a.c_state)
    ∙ ap (λ m. (remaining_of name now b (lookup name m)).1) e

-- Neither touches the queue.
pub should_notify-queue :
    (cfg : Config) (now : Time) (name : String) (a : App)
    → (should_notify cfg now name a).0.queue ≡ a.queue
unfolding should_notify
should_notify-queue cfg now name a =
    elim (Bool-cases (leb_ℤ cfg.notification_cooldown_seconds (pos 0))) [
      | inl e ↦ rw e refl
      | inr e ↦
          elim (Bool-cases (
            within_cooldown now (scale cfg.notification_cooldown_seconds 1000000000)
              (lookup name a.last_notified))) [ inl f ↦ rw (e, f) refl | inr f ↦ rw (e, f) refl ]
    ]

remaining_of-queue :
    (name : String) (now : Time) (a : App) (o : Option CycleState)
    → (remaining_of name now a o).0.queue ≡ a.queue
unfolding remaining_of
remaining_of-queue name now a none = refl
remaining_of-queue name now a (some s) = elim (Bool-cases (nat_eq s.deadline 0)) [
  | inl f ↦ rw f refl
  | inr f ↦ elim (Bool-cases (ltb now s.deadline)) [
    | inl g ↦ rw (f, g) refl
    | inr g ↦ rw (f, g) refl
  ]
]

pub post_action_wait_remaining-queue :
    (name : String) (now : Time) (a : App)
    → (post_action_wait_remaining name now a).0.queue ≡ a.queue
unfolding post_action_wait_remaining
post_action_wait_remaining-queue name now a = remaining_of-queue name now a (lookup name a.c_state)

-- Nor the claims.
pub should_notify-active_jobs :
    (cfg : Config) (now : Time) (name : String) (a : App)
    → (should_notify cfg now name a).0.active_jobs ≡ a.active_jobs
unfolding should_notify
should_notify-active_jobs cfg now name a =
    elim (Bool-cases (leb_ℤ cfg.notification_cooldown_seconds (pos 0))) [
      | inl e ↦ rw e refl
      | inr e ↦
          elim (Bool-cases (
            within_cooldown now (scale cfg.notification_cooldown_seconds 1000000000)
              (lookup name a.last_notified))) [ inl f ↦ rw (e, f) refl | inr f ↦ rw (e, f) refl ]
    ]

remaining_of-active_jobs :
    (name : String) (now : Time) (a : App) (o : Option CycleState)
    → (remaining_of name now a o).0.active_jobs ≡ a.active_jobs
unfolding remaining_of
remaining_of-active_jobs name now a none = refl
remaining_of-active_jobs name now a (some s) = elim (Bool-cases (nat_eq s.deadline 0)) [
  | inl f ↦ rw f refl
  | inr f ↦ elim (Bool-cases (ltb now s.deadline)) [
    | inl g ↦ rw (f, g) refl
    | inr g ↦ rw (f, g) refl
  ]
]

pub post_action_wait_remaining-active_jobs :
    (name : String) (now : Time) (a : App)
    → (post_action_wait_remaining name now a).0.active_jobs ≡ a.active_jobs
unfolding post_action_wait_remaining
post_action_wait_remaining-active_jobs name now a =
    remaining_of-active_jobs name now a (lookup name a.c_state)
