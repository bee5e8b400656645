-- ===== src/Occurrence/Active.antt =====
-- What an active window implies.
use chowkidar.Prelude.{
  ◌≤◌, ◌≡◌, ◌≢◌, refl, true, false, some, arith, Bool-cases, Option-cases, inl, inr,
}
use chowkidar.Model.{Time, Window, SingleConfig}
use chowkidar.Calendar.{Library}
use chowkidar.Schedule.{
  Strategy, by_hand, once, by_cron, by_interval, by_week, by_month, unknown, strategy_of,
  within_effective_range,
}
use chowkidar.Occurrence.{
  location, most_recent_occurrence, is_recurring_active, active_by, is_active, last_recurring,
  last_on, last_occurrence,
}

module _ (lib : Library) (w : Window) (t : Time) where
  recurring_started :
      is_recurring_active lib w t ≡ true → (s : Time) × (last_recurring lib w t ≡ some s) × (s ≤ t)
  unfolding is_recurring_active last_recurring
  recurring_started h =
      elim (Option-cases (most_recent_occurrence lib w (location lib w.timezone) t)) [
        | inl e ↦ absurd (ground arith)
        | inr ((start, d), e) ↦ (start, ground arith, ground arith)
      ]

  active_by-started :
      (k : Strategy)
      → k ≢ by_hand
      → active_by lib w k t ≡ true
      → (s : Time) × (last_on lib w k t ≡ some s) × (s ≤ t)
  unfolding active_by last_on
  active_by-started by_hand n h = absurd (n refl)
  active_by-started once n h = elim (Option-cases w.single) [
    | inl e ↦ absurd (ground arith)
    | inr (o, e) ↦ (o.start, ground arith, ground arith)
  ]
  active_by-started by_cron n h = recurring_started h
  active_by-started by_interval n h = recurring_started h
  active_by-started by_week n h = recurring_started h
  active_by-started by_month n h = recurring_started h
  active_by-started unknown n h = absurd (ground arith)

-- A window that pauses anything at `t` is switched on and, unless it is the manual one, has a last
-- occurrence, which started at or before `t`.
pub is_active-started :
    (lib : Library) (w : Window) (t : Time)
    → is_active lib w t ≡ true
    → strategy_of w.strategy ≢ by_hand
    → (w.active ≡ true) × ((s : Time) × (last_occurrence lib w t ≡ some s) × (s ≤ t))
unfolding is_active last_occurrence
is_active-started lib w t h n = elim (Bool-cases w.active) [
  | inr e ↦ absurd (ground arith)
  | inl e ↦ (e, active_by-started lib w t (strategy_of w.strategy) n (ground arith))
]

-- Behind the end of a single window, and of the effective range of a manual one, nothing is active.
pub single_ended :
    (lib : Library) (w : Window) (t : Time) {s : SingleConfig}
    → strategy_of w.strategy ≡ once
    → w.single ≡ some s
    → s.end ≤ t
    → is_active lib w t ≡ false
unfolding is_active
single_ended lib w t k e late = ground arith

pub manual_ended :
    (lib : Library) (w : Window) (t : Time) {end : Time}
    → strategy_of w.strategy ≡ by_hand
    → w.effective_to ≡ some end
    → end ≤ t
    → is_active lib w t ≡ false
unfolding is_active within_effective_range
manual_ended lib w t k e late = ground arith
