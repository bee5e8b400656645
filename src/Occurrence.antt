-- ===== src/Occurrence.antt =====
-- internal/config/maintenance_schedule.go, the methods of MaintenanceWindow: whether a window is
-- active, and when it started last and starts next. `lib` is the zone database and gronx.
pub mod Past
pub mod Future
pub mod Active
pub mod Runs
use chowkidar.Prelude.{
  ◌≡◌, Bool, true, false, ◌&&◌, not, String, List, [], ◌∷◌, Option, none, some, ℤ, ltb, leb,
  if◌then◌else◌, scale, select,
}
use chowkidar.Model.{Time, minute, Window}
use chowkidar.Calendar.{Location, Library, utc, before_add}
use chowkidar.Schedule.{
  Strategy, by_hand, once, by_cron, by_interval, by_week, by_month, unknown, strategy_of,
  within_effective_range, recent_interval, recent_weekly, recent_monthly, next_interval,
  next_weekly, next_monthly, ◌>>=◌, guard, ◌>>◌,
}

-- time.LoadLocation, with UTC where the zone is not known.
abbrev pub location : Library → String → Location
location lib zone = elim (lib.load_location zone) [ none ↦ utc | some loc ↦ loc ]

-- time.Duration(minutes) * time.Minute, an int64.
abbrev pub minutes : ℤ → ℤ
minutes n = scale n minute

module _ (lib : Library) (w : Window) where
  recent_cron : Location → Time → Option (Time × ℤ)
  recent_cron loc ref = do
    c ← w.cron
    start ← lib.prev_tick_before c.expression loc ref
    some (start, minutes c.duration_minutes)

  recent_by : Strategy → Location → Time → Option (Time × ℤ)
  unfolding recent_cron
  recent_by by_cron loc ref = recent_cron loc ref
  recent_by by_interval loc ref = do
    r ← w.recur_interval
    start ← recent_interval loc w ref r
    some (start, minutes r.duration_minutes)
  recent_by by_week loc ref = do
    r ← w.recur_weekly
    start ← recent_weekly loc ref r
    some (start, minutes r.duration_minutes)
  recent_by by_month loc ref = do
    r ← w.recur_monthly
    start ← recent_monthly loc ref r
    some (start, minutes r.duration_minutes)
  recent_by _ loc ref = none

  unfoldable pub most_recent_occurrence : Location → Time → Option (Time × ℤ)
  unfolding recent_by
  most_recent_occurrence loc ref = recent_by (strategy_of w.strategy) loc ref

  next_by : Strategy → Location → Time → Option Time
  next_by by_cron loc ref = do c ← w.cron; lib.next_tick_after c.expression loc ref
  next_by by_interval loc ref = do r ← w.recur_interval; next_interval loc w ref r
  next_by by_week loc ref = do r ← w.recur_weekly; next_weekly loc ref r
  next_by by_month loc ref = do r ← w.recur_monthly; next_monthly loc ref r
  next_by _ loc ref = none

  unfoldable pub first_occurrence_after : Location → Time → Option Time
  unfolding next_by
  first_occurrence_after loc ref = next_by (strategy_of w.strategy) loc ref

  -- The last occurrence, if `t` lies in it.
  abbrev inside : Time → Option (Time × ℤ) → Bool
  inside t none = false
  inside t (some (start, duration)) = leb start t && before_add t start duration

  unfoldable pub is_recurring_active : Time → Bool
  is_recurring_active t =
      within_effective_range w.effective_from w.effective_to t
      && inside t (most_recent_occurrence (location lib w.timezone) t)

  active_by : Strategy → Time → Bool
  unfolding is_recurring_active
  active_by by_hand t = within_effective_range w.effective_from w.effective_to t
  active_by once t = elim w.single [ none ↦ false | some s ↦ leb s.start t && ltb t s.end ]
  active_by by_cron t = is_recurring_active t
  active_by by_interval t = is_recurring_active t
  active_by by_week t = is_recurring_active t
  active_by by_month t = is_recurring_active t
  active_by unknown t = false

  unfoldable pub is_active : Time → Bool
  unfolding active_by
  is_active t = w.active && active_by (strategy_of w.strategy) t

  abbrev pub in_range : Time → Bool
  in_range start = within_effective_range w.effective_from w.effective_to start

  -- The next start of a recurring window, if it falls into the effective range.
  next_recurring : Time → Option Time
  next_recurring t = do
    start ← first_occurrence_after (location lib w.timezone) t
    guard (in_range start)
    some start

  next_on : Strategy → Time → Option Time
  unfolding next_recurring
  next_on by_hand t = do from ← w.effective_from; guard (ltb t from); some from
  next_on once t = do s ← w.single; guard (ltb t s.start); some s.start
  next_on by_cron t = next_recurring t
  next_on by_interval t = next_recurring t
  next_on by_week t = next_recurring t
  next_on by_month t = next_recurring t
  next_on unknown t = none

  unfoldable pub next_occurrence : Time → Option Time
  unfolding next_on
  next_occurrence t = do guard w.active; next_on (strategy_of w.strategy) t

  last_recurring : Time → Option Time
  last_recurring t = do found ← most_recent_occurrence (location lib w.timezone) t; some found.0

  last_on : Strategy → Time → Option Time
  unfolding last_recurring
  last_on by_hand t = do from ← w.effective_from; guard (leb from t); some from
  last_on once t = do s ← w.single; guard (leb s.start t); some s.start
  last_on by_cron t = last_recurring t
  last_on by_interval t = last_recurring t
  last_on by_week t = last_recurring t
  last_on by_month t = last_recurring t
  last_on unknown t = none

  unfoldable pub last_occurrence : Time → Option Time
  unfolding last_on
  last_occurrence t = last_on (strategy_of w.strategy) t

-- ActiveMaintenanceWindows.
unfoldable pub active_maintenance_windows : Library → List Window → Time → List Window
active_maintenance_windows lib windows t = select (λ w. is_active lib w t) windows
