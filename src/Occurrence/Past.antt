-- ===== src/Occurrence/Past.antt =====
-- The last occurrence of a window lies at or before the instant that is asked about.
use chowkidar.Prelude.{◌≤◌, ◌<◌, ◌≡◌, some, arith, Option-cases, inl, inr, String, ℤ}
use chowkidar.Model.{Time, Window}
use chowkidar.Calendar.{Location, Library, IsRegular}
use chowkidar.Schedule.{
  Strategy, by_hand, once, by_cron, by_interval, by_week, by_month, unknown, strategy_of,
}
use chowkidar.Schedule.Lookups.{recent_interval-le, recent_weekly-le, recent_monthly-le}
use chowkidar.Occurrence.{
  location, recent_by, most_recent_occurrence, last_recurring, last_on, last_occurrence,
}

-- gronx gives a tick at or before the reference, and one strictly after it.
pub record IsCron (lib : Library) : Type 0 where
  pub prev_bound :
      (e : String) (loc : Location) (t s : Time) → lib.prev_tick_before e loc t ≡ some s → s ≤ t
  pub next_bound :
      (e : String) (loc : Location) (t s : Time) → lib.next_tick_after e loc t ≡ some s → t < s

module _ (lib : Library) (cron : IsCron lib) (w : Window) where
  recent_by-le :
      (k : Strategy) (loc : Location) (ref : Time) {s : Time} {d : ℤ}
      → IsRegular loc
      → 0 < loc.day ref
      → recent_by lib w k loc ref ≡ some (s, d)
      → s ≤ ref
  unfolding recent_by
  recent_by-le by_cron loc ref {s} reg lat h = elim (Option-cases w.cron) [
    | inl e ↦ absurd (ground arith)
    | inr (c, e) ↦ ground (arith, cron.prev_bound c.expression loc ref s)
  ]
  recent_by-le by_interval loc ref {s} reg lat h = elim (Option-cases w.recur_interval) [
    | inl e ↦ absurd (ground arith)
    | inr (r, e) ↦ ground (arith, recent_interval-le loc reg ref lat w r {s = s})
  ]
  recent_by-le by_week loc ref {s} reg lat h = elim (Option-cases w.recur_weekly) [
    | inl e ↦ absurd (ground arith)
    | inr (r, e) ↦ ground (arith, recent_weekly-le loc ref r {s = s})
  ]
  recent_by-le by_month loc ref {s} reg lat h = elim (Option-cases w.recur_monthly) [
    | inl e ↦ absurd (ground arith)
    | inr (r, e) ↦ ground (arith, recent_monthly-le loc ref r {s = s})
  ]
  recent_by-le _ loc ref reg lat h = absurd (ground arith)

  module _ (t : Time) (reg : IsRegular (location lib w.timezone))
      (lat : 0 < (location lib w.timezone).day t) where
    last_recurring-le : {s : Time} → last_recurring lib w t ≡ some s → s ≤ t
    unfolding last_recurring most_recent_occurrence
    last_recurring-le {s} h =
        elim (Option-cases (most_recent_occurrence lib w (location lib w.timezone) t)) [
          | inl e ↦ absurd (ground arith)
          | inr ((start, d), e) ↦
              let bound =
                recent_by-le (strategy_of w.strategy) (location lib w.timezone) t {s = start}
                  {d = d} reg lat e in
              ground (arith, bound)
        ]

    last_on-le : (k : Strategy) {s : Time} → last_on lib w k t ≡ some s → s ≤ t
    unfolding last_on
    last_on-le by_hand h = ground arith
    last_on-le once h = ground arith
    last_on-le by_cron h = last_recurring-le h
    last_on-le by_interval h = last_recurring-le h
    last_on-le by_week h = last_recurring-le h
    last_on-le by_month h = last_recurring-le h
    last_on-le unknown h = absurd (ground arith)

-- The last occurrence that is shown for a window lies at or before the instant asked about, whatever
-- its strategy, given that gronx looks back and that the clock changes of the window's zone stay within
-- one day each.
pub last_occurrence-le :
    (lib : Library) (w : Window) (t : Time) {s : Time}
    → IsCron lib
    → IsRegular (location lib w.timezone)
    → 0 < (location lib w.timezone).day t
    → last_occurrence lib w t ≡ some s
    → s ≤ t
unfolding last_occurrence
last_occurrence-le lib w t {s} cron reg lat h =
    last_on-le lib cron w t reg lat (strategy_of w.strategy) h
