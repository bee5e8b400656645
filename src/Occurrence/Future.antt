-- ===== src/Occurrence/Future.antt =====
-- The next occurrence of a window lies behind the instant that is asked about.
use chowkidar.Prelude.{◌<◌, ◌≡◌, true, some, arith, Bool-cases, Option-cases, inl, inr}
use chowkidar.Model.{Time, Window}
use chowkidar.Calendar.{Location, Library, IsRegular}
use chowkidar.Schedule.{
  Strategy, by_hand, once, by_cron, by_interval, by_week, by_month, unknown, strategy_of,
}
use chowkidar.Schedule.Lookups.{next_interval-gt, next_weekly-gt, next_monthly-gt}
use chowkidar.Occurrence.{
  location, next_by, first_occurrence_after, in_range, next_recurring, next_on, next_occurrence,
}
use chowkidar.Occurrence.Past.{IsCron}

module _ (lib : Library) (cron : IsCron lib) (w : Window) where
  next_by-gt :
      (k : Strategy) (loc : Location) (ref : Time) {s : Time}
      → IsRegular loc
      → next_by lib w k loc ref ≡ some s
      → ref < s
  unfolding next_by
  next_by-gt by_cron loc ref {s} reg h = elim (Option-cases w.cron) [
    | inl e ↦ absurd (ground arith)
    | inr (c, e) ↦ ground (arith, cron.next_bound c.expression loc ref s)
  ]
  next_by-gt by_interval loc ref {s} reg h = elim (Option-cases w.recur_interval) [
    | inl e ↦ absurd (ground arith)
    | inr (r, e) ↦ ground (arith, next_interval-gt loc reg ref w r {s = s})
  ]
  next_by-gt by_week loc ref {s} reg h = elim (Option-cases w.recur_weekly) [
    | inl e ↦ absurd (ground arith)
    | inr (r, e) ↦ ground (arith, next_weekly-gt loc ref r {s = s})
  ]
  next_by-gt by_month loc ref {s} reg h = elim (Option-cases w.recur_monthly) [
    | inl e ↦ absurd (ground arith)
    | inr (r, e) ↦ ground (arith, next_monthly-gt loc ref r {s = s})
  ]
  next_by-gt _ loc ref reg h = absurd (ground arith)

  module _ (t : Time) (reg : IsRegular (location lib w.timezone)) where
    next_recurring-gt :
        {s : Time} → next_recurring lib w t ≡ some s → (t < s) × (in_range lib w s ≡ true)
    unfolding next_recurring first_occurrence_after
    next_recurring-gt {s} h =
        elim (Option-cases (first_occurrence_after lib w (location lib w.timezone) t)) [
          | inl e ↦ absurd (ground arith)
          | inr (start, e) ↦
              let bound =
                next_by-gt (strategy_of w.strategy) (location lib w.timezone) t {s = start} reg e in
              ground (arith, bound)
        ]

    next_on-gt : (k : Strategy) {s : Time} → next_on lib w k t ≡ some s → t < s
    unfolding next_on
    next_on-gt by_hand h = ground arith
    next_on-gt once h = ground arith
    next_on-gt by_cron h = (next_recurring-gt h).0
    next_on-gt by_interval h = (next_recurring-gt h).0
    next_on-gt by_week h = (next_recurring-gt h).0
    next_on-gt by_month h = (next_recurring-gt h).0
    next_on-gt unknown h = absurd (ground arith)

-- The next occurrence that is announced for a window lies strictly behind the instant asked about,
-- whatever its strategy, and only a window that is switched on has one, given that gronx looks ahead
-- and that the clock changes of the window's zone stay within one day each.
pub next_occurrence-gt :
    (lib : Library) (w : Window) (t : Time) {s : Time}
    → IsCron lib
    → IsRegular (location lib w.timezone)
    → next_occurrence lib w t ≡ some s
    → (t < s) × (w.active ≡ true)
unfolding next_occurrence
next_occurrence-gt lib w t {s} cron reg h = elim (Bool-cases w.active) [
  | inl e ↦ (next_on-gt lib cron w t reg (strategy_of w.strategy) (ground arith), e)
  | inr e ↦ absurd (ground arith)
]
