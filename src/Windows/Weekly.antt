-- ===== src/Windows/Weekly.antt =====
-- A weekly window that is accepted runs.
use chowkidar.Prelude.{
  ℕ, ◌<◌, ◌≡◌, refl, Bool, true, List, [], ◌∷◌, Option, none, some, ℤ, pos, negsuc, is_some, All,
  arith, Memᴰ, ap, sym, ◌∙◌, subst, String,
}
use chowkidar.Model.{Time, Window, weekly_strategy}
use chowkidar.Calendar.{Library, IsRegular}
use chowkidar.Schedule.{strategy_of, nonempty, parse_time_of_day}
use chowkidar.Occurrence.{location, last_occurrence}
use chowkidar.Occurrence.Runs.{recent_weekly_runs, last_occurrence-weekly}
use chowkidar.Windows.Sorted.{IsBetween}
use chowkidar.Windows.Valid.{IsScheduled, IsValidWindow}

day_of_week : (d : ℤ) → IsBetween (pos 0) (pos 6) d → (k : ℕ) × (k < 7) × (d ≡ pos k)
day_of_week (pos k) h = (k, ground arith, refl)
day_of_week (negsuc k) h = absurd (ground arith)

some_weekday :
    (days : List ℤ)
    → nonempty days ≡ true
    → All (IsBetween (pos 0) (pos 6)) days
    → (k : ℕ) × (k < 7) × Memᴰ (pos k) days
some_weekday [] n h = absurd (cc)
some_weekday (d ∷ days) n (h, hs) =
    let (k, small, e) = day_of_week d h in (k, small, Memᴰ.head (sym e))

found_of : {A : Type 0} (o : Option A) → is_some o ≡ true → (a : A) × (o ≡ some a)
found_of none h = absurd (cc)
found_of (some a) h = (a, refl)

-- A valid weekly window has a last occurrence at every instant past the first week of the calendar, if
-- the clock changes of its zone stay within one day each.
pub weekly_window_runs :
    (lib : Library) (is_cron : String → Bool) (w : Window) (t : Time)
    → IsRegular (location lib w.timezone)
    → IsValidWindow lib is_cron w
    → w.strategy ≡ weekly_strategy
    → 7 < (location lib w.timezone).day t
    → is_some (last_occurrence lib w t) ≡ true
unfolding strategy_of
weekly_window_runs lib is_cron w t regular v weekly late =
    let by = ap strategy_of weekly in
    let (r, e, (n, (a, b)), (timed, _), _) =
      subst (λ s. IsScheduled lib is_cron s w) by v.scheduled in
    let (k, small, m) = some_weekday r.weekdays n b in
    let (at, p) = found_of (parse_time_of_day r.time_of_day) timed in
    last_occurrence-weekly lib w t by (ap (λ u. u.recur_weekly) e)
    ∙ recent_weekly_runs (location lib w.timezone) t r k regular late small m p
