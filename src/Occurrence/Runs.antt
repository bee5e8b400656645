-- ===== src/Occurrence/Runs.antt =====
-- Whether the lookups find an occurrence that exists: weekly windows always do, monthly ones not.
use chowkidar.Prelude.{
  ℕ, ◌+◌, ◌-◌, ◌%◌, ◌<◌, ◌≡◌, refl, Bool, true, none, some, arith, Option-cases, inl, inr, List, [],
  ◌∷◌, ℤ, pos, is_some, ◌&&◌, not, ap, zero, suc, Memᴰ,
}
use chowkidar.Model.{Time, Window, RecurWeekly, RecurMonthly}
use chowkidar.Calendar.{Location, Library, IsRegular, weekday}
use chowkidar.Occurrence.{
  location, last_occurrence, last_on, last_recurring, most_recent_occurrence, recent_by,
}
use chowkidar.Schedule.{
  strategy_of, by_week, parse_time_of_day, wall, nonempty, wanted_weekday, wanted_month_day,
  scan_back, recent_weekly, recent_monthly,
}
use chowkidar.Schedule.Days.{day-days_back, scan_back_total}
use chowkidar.Schedule.Lookups.{wall-lt}

wanted-Memᴰ :
    (days : List ℤ) (day : ℕ) → Memᴰ (pos (weekday day)) days → wanted_weekday days day ≡ true
wanted-Memᴰ [] day m = elim m [ ]
wanted-Memᴰ (d ∷ days) day (Memᴰ.head e) = ground arith
wanted-Memᴰ (d ∷ days) day (Memᴰ.tail m) = ground (arith, wanted-Memᴰ days day m)

nonempty_of_Memᴰ : {d : ℤ} (days : List ℤ) → Memᴰ d days → nonempty days ≡ true
nonempty_of_Memᴰ [] m = elim m [ ]
nonempty_of_Memᴰ (d ∷ days) m = refl

-- Some day of the week before `day` is the weekday `k`.
week_offset : (day k : ℕ) → k < 7 → 7 < day → (j : ℕ) × (0 < j) × (j < 8) × (weekday (day - j) ≡ k)
week_offset day k h g = ((day + 1 - k + 6) % 7 + 1, omega arith, omega arith, omega arith)

-- A weekly window with a weekday of the week and an hour that can be read has a last occurrence at
-- every instant past the first week of the calendar: eight days are enough to look at.
pub recent_weekly_runs :
    (loc : Location) (ref : Time) (r : RecurWeekly) (k : ℕ) {at : ℕ × ℕ}
    → IsRegular loc
    → 7 < loc.day ref
    → k < 7
    → Memᴰ (pos k) r.weekdays
    → parse_time_of_day r.time_of_day ≡ some at
    → is_some (recent_weekly loc ref r) ≡ true
unfolding recent_weekly
recent_weekly_runs loc ref r k {at} reg late small m p =
    let (j, positive, in_week, e) = week_offset (loc.day ref) k small late in
    let on_day = day-days_back loc reg ref j in
    let clock = wall at in
    let wanted = wanted-Memᴰ r.weekdays (loc.day ref - j) (rw e m) in
    let day = reg.day_of_date (loc.day ref - j) clock (wall-lt r.time_of_day p) in
    let earlier =
      reg.day_order (loc.date (loc.day ref - j) clock) ref (rw day (omega (arith, positive))) in
    let found =
      scan_back_total loc (wanted_weekday r.weekdays) clock ref 8 0 j (omega arith) (omega arith)
        (rw on_day wanted) (rw on_day (omega arith)) in
    ground (arith, nonempty_of_Memᴰ r.weekdays m)

-- No day of the `n` ones from `i` days before `day` is wanted.
unfoldable pub quiet_before : (ℕ → Bool) → ℕ → ℕ → ℕ → Bool
quiet_before wanted day zero i = true
quiet_before wanted day (suc n) i = not (wanted (day - i)) && quiet_before wanted day n (suc i)

scan_back_quiet :
    (loc : Location) (wanted : ℕ → Bool) (clock : ℕ) (ref : Time) (n i : ℕ)
    → IsRegular loc
    → quiet_before wanted (loc.day ref) n i ≡ true
    → scan_back loc wanted clock ref n i ≡ none
unfolding scan_back quiet_before
scan_back_quiet loc wanted clock ref zero i reg h = refl
scan_back_quiet loc wanted clock ref (suc n) i reg h = ground (
  arith,
  day-days_back loc reg ref i,
  ap wanted (day-days_back loc reg ref i),
  scan_back_quiet loc wanted clock ref n (suc i) reg,
)

-- A monthly window has no last occurrence wherever its days of the month are missing from the last
-- 32 days, however many occurrences it had before.
pub recent_monthly_quiet :
    (loc : Location) (ref : Time) (r : RecurMonthly)
    → IsRegular loc
    → quiet_before (wanted_month_day r.days_of_month) (loc.day ref) 32 0 ≡ true
    → recent_monthly loc ref r ≡ none
unfolding recent_monthly
recent_monthly_quiet loc ref r reg q = elim (Option-cases (parse_time_of_day r.time_of_day)) [
  | inl e ↦ ground arith
  | inr (a, e) ↦
      let nothing =
        scan_back_quiet loc (wanted_month_day r.days_of_month) (wall a) ref 32 0 reg q in
      ground (arith, nothing)
]

-- The last occurrence of a weekly window is found by its lookup.
pub last_occurrence-weekly :
    (lib : Library) (w : Window) (t : Time) {r : RecurWeekly}
    → strategy_of w.strategy ≡ by_week
    → w.recur_weekly ≡ some r
    → is_some (last_occurrence lib w t) ≡ is_some (recent_weekly (location lib w.timezone) t r)
unfolding last_occurrence last_on last_recurring most_recent_occurrence recent_by
last_occurrence-weekly lib w t e f = ground arith
