-- ===== src/Schedule.antt =====
-- internal/config/maintenance_schedule.go: the loops that look for the days of a schedule, and the
-- lookups of each recurring strategy. `parse_time_of_day` is from internal/config/maintenance.go.
pub mod Days
pub mod Lookups
use chowkidar.Prelude.{
  ℕ, zero, suc, ◌+◌, ◌-◌, ◌*◌, ◌%◌, Bool, true, false, ◌&&◌, ◌||◌, not, String, List, [], ◌∷◌,
  Option, none, some, ℤ, pos, negsuc, ltb, leb, nat_eq, ◌==◌, if◌then◌else◌, scale, any, select,
}
use chowkidar.Text.{split, trim_space, atoi}
use chowkidar.Model.{
  Time, minute, Window, SingleConfig, CronConfig, RecurInterval, RecurWeekly, RecurMonthly, manual,
  single_strategy, cron_strategy, interval_strategy, weekly_strategy, monthly_strategy,
}
use chowkidar.Calendar.{
  Location, Library, utc, days_back, days_ahead, weekday, day_of_month, before_add,
}

infixl 5 ◌>>=◌
abbrev pub ◌>>=◌ {ℓ κ} : {A : Type ℓ} {B : Type κ} → Option A → (A → Option B) → Option B
none >>= f = none
some a >>= f = f a

-- A number that was read, if it is between 0 and the last one allowed.
abbrev up_to : ℕ → Option ℤ → Option ℕ
up_to last (some (pos n)) = if leb n last then some n else none
up_to last _ = none

parse_parts : List String → Option (ℕ × ℕ)
parse_parts (h ∷ m ∷ []) = do
  hour ← up_to 23 (atoi h)
  minute ← up_to 59 (atoi m)
  some (hour, minute)
parse_parts _ = none

-- "HH:MM" as the hour and the minute; `none` is the error.
unfoldable pub parse_time_of_day : String → Option (ℕ × ℕ)
unfolding parse_parts
parse_time_of_day s = parse_parts (split (trim_space s) b':')

-- The wall clock of an hour and a minute.
abbrev pub wall : ℕ × ℕ → ℕ
wall (hour, mins) = (hour * 60 + mins) * minute

unfoldable pub within_effective_range : Option Time → Option Time → Time → Bool
within_effective_range none none ref = true
within_effective_range (some from) none ref = not (ltb ref from)
within_effective_range none (some to) ref = ltb ref to
within_effective_range (some from) (some to) ref = not (ltb ref from) && ltb ref to

-- `daysBetweenDates(a, b) % every == 0`; Go's remainder is 0 for both signs alike.
abbrev pub aligned : Location → Time → Time → ℕ → Bool
aligned loc a b every =
    nat_eq
      ((if leb (loc.day a) (loc.day b) then loc.day b - loc.day a else loc.day a - loc.day b)
        % every)
      0

-- The loop that walks back from `start` to a day that is aligned with the anchor.
unfoldable pub walk_back : Location → Time → Time → ℕ → ℕ → ℕ → Option Time
walk_back loc anchor start every zero i = none
walk_back loc anchor start every (suc n) i =
    let candidate = days_back loc start i in
    let rest = walk_back loc anchor start every n (suc i) in
    if ltb candidate anchor
    then none
    else if aligned loc anchor candidate every
    then some candidate
    else rest

-- The loop over the last days, with the test for a day that is wanted.
unfoldable pub scan_back : Location → (ℕ → Bool) → ℕ → Time → ℕ → ℕ → Option Time
scan_back loc wanted clock ref zero i = none
scan_back loc wanted clock ref (suc n) i =
    let day = loc.day (days_back loc ref i) in
    let rest = scan_back loc wanted clock ref n (suc i) in
    if not (wanted day)
    then rest
    else if leb (loc.date day clock) ref
    then some (loc.date day clock)
    else rest

unfoldable pub walk_ahead : Location → Time → Time → ℕ → ℕ → ℕ → Option Time
walk_ahead loc anchor start every zero i = none
walk_ahead loc anchor start every (suc n) i =
    let candidate = days_ahead loc start i in
    let rest = walk_ahead loc anchor start every n (suc i) in
    if aligned loc anchor candidate every then some candidate else rest

unfoldable pub scan_ahead : Location → (ℕ → Bool) → ℕ → Time → ℕ → ℕ → Option Time
scan_ahead loc wanted clock ref zero i = none
scan_ahead loc wanted clock ref (suc n) i =
    let day = loc.day (days_ahead loc ref i) in
    let rest = scan_ahead loc wanted clock ref n (suc i) in
    if not (wanted day)
    then rest
    else if ltb ref (loc.date day clock)
    then some (loc.date day clock)
    else rest

abbrev holds : ℕ → ℤ → Bool
holds n (pos m) = nat_eq m n
holds n (negsuc m) = false

-- wanted[int(day.Weekday())] and wanted[day.Day()].
abbrev pub wanted_weekday : List ℤ → ℕ → Bool
wanted_weekday days day = any (holds (weekday day)) days

abbrev pub wanted_month_day : List ℤ → ℕ → Bool
wanted_month_day days day = any (holds (day_of_month day)) days

abbrev pub nonempty {ℓ} : {A : Type ℓ} → List A → Bool
nonempty [] = false
nonempty (_ ∷ _) = true

-- EveryDays, if it is at least 1.
abbrev pub every_days : ℤ → Option ℕ
every_days (pos (suc n)) = some (suc n)
every_days _ = none

abbrev pub guard : Bool → Option (Unit {0})
guard true = some tt
guard false = none

infixl 5 ◌>>◌
abbrev pub ◌>>◌ {ℓ} : {B : Type ℓ} → Option (Unit {0}) → Option B → Option B
m >> k = m >>= λ _. k

-- anchorDay: the day on which the window was created, at the hour of the window.
abbrev pub anchor_day : Location → Window → Time → ℕ → Time
anchor_day loc w ref clock =
    loc.date (loc.day (if nat_eq w.created_at 0 then ref else w.created_at)) clock

-- The day to start from: today, or yesterday where today's hour is still to come.
abbrev pub start_back : Location → Time → ℕ → Time
start_back loc ref clock =
    let today = loc.date (loc.day ref) clock in
    if ltb ref today then days_back loc today 1 else today

unfoldable pub recent_interval : Location → Window → Time → RecurInterval → Option Time
unfolding walk_back
recent_interval loc w ref r = do
  every ← every_days r.every_days
  at ← parse_time_of_day r.time_of_day
  let anchor = anchor_day loc w ref (wall at)
  let start = start_back loc ref (wall at)
  guard (not (ltb start anchor))
  walk_back loc anchor start every every 0

unfoldable pub recent_weekly : Location → Time → RecurWeekly → Option Time
unfolding scan_back
recent_weekly loc ref r = do
  guard (nonempty r.weekdays)
  at ← parse_time_of_day r.time_of_day
  scan_back loc (wanted_weekday r.weekdays) (wall at) ref 8 0

unfoldable pub recent_monthly : Location → Time → RecurMonthly → Option Time
unfolding scan_back
recent_monthly loc ref r = do
  guard (nonempty r.days_of_month)
  at ← parse_time_of_day r.time_of_day
  scan_back loc (wanted_month_day r.days_of_month) (wall at) ref 32 0

abbrev pub start_ahead : Location → Time → Time → ℕ → Time
start_ahead loc anchor ref clock =
    let today = loc.date (loc.day ref) clock in
    let start = if leb today ref then days_ahead loc today 1 else today in
    if ltb start anchor then anchor else start

unfoldable pub next_interval : Location → Window → Time → RecurInterval → Option Time
unfolding walk_ahead
next_interval loc w ref r = do
  every ← every_days r.every_days
  at ← parse_time_of_day r.time_of_day
  let anchor = anchor_day loc w ref (wall at)
  walk_ahead loc anchor (start_ahead loc anchor ref (wall at)) every every 0

unfoldable pub next_weekly : Location → Time → RecurWeekly → Option Time
unfolding scan_ahead
next_weekly loc ref r = do
  guard (nonempty r.weekdays)
  at ← parse_time_of_day r.time_of_day
  scan_ahead loc (wanted_weekday r.weekdays) (wall at) ref 8 0

unfoldable pub next_monthly : Location → Time → RecurMonthly → Option Time
unfolding scan_ahead
next_monthly loc ref r = do
  guard (nonempty r.days_of_month)
  at ← parse_time_of_day r.time_of_day
  scan_ahead loc (wanted_month_day r.days_of_month) (wall at) ref 32 0

-- The forms that a schedule takes; a strategy that is not known has none.
pub data Strategy : Type 0 where
  by_hand once by_cron by_interval by_week by_month unknown : Strategy

-- The `switch w.Strategy`.
unfoldable pub strategy_of : String → Strategy
strategy_of s =
    if s == manual
    then Strategy.by_hand
    else if s == single_strategy
    then Strategy.once
    else if s == cron_strategy
    then Strategy.by_cron
    else if s == interval_strategy
    then Strategy.by_interval
    else if s == weekly_strategy
    then Strategy.by_week
    else if s == monthly_strategy
    then Strategy.by_month
    else Strategy.unknown
