-- ===== src/Calendar.antt =====
-- What the schedules use of Go's `time` and of the cron library. A location is known by its zone
-- rules, which are data outside the repository: it gives each instant a local day and a wall clock,
-- and an instant to a day with a wall clock. Days are counted from 1 January of year 1.
use chowkidar.Prelude.{
  ℕ, ◌+◌, ◌-◌, ◌*◌, ◌/◌, ◌%◌, ◌<◌, ◌≡◌, refl, String, Option, arith, Bool, ℤ, pos, negsuc, ltb, suc,
}
use chowkidar.Model.{Time, second}

abbrev pub day_length : ℕ
day_length = 86400 * second

pub record Location : Type 0 where
  pub day : Time → ℕ
  pub clock : Time → ℕ
  pub date : ℕ → ℕ → Time

-- time.UTC.
abbrev pub utc : Location
utc = record {
  day = λ t. t / day_length;
  clock = λ t. t % day_length;
  date = λ d c. d * day_length + c;
}

-- t.AddDate(0, 0, -n) and t.AddDate(0, 0, n): the same wall clock on another day.
unfoldable pub days_back : Location → Time → ℕ → Time
days_back loc t n = loc.date (loc.day t - n) (loc.clock t)

unfoldable pub days_ahead : Location → Time → ℕ → Time
days_ahead loc t n = loc.date (loc.day t + n) (loc.clock t)

-- t.Weekday(), where 1 January of year 1 was a Monday.
abbrev pub weekday : ℕ → ℕ
weekday day = (day + 1) % 7

-- t.Day() in the Gregorian calendar: years are counted from 1 March, in cycles of 400.
unfoldable pub day_of_month : ℕ → ℕ
day_of_month day =
    let z = day + 306 in
    let doe = z % 146097 in
    let yoe = (doe - doe / 1460 + doe / 36524 - doe / 146096) / 365 in
    let doy = doe - (365 * yoe + yoe / 4 - yoe / 100) in
    let mp = (5 * doy + 2) / 153 in doy - (153 * mp + 2) / 5 + 1

-- What the code relies on outside the repository: the zone database, and gronx for cron
-- expressions (the last tick at or before an instant, the first one after it).
pub record Library : Type 0 where
  pub load_location : String → Option Location
  pub prev_tick_before : String → Location → Time → Option Time
  pub next_tick_after : String → Location → Time → Option Time

-- What holds in a zone whose clock changes stay within one day each, as those of the United States and of
-- Europe do: the day of time.Date is the day that it was asked for, also where the wall clock does not
-- exist or comes twice, and its day and wall clock give the same instant again. An instant as such is
-- not always given by its day and wall clock, since an hour may come twice.
pub record IsRegular (loc : Location) : Type 0 where
  pub day_of_date : (d c : ℕ) → c < day_length → loc.day (loc.date d c) ≡ d
  pub day_order : (t u : Time) → loc.day t < loc.day u → t < u
  pub clock_bound : (t : Time) → loc.clock t < day_length
  pub date_again :
      (d c : ℕ)
      → c < day_length
      → loc.date (loc.day (loc.date d c)) (loc.clock (loc.date d c)) ≡ loc.date d c

pub utc-IsRegular : IsRegular utc
utc-IsRegular = record {
  day_of_date = λ d c h. omega arith;
  day_order = λ t u h. omega arith;
  clock_bound = λ t. omega arith;
  date_again = λ d c h. omega arith;
}

-- A comparison with `start.Add(d)` for a duration `d` of either sign.
abbrev pub before_add : Time → Time → ℤ → Bool
before_add t start (pos n) = ltb t (start + n)
before_add t start (negsuc n) = ltb (t + suc n) start

-- 29 February 2024 is day 738944 and a Thursday.
leap_day : day_of_month 738944 ≡ 29
unfolding day_of_month
leap_day = refl

march_first : day_of_month 738945 ≡ 1
unfolding day_of_month
march_first = refl

leap_weekday : weekday 738944 ≡ 4
leap_weekday = refl
