-- ===== src/Tests/Zones.antt =====
-- A zone with summer time, as an example of the zones that the schedules rely on: the clock goes from 2:00 to
-- 3:00 on 10 March 2024 and from 2:00 back to 1:00 on 3 November 2024.
use chowkidar.Prelude.{ℕ, ◌+◌, ◌-◌, ◌*◌, ◌/◌, ◌%◌, arith, ltb, if◌then◌else◌}
use chowkidar.Model.{Time, minute}
use chowkidar.Calendar.{Location, IsRegular, day_length}

abbrev hour : ℕ
hour = 60 * minute

abbrev summer : Time
summer = 738954 * day_length + 2 * hour

abbrev winter : Time
winter = 739192 * day_length + hour

abbrev local : Time → ℕ
local t = if ltb t summer then t else if ltb t winter then t + hour else t

abbrev instant : ℕ → Time
instant u = if ltb u (summer + hour) then u else if ltb u (winter + hour) then u - hour else u

abbrev pub eastern : Location
eastern = record {
  day = λ t. local t / day_length;
  clock = λ t. local t % day_length;
  date = λ d c. instant (d * day_length + c);
}

pub eastern-IsRegular : IsRegular eastern
eastern-IsRegular = record {
  day_of_date = λ d c h. ground arith;
  day_order = λ t u h. ground arith;
  clock_bound = λ t. ground arith;
  date_again = λ d c h. ground arith;
}
