-- ===== src/Schedule/Lookups.antt =====
-- The lookups of the recurring strategies: the past ones stop at the reference, the coming ones
-- start behind it.
use chowkidar.Prelude.{
  ℕ, ◌≤◌, ◌<◌, ◌≡◌, some, arith, ltb, Bool-cases, Option-cases, inl, inr, String, List, [], ◌∷◌,
  Bool, true, false, if◌then◌else◌, leb,
}
use chowkidar.Text.{split, trim_space}
use chowkidar.Model.{Time, Window, RecurInterval, RecurWeekly, RecurMonthly}
use chowkidar.Calendar.{Location, IsRegular, days_back, days_ahead, day_length}
use chowkidar.Schedule.{
  parse_time_of_day, parse_parts, wall, start_back, start_ahead, anchor_day, every_days,
  wanted_weekday, wanted_month_day, recent_interval, recent_weekly, recent_monthly, next_interval,
  next_weekly, next_monthly,
}
use chowkidar.Schedule.Days.{
  day-days_back, day-days_ahead, walk_back_sound, walk_ahead_sound, scan_back_sound,
  scan_ahead_sound, IsDate, days_back-IsDate, days_ahead-IsDate,
}

-- A wall clock that was read stays within the day.
pub wall-lt : (s : String) {at : ℕ × ℕ} → parse_time_of_day s ≡ some at → wall at < day_length
unfolding parse_time_of_day
wall-lt s {at} h = go (split (trim_space s) b':') h
  where
    go : (parts : List String) → parse_parts parts ≡ some at → wall at < day_length
    go [] e = absurd (ground arith)
    go (a ∷ []) e = absurd (ground arith)
    go (a ∷ b ∷ []) e = ground arith
    go (a ∷ b ∷ c ∷ rest) e = absurd (ground arith)

chosen-IsDate :
    (loc : Location) (regular : IsRegular loc) (c : Bool) (x y : Time)
    → IsDate loc regular x
    → IsDate loc regular y
    → IsDate loc regular (if c then x else y)
chosen-IsDate loc regular true x y h k = h
chosen-IsDate loc regular false x y h k = k

module _ (loc : Location) (regular : IsRegular loc) (ref : Time) (later : 0 < loc.day ref) where
  start_back-le : (clock : ℕ) → clock < day_length → start_back loc ref clock ≤ ref
  start_back-le clock c = elim (Bool-cases (ltb ref (loc.date (loc.day ref) clock))) [
    | inr e ↦ rw e (ground arith)
    | inl e ↦ rw e (
        omega
          (arith, regular.day_order (days_back loc (loc.date (loc.day ref) clock) 1) ref before))
  ]
    where
      before : loc.day (days_back loc (loc.date (loc.day ref) clock) 1) < loc.day ref
      before = omega (
        arith,
        day-days_back loc regular (loc.date (loc.day ref) clock) 1,
        regular.day_of_date (loc.day ref) clock c,
      )

  start_back-IsDate :
      (clock : ℕ) → clock < day_length → IsDate loc regular (start_back loc ref clock)
  start_back-IsDate clock c =
      chosen-IsDate loc regular (ltb ref (loc.date (loc.day ref) clock)) _ _
        (days_back-IsDate loc regular (loc.date (loc.day ref) clock) 1)
        (regular.date_again (loc.day ref) clock c)

  pub recent_interval-le :
      (w : Window) (r : RecurInterval) {s : Time} → recent_interval loc w ref r ≡ some s → s ≤ ref
  unfolding recent_interval
  recent_interval-le w r {s} h = elim (Option-cases (parse_time_of_day r.time_of_day)) [
    | inl e ↦ absurd (ground arith)
    | inr (a, e) ↦ elim (Option-cases (every_days r.every_days)) [
      | inl q ↦ absurd (ground arith)
      | inr (n, q) ↦
          let found =
            walk_back_sound loc regular (anchor_day loc w ref (wall a))
              (start_back loc ref (wall a)) n (start_back-IsDate (wall a) (wall-lt r.time_of_day e))
              n 0 {s = s} in
          ground (arith, found, start_back-le (wall a) (wall-lt r.time_of_day e))
    ]
  ]

module _ (loc : Location) (ref : Time) where
  pub recent_weekly-le : (r : RecurWeekly) {s : Time} → recent_weekly loc ref r ≡ some s → s ≤ ref
  unfolding recent_weekly
  recent_weekly-le r {s} h = elim (Option-cases (parse_time_of_day r.time_of_day)) [
    | inl e ↦ absurd (ground arith)
    | inr (a, e) ↦
        ground (arith, scan_back_sound loc (wanted_weekday r.weekdays) (wall a) ref 8 0 {s = s})
  ]

  pub recent_monthly-le :
      (r : RecurMonthly) {s : Time} → recent_monthly loc ref r ≡ some s → s ≤ ref
  unfolding recent_monthly
  recent_monthly-le r {s} h = elim (Option-cases (parse_time_of_day r.time_of_day)) [
    | inl e ↦ absurd (ground arith)
    | inr (a, e) ↦
        let found =
          scan_back_sound loc (wanted_month_day r.days_of_month) (wall a) ref 32 0 {s = s} in
        ground (arith, found)
  ]

  pub next_weekly-gt : (r : RecurWeekly) {s : Time} → next_weekly loc ref r ≡ some s → ref < s
  unfolding next_weekly
  next_weekly-gt r {s} h = elim (Option-cases (parse_time_of_day r.time_of_day)) [
    | inl e ↦ absurd (ground arith)
    | inr (a, e) ↦
        let found = scan_ahead_sound loc (wanted_weekday r.weekdays) (wall a) ref 8 0 {s = s} in
        ground (arith, found)
  ]

  pub next_monthly-gt : (r : RecurMonthly) {s : Time} → next_monthly loc ref r ≡ some s → ref < s
  unfolding next_monthly
  next_monthly-gt r {s} h = elim (Option-cases (parse_time_of_day r.time_of_day)) [
    | inl e ↦ absurd (ground arith)
    | inr (a, e) ↦
        let found =
          scan_ahead_sound loc (wanted_month_day r.days_of_month) (wall a) ref 32 0 {s = s} in
        ground (arith, found)
  ]

module _ (loc : Location) (regular : IsRegular loc) (ref : Time) where
  tomorrow-gt :
      (clock : ℕ) → clock < day_length → ref < days_ahead loc (loc.date (loc.day ref) clock) 1
  tomorrow-gt clock c = omega (
    arith,
    regular.day_order ref (days_ahead loc (loc.date (loc.day ref) clock) 1),
    day-days_ahead loc regular (loc.date (loc.day ref) clock) 1,
    regular.day_of_date (loc.day ref) clock c,
  )

  start_ahead-gt :
      (anchor : Time) (clock : ℕ) → clock < day_length → ref < start_ahead loc anchor ref clock
  start_ahead-gt anchor clock c = ground (arith, tomorrow-gt clock c)

  start_ahead-IsDate :
      (anchor : Time) (clock : ℕ)
      → clock < day_length
      → IsDate loc regular anchor
      → IsDate loc regular (start_ahead loc anchor ref clock)
  start_ahead-IsDate anchor clock c h =
      let today = loc.date (loc.day ref) clock in
      chosen-IsDate loc regular _ anchor _ h (
        chosen-IsDate loc regular (leb today ref) _ _ (days_ahead-IsDate loc regular today 1)
          (regular.date_again (loc.day ref) clock c))

  pub next_interval-gt :
      (w : Window) (r : RecurInterval) {s : Time} → next_interval loc w ref r ≡ some s → ref < s
  unfolding next_interval
  next_interval-gt w r {s} h = elim (Option-cases (parse_time_of_day r.time_of_day)) [
    | inl e ↦ absurd (ground arith)
    | inr (a, e) ↦ elim (Option-cases (every_days r.every_days)) [
      | inl q ↦ absurd (ground arith)
      | inr (n, q) ↦
          let bound = wall-lt r.time_of_day e in
          let anchor = anchor_day loc w ref (wall a) in
          let found =
            walk_ahead_sound loc regular anchor (start_ahead loc anchor ref (wall a)) n
              (start_ahead-IsDate anchor (wall a) bound (regular.date_again _ (wall a) bound)) n 0
              {s = s} in
          ground (arith, found, start_ahead-gt anchor (wall a) bound)
    ]
  ]
