-- ===== src/Windows/Valid.antt =====
-- What a stored maintenance window looks like, said without the steps of its validation.
use chowkidar.Prelude.{
  ◌≡◌, Bool, true, false, ◌&&◌, ◌||◌, String, List, [], none, some, ℤ, pos, ltb, is_some, All,
}
use chowkidar.Text.{trim_space, is_empty}
use chowkidar.Names.Laws.{IsClean}
use chowkidar.Model.{Window, SingleConfig, CronConfig, RecurInterval, RecurWeekly, RecurMonthly}
use chowkidar.Calendar.{Library}
use chowkidar.Schedule.{
  Strategy, by_hand, once, by_cron, by_interval, by_week, by_month, unknown, strategy_of,
  parse_time_of_day, nonempty,
}
use chowkidar.Windows.{bare, positive, ranged, is_supported_strategy, is_supported_on_start}
use chowkidar.Windows.Sorted.{IsAscending, IsBetween}

abbrev pub IsZone : Library → String → Type 0
IsZone lib zone = (is_empty zone ≡ false) × (is_some (lib.load_location zone) ≡ true)

-- "HH:MM", and some minutes.
abbrev pub IsTimed : String → ℤ → Type 0
IsTimed time minutes = (is_some (parse_time_of_day time) ≡ true) × (positive minutes ≡ true)

-- A list of days that is not empty, in order, and within bounds.
abbrev pub IsDays : ℤ → ℤ → List ℤ → Type 0
IsDays min max days = (nonempty days ≡ true) × (IsAscending days × All (IsBetween min max) days)

module _ (lib : Library) (is_cron : String → Bool) where
  -- The fields of the strategy are there and make sense; those of the others are not there.
  abbrev pub IsScheduled : Strategy → Window → Type 0
  IsScheduled by_hand w = (w ≡ bare w) × IsZone lib w.timezone
  IsScheduled once w =
      (s : SingleConfig) × (w ≡ record (bare w) {
        single = some s;
        timezone = "";
        effective_from = none;
        effective_to = none;
      })
      × (ltb s.start s.end ≡ true)
  IsScheduled by_cron w =
      (c : CronConfig) × (w ≡ record (bare w) { cron = some c })
      × (trim_space c.expression ≡ c.expression)
      × (is_cron c.expression ≡ true)
      × (positive c.duration_minutes ≡ true)
      × IsZone lib w.timezone
  IsScheduled by_interval w =
      (r : RecurInterval) × (w ≡ record (bare w) { recur_interval = some r })
      × (positive r.every_days ≡ true)
      × IsTimed r.time_of_day r.duration_minutes
      × IsZone lib w.timezone
  IsScheduled by_week w =
      (r : RecurWeekly) × (w ≡ record (bare w) { recur_weekly = some r })
      × IsDays (pos 0) (pos 6) r.weekdays
      × IsTimed r.time_of_day r.duration_minutes
      × IsZone lib w.timezone
  IsScheduled by_month w =
      (r : RecurMonthly) × (w ≡ record (bare w) { recur_monthly = some r })
      × IsDays (pos 1) (pos 31) r.days_of_month
      × IsTimed r.time_of_day r.duration_minutes
      × IsZone lib w.timezone
  IsScheduled unknown w = w ≡ bare w

  pub record IsValidWindow (w : Window) : Type 0 where
    pub titled : (trim_space w.title ≡ w.title) × (is_empty w.title ≡ false)
    pub described : trim_space w.description ≡ w.description
    pub zoned : trim_space w.timezone ≡ w.timezone
    pub known : is_supported_strategy w.strategy ≡ true
    pub on_start_known : is_supported_on_start w.on_start ≡ true
    pub jobs : IsClean [] w.job_ids
    pub hosts : IsClean [] w.docker_host_ids
    pub some_target : (nonempty w.job_ids || nonempty w.docker_host_ids) ≡ true
    pub one_kind : (nonempty w.job_ids && nonempty w.docker_host_ids) ≡ false
    pub scheduled : IsScheduled (strategy_of w.strategy) w
    pub in_range : ranged w.effective_from w.effective_to ≡ true
