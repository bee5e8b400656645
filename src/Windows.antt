-- ===== src/Windows.antt =====
-- internal/config/maintenance.go: the validation of a maintenance window, its update and its removal.
-- `lib` is the zone database, `is_cron` is gronx.IsValid. Reading and writing maintenance.yaml is left
-- out: the operations give the windows that are written.
pub mod Valid
pub mod Sorted
pub mod Normal
pub mod Stable
pub mod Handlers
pub mod Spec
pub mod Refine
pub mod Weekly
pub mod Cleanup
pub mod Errors
use chowkidar.Prelude.{
  ℕ, zero, suc, ◌-◌, ◌≡◌, refl, Bool, true, false, ◌&&◌, ◌||◌, not, String, List, [], ◌∷◌, Option,
  none, some, ℤ, pos, negsuc, pos_part, neg_part, ltb, ltb_ℤ, leb_ℤ, nat_eq, ◌==◌, if◌then◌else◌,
  any, is_some,
}
use chowkidar.Prelude.Checks.{Checked, bad, good, ◌>>=◌, ◌>>◌, expect, needed}
use chowkidar.Text.{trim_space, to_lower, is_empty, join, decimal}
use chowkidar.Names.{dedupe_non_empty}
use chowkidar.Model.{
  Time, Window, SingleConfig, CronConfig, RecurInterval, RecurWeekly, RecurMonthly, manual,
  single_strategy, cron_strategy, interval_strategy, weekly_strategy, monthly_strategy,
  allow_finish, force_cancel,
}
use chowkidar.Calendar.{Library}
use chowkidar.Schedule.{
  Strategy, by_hand, once, by_cron, by_interval, by_week, by_month, unknown, strategy_of,
  parse_time_of_day, nonempty,
}
use chowkidar.Table.{row, drop_row, put_row, inherited}
use chowkidar.Jobs.{unix_epoch}

-- The messages of normalizeMaintenanceWindow and of what it calls.
pub data WindowError : Type 0 where
  title_required target_required both_targets timezone_required single_required single_order :
      WindowError
  cron_required interval_required weekday_required month_day_required : WindowError
  every_days_positive duration_required range_order : WindowError
  unsupported_strategy unsupported_on_start invalid_timezone invalid_cron invalid_time :
      String → WindowError
  out_of_range : String → ℤ → WindowError

unfoldable pub default_on_start : String → String
default_on_start s = if is_empty s || s == "cancel-queued" then allow_finish else s

-- The fields as normalizeMaintenanceWindow rewrites them, before it tests them.
unfoldable pub tidied : Window → Window
tidied w = record w {
  title = trim_space w.title;
  description = trim_space w.description;
  strategy = to_lower (trim_space w.strategy);
  timezone = trim_space w.timezone;
  on_start = default_on_start (to_lower (trim_space w.on_start));
  job_ids = dedupe_non_empty w.job_ids;
  docker_host_ids = dedupe_non_empty w.docker_host_ids;
}

unfoldable pub is_supported_strategy : String → Bool
is_supported_strategy s =
    s == manual
    || s == single_strategy
    || s == cron_strategy
    || s == interval_strategy
    || s == weekly_strategy
    || s == monthly_strategy

unfoldable pub is_supported_on_start : String → Bool
is_supported_on_start s = s == allow_finish || s == force_cancel

unfoldable pub require_valid_timezone : Library → String → Checked WindowError (Unit {0})
require_valid_timezone lib zone = do
  expect (not (is_empty zone)) timezone_required
  expect (is_some (lib.load_location zone)) (invalid_timezone zone)

-- `if _, _, err := parseTimeOfDay(s); err != nil { return err }`.
unfoldable pub require_time : String → Checked WindowError (Unit {0})
require_time s = expect (is_some (parse_time_of_day s)) (invalid_time s)

abbrev pub positive : ℤ → Bool
positive n = ltb_ℤ (pos 0) n

abbrev pub same_int : ℤ → ℤ → Bool
same_int a b = nat_eq (pos_part a) (pos_part b) && nat_eq (neg_part a) (neg_part b)

-- The loop of dedupeIntsInRange, with the keys of `seen`.
unfoldable pub distinct_in_range : ℤ → ℤ → String → List ℤ → List ℤ → Checked WindowError (List ℤ)
distinct_in_range min max label seen [] = good []
distinct_in_range min max label seen (n ∷ ns) =
    let rest = distinct_in_range min max label seen ns in
    let fresh = distinct_in_range min max label (n ∷ seen) ns >>= λ out. good (n ∷ out) in
    if ltb_ℤ n min || ltb_ℤ max n
    then bad (out_of_range label n)
    else if any (same_int n) seen
    then rest
    else fresh

-- sort.Ints.
unfoldable pub insert_int : ℤ → List ℤ → List ℤ
insert_int n [] = n ∷ []
insert_int n (m ∷ ms) = let rest = insert_int n ms in if leb_ℤ n m then n ∷ m ∷ ms else m ∷ rest

unfoldable pub sort_ints : List ℤ → List ℤ
unfolding insert_int
sort_ints [] = []
sort_ints (n ∷ ns) = insert_int n (sort_ints ns)

unfoldable pub dedupe_ints_in_range : List ℤ → ℤ → ℤ → String → Checked WindowError (List ℤ)
dedupe_ints_in_range ns min max label = do
  out ← distinct_in_range min max label [] ns
  good (sort_ints out)

-- The window without the fields of any strategy.
abbrev pub bare : Window → Window
bare w = record w {
  single = none;
  cron = none;
  recur_interval = none;
  recur_weekly = none;
  recur_monthly = none;
}

abbrev pub ranged : Option Time → Option Time → Bool
ranged (some from) (some to) = ltb from to
ranged _ _ = true

-- The tests that come before the switch.
unfoldable pub check_targets : Window → Checked WindowError (Unit {0})
check_targets w = do
  expect (not (is_empty w.title)) title_required
  expect (is_supported_strategy w.strategy) (unsupported_strategy w.strategy)
  expect (is_supported_on_start w.on_start) (unsupported_on_start w.on_start)
  expect (nonempty w.job_ids || nonempty w.docker_host_ids) target_required
  expect (not (nonempty w.job_ids && nonempty w.docker_host_ids)) both_targets

unfoldable pub new_maintenance_id : Time → String
new_maintenance_id t = join "maint-" (decimal (t - unix_epoch))

-- The identifier and the times that UpsertMaintenanceWindow gives a validated window.
unfoldable pub stamp_window : Time → Window → Window
unfolding new_maintenance_id
stamp_window now w = record w {
  id = if is_empty w.id then new_maintenance_id now else w.id;
  created_at = if nat_eq w.created_at 0 then now else w.created_at;
  updated_at = now;
}

abbrev pub window_id : Window → String
window_id w = w.id

-- An update keeps the creation time of the window that it replaces.
abbrev pub keep_created : Window → Window → Window
keep_created old new = record new { created_at = old.created_at }

unfoldable pub delete_window : List Window → String → List Window × Bool
delete_window existing id =
    let id' = trim_space id in
    if is_empty id' then (existing, false) else drop_row window_id id' existing

module _ (lib : Library) (is_cron : String → Bool) where
  -- The `switch in.Strategy`: the fields of the one strategy, checked.
  unfoldable pub with_schedule : Strategy → Window → Checked WindowError Window
  with_schedule by_hand w = do require_valid_timezone lib w.timezone; good (bare w)
  with_schedule once w = do
    s ← needed w.single single_required
    expect (ltb s.start s.end) single_order
    good (record (bare w) {
      single = some s;
      timezone = "";
      effective_from = none;
      effective_to = none;
    })
  with_schedule by_cron w = do
    c ← needed w.cron cron_required
    let expression = trim_space c.expression
    expect (is_cron expression) (invalid_cron expression)
    expect (positive c.duration_minutes) duration_required
    require_valid_timezone lib w.timezone
    good (record (bare w) { cron = some (record c { expression = expression }) })
  with_schedule by_interval w = do
    r ← needed w.recur_interval interval_required
    expect (not (ltb_ℤ r.every_days (pos 1))) every_days_positive
    require_time r.time_of_day
    expect (positive r.duration_minutes) duration_required
    require_valid_timezone lib w.timezone
    good (record (bare w) { recur_interval = some r })
  with_schedule by_week w = do
    r ← needed w.recur_weekly weekday_required
    expect (nonempty r.weekdays) weekday_required
    days ← dedupe_ints_in_range r.weekdays (pos 0) (pos 6) "weekday"
    require_time r.time_of_day
    expect (positive r.duration_minutes) duration_required
    require_valid_timezone lib w.timezone
    good (record (bare w) { recur_weekly = some (record r { weekdays = days }) })
  with_schedule by_month w = do
    r ← needed w.recur_monthly month_day_required
    expect (nonempty r.days_of_month) month_day_required
    days ← dedupe_ints_in_range r.days_of_month (pos 1) (pos 31) "day of month"
    require_time r.time_of_day
    expect (positive r.duration_minutes) duration_required
    require_valid_timezone lib w.timezone
    good (record (bare w) { recur_monthly = some (record r { days_of_month = days }) })
  with_schedule unknown w = good (bare w)

  unfoldable pub normalize_window : Window → Checked WindowError Window
  normalize_window w = do
    check_targets (tidied w)
    scheduled ← with_schedule (strategy_of (tidied w).strategy) (tidied w)
    expect (ranged scheduled.effective_from scheduled.effective_to) range_order
    good scheduled

  -- The table, and the saved window.
  unfoldable pub upsert_window :
      List Window → Window → Time → Checked WindowError (List Window × Window)
  upsert_window existing w now = do
    n ← normalize_window w
    let stamped = stamp_window now n
    good (
      put_row window_id keep_created existing stamped,
      inherited keep_created (row window_id stamped.id existing) stamped,
    )

  -- SaveMaintenanceWindows: every window is validated once more; the first error stops it.
  unfoldable pub save_windows : List Window → Checked WindowError (List Window)
  save_windows [] = good []
  save_windows (w ∷ ws) = do n ← normalize_window w; rest ← save_windows ws; good (n ∷ rest)
