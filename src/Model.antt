-- ===== src/Model.antt =====
-- The data that the configuration files and the Docker API hand to the server: internal/config's
-- `Job`, `MaintenanceWindow` and `Config`, and the fields of a container summary that are read.
-- A time is the number of nanoseconds since Go's zero time, so `t.IsZero()` is `t == 0`.
use chowkidar.Prelude.{ℕ, Bool, String, List, Option, Assoc, ℤ, ◌*◌}

abbrev pub Time : Type 0
Time = ℕ

abbrev pub second : ℕ
second = 1000000000

abbrev pub minute : ℕ
minute = 60 * second

pub record Job : Type 0 where
  pub id : String
  pub name : String
  pub group : String
  pub enabled : Bool
  pub action : String
  pub script : String
  pub notifications : List String
  pub container_name_filter : String
  pub container_label_filter : String
  pub container_env_var_filter : String
  pub start_exited : Bool
  pub retry_count : ℤ
  pub max_monitoring_duration_minutes : ℤ
  pub monitor_interval_seconds : ℤ
  pub action_timeout_seconds : ℤ
  pub post_action_wait_seconds : ℤ
  pub stable_scans_required : ℤ
  pub docker_host_id : String
  pub docker_host_ids : List String
  pub health_check_script : String
  pub created_at : Time
  pub updated_at : Time

-- The settings that the monitor and the actions read.
pub record Config : Type 0 where
  pub container_name_filter : String
  pub container_label_filter : String
  pub container_env_var_filter : String
  pub action : String
  pub run_script_path : String
  pub start_exited : Bool
  pub require_filter_for_exited : Bool
  pub action_timeout_seconds : ℤ
  pub docker_client_retry_count : ℤ
  pub docker_ping_timeout_seconds : ℤ
  pub notification_cooldown_seconds : ℤ

pub record SingleConfig : Type 0 where
  pub start : Time
  pub end : Time

pub record CronConfig : Type 0 where
  pub expression : String
  pub duration_minutes : ℤ

pub record RecurInterval : Type 0 where
  pub every_days : ℤ
  pub time_of_day : String
  pub duration_minutes : ℤ

pub record RecurWeekly : Type 0 where
  pub weekdays : List ℤ
  pub time_of_day : String
  pub duration_minutes : ℤ

pub record RecurMonthly : Type 0 where
  pub days_of_month : List ℤ
  pub time_of_day : String
  pub duration_minutes : ℤ

pub record Window : Type 0 where
  pub id : String
  pub title : String
  pub description : String
  pub active : Bool
  pub job_ids : List String
  pub docker_host_ids : List String
  pub strategy : String
  pub on_start : String
  pub single : Option SingleConfig
  pub cron : Option CronConfig
  pub recur_interval : Option RecurInterval
  pub recur_weekly : Option RecurWeekly
  pub recur_monthly : Option RecurMonthly
  pub timezone : String
  pub effective_from : Option Time
  pub effective_to : Option Time
  pub created_at : Time
  pub updated_at : Time

-- The values of the constants MaintenanceStrategy… and MaintenanceOnStart….
abbrev pub manual : String
manual = "manual"

abbrev pub single_strategy : String
single_strategy = "single"

abbrev pub cron_strategy : String
cron_strategy = "cron"

abbrev pub interval_strategy : String
interval_strategy = "recur-interval"

abbrev pub weekly_strategy : String
weekly_strategy = "recur-day-of-week"

abbrev pub monthly_strategy : String
monthly_strategy = "recur-day-of-month"

abbrev pub allow_finish : String
allow_finish = "allow-finish"

abbrev pub force_cancel : String
force_cancel = "force-cancel"

-- A container as the Docker API lists it.
pub record Container : Type 0 where
  pub id : String
  pub names : List String
  pub state : String
  pub status : String
  pub labels : Assoc String
