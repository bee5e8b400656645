-- ===== src/Tests/Data.antt =====
-- The inputs of the tests.
use chowkidar.Prelude.{◌*◌, ◌+◌, true, false, [], ◌∷◌, none, some, pos}
use chowkidar.Model.{
  Time, second, minute, Job, Config, Window, Container, weekly_strategy, single_strategy,
  force_cancel,
}
use chowkidar.Calendar.{Library, day_length}
use chowkidar.Docker.{Host, healthy}
use chowkidar.Server.{App, Env, ActionJob, CycleState}

-- Thursday, 29 February 2024, at noon.
abbrev pub noon : Time
noon = 738944 * day_length + 12 * 3600 * second

abbrev pub web : Container
web = record { id = "c1"; names = "/web" ∷ []; state = "running"; status = "Up"; labels = [] }

abbrev pub web_job : Job
web_job = record {
  id = "job-1";
  name = "web";
  group = "";
  enabled = true;
  action = "restart";
  script = "";
  notifications = [];
  container_name_filter = "web";
  container_label_filter = "";
  container_env_var_filter = "";
  start_exited = false;
  retry_count = pos 3;
  max_monitoring_duration_minutes = pos 0;
  monitor_interval_seconds = pos 30;
  action_timeout_seconds = pos 20;
  post_action_wait_seconds = pos 60;
  stable_scans_required = pos 2;
  docker_host_id = "";
  docker_host_ids = [];
  health_check_script = "";
  created_at = 1;
  updated_at = 1;
}

abbrev pub settings : Config
settings = record {
  container_name_filter = "";
  container_label_filter = "";
  container_env_var_filter = "";
  action = "restart";
  run_script_path = "/opt/heal.sh";
  start_exited = false;
  require_filter_for_exited = true;
  action_timeout_seconds = pos 15;
  docker_client_retry_count = pos 3;
  docker_ping_timeout_seconds = pos 5;
  notification_cooldown_seconds = pos 300;
}

-- A cron library with a tick every day at midnight, and UTC as the only zone.
abbrev pub midnight : Library
midnight = record {
  load_location = λ name. none;
  prev_tick_before = λ e loc t. none;
  next_tick_after = λ e loc t. some (t + 1);
}

abbrev pub plain_window : Window
plain_window = record {
  id = "w1";
  title = "patch day";
  description = "";
  active = true;
  job_ids = "job-1" ∷ [];
  docker_host_ids = [];
  strategy = single_strategy;
  on_start = force_cancel;
  single = some (record { start = noon; end = noon + 60 * minute });
  cron = none;
  recur_interval = none;
  recur_weekly = none;
  recur_monthly = none;
  timezone = "";
  effective_from = none;
  effective_to = none;
  created_at = 1;
  updated_at = 1;
}

abbrev pub weekly_window : Window
weekly_window = record plain_window {
  id = "w2";
  strategy = weekly_strategy;
  single = none;
  recur_weekly =
      some (record { weekdays = pos 4 ∷ []; time_of_day = "11:30"; duration_minutes = pos 60 });
}

abbrev pub quiet_env : Env
quiet_env = record {
  lib = midnight;
  config = settings;
  jobs = web_job ∷ [];
  windows = [];
  scripts = record { path = "/opt/heal.sh"; enabled = true } ∷ [];
  self_id = "";
  self_name = "chowkidar";
}

abbrev pub fresh : App
fresh = record {
  c_state = [];
  active_jobs = [];
  active_job_cancels = [];
  last_notified = [];
  last_job_scan = [];
  last_job_notifications = [];
  last_job_rule_name = [];
  known_names = [];
  unhealthy = [];
  exited = [];
  restarting = [];
  total_exited = 0;
  last_scan = 0;
  history = some [];
  queue = [];
  notices = [];
}

abbrev pub heal : ActionJob
heal = record {
  docker = none;
  container = web;
  reason = "unhealthy";
  action = "restart";
  script = "";
  notifications = [];
  job_id = "job-1";
  job_name = "web";
  force = false;
  retry_count = 3;
  action_timeout_seconds = pos 20;
  post_action_wait_seconds = pos 60;
}

-- A bucket after a failed action, one stable scan later.
abbrev pub failed_once : CycleState
failed_once = record {
  cycle = 1;
  exhausted = false;
  deadline = noon;
  last_failed = true;
  stable_scans = 1;
  stable_scans_required = pos 2;
}

abbrev pub local_host : Host
local_host = record {
  id = "local";
  expired = λ n. false;
  unhealthy_containers = λ n. some (web ∷ []);
  restarting_containers = λ n. some [];
  exited_containers = λ n. some [];
  starting_containers = λ n. some [];
  running_containers = λ n. some [];
  all_containers = λ n. some (web ∷ []);
  inspect = λ id. some ("MODE=prod" ∷ []);
  health_check = λ j c. healthy;
}
