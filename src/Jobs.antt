-- ===== src/Jobs.antt =====
-- internal/config/jobs.go: the monitoring rules, their validation, migration, update and removal.
-- Reading and writing jobs.yaml is left out: the operations give the jobs that are written.
pub mod Normal
pub mod Table
pub mod Migration
pub mod Lists
use chowkidar.Prelude.{
  ℕ, ◌-◌, Bool, true, false, ◌&&◌, ◌||◌, not, String, List, [], ◌∷◌, ◌++◌, if◌then◌else◌, ◌==◌,
  length, nat_eq, leb,
}
use chowkidar.Text.{trim_space, to_lower, is_empty, join, has_prefix, trim_prefix, decimal}
use chowkidar.Model.{Time, Job}
use chowkidar.Names.{dedupe_non_empty}

-- The messages of normalizeJob.
pub data JobError : Type 0 where
  name_required : JobError
  unsupported_action : String → JobError
  filter_required : JobError

pub data Result (A : Type 0) : Type 0 where
  ok : A → Result A
  err : JobError → Result A

-- `if !test { return err }`.
abbrev pub require : Bool → JobError → Result (Unit {0})
require false message = err message
require true message = ok tt

infixl 5 ◌>>=◌ ◌>>◌
abbrev pub ◌>>=◌ : {A B : Type 0} → Result A → (A → Result B) → Result B
err message >>= next = err message
ok value >>= next = next value

abbrev pub ◌>>◌ : {B : Type 0} → Result (Unit {0}) → Result B → Result B
err message >> result = err message
ok value >> result = result

abbrev pub is_supported_action : String → Bool
is_supported_action action =
    action == "restart"
    || action == "start"
    || action == "stop"
    || action == "none"
    || action == "run-script"

abbrev pub job_has_any_filter : Job → Bool
job_has_any_filter j =
    not (is_empty j.container_name_filter)
    || not (is_empty j.container_label_filter)
    || not (is_empty j.container_env_var_filter)

abbrev pub default_action : String → String
default_action action = if is_empty action then "restart" else action

-- The fields as normalizeJob rewrites them, before it tests them.
unfoldable pub cleaned : Job → Job
cleaned j = record j {
  name = trim_space j.name;
  group = trim_space j.group;
  action = default_action (to_lower (trim_space j.action));
  script = trim_space j.script;
  notifications = dedupe_non_empty j.notifications;
  container_name_filter = trim_space j.container_name_filter;
  container_label_filter = trim_space j.container_label_filter;
  container_env_var_filter = trim_space j.container_env_var_filter;
  health_check_script = trim_space j.health_check_script;
  docker_host_id = "";
  docker_host_ids = dedupe_non_empty j.docker_host_ids;
}

unfoldable pub normalize_job : Job → Result Job
unfolding cleaned
normalize_job j = do
  let n = cleaned j
  require (not (is_empty n.name)) name_required
  require (is_supported_action n.action) (unsupported_action n.action)
  require (job_has_any_filter n) filter_required
  ok n

-- The nanoseconds from Go's zero time to the Unix epoch.
abbrev pub unix_epoch : ℕ
unix_epoch = 62135596800000000000

unfoldable pub new_job_id : Time → String
new_job_id t = join "job-" (decimal (t - unix_epoch))

-- The loop of UpsertJob: the first job with the id gives way, and keeps its creation time.
unfoldable pub replace : List Job → Job → List Job
replace [] n = n ∷ []
replace (j ∷ js) n =
    let rest = replace js n in
    if j.id == n.id then record n { created_at = j.created_at } ∷ js else j ∷ rest

-- The saved job: the new one, with the creation time of the job that it replaces.
unfoldable pub saved : List Job → Job → Job
saved [] n = n
saved (j ∷ js) n =
    let rest = saved js n in if j.id == n.id then record n { created_at = j.created_at } else rest

-- The identifier and the times that UpsertJob gives a validated job.
unfoldable pub stamp : Time → Job → Job
unfolding new_job_id
stamp now n = record n {
  id = if is_empty n.id then new_job_id now else n.id;
  created_at = if nat_eq n.created_at 0 then now else n.created_at;
  updated_at = now;
}

unfoldable pub upsert_job : List Job → Job → Time → Result (List Job × Job)
unfolding normalize_job stamp replace saved
upsert_job existing j now = do
  n ← normalize_job j
  ok (replace existing (stamp now n), saved existing (stamp now n))

-- The loop of DeleteJob.
unfoldable pub without : String → List Job → List Job × Bool
without id [] = ([], false)
without id (j ∷ js) =
    let (out, removed) = without id js in if j.id == id then (out, true) else (j ∷ out, removed)

unfoldable pub delete_job : List Job → String → List Job × Bool
unfolding without
delete_job existing id =
    let id' = trim_space id in if is_empty id' then (existing, false) else without id' existing

-- migrateJobs, v0 to v1, for one job; the flag says whether it changed.
unfoldable pub migrate_id : Job → Job × Bool
migrate_id j =
    if has_prefix j.id "rule-"
    then (record j { id = join "job-" (trim_prefix j.id "rule-") }, true)
    else (j, false)

abbrev pub no_hosts : List String → Bool
no_hosts [] = true
no_hosts (_ ∷ _) = false

-- migrateJobs, v1 to v2, for one job.
unfoldable pub migrate_host : Job → Job × Bool
migrate_host j =
    if not (is_empty j.docker_host_id) && no_hosts j.docker_host_ids
    then (record j { docker_host_id = ""; docker_host_ids = j.docker_host_id ∷ [] }, true)
    else (record j { docker_host_id = "" }, false)

unfoldable pub migrate_each : (Job → Job × Bool) → List Job → Bool × List Job
migrate_each f [] = (false, [])
migrate_each f (j ∷ js) =
    let (changed, out) = migrate_each f js in ((f j).1 || changed, (f j).0 ∷ out)

-- A file of a version below 0 is one of version 0.
unfoldable pub migrate_jobs : ℕ → List Job → Bool × List Job
unfolding migrate_id migrate_host migrate_each
migrate_jobs version jobs =
    let (first, renamed) = if leb 1 version then (false, jobs) else migrate_each migrate_id jobs in
    let (second, moved) =
      if leb 2 version then (false, renamed) else migrate_each migrate_host renamed in
    (first || second, moved)
