-- ===== src/Match.antt =====
-- cmd/server/monitor.go and util.go: which job, or which global filter, takes a container. The env
-- variables come from Docker's inspect call, which may fail: `inspect id` is `none` for an error.
pub mod Select
use chowkidar.Prelude.{
  ℕ, Bool, true, false, ◌&&◌, ◌||◌, not, String, List, [], ◌∷◌, Option, none, some, Assoc, ◌==◌,
  if◌then◌else◌, any, select, map,
}
use chowkidar.Text.{trim_space, contains, split, is_empty, join, has_prefix}
use chowkidar.Model.{Job, Config, Container}
use chowkidar.Server.{Env, container_name}

-- splitCSV.
unfoldable pub split_csv : String → List String
split_csv s = select (λ p. not (is_empty p)) (map trim_space (split s b','))

-- A filter that is not set lets everything pass.
unfoldable pub name_passes : String → String → Bool
name_passes name filter = is_empty filter || any (λ x. contains name x) (split_csv filter)

unfoldable pub label_passes : Assoc String → String → Bool
label_passes labels filter =
    is_empty filter
    || any (λ (l : String × String). contains (join l.0 (join "=" l.1)) filter) labels

-- jobMatchesServiceSnapshot tests the pairs themselves, dockerhealth.ContainerHasEnvVar those that
-- Docker reports.
unfoldable pub env_passes : List String → String → Bool
env_passes pairs filter = is_empty filter || any (λ e. contains e filter) pairs

-- The three filters of a job or of the settings.
pub record Filters : Type 0 where
  pub name : String
  pub label : String
  pub env_var : String

abbrev pub job_filters : Job → Filters
job_filters j = record {
  name = j.container_name_filter;
  label = j.container_label_filter;
  env_var = j.container_env_var_filter;
}

abbrev pub config_filters : Config → Filters
config_filters c = record {
  name = c.container_name_filter;
  label = c.container_label_filter;
  env_var = c.container_env_var_filter;
}

-- jobMatchesServiceSnapshot and matchesConfigFiltersSnapshot.
unfoldable pub matches_snapshot : String → Assoc String → List String → Filters → Bool
matches_snapshot name labels pairs f =
    name_passes name f.name && label_passes labels f.label && env_passes pairs f.env_var

abbrev pub Inspect : Type 0
Inspect = String → Option (List String)

env_check : Option (List String) → String → Option Bool
env_check none filter = none
env_check (some pairs) filter = some (env_passes pairs filter)

-- matchesJob: `none` is the error of the inspect call, which is made for the env filter alone.
unfoldable pub matches_job : Inspect → Container → Filters → Option Bool
unfolding env_check
matches_job inspect c f =
    if not (name_passes (container_name c) f.name)
    then some false
    else if not (label_passes c.labels f.label)
    then some false
    else if is_empty f.env_var
    then some true
    else env_check (inspect c.id) f.env_var

abbrev pub is_match : Option Bool → Bool
is_match (some true) = true
is_match _ = false

-- matchesFilters.
unfoldable pub matches_filters : Inspect → Container → Config → Bool
matches_filters inspect c cfg = is_match (matches_job inspect c (config_filters cfg))

abbrev pub is_set : String → Bool
is_set s = not (is_empty (trim_space s))

abbrev pub some_set : Filters → Bool
some_set f = is_set f.name || is_set f.label || is_set f.env_var

abbrev pub has_any_filters : Config → Bool
has_any_filters cfg = some_set (config_filters cfg)

abbrev pub has_any_job_filters : List Job → Bool
has_any_job_filters = any (λ (j : Job). some_set (job_filters j))

-- jobSelection with `ok` set; a match of the global filters has no job.
pub record Selection : Type 0 where
  pub action : String
  pub script : String
  pub notifications : List String
  pub job_id : String
  pub job_name : String
  pub job : Option Job

abbrev pub selection_of : Job → Selection
selection_of j = record {
  action = j.action;
  script = j.script;
  notifications = j.notifications;
  job_id = j.id;
  job_name = j.name;
  job = some j;
}

abbrev pub global_selection : Config → Selection
global_selection cfg = record {
  action = cfg.action;
  script = "";
  notifications = [];
  job_id = "";
  job_name = "global-config";
  job = none;
}

-- The loop of selectActionForContainer: the first enabled job that matches; an error is passed over.
unfoldable pub first_match : Inspect → Container → List Job → Option Job
first_match inspect c [] = none
first_match inspect c (j ∷ js) =
    let rest = first_match inspect c js in
    if j.enabled && is_match (matches_job inspect c (job_filters j)) then some j else rest

abbrev pub has_enabled : List Job → Bool
has_enabled = any (λ (j : Job). j.enabled)

unfoldable pub global_match : Inspect → Container → Config → List Job → Option Selection
global_match inspect c cfg jobs =
    if not (has_enabled jobs) && has_any_filters cfg && matches_filters inspect c cfg
    then some (global_selection cfg)
    else none

unfoldable pub select_action_for_container :
    Inspect → Container → Config → List Job → Option Selection
unfolding first_match global_match
select_action_for_container inspect c cfg jobs = elim (first_match inspect c jobs) [
  | some j ↦ some (selection_of j)
  | none ↦ global_match inspect c cfg jobs
]

-- shouldStartExitedContainer.
unfoldable pub should_start_exited_container : Inspect → Container → Config → List Job → Bool
should_start_exited_container inspect c cfg jobs =
    any
      (λ (j : Job). j.enabled && j.start_exited && is_match (matches_job inspect c (job_filters j)))
      jobs
    || (cfg.start_exited && has_any_filters cfg && matches_filters inspect c cfg)

-- matchingJobID, with "" where no job matches; the env pairs are not looked at.
unfoldable pub matching_job_id : String → Assoc String → List Job → String
matching_job_id name labels [] = ""
matching_job_id name labels (j ∷ js) =
    let rest = matching_job_id name labels js in
    if j.enabled && matches_snapshot name labels [] (job_filters j) then j.id else rest

-- isSelfContainer.
unfoldable pub is_self_container : Env → Container → Bool
is_self_container env c =
    (not (is_empty env.self_id) && has_prefix c.id env.self_id)
    || (not (is_empty env.self_name) && container_name c == env.self_name)
