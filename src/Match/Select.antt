-- ===== src/Match/Select.antt =====
-- Which job takes a container.
use chowkidar.Prelude.{
  ◌≡◌, ◌⊎◌, ◌↔◌, ◌∙◌, sym, refl, Bool, true, false, ◌&&◌, String, List, [], ◌∷◌, ◌++◌, none, some,
  Assoc, any, select, arith, Bool-cases, Option-cases, inl, inr, ap,
}
use chowkidar.Text.{is_empty}
use chowkidar.Model.{Job, Config, Container}
use chowkidar.Server.{container_name}
use chowkidar.Match.{
  env_passes, job_filters, matches_job, matches_snapshot, is_match, first_match, Inspect, Selection,
  selection_of, global_match, global_selection, has_enabled, has_any_filters, matches_filters,
  select_action_for_container, matching_job_id,
}

abbrev pub takes : Inspect → Container → Job → Bool
takes inspect c j = j.enabled && is_match (matches_job inspect c (job_filters j))

-- The job that is found matches, and no job before it does.
first_match-split :
    (inspect : Inspect) (c : Container) (jobs : List Job) {j : Job}
    → first_match inspect c jobs ≡ some j
    → (before after : List Job) × (jobs ≡ before ++ j ∷ after)
      × (any (takes inspect c) before ≡ false)
      × (takes inspect c j ≡ true)
unfolding first_match
first_match-split inspect c [] h = absurd (ground arith)
first_match-split inspect c (x ∷ xs) {j} h = elim (Bool-cases (takes inspect c x)) [
  | inl e ↦ ([], xs, ground arith, refl, ground arith)
  | inr e ↦
      let (before, after, split, none_before, hit) = first_match-split inspect c xs (rw e at h) in
      (x ∷ before, after, ap (λ (l : List Job). x ∷ l) split, rw (e, none_before), hit)
]

first_match-none :
    (inspect : Inspect) (c : Container) (jobs : List Job)
    → first_match inspect c jobs ≡ none
    → any (takes inspect c) jobs ≡ false
unfolding first_match
first_match-none inspect c [] h = refl
first_match-none inspect c (x ∷ xs) h = elim (Bool-cases (takes inspect c x)) [
  | inl e ↦ absurd (ground arith)
  | inr e ↦ rw (e, first_match-none inspect c xs (rw e at h))
]

first_match-found :
    (inspect : Inspect) (c : Container) (before after : List Job) (j : Job)
    → any (takes inspect c) before ≡ false
    → takes inspect c j ≡ true
    → first_match inspect c (before ++ j ∷ after) ≡ some j
unfolding first_match
first_match-found inspect c [] after j none_before hit = rw hit refl
first_match-found inspect c (x ∷ xs) after j none_before hit =
    ground (arith, first_match-found inspect c xs after j, none_before, hit)

-- Where no job is enabled none takes a container.
disabled-none :
    (inspect : Inspect) (c : Container) (jobs : List Job)
    → has_enabled jobs ≡ false
    → first_match inspect c jobs ≡ none
unfolding first_match
disabled-none inspect c [] h = refl
disabled-none inspect c (x ∷ xs) h = ground (arith, h, disabled-none inspect c xs)

-- The first enabled job whose filters the container passes, or the global filters where no job is enabled.
abbrev pub IsChosen : Inspect → Container → Config → List Job → Selection → Type 0
IsChosen inspect c cfg jobs sel =
    ((j : Job) × (before : List Job) × (after : List Job) × (sel ≡ selection_of j)
      × (jobs ≡ before ++ j ∷ after)
      × (any (takes inspect c) before ≡ false)
      × (takes inspect c j ≡ true))
    ⊎ ((sel ≡ global_selection cfg)
        × (has_enabled jobs ≡ false)
        × (has_any_filters cfg ≡ true)
        × (matches_filters inspect c cfg ≡ true))

chosen :
    (inspect : Inspect) (c : Container) (cfg : Config) (jobs : List Job) {sel : Selection}
    → select_action_for_container inspect c cfg jobs ≡ some sel
    → IsChosen inspect c cfg jobs sel
unfolding select_action_for_container
chosen inspect c cfg jobs {sel} h = elim (Option-cases (first_match inspect c jobs)) [
  | inr (j, e) ↦
      let (before, after, split, none_before, hit) = first_match-split inspect c jobs e in
      inl (j, before, after, ground arith, split, none_before, hit)
  | inl e ↦ inr (ground arith)
]

chooses :
    (inspect : Inspect) (c : Container) (cfg : Config) (jobs : List Job) (sel : Selection)
    → IsChosen inspect c cfg jobs sel
    → select_action_for_container inspect c cfg jobs ≡ some sel
unfolding select_action_for_container global_match
chooses inspect c cfg jobs sel (inl (j, before, after, same, split, none_before, hit)) =
    let found : first_match inspect c jobs ≡ some j =
      ap (first_match inspect c) split
      ∙ first_match-found inspect c before after j none_before hit in
    rw (found, select_action_for_container) (ap some (sym same))
chooses inspect c cfg jobs sel (inr (same, disabled, filters, hit)) =
    rw (disabled-none inspect c jobs disabled, disabled, filters, hit, select_action_for_container)
      (ap some (sym same))

-- A container is taken exactly by the first enabled job whose filters it passes, or, where there is no
-- enabled job at all, by the global filters, if there are any and it passes them; the selection is that
-- job's, or the global one.
pub select_action_first :
    (inspect : Inspect) (c : Container) (cfg : Config) (jobs : List Job) (sel : Selection)
    → (select_action_for_container inspect c cfg jobs ≡ some sel) ↔ IsChosen inspect c cfg jobs sel
select_action_first inspect c cfg jobs sel =
    (chosen inspect c cfg jobs, chooses inspect c cfg jobs sel)

-- Disabled jobs take no part in the choice.
pub select_action_enabled :
    (inspect : Inspect) (c : Container) (cfg : Config) (jobs : List Job)
    → select_action_for_container inspect c cfg (select (λ j. j.enabled) jobs)
      ≡ select_action_for_container inspect c cfg jobs
unfolding select_action_for_container global_match
select_action_enabled inspect c cfg jobs =
    ground (arith, first_match-enabled jobs, has_enabled-enabled jobs)
  where
    first_match-enabled :
        (js : List Job)
        → first_match inspect c (select (λ j. j.enabled) js) ≡ first_match inspect c js
    first_match-enabled [] = refl
    first_match-enabled (x ∷ xs) = unfold first_match in ground (arith, first_match-enabled xs)

    has_enabled-enabled :
        (js : List Job) → has_enabled (select (λ j. j.enabled) js) ≡ has_enabled js
    has_enabled-enabled [] = refl
    has_enabled-enabled (x ∷ xs) = ground (arith, has_enabled-enabled xs)

-- The dashboard's test agrees with the monitor's, if it is given the variables that Docker reports.
pub matches_job-snapshot :
    (inspect : Inspect) (c : Container) (j : Job) (pairs : List String)
    → inspect c.id ≡ some pairs
    → is_match (matches_job inspect c (job_filters j))
      ≡ matches_snapshot (container_name c) c.labels pairs (job_filters j)
unfolding matches_job matches_snapshot env_passes
matches_job-snapshot inspect c j pairs h = ground arith

-- No job with an env filter is ever found for a health pulse, since the search is given no variables:
-- where each enabled job has one, no container gets a pulse.
pub matching_job_id_env :
    (name : String) (labels : Assoc String) (jobs : List Job)
    → any (λ (j : Job). j.enabled && is_empty j.container_env_var_filter) jobs ≡ false
    → matching_job_id name labels jobs ≡ ""
unfolding matching_job_id matches_snapshot env_passes
matching_job_id_env name labels [] h = refl
matching_job_id_env name labels (j ∷ js) h = ground (arith, matching_job_id_env name labels js)
