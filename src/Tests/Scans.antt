-- ===== src/Tests/Scans.antt =====
-- The theorems about scans at concrete inputs.
use chowkidar.Prelude.{
  ℕ, select, pos, suc, ◌+◌, ◌*◌, ◌≤◌, ◌≡◌, ◌↔◌, refl, Bool, false, ◌&&◌, ◌||◌, [], ◌∷◌, ◌++◌, none,
  some, lookup, elem, ltb, leb, if◌then◌else◌, arith, length, inl, inr, ◌⊎◌, any, Memᴰ, String,
  Option, List,
}
use chowkidar.Model.{Time, second, Job}
use chowkidar.Settings.{scan_interval}
use chowkidar.Due.{compute_due_jobs}
use chowkidar.Docker.{retry_docker}
use chowkidar.Docker.Attempts.{retry_docker_first}
use chowkidar.Due.Spacing.{passes, due_spaced}
use chowkidar.Match.{selection_of, select_action_for_container}
use chowkidar.Match.Select.{IsChosen, select_action_first}
use chowkidar.Recovery.{recovered}
use chowkidar.Recovery.Rule.{recovered_rule, recovers_now}
use chowkidar.Recovery.Streak.{streak, wanted, streak_recovers}
use chowkidar.Hosts.{confirmed}
use chowkidar.Hosts.Outage.{outage_notices, outage_told_once}
use chowkidar.Tests.Data.{noon, web, web_job, settings, failed_once}

recovered_rule_example :
    elem "web" (recovered [] noon (("web", failed_once) ∷ []))
    ≡ recovers_now (elem "web" []) noon (lookup "web" (("web", failed_once) ∷ []))
recovered_rule_example = recovered_rule [] noon (("web", failed_once) ∷ []) "web" (refl, tt)

streak_recovers_example : streak ((noon + second) ∷ []) (some failed_once) ≡ (
    if leb (wanted failed_once) (1 + length ((noon + second) ∷ []))
    then none
    else some (record failed_once { stable_scans = 1 + length ((noon + second) ∷ []) }))
streak_recovers_example =
    streak_recovers ((noon + second) ∷ []) failed_once refl refl (omega arith, tt) (omega arith)

-- A pass without the job, ten seconds later.
abbrev passed_between : List (Time × List Job)
passed_between = (noon + 10 * second, []) ∷ []

due_spaced_example : noon + scan_interval web_job ≤ noon + 30 * second
unfolding compute_due_jobs lookup chowkidar.Prelude.insert chowkidar.Prelude.scale passes
due_spaced_example =
    due_spaced noon (noon + 30 * second) (web_job ∷ []) (web_job ∷ []) passed_between [] web_job
      web_job (omega arith, tt) (Memᴰ.head refl) (Memᴰ.head refl) refl

-- The daemon answers from the second attempt on.
second_time : ℕ → Option String
second_time n = if leb 2 n then some "up" else none

retry_docker_first_example : retry_docker settings (λ n. false) second_time ≡ some "up"
unfolding second_time
retry_docker_first_example =
    retry_docker_first (λ n. false) second_time settings 1 "up" (omega arith) (λ i h. refl)
      (λ i h. ground (arith, h)) refl

inspect_web : String → Option (List String)
inspect_web id = some ("MODE=prod" ∷ [])

select_action_first_example :
    (select_action_for_container inspect_web web settings (web_job ∷ [])
      ≡ some (selection_of web_job))
    ↔ IsChosen inspect_web web settings (web_job ∷ []) (selection_of web_job)
select_action_first_example =
    select_action_first inspect_web web settings (web_job ∷ []) (selection_of web_job)

outage_told_once_example :
    outage_notices
      (pos 60)
      ((noon + 30 * second) ∷ (noon + 60 * second) ∷ (noon + 90 * second) ∷ [])
      (record { connected = false; offline_since = noon; notified = false })
    ≡ (if any
          (confirmed (pos 60) noon)
          ((noon + 30 * second) ∷ (noon + 60 * second) ∷ (noon + 90 * second) ∷ [])
        then 1
        else 0)
outage_told_once_example =
    outage_told_once (pos 60) noon
      ((noon + 30 * second) ∷ (noon + 60 * second) ∷ (noon + 90 * second) ∷ []) refl
