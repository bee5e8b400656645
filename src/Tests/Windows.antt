-- ===== src/Tests/Windows.antt =====
-- The theorems about maintenance windows at concrete inputs.
use chowkidar.Prelude.{
  ◌+◌, ◌-◌, ◌*◌, ◌<◌, ◌≡◌, refl, true, some, ◌&&◌, not, String, ◌==◌, List, [], ◌∷◌, is_some,
  lookup, any, arith,
}
use chowkidar.Model.{Time, second, minute, Window, force_cancel, allow_finish}
use chowkidar.Calendar.{Library}
use chowkidar.Tests.Zones.{eastern, eastern-IsRegular}
use chowkidar.Schedule.{recent_weekly, recent_monthly, strategy_of, by_hand}
use chowkidar.Occurrence.{
  is_active, next_occurrence, last_occurrence, location, active_maintenance_windows,
}
use chowkidar.Occurrence.Past.{IsCron}
use chowkidar.Occurrence.Future.{next_occurrence-gt}
use chowkidar.Pause.{job_paused, compute_maintenance_pause, on_start_for}
use chowkidar.Pause.Spec.{covers, job_paused-compute}
use chowkidar.Pause.Strength.{some_window, on_start_for-some_window}
use chowkidar.Transitions.{State, check_maintenance_transitions}
use chowkidar.Transitions.Edges.{is_among, has_edge, new_edges_exact}
use chowkidar.Tests.Data.{noon, midnight, plain_window, weekly_window, web_job}

-- Every zone is the one with summer time.
abbrev eastern_only : Library
eastern_only = record midnight { load_location = λ name. some eastern }

eastern_only-IsCron : IsCron eastern_only
eastern_only-IsCron = record {
  prev_bound = λ e loc t s h. absurd (cc);
  next_bound = λ e loc t s h. ground (arith, h);
}

next_occurrence-gt_example :
    (noon < noon + 7 * 86400 * second - 30 * minute) × (weekly_window.active ≡ true)
unfolding next_occurrence strategy_of chowkidar.Occurrence.first_occurrence_after
    chowkidar.Schedule.next_weekly chowkidar.Schedule.parse_time_of_day chowkidar.Text.split
    chowkidar.Text.trim_space chowkidar.Text.atoi chowkidar.Calendar.days_ahead
    chowkidar.Schedule.within_effective_range
next_occurrence-gt_example =
    next_occurrence-gt eastern_only weekly_window noon eastern_only-IsCron eastern-IsRegular refl

two_windows : List Window
two_windows = plain_window ∷ weekly_window ∷ []

job_paused-compute_example :
    job_paused (compute_maintenance_pause midnight two_windows (web_job ∷ []) noon) "job-1"
    ≡ any (λ w. is_active midnight w noon && covers (web_job ∷ []) w "job-1") two_windows
job_paused-compute_example = job_paused-compute midnight two_windows (web_job ∷ []) noon "job-1"

abbrev governing : String
governing =
    on_start_for (compute_maintenance_pause midnight two_windows (web_job ∷ []) noon) "job-1"

on_start_for-some_window_example :
    ((governing == force_cancel)
      ≡ some_window
          (web_job ∷ [])
          "job-1"
          force_cancel
          (active_maintenance_windows midnight two_windows noon))
    × ((governing == allow_finish) ≡ (
        some_window
          (web_job ∷ [])
          "job-1"
          allow_finish
          (active_maintenance_windows midnight two_windows noon)
        && not (
            some_window
              (web_job ∷ [])
              "job-1"
              force_cancel
              (active_maintenance_windows midnight two_windows noon))))
on_start_for-some_window_example =
    on_start_for-some_window midnight two_windows (web_job ∷ []) noon "job-1" refl

a_day_later : Time
a_day_later = noon + 86400 * second

before : State
before = record { active_ids = ("w0", "old") ∷ []; transitions = [] }

new_edges_exact_example :
    let s' = (check_maintenance_transitions (plain_window ∷ []) noon before).0 in
    let was = is_some (lookup "w1" before.active_ids) in
    (is_some (lookup "w1" s'.active_ids) ≡ is_among (plain_window ∷ []) "w1")
    × (has_edge noon "started" "w1" s'.transitions ≡ (is_among (plain_window ∷ []) "w1" && not was))
    × (has_edge noon "ended" "w1" s'.transitions ≡ (was && not (is_among (plain_window ∷ []) "w1")))
unfolding before
new_edges_exact_example = new_edges_exact (plain_window ∷ []) noon before "w1" refl refl
