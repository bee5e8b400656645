-- ===== src/Tests/Tables.antt =====
-- The theorems about the table of jobs at concrete inputs.
use chowkidar.Prelude.{◌≡◌, refl, true, [], ◌∷◌}
use chowkidar.Text.{trim_space, is_empty}
use chowkidar.Model.{Job}
use chowkidar.Names.{dedupe_non_empty}
use chowkidar.Jobs.{normalize_job, upsert_job, delete_job}
use chowkidar.Jobs.Normal.{IsNormal, normalize_job-IsNormal}
use chowkidar.Jobs.Table.{delete_job-upsert_job}
use chowkidar.Jobs.Lists.{JobQuery, list_jobs, page_of, is_wanted, list_jobs-select}
use chowkidar.Prelude.{length, select}
use chowkidar.Tests.Data.{web_job}

normalize_job-IsNormal_example : IsNormal web_job
unfolding normalize_job trim_space chowkidar.Text.to_lower dedupe_non_empty
normalize_job-IsNormal_example = normalize_job-IsNormal (record web_job { name = " web " }) refl

other_job : Job
other_job = record web_job { id = "job-2"; name = "db" }

renamed : Job
renamed = record web_job { name = "api" }

stored : Job
stored = record renamed { updated_at = 7 }

added : Job
added = record other_job { created_at = 7; updated_at = 7 }

delete_job-upsert_job_example : delete_job (web_job ∷ added ∷ []) "job-2" ≡ (web_job ∷ [], true)
unfolding upsert_job trim_space other_job chowkidar.Text.to_lower added dedupe_non_empty
delete_job-upsert_job_example =
    delete_job-upsert_job (web_job ∷ []) (record other_job { created_at = 0 }) 7 refl refl refl refl

old_job : Job
old_job = record web_job { id = "rule-1"; docker_host_id = "h1" }

abbrev second_page : JobQuery
second_page = record {
  text = " WEB ";
  action = "";
  enabled = "true";
  group = "";
  host_id = "";
  limit = "1";
  offset = "1";
}

list_jobs-select_example :
    ((list_jobs (web_job ∷ added ∷ []) second_page).0
      ≡ page_of 1 1 (select (is_wanted second_page) (web_job ∷ added ∷ [])))
    × ((list_jobs (web_job ∷ added ∷ []) second_page).1
        ≡ length (select (is_wanted second_page) (web_job ∷ added ∷ [])))
unfolding chowkidar.Text.atoi chowkidar.Text.to_lower trim_space
list_jobs-select_example = list_jobs-select (web_job ∷ added ∷ []) second_page
