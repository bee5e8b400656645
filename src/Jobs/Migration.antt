-- ===== src/Jobs/Migration.antt =====
-- A migration leaves nothing to migrate.
use chowkidar.Prelude.{
  ℕ, ◌≡◌, refl, Bool, false, String, List, [], ◌∷◌, arith, Bool-cases, inl, inr, ap, All,
}
use chowkidar.Text.{is_empty, has_prefix, join}
use text.Mathlib.TextLemmas.{cons-append}
use chowkidar.Model.{Job}
use chowkidar.Jobs.{migrate_id, migrate_host, migrate_each, migrate_jobs}

-- A job of the current version.
pub record IsCurrent (j : Job) : Type 0 where
  pub renamed : has_prefix j.id "rule-" ≡ false
  pub moved : j.docker_host_id ≡ ""

job-ne-rule : (s : String) → has_prefix (join "job-" s) "rule-" ≡ false
unfolding has_prefix
job-ne-rule s = rw (cons-append "j" "ob-" s)

migrate_id-renamed : (j : Job) → has_prefix (migrate_id j).0.id "rule-" ≡ false
unfolding migrate_id
migrate_id-renamed j = elim (Bool-cases (has_prefix j.id "rule-")) [
  | inl e ↦ rw e (job-ne-rule _)
  | inr e ↦ rw e e
]

migrate_host-keeps :
    (j : Job) → ((migrate_host j).0.id ≡ j.id) × ((migrate_host j).0.docker_host_id ≡ "")
unfolding migrate_host
migrate_host-keeps j = ground arith

migrate-IsCurrent :
    (jobs : List Job) → All IsCurrent (migrate_each migrate_host (migrate_each migrate_id jobs).1).1
unfolding migrate_each
migrate-IsCurrent [] = tt
migrate-IsCurrent (j ∷ js) =
    let (same, gone) = migrate_host-keeps (migrate_id j).0 in
    (record { renamed = rw same (migrate_id-renamed j); moved = gone }, migrate-IsCurrent js)

migrate_id-same : (j : Job) → IsCurrent j → migrate_id j ≡ (j, false)
unfolding migrate_id
migrate_id-same j h = rw h.renamed

migrate_host-same : (j : Job) → IsCurrent j → migrate_host j ≡ (j, false)
unfolding migrate_host
migrate_host-same j h = ground (arith, ap is_empty h.moved)

migrate_each-same :
    (f : Job → Job × Bool)
    → ((j : Job) → IsCurrent j → f j ≡ (j, false))
    → (jobs : List Job) → All IsCurrent jobs
    → migrate_each f jobs ≡ (false, jobs)
unfolding migrate_each
migrate_each-same f same [] h = refl
migrate_each-same f same (j ∷ js) (h, hs) = rw (same j h, migrate_each-same f same js hs)

-- Jobs of the current version are left alone, whatever version the file claims, and no change is reported.
pub migrate_jobs_current :
    (version : ℕ) (jobs : List Job) → All IsCurrent jobs → migrate_jobs version jobs ≡ (false, jobs)
unfolding migrate_jobs
migrate_jobs_current version jobs h = ground (
  arith,
  migrate_each-same migrate_id migrate_id-same jobs h,
  migrate_each-same migrate_host migrate_host-same jobs h,
)

pub migrate_jobs-IsCurrent : (jobs : List Job) → All IsCurrent (migrate_jobs 0 jobs).1
unfolding migrate_jobs
migrate_jobs-IsCurrent jobs = migrate-IsCurrent jobs

-- What the migration from version 0 gives holds no old identifier and no single host any more, and
-- a second migration, from any version, changes nothing and reports no change.
pub migrate_jobs_twice :
    (version : ℕ) (jobs : List Job)
    → let moved = (migrate_jobs 0 jobs).1 in
      All IsCurrent moved × (migrate_jobs version moved ≡ (false, moved))
migrate_jobs_twice version jobs =
    (migrate_jobs-IsCurrent jobs, migrate_jobs_current version _ (migrate_jobs-IsCurrent jobs))
