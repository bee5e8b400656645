-- ===== src/Jobs/Normal.antt =====
-- What normalizeJob accepts, and what it returns.
use chowkidar.Prelude.{
  ◌≡◌, refl, true, false, not, String, [], ◌==◌, arith, text_iff, Bool-cases, inl, inr, ◌↔◌, subst,
}
use chowkidar.Text.{trim_space, to_lower, is_empty}
use chowkidar.Text.Laws.{trim_space_idem}
use chowkidar.Model.{Job}
use chowkidar.Names.Laws.{IsClean, dedupe-IsClean, dedupe_of_IsClean}
use chowkidar.Jobs.{
  Result, ok, require, name_required, unsupported_action, filter_required, cleaned,
  is_supported_action, job_has_any_filter, default_action, normalize_job, ◌>>◌,
}

abbrev IsTrimmed : String → Type 0
IsTrimmed s = trim_space s ≡ s

-- A job as the server stores it.
pub record IsNormal (j : Job) : Type 0 where
  pub named : is_empty j.name ≡ false
  pub supported : is_supported_action j.action ≡ true
  pub filtered : job_has_any_filter j ≡ true
  pub name_trimmed : IsTrimmed j.name
  pub group_trimmed : IsTrimmed j.group
  pub script_trimmed : IsTrimmed j.script
  pub name_filter_trimmed : IsTrimmed j.container_name_filter
  pub label_filter_trimmed : IsTrimmed j.container_label_filter
  pub env_filter_trimmed : IsTrimmed j.container_env_var_filter
  pub health_trimmed : IsTrimmed j.health_check_script
  pub notifications_clean : IsClean [] j.notifications
  pub hosts_clean : IsClean [] j.docker_host_ids
  pub host_id_cleared : j.docker_host_id ≡ ""

-- Lower case and trimming leave the five actions alone.
supported-fixed :
    (s : String) → is_supported_action s ≡ true → default_action (to_lower (trim_space s)) ≡ s
unfolding to_lower trim_space
supported-fixed s h = elim (Bool-cases (s == "restart")) [
  | inl e ↦ rw ((text_iff s _).0 e)
  | inr e₁ ↦ elim (Bool-cases (s == "start")) [
    | inl e ↦ rw ((text_iff s _).0 e)
    | inr e₂ ↦ elim (Bool-cases (s == "stop")) [
      | inl e ↦ rw ((text_iff s _).0 e)
      | inr e₃ ↦ elim (Bool-cases (s == "none")) [
        | inl e ↦ rw ((text_iff s _).0 e)
        | inr e₄ ↦ rw ((text_iff s "run-script").0 (rw (e₁, e₂, e₃, e₄) at h))
      ]
    ]
  ]
]

cleaned_of_IsNormal : (j : Job) → IsNormal j → cleaned j ≡ j
unfolding cleaned
cleaned_of_IsNormal j h = ground (
  arith,
  supported-fixed j.action h.supported,
  dedupe_of_IsClean j.notifications h.notifications_clean,
  dedupe_of_IsClean j.docker_host_ids h.hosts_clean,
)

-- The tests of normalizeJob that `cleaned` passes, and what fixes its fields.
cleaned-IsNormal :
    (j : Job)
    → is_empty (cleaned j).name ≡ false
    → is_supported_action (cleaned j).action ≡ true
    → job_has_any_filter (cleaned j) ≡ true
    → IsNormal (cleaned j)
unfolding cleaned
cleaned-IsNormal j n a f = record {
  named = n;
  supported = a;
  filtered = f;
  name_trimmed = trim_space_idem _;
  group_trimmed = trim_space_idem _;
  script_trimmed = trim_space_idem _;
  name_filter_trimmed = trim_space_idem _;
  label_filter_trimmed = trim_space_idem _;
  env_filter_trimmed = trim_space_idem _;
  health_trimmed = trim_space_idem _;
  notifications_clean = dedupe-IsClean j.notifications;
  hosts_clean = dedupe-IsClean j.docker_host_ids;
  host_id_cleared = refl;
}

-- The three tests in order, with the job cleaned first.
check : Job → Result Job
check n = do
  require (not (is_empty n.name)) name_required
  require (is_supported_action n.action) (unsupported_action n.action)
  require (job_has_any_filter n) filter_required
  ok n

check-ok :
    (m : Job) {n : Job}
    → check m ≡ ok n
    → (m ≡ n)
      × (is_empty m.name ≡ false)
      × (is_supported_action m.action ≡ true)
      × (job_has_any_filter m ≡ true)
unfolding check
check-ok m h = ground arith

normalize-check : (j : Job) → normalize_job j ≡ check (cleaned j)
unfolding check
normalize-check j = unfold normalize_job in refl

-- Whatever job normalizeJob accepts, what it gives is well formed.
pub normalize_job-IsNormal : (j : Job) {n : Job} → normalize_job j ≡ ok n → IsNormal n
normalize_job-IsNormal j {n} h =
    let (e, a, b, c) = check-ok (cleaned j) (rw normalize-check at h) in
    subst IsNormal e (cleaned-IsNormal j a b c)

-- normalizeJob accepts a job and leaves it as it is exactly if it is well formed: named, with a
-- supported action and a filter, and with clean fields.
pub normalize_job_fixed : (n : Job) → (normalize_job n ≡ ok n) ↔ IsNormal n
unfolding check
normalize_job_fixed n =
    (normalize_job-IsNormal n, λ h. rw (normalize-check n, cleaned_of_IsNormal n h) (ground arith))
