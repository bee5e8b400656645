-- ===== src/Jobs/Lists.antt =====
-- cmd/server/util.go, filterJobsList and paginateJobsList, as handleJobs of cmd/server/handlers.go calls
-- them: the jobs that a search finds, a page at a time.
use chowkidar.Prelude.{
  ℕ, zero, suc, ◌≡◌, ◌≤◌, elem, text_iff, refl, Bool, true, false, ◌&&◌, ◌||◌, not, String, List,
  [], ◌∷◌, Option, none, some, ℤ, pos, negsuc, length, select, take, drop, any, ltb, leb, nat_eq,
  ◌==◌, if◌then◌else◌, arith, Bool-cases, inl, inr, ap, ◌∙◌, sym,
}
use chowkidar.Text.{trim_space, to_lower, is_empty, join, contains, atoi}
use chowkidar.Model.{Job}
use chowkidar.Jobs.{no_hosts}

-- The parameters of the query.
pub record JobQuery : Type 0 where
  pub text : String
  pub action : String
  pub enabled : String
  pub group : String
  pub host_id : String
  pub limit : String
  pub offset : String

abbrev pub haystack : Job → String
haystack j = to_lower (
    join j.name (
      join " " (
        join j.group (
          join " " (
            join j.action (
              join " " (
                join j.container_name_filter (
                  join " "
                    (join j.container_label_filter (join " " j.container_env_var_filter))))))))))

-- jobMatchesFilters, for the parameters as filterJobsList tidies them.
unfoldable pub job_matches_filters : Job → JobQuery → Bool
job_matches_filters j f =
    (is_empty f.action || to_lower j.action == f.action)
    && not (f.enabled == "true" && not j.enabled)
    && not (f.enabled == "false" && j.enabled)
    && (is_empty f.group || to_lower (trim_space j.group) == f.group)
    && (is_empty f.host_id
        || no_hosts j.docker_host_ids
        || any (λ id. id == f.host_id) j.docker_host_ids)
    && (is_empty f.text || contains (haystack j) f.text)

abbrev pub tidied_query : JobQuery → JobQuery
tidied_query q = record q {
  text = to_lower (trim_space q.text);
  action = to_lower (trim_space q.action);
  enabled = to_lower (trim_space q.enabled);
  group = to_lower (trim_space q.group);
  host_id = trim_space q.host_id;
}

abbrev pub finds_all : JobQuery → Bool
finds_all f =
    is_empty f.text
    && is_empty f.action
    && is_empty f.enabled
    && is_empty f.group
    && is_empty f.host_id

unfoldable pub filter_jobs_list : List Job → JobQuery → List Job
unfolding job_matches_filters
filter_jobs_list jobs q =
    let found = select (λ j. job_matches_filters j (tidied_query q)) jobs in
    if finds_all (tidied_query q) then jobs else found

-- A number from the query that is not negative; any other text counts as 0.
abbrev pub counted : Option ℤ → ℕ
counted none = 0
counted (some (pos n)) = n
counted (some (negsuc n)) = 0

unfoldable pub paginate_jobs_list : List Job → JobQuery → List Job
paginate_jobs_list jobs q =
    let limit = counted (atoi (trim_space q.limit)) in
    let offset = counted (atoi (trim_space q.offset)) in
    let rest = drop offset jobs in
    if nat_eq offset 0 && nat_eq limit 0
    then jobs
    else if leb (length jobs) offset
    then []
    else if ltb 0 limit && ltb limit (length rest)
    then take limit rest
    else rest

-- The answer of handleJobs to GET: the jobs of the page, and how many were found.
unfoldable pub list_jobs : List Job → JobQuery → List Job × ℕ
unfolding filter_jobs_list paginate_jobs_list
list_jobs jobs q = let found = filter_jobs_list jobs q in (paginate_jobs_list found q, length found)

-- The page that was asked for: `limit` elements behind the first `offset`, or all of them for the limit 0.
abbrev pub page_of : {A : Type 0} → ℕ → ℕ → List A → List A
page_of zero offset xs = drop offset xs
page_of (suc l) offset xs = take (suc l) (drop offset xs)

drop-all : {A : Type 0} (n : ℕ) (xs : List A) → length xs ≤ n → drop n xs ≡ []
drop-all zero [] h = refl
drop-all zero (x ∷ xs) h = absurd (omega (arith, h))
drop-all (suc n) [] h = refl
drop-all (suc n) (x ∷ xs) h = drop-all n xs (omega (arith, h))

take-all : {A : Type 0} (n : ℕ) (xs : List A) → length xs ≤ n → take n xs ≡ xs
take-all zero [] h = refl
take-all zero (x ∷ xs) h = absurd (omega (arith, h))
take-all (suc n) [] h = refl
take-all (suc n) (x ∷ xs) h = ap (λ ys. x ∷ ys) (take-all n xs (omega (arith, h)))

-- Selecting what holds of every element.
select-all : {A : Type 0} (p : A → Bool) (xs : List A) → ((x : A) → p x ≡ true) → select p xs ≡ xs
select-all p [] h = refl
select-all p (x ∷ xs) h = rw (h x) (ap (λ ys. x ∷ ys) (select-all p xs h))

no_word : (s : String) → is_empty s ≡ true → ((s == "true") ≡ false) × ((s == "false") ≡ false)
no_word String.[] h = (refl, refl)
no_word (String.◌∷◌ c s) h = absurd (cc)

-- Where nothing is asked for, every job is found.
nothing_asked : (f : JobQuery) (j : Job) → finds_all f ≡ true → job_matches_filters j f ≡ true
unfolding job_matches_filters
nothing_asked f j h =
    let enabled : is_empty f.enabled ≡ true = ground (arith, h) in
    let (t, u) = no_word f.enabled enabled in ground (arith, h, t, u)

sliced :
    {A : Type 0} (limit offset : ℕ) (xs : List A)
    → (if nat_eq offset 0 && nat_eq limit 0
        then xs
        else if leb (length xs) offset
        then []
        else if ltb 0 limit && ltb limit (length (drop offset xs))
        then take limit (drop offset xs)
        else drop offset xs)
      ≡ page_of limit offset xs
sliced zero zero xs = refl
sliced zero (suc o) xs = elim (Bool-cases (leb (length xs) (suc o))) [
  | inl e ↦ ground (arith, e, drop-all (suc o) xs)
  | inr e ↦ ground (arith, e)
]
sliced (suc l) offset xs = elim (Bool-cases (leb (length xs) offset)) [
  | inl e ↦ ground (arith, e, drop-all offset xs)
  | inr e ↦ ground (arith, e, take-all (suc l) (drop offset xs))
]

filter-select :
    (jobs : List Job) (q : JobQuery)
    → filter_jobs_list jobs q ≡ select (λ j. job_matches_filters j (tidied_query q)) jobs
unfolding filter_jobs_list
filter-select jobs q = elim (Bool-cases (finds_all (tidied_query q))) [
  | inl e ↦ rw e (sym (select-all _ jobs (λ j. nothing_asked (tidied_query q) j e)))
  | inr e ↦ rw e refl
]

-- A filter that is blank asks for nothing.
abbrev pub asks_for : String → Bool → Bool
asks_for wanted passes = if is_empty wanted then true else passes

-- What a search asks of a job, one criterion at a time: whether the job is on or off, its action and its
-- group, its host where it has any, and the text that it is searched for.
abbrev pub is_wanted : JobQuery → Job → Bool
is_wanted q j =
    let on_or_off = to_lower (trim_space q.enabled) in
    let host = trim_space q.host_id in
    (if on_or_off == "true"
      then j.enabled
      else if on_or_off == "false"
      then not j.enabled
      else true)
    && asks_for (to_lower (trim_space q.action))
        (to_lower j.action == to_lower (trim_space q.action))
    && asks_for (to_lower (trim_space q.group))
        (to_lower (trim_space j.group) == to_lower (trim_space q.group))
    && asks_for host (if no_hosts j.docker_host_ids then true else elem host j.docker_host_ids)
    && asks_for (to_lower (trim_space q.text))
        (contains (haystack j) (to_lower (trim_space q.text)))

two_words : (s : String) → (s == "true") ≡ true → (s == "false") ≡ false
two_words s h = rw ((text_iff s "true").0 h) refl

-- The tests one by one, and what they come to.
tests_same :
    (a a' t f e g g' h n o x x' : Bool)
    → (t ≡ true → f ≡ false)
    → ((a || a') && not (t && not e) && not (f && e) && (g || g') && (h || n || o) && (x || x')) ≡ (
        (if t then e else if f then not e else true)
        && (if a then true else a')
        && (if g then true else g')
        && (if h then true else if n then true else o)
        && (if x then true else x'))
tests_same a a' t f e g g' h n o x x' k = ground (arith, k)

matches-wanted : (q : JobQuery) (j : Job) → job_matches_filters j (tidied_query q) ≡ is_wanted q j
unfolding job_matches_filters
matches-wanted q j =
    tests_same (is_empty (to_lower (trim_space q.action)))
      (to_lower j.action == to_lower (trim_space q.action))
      (to_lower (trim_space q.enabled) == "true") (to_lower (trim_space q.enabled) == "false")
      j.enabled (is_empty (to_lower (trim_space q.group)))
      (to_lower (trim_space j.group) == to_lower (trim_space q.group))
      (is_empty (trim_space q.host_id)) (no_hosts j.docker_host_ids)
      (elem (trim_space q.host_id) j.docker_host_ids) (is_empty (to_lower (trim_space q.text)))
      (contains (haystack j) (to_lower (trim_space q.text)))
      (two_words (to_lower (trim_space q.enabled)))

select-same :
    {A : Type 0} (p p' : A → Bool) (xs : List A)
    → ((x : A) → p x ≡ p' x)
    → select p xs ≡ select p' xs
select-same p p' [] h = refl
select-same p p' (x ∷ xs) h = ground (arith, h x, select-same p p' xs h)

-- GET of the jobs answers with the page that was asked for of the jobs that are wanted, and with the number
-- of these jobs.
pub list_jobs-select :
    (jobs : List Job) (q : JobQuery)
    → (list_jobs jobs q).0
        ≡ page_of
            (counted (atoi (trim_space q.limit)))
            (counted (atoi (trim_space q.offset)))
            (select (is_wanted q) jobs)
      × ((list_jobs jobs q).1 ≡ length (select (is_wanted q) jobs))
unfolding list_jobs paginate_jobs_list
list_jobs-select jobs q =
    let page =
      page_of (counted (atoi (trim_space q.limit))) (counted (atoi (trim_space q.offset))) in
    let all =
      filter-select jobs q
      ∙ select-same (λ j. job_matches_filters j (tidied_query q)) (is_wanted q) jobs
          (matches-wanted q) in
    (
      sliced (counted (atoi (trim_space q.limit))) (counted (atoi (trim_space q.offset)))
            (filter_jobs_list jobs q)
          ∙ ap page all,
      ap length all,
    )
