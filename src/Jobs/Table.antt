-- ===== src/Jobs/Table.antt =====
-- UpsertJob and DeleteJob, seen as a table of jobs by their identifiers.
use chowkidar.Prelude.{
  ◌≡◌, refl, Bool, true, false, ◌&&◌, ◌||◌, not, String, List, [], ◌∷◌, ◌++◌, ◌==◌, arith, text_iff,
  map, Bool-cases, inl, inr, ◌∙◌, sym, Option, none, some, if◌then◌else◌, elem, ==_refl,
}
use chowkidar.Text.{trim_space, is_empty}
use chowkidar.Model.{Time, Job}
use chowkidar.Jobs.{
  Result, ok, err, normalize_job, replace, saved, stamp, upsert_job, without, delete_job,
}

-- The job that the server finds under an identifier.
unfoldable pub find : String → List Job → Option Job
find id [] = none
find id (j ∷ js) = if j.id == id then some j else find id js

abbrev pub ids : List Job → List String
ids = map (λ (j : Job). j.id)

-- No identifier stands twice.
abbrev pub Distinct : List Job → Type 0
Distinct [] = Unit
Distinct (j ∷ js) = (elem j.id (ids js) ≡ false) × Distinct js

find-replace :
    (id : String) (js : List Job) (n : Job)
    → find id (replace js n) ≡ (if n.id == id then some (saved js n) else find id js)
unfolding find replace saved
find-replace id [] n = refl
find-replace id (j ∷ js) n =
    ground (arith, text_iff j.id n.id, text_iff n.id id, text_iff j.id id, find-replace id js n)

ids-replace :
    (js : List Job) (n : Job)
    → ids (replace js n) ≡ (if elem n.id (ids js) then ids js else ids js ++ n.id ∷ [])
unfolding replace
ids-replace [] n = refl
ids-replace (j ∷ js) n = ground (arith, text_iff j.id n.id, ids-replace js n)

elem-ids-replace :
    (id : String) (js : List Job) (n : Job)
    → elem id (ids (replace js n)) ≡ (elem id (ids js) || n.id == id)
unfolding replace
elem-ids-replace id [] n = ground arith
elem-ids-replace id (j ∷ js) n =
    ground (arith, text_iff j.id n.id, text_iff n.id id, text_iff j.id id, elem-ids-replace id js n)

replace-Distinct : (js : List Job) (n : Job) → Distinct js → Distinct (replace js n)
unfolding replace
replace-Distinct [] n h = (refl, tt)
replace-Distinct (j ∷ js) n h = ground (
  arith,
  text_iff j.id n.id,
  text_iff n.id j.id,
  replace-Distinct js n h.1,
  elem-ids-replace j.id js n,
)

saved-keeps :
    (js : List Job) (n : Job)
    → ((saved js n).id ≡ n.id)
      × ((saved js n).updated_at ≡ n.updated_at)
      × ((old : Job) → find n.id js ≡ some old → (saved js n).created_at ≡ old.created_at)
unfolding saved find
saved-keeps [] n = (refl, refl, λ old e. cc)
saved-keeps (j ∷ js) n = elim (Bool-cases (j.id == n.id)) [
  | inl e ↦ rw e (refl, refl, λ old q. ground arith)
  | inr e ↦ rw e (saved-keeps js n)
]

find-without :
    (id k : String) (js : List Job)
    → find k (without id js).0 ≡ (if id == k then none else find k js)
unfolding find without
find-without id k [] = ground arith
find-without id k (j ∷ js) =
    ground (arith, text_iff j.id id, text_iff id k, text_iff j.id k, find-without id k js)

removed-without : (id : String) (js : List Job) → (without id js).1 ≡ elem id (ids js)
unfolding without
removed-without id [] = refl
removed-without id (j ∷ js) = ground (arith, removed-without id js)

without-append :
    (id : String) (js : List Job) (n : Job)
    → n.id ≡ id
    → elem id (ids js) ≡ false
    → (without id (replace js n)).0 ≡ js
unfolding without replace
without-append id [] n e h = ground (arith, text_iff n.id id)
without-append id (j ∷ js) n e h =
    ground (arith, text_iff n.id id, text_iff j.id id, text_iff j.id n.id, without-append id js n e)

-- A successful update, taken apart.
upsert_inv :
    (js : List Job) (j : Job) (now : Time) {out : List Job} {s : Job}
    → upsert_job js j now ≡ ok (out, s)
    → (n : Job) × (out ≡ replace js n) × (s ≡ saved js n) × (n.updated_at ≡ now)
unfolding upsert_job stamp
upsert_inv js j now {out} {s} h = go (normalize_job j) refl
  where
    go :
        (r : Result Job)
        → normalize_job j ≡ r
        → (n : Job) × (out ≡ replace js n) × (s ≡ saved js n) × (n.updated_at ≡ now)
    go (ok n) e = (stamp now n, ground arith, ground arith, refl)
    go (err x) e = absurd (ground arith)

-- After a successful UpsertJob the saved job stands under its identifier, and under any other
-- identifier the table gives what it gave before.
pub find-upsert_job :
    (js : List Job) (j : Job) (now : Time) {out : List Job} {s : Job} (k : String)
    → upsert_job js j now ≡ ok (out, s)
    → find k out ≡ (if s.id == k then some s else find k js)
find-upsert_job js j now k h =
    let (n, eo, es, _) = upsert_inv js j now h in
    rw (eo, es) (ground (arith, find-replace k js n, (saved-keeps js n).0))

-- An update keeps the creation time of the job that it replaces, and sets the time of the update.
pub upsert_job_times :
    (js : List Job) (j : Job) (now : Time) {out : List Job} {s old : Job}
    → upsert_job js j now ≡ ok (out, s)
    → find s.id js ≡ some old
    → (s.created_at ≡ old.created_at) × (s.updated_at ≡ now)
upsert_job_times js j now {out} {s} {old} h found =
    let (n, eo, es, et) = upsert_inv js j now h in
    let (same, stamped, created) = saved-keeps js n in
    let at_n : find n.id js ≡ some old = rw (es, same) at found in
    (rw es (created old at_n), rw es (stamped ∙ et))

-- Identifiers that are distinct stay distinct.
pub upsert_job-Distinct :
    (js : List Job) (j : Job) (now : Time) {out : List Job} {s : Job}
    → Distinct js
    → upsert_job js j now ≡ ok (out, s)
    → Distinct out
upsert_job-Distinct js j now d h =
    let (n, eo, _, _) = upsert_inv js j now h in rw eo (replace-Distinct js n d)

-- DeleteJob forgets the trimmed identifier, keeps every other job, and reports whether the
-- identifier was there; a blank identifier changes nothing.
pub find-delete_job :
    (js : List Job) (id k : String)
    → let gone = trim_space id in
      (find k (delete_job js id).0 ≡ (if not (is_empty gone) && gone == k then none else find k js))
      × ((delete_job js id).1 ≡ (not (is_empty gone) && elem gone (ids js)))
unfolding delete_job
find-delete_job js id k =
    ground (arith, find-without (trim_space id) k js, removed-without (trim_space id) js)

-- To delete a job that was just added gives the table from before, if its identifier was not in use
-- and is neither blank nor surrounded by spaces.
pub delete_job-upsert_job :
    (js : List Job) (j : Job) (now : Time) {out : List Job} {s : Job}
    → upsert_job js j now ≡ ok (out, s)
    → elem s.id (ids js) ≡ false
    → trim_space s.id ≡ s.id
    → is_empty s.id ≡ false
    → delete_job out s.id ≡ (js, true)
delete_job-upsert_job js j now {out} {s} h fresh trimmed filled =
    let (n, eo, es, _) = upsert_inv js j now h in
    let same : n.id ≡ s.id = rw es (sym (saved-keeps js n).0) in
    let back : (without s.id out).0 ≡ js = rw eo (without-append s.id js n same fresh) in
    let was_in : elem s.id (ids out) ≡ true =
      rw (eo, elem-ids-replace s.id js n, same, ==_refl s.id) (or_true _) in
    unfold delete_job in
    rw (trimmed, filled) (ground (arith, back, removed-without s.id out, was_in))
  where
    or_true : (b : Bool) → (b || true) ≡ true
    or_true b = ground arith
