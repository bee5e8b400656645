-- ===== src/Due/Spacing.antt =====
-- Scans of one job keep their distance, and the monitor sleeps no longer than until the next.
use chowkidar.Prelude.{
  ◌+◌, ◌≤◌, ◌<◌, ◌≡◌, refl, ap, sym, ◌∙◌, Bool, true, false, String, List, [], ◌∷◌, Memᴰ, some,
  lookup, Assoc, insert, lookup-insert, Bool-cases, inl, inr, ◌⊎◌, All, arith, ◌==◌, ==_refl,
  if◌then◌else◌, ◌&&◌,
}
use chowkidar.Model.{Time, Job}
use chowkidar.Settings.{scan_interval}
use chowkidar.Settings.Bounds.{scan_interval-ge}
use chowkidar.Due.{has_passed, is_due, is_taken, compute_due_jobs}

-- What was scanned now stays so.
compute_due_jobs-keeps :
    (now : Time) (js : List Job) (scans : Assoc Time) (id : String)
    → lookup id scans ≡ some now
    → lookup id (compute_due_jobs now js scans).1 ≡ some now
unfolding compute_due_jobs
compute_due_jobs-keeps now [] scans id h = h
compute_due_jobs-keeps now (j ∷ js) scans id h = elim (Bool-cases (is_taken scans now j)) [
  | inr e ↦ rw e (compute_due_jobs-keeps now js scans id h)
  | inl e ↦ rw e (
      compute_due_jobs-keeps now js (insert j.id now scans) id
        (rw lookup-insert (keep (j.id == id))))
]
  where
    keep : (b : Bool) → (if b then some now else lookup id scans) ≡ some now
    keep true = refl
    keep false = h

-- A job that is due is noted as scanned at that instant.
pub due_noted :
    (now : Time) (js : List Job) (scans : Assoc Time) (j : Job)
    → Memᴰ j (compute_due_jobs now js scans).0
    → lookup j.id (compute_due_jobs now js scans).1 ≡ some now
unfolding compute_due_jobs
due_noted now [] scans j m = elim m [ ]
due_noted now (k ∷ js) scans j m = elim (Bool-cases (is_taken scans now k)) [
  | inr e ↦ rw e (due_noted now js scans j (rw e at m))
  | inl e ↦ rw e (first (due_noted now js (insert k.id now scans) j) (rw e at m))
]
  where
    after : Assoc Time
    after = (compute_due_jobs now js (insert k.id now scans)).1

    first :
        (Memᴰ j (compute_due_jobs now js (insert k.id now scans)).0 → lookup j.id after ≡ some now)
        → Memᴰ j (k ∷ (compute_due_jobs now js (insert k.id now scans)).0)
        → lookup j.id after ≡ some now
    first ih (Memᴰ.head q) =
        ap (λ (x : Job). lookup x.id after) q
        ∙ compute_due_jobs-keeps now js (insert k.id now scans) k.id
            (rw (lookup-insert, ==_refl k.id) refl)
    first ih (Memᴰ.tail r) = ih r

-- A scan at the same instant makes no job due.
pub not_due_again : (now : Time) (j : Job) → has_passed now (scan_interval j) (some now) ≡ false
not_due_again now j = ground (arith, scan_interval-ge j)

is_due_after :
    (scans : Assoc Time) (now : Time) (j : Job) (id : String)
    → is_due (insert id now scans) now j ≡ true
    → is_due scans now j ≡ true
unfolding is_due
is_due_after scans now j id h =
    pick (id == j.id)
      (ap (has_passed now (scan_interval j)) (sym (lookup-insert id j.id now scans)) ∙ h)
  where
    pick :
        (b : Bool)
        → has_passed now (scan_interval j) (if b then some now else lookup j.id scans) ≡ true
        → has_passed now (scan_interval j) (lookup j.id scans) ≡ true
    pick true e = absurd (ground (arith, e, not_due_again now j))
    pick false e = e

-- Only an enabled job is due, and only if it was due before the pass over the jobs began.
pub due_was_due :
    (now : Time) (js : List Job) (scans : Assoc Time) (j : Job)
    → Memᴰ j (compute_due_jobs now js scans).0
    → (j.enabled ≡ true) × (is_due scans now j ≡ true)
unfolding compute_due_jobs
due_was_due now [] scans j m = elim m [ ]
due_was_due now (k ∷ js) scans j m = elim (Bool-cases (is_taken scans now k)) [
  | inr e ↦ due_was_due now js scans j (rw e at m)
  | inl e ↦ first (both k.enabled _ e) (due_was_due now js (insert k.id now scans) j) (rw e at m)
]
  where
    both : (u v : Bool) → (u && v) ≡ true → (u ≡ true) × (v ≡ true)
    both u v e = (ground arith, ground arith)

    first :
        (k.enabled ≡ true) × (is_due scans now k ≡ true)
        → (Memᴰ j (compute_due_jobs now js (insert k.id now scans)).0
            → (j.enabled ≡ true) × (is_due (insert k.id now scans) now j ≡ true))
        → Memᴰ j (k ∷ (compute_due_jobs now js (insert k.id now scans)).0)
        → (j.enabled ≡ true) × (is_due scans now j ≡ true)
    first (e, f) ih (Memᴰ.head q) = (ap (λ (x : Job). x.enabled) q ∙ e, ap (is_due scans now) q ∙ f)
    first (e, f) ih (Memᴰ.tail r) = let (u, v) = ih r in (u, is_due_after scans now j k.id v)

-- A pass leaves the time of a job's scan as it was, or makes it that of the pass.
compute_due_jobs-either :
    (now : Time) (js : List Job) (scans : Assoc Time) (id : String)
    → (lookup id (compute_due_jobs now js scans).1 ≡ lookup id scans)
      ⊎ (lookup id (compute_due_jobs now js scans).1 ≡ some now)
unfolding compute_due_jobs
compute_due_jobs-either now [] scans id = inl refl
compute_due_jobs-either now (j ∷ js) scans id = elim (Bool-cases (is_taken scans now j)) [
  | inr e ↦ rw e (compute_due_jobs-either now js scans id)
  | inl e ↦ rw e (elim (Bool-cases (j.id == id)) [
    | inl q ↦
        inr (compute_due_jobs-keeps now js (insert j.id now scans) id (rw (lookup-insert, q) refl))
    | inr q ↦ elim (compute_due_jobs-either now js (insert j.id now scans) id) [
      | inl h ↦ inl (h ∙ rw (lookup-insert, q) refl)
      | inr h ↦ inr h
    ]
  ])
]

-- Passes of computeDueJobs, each with its time and the jobs of that time.
unfoldable pub passes : List (Time × List Job) → Assoc Time → Assoc Time
passes [] scans = scans
passes ((now, js) ∷ rest) scans = passes rest (compute_due_jobs now js scans).1

-- No pass is before the instant `t`.
abbrev pub NotBefore : Time → List (Time × List Job) → Type 0
NotBefore t = All (λ p. t ≤ p.0)

-- The time of the last scan of a job does not go back.
passes-last :
    (t : Time) (rest : List (Time × List Job)) (scans : Assoc Time) (id : String) (last : Time)
    → NotBefore t rest
    → t ≤ last
    → lookup id scans ≡ some last
    → (u : Time) × (t ≤ u) × (lookup id (passes rest scans) ≡ some u)
unfolding passes
passes-last t [] scans id last h l e = (last, l, e)
passes-last t ((now, js) ∷ rest) scans id last (h, hs) l e =
    elim (compute_due_jobs-either now js scans id) [
      | inl q ↦ passes-last t rest (compute_due_jobs now js scans).1 id last hs l (q ∙ e)
      | inr q ↦ passes-last t rest (compute_due_jobs now js scans).1 id now hs h q
    ]

-- A job that was due in a pass is due in a later one, however many passes are between the two and none of
-- them before the first, only if its scan interval is over; the job may have been edited in between, and
-- then the interval is the new one.
pub due_spaced :
    (now later : Time) (js ks : List Job) (between : List (Time × List Job)) (scans : Assoc Time)
    (j k : Job)
    → NotBefore now between
    → Memᴰ j (compute_due_jobs now js scans).0
    → Memᴰ k (compute_due_jobs later ks (passes between (compute_due_jobs now js scans).1)).0
    → k.id ≡ j.id
    → now + scan_interval k ≤ later
unfolding is_due
due_spaced now later js ks between scans j k h m n e =
    let first = (compute_due_jobs now js scans).1 in
    let (u, l, noted) =
      passes-last now between first j.id now h (omega arith) (due_noted now js scans j m) in
    let (_, due) = due_was_due later ks (passes between first) k n in
    passed u l (
      ap (has_passed later (scan_interval k))
        (sym (ap (λ x. lookup x (passes between first)) e ∙ noted))
      ∙ due)
  where
    passed :
        (u : Time)
        → now ≤ u
        → has_passed later (scan_interval k) (some u) ≡ true
        → now + scan_interval k ≤ later
    passed u l h = ground arith

abbrev IsBelow : Time → Time → Type 0
IsBelow x bound = (0 < x) × (x ≤ bound)
