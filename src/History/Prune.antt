-- ===== src/History/Prune.antt =====
-- Prune takes away the old entries and nothing else.
use chowkidar.Prelude.{
  ℕ, suc, ◌+◌, ◌-◌, ◌≡◌, refl, Bool, true, false, not, String, List, [], ◌∷◌, pos, length, select,
  arith, Bool-cases, inl, inr, nat_eq, ap, sym,
}
use chowkidar.Prelude.Checks.{Checked, good}
use chowkidar.Model.{Time}
use chowkidar.Server.{Entry}
use chowkidar.History.{
  Line, blank, junk, written, HistoryError, File, holding, entries, older, sift, prune, prune_days,
}

-- The lines that are no entries and are not empty.
unfoldable pub oddities : List Line → List String
oddities [] = []
oddities (blank ∷ ls) = oddities ls
oddities (junk text ∷ ls) = text ∷ oddities ls
oddities (written e ∷ ls) = oddities ls

abbrev pub lines_of : File → List Line
lines_of (holding lines) = lines
lines_of _ = []

module _ (old : Entry → Bool) where
  entries-sift : (ls : List Line) → entries (sift old ls).0 ≡ select (λ e. not (old e)) (entries ls)
  unfolding sift entries
  entries-sift [] = refl
  entries-sift (blank ∷ ls) = entries-sift ls
  entries-sift (junk text ∷ ls) = entries-sift ls
  entries-sift (written e ∷ ls) = ground (arith, entries-sift ls)

  oddities-sift : (ls : List Line) → oddities (sift old ls).0 ≡ oddities ls
  unfolding sift oddities
  oddities-sift [] = refl
  oddities-sift (blank ∷ ls) = oddities-sift ls
  oddities-sift (junk text ∷ ls) = ap (text ∷◌) (oddities-sift ls)
  oddities-sift (written e ∷ ls) = ground (arith, oddities-sift ls)

  removed-sift :
      (ls : List Line)
      → (sift old ls).1 + length (select (λ e. not (old e)) (entries ls)) ≡ length (entries ls)
  unfolding sift entries
  removed-sift [] = omega arith
  removed-sift (blank ∷ ls) = removed-sift ls
  removed-sift (junk text ∷ ls) = removed-sift ls
  removed-sift (written e ∷ ls) = ground (arith, removed-sift ls)

  none_removed :
      (ls : List Line) → (sift old ls).1 ≡ 0 → select (λ e. not (old e)) (entries ls) ≡ entries ls
  unfolding sift entries
  none_removed [] h = refl
  none_removed (blank ∷ ls) h = none_removed ls h
  none_removed (junk text ∷ ls) h = none_removed ls h
  none_removed (written e ∷ ls) h = ground (arith, none_removed ls)

  sift-sift : (ls : List Line) → (sift old (sift old ls).0).1 ≡ 0
  unfolding sift
  sift-sift [] = refl
  sift-sift (blank ∷ ls) = sift-sift ls
  sift-sift (junk text ∷ ls) = sift-sift ls
  sift-sift (written e ∷ ls) = ground (arith, sift-sift ls)

module _ (now : Time) (days : ℕ) (lines : List Line) where
  -- What a run of Prune promises of the file before and the file after.
  abbrev pub Pruned : File × Checked HistoryError ℕ → Type 0
  Pruned (file, count) =
      (entries (lines_of file) ≡ select (λ e. not (older now (suc days) e)) (entries lines))
      × (oddities (lines_of file) ≡ oddities lines)
      × (count ≡ good (length (entries lines) - length (entries (lines_of file))))

  -- Lines that differ from the old ones, or not, by what was removed.
  pruned :
      (ls : List Line) (n : ℕ)
      → entries ls ≡ select (λ e. not (older now (suc days) e)) (entries lines)
      → oddities ls ≡ oddities lines
      → n + length (entries ls) ≡ length (entries lines)
      → Pruned (holding ls, good n)
  pruned ls n h k c = (h, k, ap good (omega (arith, c)))

  -- A run that can write keeps the entries that are not older than the days before `now`, in order, and
  -- every line that is no entry, and counts what it removes.
  pub prune_exact : Pruned (prune true now (pos (suc days)) (holding lines))
  unfolding prune prune_days
  prune_exact =
      let old = older now (suc days) in
      let found = entries-sift old lines in
      let counted = removed-sift old lines in
      elim (Bool-cases (nat_eq (sift old lines).1 0)) [
        | inl e ↦
            let all_kept = none_removed old lines (ground arith) in
            rw e (pruned lines 0 (sym all_kept) refl (omega arith))
        | inr e ↦ rw e (
            pruned (sift old lines).0 (sift old lines).1 found (oddities-sift old lines)
              (rw found counted))
      ]

nothing_old :
    (writable : Bool) (now : Time) (days : ℕ) (lines : List Line)
    → (sift (older now days) lines).1 ≡ 0
    → prune_days writable now days (holding lines) ≡ (holding lines, good 0)
unfolding prune_days
nothing_old writable now days lines h = ground arith

-- A second run at the same time finds nothing more to remove, and a run that cannot write leaves every
-- file as it was.
pub prune_twice :
    (writable : Bool) (now : Time) (days : ℕ) (lines : List Line)
    → (prune writable now (pos (suc days)) (prune true now (pos (suc days)) (holding lines)).0
        ≡ ((prune true now (pos (suc days)) (holding lines)).0, good 0))
      × ((prune false now (pos (suc days)) (holding lines)).0 ≡ holding lines)
unfolding prune prune_days
prune_twice writable now days lines = (
  elim (Bool-cases (nat_eq (sift (older now (suc days)) lines).1 0)) [
    | inl e ↦ rw e (nothing_old writable now (suc days) lines (ground arith))
    | inr e ↦ rw e (nothing_old writable now (suc days) _ (sift-sift (older now (suc days)) lines))
  ],
  ground arith,
)
