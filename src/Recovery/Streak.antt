-- ===== src/Recovery/Streak.antt =====
-- After a failed action a container recovers with the last of the stable scans that its job wants.
use chowkidar.Prelude.{
  ℕ, suc, ◌+◌, ◌≤◌, ◌<◌, ◌≡◌, refl, ap, ◌∙◌, Bool, true, false, List, [], ◌∷◌, All, Option, none,
  some, leb, if◌then◌else◌, Bool-cases, inl, inr, arith, length,
}
use chowkidar.Model.{Time}
use chowkidar.Server.{CycleState}
use chowkidar.Recovery.{required_scans, verdict_of}
use chowkidar.Recovery.Rule.{settle, kept_state}

-- A bucket through scans in which the container has no problem.
pub streak : List Time → Option CycleState → Option CycleState
streak [] o = o
streak (t ∷ ts) o = streak ts (settle false t o)

streak-none : (ts : List Time) → streak ts none ≡ none
unfolding streak settle
streak-none [] = refl
streak-none (t ∷ ts) = streak-none ts

abbrev pub wanted : CycleState → ℕ
wanted s = required_scans s.stable_scans_required

abbrev counted : ℕ → CycleState → CycleState
counted n s = record s { stable_scans = n }

settle_stable :
    (t : Time) (s : CycleState) (n : ℕ)
    → s.exhausted ≡ false
    → s.last_failed ≡ true
    → s.deadline ≤ t
    → settle false t (some (counted n s))
      ≡ (if leb (wanted s) (suc n) then none else some (counted (suc n) s))
unfolding settle verdict_of kept_state
settle_stable t s n e f d = ground arith

streak-counted :
    (ts : List Time) (s : CycleState) (n : ℕ)
    → s.exhausted ≡ false
    → s.last_failed ≡ true
    → All (λ t. s.deadline ≤ t) ts
    → n < wanted s
    → streak ts (some (counted n s))
      ≡ (if leb (wanted s) (n + length ts) then none else some (counted (n + length ts) s))
unfolding streak
streak-counted [] s n e f d h =
    start (leb (wanted s) (n + 0)) (ground arith) ∙ ap same (omega arith)
  where
    same : ℕ → Option CycleState
    same m = if leb (wanted s) (n + 0) then none else some (counted m s)

    start : (b : Bool) → b ≡ false → some (counted n s) ≡ (if b then none else some (counted n s))
    start b h = rw h refl
streak-counted (t ∷ ts) s n e f (d, ds) h = elim (Bool-cases (leb (wanted s) (suc n))) [
  | inl g ↦
      ap (streak ts) (settle_stable t s n e f d ∙ rw g refl)
      ∙ streak-none ts
      ∙ over (ground (arith, g))
  | inr g ↦
      ap (streak ts) (settle_stable t s n e f d ∙ rw g refl)
      ∙ streak-counted ts s (suc n) e f ds (ground (arith, g))
      ∙ ap (λ m. if leb (wanted s) m then none else some (counted m s)) (shift n (length ts))
]
  where
    over :
        leb (wanted s) (n + suc (length ts)) ≡ true
        → none ≡ (
            if leb (wanted s) (n + suc (length ts))
            then none
            else some (counted (n + suc (length ts)) s))
    over g = rw g refl

    shift : (n m : ℕ) → suc n + m ≡ n + suc m
    shift n m = omega arith

-- A container whose last action failed, with its wait over, its retries not exhausted and fewer
-- stable scans than wanted, keeps its bucket through stable scans, which are counted, and gives it
-- up with the last one wanted.
pub streak_recovers :
    (ts : List Time) (s : CycleState)
    → s.exhausted ≡ false
    → s.last_failed ≡ true
    → All (λ t. s.deadline ≤ t) ts
    → s.stable_scans < wanted s
    → streak ts (some s) ≡ (
        if leb (wanted s) (s.stable_scans + length ts)
        then none
        else some (record s { stable_scans = s.stable_scans + length ts }))
streak_recovers ts s e f d h = streak-counted ts s s.stable_scans e f d h
