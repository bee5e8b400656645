-- ===== src/Worker/Drain.antt =====
-- The workers of a pool come to an end with every job.
use chowkidar.Prelude.{
  ℕ, zero, suc, ◌+◌, ◌*◌, ◌<◌, ◌≡◌, refl, Bool, true, ◌||◌, List, [], ◌∷◌, ◌++◌, Option, none, some,
  length, length-append, ltb, arith, is_some, if◌then◌else◌, ap, sym, ◌∙◌, subst, Bool-cases, inl,
  inr, Option-cases,
}
use chowkidar.Crypto.Laws.{some_inj}
use chowkidar.Worker.{Pool, receive, received, finish, ended, pull, behind}

-- The steps that are left: a job in the queue has two to go, one that runs has one.
abbrev pub work : {A : Type 0} → Pool A → ℕ
work p = 2 * length p.queue + length p.running

-- How many jobs for which `f` holds are in a list.
unfoldable pub tally : {A : Type 0} → (A → Bool) → List A → ℕ
tally f [] = 0
tally f (x ∷ xs) = let rest = tally f xs in if f x then suc rest else rest

abbrev pub tally_pool : {A : Type 0} → (A → Bool) → Pool A → ℕ
tally_pool f p = tally f p.queue + tally f p.running + tally f p.done

tally-append :
    {A : Type 0} (f : A → Bool) (xs ys : List A) → tally f (xs ++ ys) ≡ tally f xs + tally f ys
unfolding tally
tally-append f [] ys = omega arith
tally-append f (x ∷ xs) ys = ground (arith, tally-append f xs ys)

-- What is left of a list without one of its elements.
abbrev pub Without : {A : Type 0} → (A → Bool) → List A → A × List A → Type 0
Without f xs (x, rest) =
    (tally f xs ≡ tally f (x ∷ []) + tally f rest) × (length xs ≡ suc (length rest))

pub pull-Without :
    {A : Type 0} (f : A → Bool) (n : ℕ) (xs : List A) {q : A × List A}
    → pull n xs ≡ some q
    → Without f xs q
unfolding pull tally
pull-Without f n [] h = absurd (cc)
pull-Without f zero (y ∷ xs) h = subst (Without f (y ∷ xs)) (some_inj h) (ground arith, refl)
pull-Without f (suc n) (y ∷ xs) h = elim (Option-cases (pull n xs)) [
  | inl e ↦ absurd (cc)
  | inr ((z, zs), e) ↦
      let (t, l) = pull-Without f n xs e in
      subst (Without f (y ∷ xs)) (some_inj (sym (ap (behind y) e) ∙ h))
        (ground (arith, t), ap suc l)
]

-- A move of a worker: a job received, or the running one at a place finished.
abbrev pub WorkerMove : Type 0
WorkerMove = Option ℕ

unfoldable pub worked : {A : Type 0} → WorkerMove → Pool A → Option (Pool A)
worked none p = receive p
worked (some n) p = finish n p

-- After one move: a step less is left, every job is still there, and the pool has its workers.
pub record Stepped {A : Type 0} (f : A → Bool) (k : ℕ) (p p' : Pool A) : Type 0 where
  pub less : k + work p' ≡ work p
  pub kept : tally_pool f p' ≡ tally_pool f p
  pub as_many : p'.workers ≡ p.workers

received-Stepped :
    {A : Type 0} (f : A → Bool) (p : Pool A) (queue : List A) {p' : Pool A}
    → received p queue ≡ some p'
    → Stepped f 1 (record p { queue = queue }) p'
unfolding tally
received-Stepped f p [] h = absurd (cc)
received-Stepped f p (j ∷ js) h = elim (Bool-cases (ltb (length p.running) p.workers)) [
  | inl e ↦ subst (Stepped f 1 (record p { queue = j ∷ js })) (some_inj (rw e at h)) (record {
    less = omega (arith, length-append p.running (j ∷ []));
    kept = ground (arith, tally-append f p.running (j ∷ []));
    as_many = refl;
  })
  | inr e ↦ absurd (cc (rw e at h))
]

ended-Stepped :
    {A : Type 0} (f : A → Bool) (p : Pool A) (found : Option (A × List A)) {p' : Pool A}
    → ((q : A × List A) → found ≡ some q → Without f p.running q)
    → ended p found ≡ some p'
    → Stepped f 1 p p'
ended-Stepped f p none w h = absurd (cc)
ended-Stepped f p (some (j, rest)) w h =
    let (t, l) = w (j, rest) refl in
    subst (Stepped f 1 p) (some_inj h) (record {
      less = omega (arith, l);
      kept = omega (arith, t, tally-append f p.done (j ∷ []));
      as_many = refl;
    })

worked-Stepped :
    {A : Type 0} (f : A → Bool) (m : WorkerMove) (p : Pool A) {p' : Pool A}
    → worked m p ≡ some p'
    → Stepped f 1 p p'
unfolding worked receive finish
worked-Stepped f none p h = received-Stepped f p p.queue h
worked-Stepped f (some n) p h =
    ended-Stepped f p (pull n p.running) (λ q e. pull-Without f n p.running e) h

-- The moves one after the other, if each of them can be made.
unfoldable pub drive : {A : Type 0} → List WorkerMove → Pool A → Option (Pool A)
unfolding worked
drive [] p = some p
drive {A = A} (m ∷ ms) p = elim (worked m p) as (λ o. Option (Pool A)) [
  | none ↦ none
  | some p' ↦ drive ms p'
]

-- Whether a worker can make a move.
abbrev pub can_move : {A : Type 0} → Pool A → Bool
can_move p = is_some (receive p) || is_some (finish 0 p)

some-can_move : {A : Type 0} (p : Pool A) → 0 < p.workers → 0 < work p → can_move p ≡ true
unfolding receive finish pull
some-can_move {A = A} p some_worker left = at_lists p p.queue p.running some_worker left
  where
    at_lists :
        (p : Pool A) (queue running : List A)
        → 0 < p.workers
        → 0 < 2 * length queue + length running
        → (is_some (received (record p { running = running }) queue)
            || is_some (ended p (pull 0 running)))
          ≡ true
    at_lists p [] [] w l = absurd (omega (arith, l))
    at_lists p [] (j ∷ js) w l = refl
    at_lists p (i ∷ is) [] w l = ground (arith, w)
    at_lists p (i ∷ is) (j ∷ js) w l = ground arith

-- Whatever moves the workers of a pool make, their number is that of the steps that are gone, no job is
-- lost or doubled, and a worker can move as long as a step is left, if the pool has a worker.
pub drive-work :
    {A : Type 0} (f : A → Bool) (ms : List WorkerMove) (p : Pool A) {p' : Pool A}
    → 0 < p.workers
    → drive ms p ≡ some p'
    → (length ms + work p' ≡ work p)
      × (tally_pool f p' ≡ tally_pool f p)
      × (0 < work p' → can_move p' ≡ true)
unfolding drive
drive-work f [] p w h =
    subst
      (λ q.
        (0 + work q ≡ work p)
        × (tally_pool f q ≡ tally_pool f p)
        × (0 < work q → can_move q ≡ true))
      (some_inj h) (omega arith, refl, some-can_move p w)
drive-work f (m ∷ ms) p {p'} w h = elim (Option-cases (worked m p)) [
  | inl e ↦ absurd (cc (rw (e, drive) at h))
  | inr (p₁, e) ↦
      let s = worked-Stepped f m p e in
      let w₁ : 0 < p₁.workers = omega (arith, w, s.as_many) in
      let (less, kept, on) = drive-work f ms p₁ w₁ (rw (e, drive) at h) in
      (omega (arith, less, s.less), kept ∙ s.kept, on)
]
