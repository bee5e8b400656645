-- ===== src/Worker/Places.antt =====
-- The pools at their places, and the numbers of those that the app still holds or has to stop.
use chowkidar.Prelude.{
  ℕ, zero, suc, ◌≡◌, refl, Bool, true, false, not, List, [], ◌∷◌, ◌++◌, Option, none, some, length,
  nat_eq, arith, All, subst,
}
use chowkidar.Crypto.Laws.{some_inj}
use chowkidar.Worker.{Pool, pool_at, put_at, pull, behind}

-- A list that only one element was taken out of, with `P` of that and of the others.
abbrev pub Taken : {A : Type 0} → (A → Type 0) → Option (A × List A) → Type 0
Taken P none = Unit
Taken P (some (x, rest)) = P x × All P rest

behind-Taken :
    {A : Type 0} (P : A → Type 0) (x : A) (o : Option (A × List A))
    → P x
    → Taken P o
    → Taken P (behind x o)
behind-Taken P x none h k = tt
behind-Taken P x (some (y, rest)) h (k, ks) = (k, (h, ks))

pub pull-Taken :
    {A : Type 0} (P : A → Type 0) (n : ℕ) (xs : List A) → All P xs → Taken P (pull n xs)
unfolding pull
pull-Taken P n [] h = tt
pull-Taken P zero (x ∷ xs) (h, hs) = (h, hs)
pull-Taken P (suc n) (x ∷ xs) (h, hs) = behind-Taken P x (pull n xs) h (pull-Taken P n xs hs)

-- The numbers are different ones.
abbrev pub Differs : ℕ → ℕ → Type 0
Differs n m = nat_eq m n ≡ false

unfoldable pub Apart : List ℕ → Type 0
Apart [] = Unit
Apart (n ∷ ns) = All (Differs n) ns × Apart ns

unfoldable pub AllApart : Option (ℕ × List ℕ) → Type 0
AllApart none = Unit
AllApart (some (n, rest)) = All (Differs n) rest × Apart rest

pub Differs-back : (n m : ℕ) → Differs n m → Differs m n
Differs-back n m h = ground arith

behind-AllApart :
    (n : ℕ) (o : Option (ℕ × List ℕ)) → Taken (Differs n) o → AllApart o → AllApart (behind n o)
unfolding AllApart Apart
behind-AllApart n none h k = tt
behind-AllApart n (some (m, rest)) (d, ds) (k, a) = ((Differs-back n m d, k), (ds, a))

pub pull-AllApart : (n : ℕ) (ns : List ℕ) → Apart ns → AllApart (pull n ns)
unfolding pull Apart AllApart
pull-AllApart n [] h = tt
pull-AllApart zero (m ∷ ns) h = h
pull-AllApart (suc n) (m ∷ ns) (d, a) =
    behind-AllApart m (pull n ns) (pull-Taken (Differs m) n ns d) (pull-AllApart n ns a)

module _ {A : Type 0} where
  abbrev pub opened : Option (Pool A) → Bool
  opened none = false
  opened (some p) = not p.closed

  -- There is an open pool with the number.
  unfoldable pub is_open : List (Pool A) → ℕ → Bool
  unfolding pool_at
  is_open ps n = opened (pool_at n ps)

  pub open-append :
      (ps : List (Pool A)) (q : Pool A) (n : ℕ)
      → is_open ps n ≡ true
      → is_open (ps ++ q ∷ []) n ≡ true
  unfolding is_open pool_at
  open-append [] q n h = absurd (cc)
  open-append (p ∷ ps) q zero h = h
  open-append (p ∷ ps) q (suc n) h = unfold is_open in open-append ps q n h

  pub open-last :
      (ps : List (Pool A)) (q : Pool A)
      → q.closed ≡ false
      → is_open (ps ++ q ∷ []) (length ps) ≡ true
  unfolding is_open pool_at
  open-last [] q h = rw h refl
  open-last (p ∷ ps) q h = open-last ps q h

  -- The number behind the last one is new.
  pub open-Differs : (ps : List (Pool A)) (n : ℕ) → is_open ps n ≡ true → Differs (length ps) n
  unfolding is_open pool_at
  open-Differs [] n h = absurd (cc)
  open-Differs (p ∷ ps) zero h = ground arith
  open-Differs (p ∷ ps) (suc n) h = let later = open-Differs ps n h in ground (arith, later)

  -- A pool that is put in the place of another one, as open as that, leaves all as open as they were.
  pub open-put_at :
      (ps : List (Pool A)) (n m : ℕ) (q : Pool A) {p : Pool A}
      → pool_at n ps ≡ some p
      → q.closed ≡ p.closed
      → is_open ps m ≡ true
      → is_open (put_at n q ps) m ≡ true
  unfolding is_open pool_at put_at
  open-put_at [] n m q e c h = h
  open-put_at (x ∷ ps) zero zero q e c h = ground (arith, e, c, h)
  open-put_at (x ∷ ps) zero (suc m) q e c h = h
  open-put_at (x ∷ ps) (suc n) zero q e c h = h
  open-put_at (x ∷ ps) (suc n) (suc m) q e c h = open-put_at ps n m q e c h

  pub open-elsewhere :
      (ps : List (Pool A)) (n m : ℕ) (q : Pool A)
      → Differs n m
      → is_open ps m ≡ true
      → is_open (put_at n q ps) m ≡ true
  unfolding is_open pool_at put_at
  open-elsewhere [] n m q d h = h
  open-elsewhere (x ∷ ps) zero zero q d h = absurd (ground (arith, d))
  open-elsewhere (x ∷ ps) zero (suc m) q d h = h
  open-elsewhere (x ∷ ps) (suc n) zero q d h = h
  open-elsewhere (x ∷ ps) (suc n) (suc m) q d h = open-elsewhere ps n m q (ground (arith, d)) h

  pub All-pool_at :
      (P : Pool A → Type 0) (ps : List (Pool A)) (n : ℕ) {p : Pool A}
      → All P ps
      → pool_at n ps ≡ some p
      → P p
  unfolding pool_at
  All-pool_at P [] n h e = absurd (cc)
  All-pool_at P (x ∷ ps) zero (h, hs) e = subst P (some_inj e) h
  All-pool_at P (x ∷ ps) (suc n) (h, hs) e = All-pool_at P ps n hs e

  pub All-put_at :
      (P : Pool A → Type 0) (ps : List (Pool A)) (n : ℕ) (q : Pool A)
      → All P ps
      → P q
      → All P (put_at n q ps)
  unfolding put_at
  All-put_at P [] n q h k = tt
  All-put_at P (x ∷ ps) zero q (h, hs) k = (k, hs)
  All-put_at P (x ∷ ps) (suc n) q (h, hs) k = (h, All-put_at P ps n q hs k)

  pub pool_at-append :
      (ps qs : List (Pool A)) (n : ℕ) {p : Pool A}
      → pool_at n ps ≡ some p
      → pool_at n (ps ++ qs) ≡ some p
  unfolding pool_at
  pool_at-append [] qs n e = absurd (cc)
  pool_at-append (x ∷ ps) qs zero e = e
  pool_at-append (x ∷ ps) qs (suc n) e = pool_at-append ps qs n e

  pub pool_at-put_at :
      (ps : List (Pool A)) (n : ℕ) (q : Pool A) {p : Pool A}
      → pool_at n ps ≡ some p
      → pool_at n (put_at n q ps) ≡ some q
  unfolding pool_at put_at
  pool_at-put_at [] n q e = absurd (cc)
  pool_at-put_at (x ∷ ps) zero q e = refl
  pool_at-put_at (x ∷ ps) (suc n) q e = pool_at-put_at ps n q e

pub All-map :
    {A : Type 0} (P Q : A → Type 0) (xs : List A) → ((x : A) → P x → Q x) → All P xs → All Q xs
All-map P Q [] f h = tt
All-map P Q (x ∷ xs) f (h, hs) = (f x h, All-map P Q xs f hs)
