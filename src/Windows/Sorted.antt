-- ===== src/Windows/Sorted.antt =====
-- dedupeIntsInRange: its results are in range and ascending, and it leaves such lists alone.
use chowkidar.Prelude.{
  ◌≡◌, refl, true, false, ◌||◌, List, [], ◌∷◌, ℤ, ltb_ℤ, leb_ℤ, All, any, arith, Bool-cases, inl,
  inr, ap,
}
use chowkidar.Prelude.Checks.{good, good_bind, good_inj}
use chowkidar.Prelude.{String}
use chowkidar.Schedule.{nonempty}
use chowkidar.Windows.{same_int, distinct_in_range, insert_int, sort_ints, dedupe_ints_in_range}

abbrev pub IsBetween : ℤ → ℤ → ℤ → Type 0
IsBetween min max n = (ltb_ℤ n min || ltb_ℤ max n) ≡ false

abbrev pub IsAscending : List ℤ → Type 0
IsAscending [] = Unit
IsAscending (x ∷ xs) = All (λ y. ltb_ℤ x y ≡ true) xs × IsAscending xs

-- No two entries are the same.
abbrev Apart : List ℤ → Type 0
Apart [] = Unit
Apart (x ∷ xs) = All (λ y. same_int y x ≡ false) xs × Apart xs

All-imp : {P Q : ℤ → Type 0} (f : (x : ℤ) → P x → Q x) (xs : List ℤ) → All P xs → All Q xs
All-imp f [] h = tt
All-imp f (x ∷ xs) (h, hs) = (f x h, All-imp f xs hs)

same_int-any :
    (n k : ℤ) (seen : List ℤ) → same_int n k ≡ true → any (same_int n) seen ≡ any (same_int k) seen
same_int-any n k [] h = refl
same_int-any n k (x ∷ xs) h = ground (arith, same_int-any n k xs)

module _ (min max : ℤ) (label : String) where
  -- The three ways through one round of the loop.
  round :
      {C : Type 0} (seen : List ℤ) (n : ℤ) (ns : List ℤ) {out : List ℤ}
      → distinct_in_range min max label seen (n ∷ ns) ≡ good out
      → (any (same_int n) seen ≡ true → distinct_in_range min max label seen ns ≡ good out → C)
      → ((rest : List ℤ)
          → IsBetween min max n
          → any (same_int n) seen ≡ false
          → distinct_in_range min max label (n ∷ seen) ns ≡ good rest
          → out ≡ n ∷ rest
          → C)
      → C
  unfolding distinct_in_range
  round seen n ns h old new = elim (Bool-cases (ltb_ℤ n min || ltb_ℤ max n)) [
    | inl outside ↦ absurd (ground (arith, h))
    | inr inside ↦ elim (Bool-cases (any (same_int n) seen)) [
      | inl known ↦ old known (rw (inside, known) at h)
      | inr fresh ↦
          let (rest, e, q) =
            good_bind (distinct_in_range min max label (n ∷ seen) ns) _ (rw (inside, fresh) at h) in
          new rest inside fresh e (cc)
    ]
  ]

  distinct-All :
      (seen ns : List ℤ) {out : List ℤ}
      → distinct_in_range min max label seen ns ≡ good out
      → All (IsBetween min max) out
  unfolding distinct_in_range
  distinct-All seen [] h = rw (← (good_inj h)) tt
  distinct-All seen (n ∷ ns) h =
      round seen n ns h (λ known e. distinct-All seen ns e)
        (λ rest inside fresh e q. rw q (inside, distinct-All (n ∷ seen) ns e))

  -- What was seen does not come again.
  distinct-unseen :
      (k : ℤ) (seen ns : List ℤ) {out : List ℤ}
      → any (same_int k) seen ≡ true
      → distinct_in_range min max label seen ns ≡ good out
      → All (λ y. same_int y k ≡ false) out
  unfolding distinct_in_range
  distinct-unseen k seen [] s h = rw (← (good_inj h)) tt
  distinct-unseen k seen (n ∷ ns) s h =
      round seen n ns h (λ known e. distinct-unseen k seen ns s e)
        (λ rest inside fresh e q.
          rw q (
            ground (arith, same_int-any n k seen),
            distinct-unseen k (n ∷ seen) ns (ground arith) e,
          ))

  distinct-Apart :
      (seen ns : List ℤ) {out : List ℤ}
      → distinct_in_range min max label seen ns ≡ good out
      → Apart out
  unfolding distinct_in_range
  distinct-Apart seen [] h = rw (← (good_inj h)) tt
  distinct-Apart seen (n ∷ ns) h =
      round seen n ns h (λ known e. distinct-Apart seen ns e)
        (λ rest inside fresh e q.
          rw q (distinct-unseen n (n ∷ seen) ns (ground arith) e, distinct-Apart (n ∷ seen) ns e))

  distinct_of_IsAscending :
      (seen ns : List ℤ)
      → All (λ n. any (same_int n) seen ≡ false) ns
      → All (IsBetween min max) ns
      → IsAscending ns
      → distinct_in_range min max label seen ns ≡ good ns
  unfolding distinct_in_range
  distinct_of_IsAscending seen [] u b a = refl
  distinct_of_IsAscending seen (n ∷ ns) (u, us) (b, bs) (a, as') =
      rw (b, u) (rw (distinct_of_IsAscending (n ∷ seen) ns (apart n seen ns a us) bs as') refl)
    where
      apart :
          (n : ℤ) (seen xs : List ℤ)
          → All (λ y. ltb_ℤ n y ≡ true) xs
          → All (λ m. any (same_int m) seen ≡ false) xs
          → All (λ m. any (same_int m) (n ∷ seen) ≡ false) xs
      apart n seen [] a u = tt
      apart n seen (x ∷ xs) (a, as') (u, us) = (ground arith, apart n seen xs as' us)

insert-All : (P : ℤ → Type 0) (n : ℤ) (ms : List ℤ) → P n → All P ms → All P (insert_int n ms)
unfolding insert_int
insert-All P n [] p h = (p, tt)
insert-All P n (m ∷ ms) p (h, hs) = elim (Bool-cases (leb_ℤ n m)) [
  | inl e ↦ rw e (p, (h, hs))
  | inr e ↦ rw e (h, insert-All P n ms p hs)
]

sort-All : (P : ℤ → Type 0) (ns : List ℤ) → All P ns → All P (sort_ints ns)
unfolding sort_ints
sort-All P [] h = tt
sort-All P (n ∷ ns) (h, hs) = insert-All P n (sort_ints ns) h (sort-All P ns hs)

insert-IsAscending :
    (n : ℤ) (ms : List ℤ)
    → All (λ m. same_int m n ≡ false) ms
    → IsAscending ms
    → IsAscending (insert_int n ms)
unfolding insert_int
insert-IsAscending n [] d a = (tt, tt)
insert-IsAscending n (m ∷ ms) (d, ds) (a, as') = elim (Bool-cases (leb_ℤ n m)) [
  | inl e ↦ rw e ((ground arith, All-imp (λ y h. ground arith) ms a), (a, as'))
  | inr e ↦ rw e (insert-All _ n ms (ground arith) a, insert-IsAscending n ms ds as')
]

sort-IsAscending : (ns : List ℤ) → Apart ns → IsAscending (sort_ints ns)
unfolding sort_ints
sort-IsAscending [] h = tt
sort-IsAscending (n ∷ ns) (h, hs) =
    insert-IsAscending n (sort_ints ns) (sort-All _ ns h) (sort-IsAscending ns hs)

sort_of_IsAscending : (ns : List ℤ) → IsAscending ns → sort_ints ns ≡ ns
unfolding sort_ints insert_int
sort_of_IsAscending [] h = refl
sort_of_IsAscending (n ∷ []) h = refl
sort_of_IsAscending (n ∷ m ∷ ns) ((a, rest), h) = rw (sort_of_IsAscending (m ∷ ns) h) (ground arith)

insert-nonempty : (n : ℤ) (ms : List ℤ) → nonempty (insert_int n ms) ≡ true
unfolding insert_int
insert-nonempty n [] = refl
insert-nonempty n (m ∷ ms) = ground arith

module _ (ns : List ℤ) (min max : ℤ) (label : String) where
  pub dedupe_ints-IsAscending :
      {out : List ℤ}
      → dedupe_ints_in_range ns min max label ≡ good out
      → IsAscending out × All (IsBetween min max) out
  unfolding dedupe_ints_in_range
  dedupe_ints-IsAscending h =
      let (mid, e, q) = good_bind (distinct_in_range min max label [] ns) _ h in
      rw (← (good_inj q)) (
        sort-IsAscending mid (distinct-Apart min max label [] ns e),
        sort-All _ mid (distinct-All min max label [] ns e),
      )

  pub dedupe_ints_of_IsAscending :
      IsAscending ns → All (IsBetween min max) ns → dedupe_ints_in_range ns min max label ≡ good ns
  unfolding dedupe_ints_in_range
  dedupe_ints_of_IsAscending a b =
      rw (distinct_of_IsAscending min max label [] ns (nothing_seen ns) b a)
        (ap good (sort_of_IsAscending ns a))
    where
      nothing_seen : (xs : List ℤ) → All (λ n. any (same_int n) [] ≡ false) xs
      nothing_seen [] = tt
      nothing_seen (x ∷ xs) = (refl, nothing_seen xs)

pub dedupe_ints-nonempty :
    (ns : List ℤ) (min max : ℤ) (label : String) {out : List ℤ}
    → nonempty ns ≡ true
    → dedupe_ints_in_range ns min max label ≡ good out
    → nonempty out ≡ true
unfolding dedupe_ints_in_range sort_ints distinct_in_range
dedupe_ints-nonempty [] min max label n h = absurd (cc)
dedupe_ints-nonempty (n ∷ ns) min max label t h =
    let (mid, e, q) = good_bind (distinct_in_range min max label [] (n ∷ ns)) _ h in
    round min max label [] n ns e (λ known f. absurd (cc))
      (λ rest inside fresh f g. rw (← (good_inj q)) (rw g (insert-nonempty n (sort_ints rest))))
