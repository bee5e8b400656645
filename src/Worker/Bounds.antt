-- ===== src/Worker/Bounds.antt =====
-- The pools stay within their bounds, and those that the app holds or has to stop are open.
use chowkidar.Prelude.{
  ℕ, ◌≡◌, refl, Bool, true, false, List, [], ◌∷◌, Option, none, some, arith, if◌then◌else◌, All,
  Option-cases, inl, inr, not, ap, ◌∙◌, sym,
}
use chowkidar.Worker.{
  Pool, new_pool, receive, finish, pull, close, Board, Move, asks, sends, receives, finishes,
  replaces, stops, closes, replace_pool, stop_pool, stop_retired, move, moves, started, onto,
  pool_at, put_at,
}
use chowkidar.Worker.Places.{
  Taken, pull-Taken, Apart, AllApart, pull-AllApart, Differs, Differs-back, is_open, opened,
  open-append, open-last, open-Differs, open-elsewhere, All-pool_at, All-put_at, All-map,
}
use chowkidar.Worker.Steps.{
  Within, IsSound, held, ask-IsSound, sends-IsSound, on_pool-IsSound, receive-Follows,
  finish-Follows, close-Within, new_pool-Within,
}
use chowkidar.Process.Queue.{All-append}

-- What is held when one of the retired pools, of which `P`, is taken out.
abbrev Leaves : (ℕ → Type 0) → Option ℕ → Option (ℕ × List ℕ) → Type 0
Leaves P o none = Unit
Leaves P o (some (n, rest)) =
    All (Differs n) (onto o rest) × Apart (onto o rest) × P n × All P (onto o rest)

without_app :
    (P : ℕ → Type 0) (found : Option (ℕ × List ℕ))
    → AllApart found
    → Taken P found
    → Leaves P none found
unfolding AllApart
without_app P none a h = tt
without_app P (some (n, rest)) (d, a) (h, hs) = (d, a, h, hs)

with_app :
    (P : ℕ → Type 0) (c : ℕ) (found : Option (ℕ × List ℕ))
    → AllApart found
    → Taken P found
    → Taken (Differs c) found
    → P c
    → Leaves P (some c) found
unfolding AllApart Apart
with_app P c none a h t k = tt
with_app P c (some (n, rest)) (d, a) (h, hs) (t, ts) k =
    ((Differs-back c n t, d), (ts, a), h, (k, hs))

leaves :
    (P : ℕ → Type 0) (o : Option ℕ) (n : ℕ) (ns : List ℕ)
    → Apart (onto o ns)
    → All P (onto o ns)
    → Leaves P o (pull n ns)
unfolding Apart
leaves P none n ns a h = without_app P (pull n ns) (pull-AllApart n ns a) (pull-Taken P n ns h)
leaves P (some c) n ns (d, a) (k, h) =
    with_app P c (pull n ns) (pull-AllApart n ns a) (pull-Taken P n ns h)
      (pull-Taken (Differs c) n ns d) k

module _ {A : Type 0} where
  replace_pool-IsSound :
      (workers size : ℕ) (b : Board A) → IsSound b → IsSound (replace_pool workers size b)
  unfolding replace_pool Apart
  replace_pool-IsSound workers size b h =
      let fresh : Pool A = new_pool workers size in
      record {
        bounded =
            All-append Within b.pools (fresh ∷ []) h.bounded (new_pool-Within workers size, tt);
        apart = (All-map _ _ (held b) (λ n. open-Differs b.pools n) h.are_open, h.apart);
        are_open = (
          open-last b.pools fresh (unfold new_pool in refl),
          All-map _ _ (held b) (λ n. open-append b.pools fresh n) h.are_open,
        );
      }

  stop_pool-IsSound : (b : Board A) → IsSound b → IsSound (stop_pool b)
  unfolding stop_pool
  stop_pool-IsSound b h = record { bounded = h.bounded; apart = h.apart; are_open = h.are_open }

  -- A retired pool is stopped: it was open, so that it is closed now and never again.
  stopped-IsSound :
      (b : Board A) (found : Option (ℕ × List ℕ))
      → Leaves (λ n. is_open b.pools n ≡ true) b.current found
      → IsSound b
      → IsSound (stop_retired b found) × ((stop_retired b found).crashed ≡ b.crashed)
  unfolding stop_retired
  stopped-IsSound b none l h = (h, refl)
  stopped-IsSound b (some (n, rest)) (d, a, o, os) h = elim (Option-cases (pool_at n b.pools)) [
    | inl e ↦ rw (e, stop_retired) (record { bounded = h.bounded; apart = a; are_open = os }, refl)
    | inr (p, e) ↦
        rw (e, still_open p e, stop_retired)
          (
            record {
              bounded =
                  All-put_at Within b.pools n (close p) h.bounded
                    (close-Within p (All-pool_at Within b.pools n h.bounded e));
              apart = a;
              are_open = others p (onto b.current rest) d os;
            },
            refl,
          )
  ]
    where
      still_open : (p : Pool A) → pool_at n b.pools ≡ some p → p.closed ≡ false
      still_open p e =
          let q : not p.closed ≡ true = sym (ap opened e) ∙ (unfold is_open in o) in ground arith

      others :
          (p : Pool A) (ns : List ℕ)
          → All (Differs n) ns
          → All (λ m. is_open b.pools m ≡ true) ns
          → All (λ m. is_open (put_at n (close p) b.pools) m ≡ true) ns
      others p [] d o = tt
      others p (m ∷ ns) (d, ds) (o, os) =
          (open-elsewhere b.pools n m (close p) d o, others p ns ds os)

  -- No Stop panics.
  pub closes-IsSound :
      (n : ℕ) (b : Board A)
      → IsSound b
      → IsSound (move (closes n) b) × ((move (closes n) b).crashed ≡ b.crashed)
  unfolding move
  closes-IsSound n b h =
      stopped-IsSound b (pull n b.retired) (leaves _ b.current n b.retired h.apart h.are_open) h

  move-IsSound : (m : Move A) (b : Board A) → IsSound b → IsSound (move m b)
  unfolding move
  move-IsSound (asks j) b h = ask-IsSound j b h
  move-IsSound (sends n) b h = sends-IsSound b (pull n b.senders) h
  move-IsSound (receives which) b h = on_pool-IsSound receive which b receive-Follows h
  move-IsSound (finishes which n) b h = on_pool-IsSound (finish n) which b (finish-Follows n) h
  move-IsSound (replaces workers size) b h = replace_pool-IsSound workers size b h
  move-IsSound stops b h = stop_pool-IsSound b h
  move-IsSound (closes n) b h = (closes-IsSound n b h).0

  one_of : (c : Bool) (x y : Board A) → IsSound x → IsSound y → IsSound (if c then x else y)
  one_of true x y h k = h
  one_of false x y h k = k

  moves-kept : (ms : List (Move A)) (b : Board A) → IsSound b → IsSound (moves ms b)
  unfolding moves
  moves-kept [] b h = h
  moves-kept (m ∷ ms) b h =
      one_of b.crashed b (moves ms (move m b)) h (moves-kept ms (move m b) (move-IsSound m b h))

-- Whatever the senders, the workers and the app do, in whatever order, no pool has more jobs queued than its
-- size or more running than its workers, and the app's pool and the pools whose Stop is still to come are
-- different ones and open; so the Stop that comes next, of any of these, ends no program with a panic.
pub moves-IsSound :
    {A : Type 0} (ms : List (Move A)) (workers size n : ℕ)
    → let b = moves ms (started workers size) in
      IsSound b × ((move (closes n) b).crashed ≡ b.crashed)
moves-IsSound {A = A} ms workers size n =
    let sound = moves-kept ms (started workers size) first in (sound, (closes-IsSound n _ sound).1)
  where
    first : IsSound {A = A} (started workers size)
    first =
        unfold Apart is_open pool_at new_pool in
        record {
          bounded = (new_pool-Within workers size, tt);
          apart = (tt, tt);
          are_open = (refl, tt);
        }
