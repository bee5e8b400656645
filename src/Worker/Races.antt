-- ===== src/Worker/Races.antt =====
-- A sender that read a pool before it was replaced.
use chowkidar.Prelude.{
  ℕ, ◌≡◌, refl, sym, subst, Bool, true, false, List, [], ◌∷◌, ◌++◌, Option, some, length, ap, ◌∙◌,
  nat_eq, ltb, if◌then◌else◌,
}
use chowkidar.Worker.{
  Pool, new_pool, enqueue, sent, blocks, settled, close, Board, asks, sends, replaces, closes, ask,
  send, replace_pool, send_found, stop_retired, move, moves, pull, behind, pool_at, put_at,
}
use chowkidar.Worker.Places.{pool_at-append, pool_at-put_at}

-- The element behind a list is found at the place that is the list's length.
pull-last : {A : Type 0} (xs : List A) (x : A) → pull (length xs) (xs ++ x ∷ []) ≡ some (x, xs)
unfolding pull
pull-last [] x = refl
pull-last (y ∷ xs) x = ap (behind y) (pull-last xs x)

-- A caller of enqueueJob reads the app's pool, the pool is replaced, and the old one is stopped.
module _ {A : Type 0} (j : A) (workers size : ℕ) (b : Board A) (n : ℕ) {p : Pool A}
    (here : pool_at n b.pools ≡ some p) (is_open : p.closed ≡ false) where
  at_replace : Board A
  at_replace = replace_pool workers size (ask j (record b { current = some n; crashed = false }))

  still_there : pool_at n at_replace.pools ≡ some p
  unfolding at_replace replace_pool ask
  still_there = pool_at-append b.pools (new_pool workers size ∷ []) n here

  at_close : Board A
  at_close = record at_replace { pools = put_at n (close p) at_replace.pools; retired = b.retired }

  closed_now : stop_retired at_replace (some (n, b.retired)) ≡ at_close
  unfolding at_close stop_retired put_at at_replace
  closed_now = rw (still_there, is_open, stop_retired) refl

  send_late : (send n j b.senders at_close).crashed ≡ true
  unfolding at_close send
  send_late =
      rw (pool_at-put_at at_replace.pools n (close p) still_there, send)
        (unfold enqueue close in refl)

  calm :
      (c d e : Bool) (x y : Pool A)
      → (settled n b.senders at_replace
          (if c then if d then sent x else blocks else if e then sent y else blocks)).crashed
        ≡ false
  unfolding at_replace replace_pool ask
  calm true true e x y = refl
  calm true false e x y = refl
  calm false d true x y = refl
  calm false d false x y = refl

  send_early : (send n j b.senders at_replace).crashed ≡ false
  unfolding send enqueue
  send_early =
      rw (still_there, is_open, send, enqueue)
        (calm (nat_eq p.size 0) (ltb (length p.running) p.workers) (ltb (length p.queue) p.size) _
          _)

-- A caller of enqueueJob that has read the app's open pool and sends after the pool was replaced and the old
-- one stopped ends the program with a panic, whatever is in the pool; if it sends between the two, it does
-- not.
pub stale_send_panics :
    {A : Type 0} (j : A) (workers size : ℕ) (b : Board A) (n : ℕ) (p : Pool A)
    → b.current ≡ some n
    → pool_at n b.pools ≡ some p
    → p.closed ≡ false
    → b.crashed ≡ false
    → let late = asks j ∷ replaces workers size ∷ closes 0 ∷ sends (length b.senders) ∷ [] in
      let early = asks j ∷ replaces workers size ∷ sends (length b.senders) ∷ [] in
      ((moves late b).crashed ≡ true) × ((moves early b).crashed ≡ false)
unfolding moves move at_replace at_close replace_pool ask send_found pull
stale_send_panics {A = A} j workers size b n p c here is_open running =
    let ends = λ (o : Option ℕ) (x : Bool).
      let b' : Board A = record b { current = o; crashed = x } in
      let late = asks j ∷ replaces workers size ∷ closes 0 ∷ sends (length b.senders) ∷ [] in
      let early = asks j ∷ replaces workers size ∷ sends (length b.senders) ∷ [] in
      ((moves late b').crashed ≡ true) × ((moves early b').crashed ≡ false) in
    subst (λ o. ends o b.crashed) (sym c)
      (subst (λ x. ends (some n) x) (sym running)
        (
          ap stop_and_send (closed_now j workers size b n here is_open)
              ∙ ap (λ found. (send_found (at_close j workers size b n here is_open) found).crashed)
                  (pull-last b.senders (n, j))
              ∙ send_late j workers size b n here is_open,
          ap (λ found. (send_found (at_replace j workers size b n here is_open) found).crashed)
                (pull-last b.senders (n, j))
              ∙ send_early j workers size b n here is_open,
        ))
  where
    stop_and_send : Board A → Bool
    stop_and_send x =
        (if x.crashed then x else send_found x (pull (length b.senders) x.senders)).crashed
