-- ===== src/Worker/Steps.antt =====
-- What the senders and the workers do keeps the pools within their bounds, and those that are held open.
use chowkidar.Prelude.{
  ℕ, ◌≤◌, ◌≡◌, refl, true, List, [], ◌∷◌, Option, none, some, length, length-append, ltb, nat_eq,
  arith, All, Bool-cases, Option-cases, inl, inr,
}
use chowkidar.Worker.{
  Pool, new_pool, enqueue, Sending, sent, blocks, panics, receive, received, finish, ended, pull,
  close, Board, ask, send, settled, send_found, changed, on_pool, onto, pool_at, put_at,
}
use chowkidar.Worker.Drain.{Without, pull-Without}
use chowkidar.Worker.Places.{Apart, is_open, open-put_at, All-pool_at, All-put_at, All-map}

-- No more jobs queued than the channel takes, and no more running than there are workers.
pub record Within {A : Type 0} (p : Pool A) : Type 0 where
  pub few_queued : length p.queue ≤ p.size
  pub few_running : length p.running ≤ p.workers

-- The app's pool and those that it has given up and not yet stopped.
abbrev pub held : {A : Type 0} → Board A → List ℕ
held b = onto b.current b.retired

-- All pools are within their bounds; those that are held are different ones, and open.
pub record IsSound {A : Type 0} (b : Board A) : Type 0 where
  pub bounded : All Within b.pools
  pub apart : Apart (held b)
  pub are_open : All (λ n. is_open b.pools n ≡ true) (held b)

module _ {A : Type 0} where
  -- A step of a pool keeps its bounds and neither opens nor closes it.
  abbrev Follows : Pool A → Option (Pool A) → Type 0
  Follows p none = Unit
  Follows p (some q) = Within q × (q.closed ≡ p.closed)

  received-Follows :
      (p : Pool A) (queue : List A)
      → Within (record p { queue = queue })
      → Follows p (received p queue)
  received-Follows p [] h = tt
  received-Follows p (j ∷ js) h = elim (Bool-cases (ltb (length p.running) p.workers)) [
    | inl e ↦ rw e (
      record {
        few_queued = omega (arith, h.few_queued);
        few_running = ground (arith, length-append p.running (j ∷ []));
      },
      refl,
    )
    | inr e ↦ rw e tt
  ]

  pub receive-Follows : (p : Pool A) → Within p → Follows p (receive p)
  unfolding receive
  receive-Follows p h = received-Follows p p.queue h

  ended-Follows :
      (p : Pool A) (found : Option (A × List A))
      → ((q : A × List A) → found ≡ some q → Without (λ x. true) p.running q)
      → Within p
      → Follows p (ended p found)
  ended-Follows p none w h = tt
  ended-Follows p (some (j, rest)) w h =
      let (t, l) = w (j, rest) refl in
      (record { few_queued = h.few_queued; few_running = omega (arith, l, h.few_running) }, refl)

  pub finish-Follows : (n : ℕ) (p : Pool A) → Within p → Follows p (finish n p)
  unfolding finish
  finish-Follows n p h =
      ended-Follows p (pull n p.running) (λ q e. pull-Without (λ x. true) n p.running e) h

  changed-Follows :
      (p : Pool A) (o : Option (Pool A))
      → Within p
      → Follows p o
      → Within (changed p o) × ((changed p o).closed ≡ p.closed)
  changed-Follows p none h k = (h, refl)
  changed-Follows p (some q) h k = k

  abbrev Sends : Pool A → Sending A → Type 0
  Sends p (sent q) = Within q × (q.closed ≡ p.closed)
  Sends p blocks = Unit
  Sends p panics = Unit

  enqueue-Sends : (j : A) (p : Pool A) → Within p → Sends p (enqueue j p)
  unfolding enqueue
  enqueue-Sends j p h = elim (Bool-cases p.closed) [
    | inl c ↦ rw c tt
    | inr c ↦ rw c (elim (Bool-cases (nat_eq p.size 0)) [
      | inl e ↦ rw e (elim (Bool-cases (ltb (length p.running) p.workers)) [
        | inl l ↦ rw l (
          record {
            few_queued = h.few_queued;
            few_running = ground (arith, length-append p.running (j ∷ []));
          },
          refl,
        )
        | inr l ↦ rw l tt
      ])
      | inr e ↦ rw e (elim (Bool-cases (ltb (length p.queue) p.size)) [
        | inl l ↦ rw l (
          record {
            few_queued = ground (arith, length-append p.queue (j ∷ []));
            few_running = h.few_running;
          },
          refl,
        )
        | inr l ↦ rw l tt
      ])
    ])
  ]

  -- A pool that is put in the place of one that is as open.
  put-IsSound :
      (n : ℕ) (p q : Pool A) (senders : List (ℕ × A)) (b : Board A)
      → pool_at n b.pools ≡ some p
      → Within q
      → q.closed ≡ p.closed
      → IsSound b
      → IsSound (record b { pools = put_at n q b.pools; senders = senders })
  put-IsSound n p q senders b e w c h = record {
    bounded = All-put_at Within b.pools n q h.bounded w;
    apart = h.apart;
    are_open = All-map _ _ (held b) (λ m. open-put_at b.pools n m q e c) h.are_open;
  }

  settled-IsSound :
      (n : ℕ) (p : Pool A) (senders : List (ℕ × A)) (b : Board A) (o : Sending A)
      → pool_at n b.pools ≡ some p
      → Sends p o
      → IsSound b
      → IsSound (settled n senders b o)
  settled-IsSound n p senders b (sent q) e (w, c) h = put-IsSound n p q senders b e w c h
  settled-IsSound n p senders b blocks e k h = h
  settled-IsSound n p senders b panics e k h = record {
    bounded = h.bounded;
    apart = h.apart;
    are_open = h.are_open;
  }

  send-IsSound :
      (n : ℕ) (j : A) (senders : List (ℕ × A)) (b : Board A)
      → IsSound b
      → IsSound (send n j senders b)
  unfolding send
  send-IsSound n j senders b h = elim (Option-cases (pool_at n b.pools)) [
    | inl e ↦ rw (e, send) h
    | inr (p, e) ↦
        rw (e, send)
          (settled-IsSound n p senders b (enqueue j p) e
            (enqueue-Sends j p (All-pool_at Within b.pools n h.bounded e)) h)
  ]

  pub sends-IsSound :
      (b : Board A) (found : Option ((ℕ × A) × List (ℕ × A)))
      → IsSound b
      → IsSound (send_found b found)
  unfolding send_found
  sends-IsSound b none h = h
  sends-IsSound b (some ((n, j), rest)) h = send-IsSound n j rest b h

  pub on_pool-IsSound :
      (step : Pool A → Option (Pool A)) (n : ℕ) (b : Board A)
      → ((p : Pool A) → Within p → Follows p (step p))
      → IsSound b
      → IsSound (on_pool step n b)
  unfolding on_pool
  on_pool-IsSound step n b k h = elim (Option-cases (pool_at n b.pools)) [
    | inl e ↦ rw (e, on_pool) h
    | inr (p, e) ↦
        let within = All-pool_at Within b.pools n h.bounded e in
        let (w, c) = changed-Follows p (step p) within (k p within) in
        rw (e, on_pool) (put-IsSound n p (changed p (step p)) b.senders b e w c h)
  ]

  pub ask-IsSound : (j : A) (b : Board A) → IsSound b → IsSound (ask j b)
  unfolding ask
  ask-IsSound j b h = elim (Option-cases b.current) [
    | inl e ↦ rw (e, ask) h
    | inr (n, e) ↦
        rw (e, ask) (record { bounded = h.bounded; apart = h.apart; are_open = h.are_open })
  ]

  pub close-Within : (p : Pool A) → Within p → Within (close p)
  unfolding close
  close-Within p h = record { few_queued = h.few_queued; few_running = h.few_running }

  pub new_pool-Within : (workers size : ℕ) → Within (new_pool {A = A} workers size)
  unfolding new_pool
  new_pool-Within workers size = record { few_queued = omega arith; few_running = omega arith }
