-- ===== src/Worker.antt =====
-- internal/worker/pool.go, and enqueueJob, replacePool and stopPool of cmd/server/main.go: pools of workers
-- with a bounded queue, and the senders that hand them jobs. A channel is the list of the jobs in it; what
-- a job does while it runs is not looked at here.
pub mod Drain
pub mod Places
pub mod Steps
pub mod Bounds
pub mod Races
use chowkidar.Prelude.{
  ℕ, zero, suc, ◌+◌, Bool, true, false, List, [], ◌∷◌, ◌++◌, Option, none, some, length, ltb,
  nat_eq, if◌then◌else◌,
}

-- Pool, with the jobs that its workers run and those they have run.
pub record Pool (A : Type 0) : Type 0 where
  pub workers : ℕ
  pub size : ℕ
  pub closed : Bool
  pub queue : List A
  pub running : List A
  pub done : List A

unfoldable pub new_pool : {A : Type 0} → ℕ → ℕ → Pool A
new_pool workers size = record {
  workers = workers;
  size = size;
  closed = false;
  queue = [];
  running = [];
  done = [];
}

-- `panics` is a send on a closed channel.
pub data Sending (A : Type 0) : Type 0 where
  sent : Pool A → Sending A
  blocks panics : Sending A

abbrev pub behind : {A : Type 0} → A → Option (A × List A) → Option (A × List A)
behind x none = none
behind x (some (y, ys)) = some (y, x ∷ ys)

-- The element at a place, and those without it.
unfoldable pub pull : {A : Type 0} → ℕ → List A → Option (A × List A)
pull n [] = none
pull zero (x ∷ xs) = some (x, xs)
pull (suc n) (x ∷ xs) = behind x (pull n xs)

module _ {A : Type 0} where
  -- Enqueue; a channel of size 0 hands the job to a worker that waits.
  unfoldable pub enqueue : A → Pool A → Sending A
  enqueue j p =
      if p.closed
      then panics
      else if nat_eq p.size 0
      then (if ltb (length p.running) p.workers
          then sent (record p { running = p.running ++ j ∷ [] })
          else blocks)
      else if ltb (length p.queue) p.size
      then sent (record p { queue = p.queue ++ j ∷ [] })
      else blocks

  abbrev pub received : Pool A → List A → Option (Pool A)
  received p [] = none
  received p (j ∷ js) =
      if ltb (length p.running) p.workers
      then some (record p { queue = js; running = p.running ++ j ∷ [] })
      else none

  -- A worker that is free receives a job, if there is one.
  unfoldable pub receive : Pool A → Option (Pool A)
  receive p = received p p.queue

  abbrev pub ended : Pool A → Option (A × List A) → Option (Pool A)
  ended p none = none
  ended p (some (j, rest)) = some (record p { running = rest; done = p.done ++ j ∷ [] })

  -- The run of a job comes to its end.
  unfoldable pub finish : ℕ → Pool A → Option (Pool A)
  unfolding pull
  finish n p = ended p (pull n p.running)

  -- Stop, up to the wait for the workers.
  unfoldable pub close : Pool A → Pool A
  close p = record p { closed = true }

-- All pools, in the order in which they were made, which is how they are known; the pool of the app; the
-- pools that it gave up and whose Stop is still to come; the callers of enqueueJob that have read the pool
-- and not yet sent, with the pool that they read; and whether the program has ended with a panic.
pub record Board (A : Type 0) : Type 0 where
  pub pools : List (Pool A)
  pub current : Option ℕ
  pub retired : List ℕ
  pub senders : List (ℕ × A)
  pub crashed : Bool

-- `sends n` is the try of the sender at place `n`, `closes n` the Stop of the retired pool at place `n`; a
-- worker receives or finishes a job of the pool with that number.
pub data Move (A : Type 0) : Type 0 where
  asks : A → Move A
  sends : ℕ → Move A
  receives : ℕ → Move A
  finishes : ℕ → ℕ → Move A
  replaces : ℕ → ℕ → Move A
  stops : Move A
  closes : ℕ → Move A

abbrev pub onto : Option ℕ → List ℕ → List ℕ
onto none ns = ns
onto (some n) ns = n ∷ ns

module _ {A : Type 0} where
  unfoldable pub pool_at : ℕ → List (Pool A) → Option (Pool A)
  pool_at n [] = none
  pool_at zero (p ∷ ps) = some p
  pool_at (suc n) (p ∷ ps) = pool_at n ps

  unfoldable pub put_at : ℕ → Pool A → List (Pool A) → List (Pool A)
  put_at n q [] = []
  put_at zero q (p ∷ ps) = q ∷ ps
  put_at (suc n) q (p ∷ ps) = p ∷ put_at n q ps

  -- enqueueJob, up to the send.
  unfoldable pub ask : A → Board A → Board A
  ask j b = elim b.current [ none ↦ b | some n ↦ record b { senders = b.senders ++ (n, j) ∷ [] } ]

  abbrev pub crash : Board A → Board A
  crash b = record b { crashed = true }

  abbrev pub settled : ℕ → List (ℕ × A) → Board A → Sending A → Board A
  settled n senders b (sent p) = record b { pools = put_at n p b.pools; senders = senders }
  settled n senders b blocks = b
  settled n senders b panics = crash b

  -- The send to the pool that was read, of a sender without which the list is `senders`. A sender that blocks
  -- stays.
  unfoldable pub send : ℕ → A → List (ℕ × A) → Board A → Board A
  unfolding enqueue put_at pool_at
  send n j senders b = elim (pool_at n b.pools) [
    | none ↦ b
    | some p ↦ settled n senders b (enqueue j p)
  ]

  unfoldable pub send_found : Board A → Option ((ℕ × A) × List (ℕ × A)) → Board A
  unfolding send
  send_found b none = b
  send_found b (some ((n, j), rest)) = send n j rest b

  -- replacePool, up to the Unlock: a new pool takes the place of the app's pool, which is still open.
  unfoldable pub replace_pool : ℕ → ℕ → Board A → Board A
  replace_pool workers size b = record b {
    pools = b.pools ++ new_pool workers size ∷ [];
    current = some (length b.pools);
    retired = onto b.current b.retired;
  }

  -- stopPool, up to the Unlock.
  unfoldable pub stop_pool : Board A → Board A
  stop_pool b = record b { current = none; retired = onto b.current b.retired }

  -- The Stop at the end of replacePool and stopPool; to close a channel twice is a panic.
  unfoldable pub stop_retired : Board A → Option (ℕ × List ℕ) → Board A
  unfolding close put_at pool_at
  stop_retired b none = b
  stop_retired b (some (n, rest)) = elim (pool_at n b.pools) [
    | none ↦ record b { retired = rest }
    | some p ↦
        if p.closed
        then crash b
        else record b { pools = put_at n (close p) b.pools; retired = rest }
  ]

  abbrev pub changed : Pool A → Option (Pool A) → Pool A
  changed p none = p
  changed p (some p') = p'

  -- A step of the pool with that number, if it can be made.
  unfoldable pub on_pool : (Pool A → Option (Pool A)) → ℕ → Board A → Board A
  unfolding put_at pool_at
  on_pool step n b = elim (pool_at n b.pools) [
    | none ↦ b
    | some p ↦ record b { pools = put_at n (changed p (step p)) b.pools }
  ]

  -- A move that cannot be made changes nothing.
  unfoldable pub move : Move A → Board A → Board A
  unfolding ask send_found replace_pool stop_pool stop_retired on_pool
  move (asks j) b = ask j b
  move (sends n) b = send_found b (pull n b.senders)
  move (receives which) b = on_pool receive which b
  move (finishes which n) b = on_pool (finish n) which b
  move (replaces workers size) b = replace_pool workers size b
  move stops b = stop_pool b
  move (closes n) b = stop_retired b (pull n b.retired)

  -- A panic ends the program.
  unfoldable pub moves : List (Move A) → Board A → Board A
  unfolding move
  moves [] b = b
  moves (m ∷ ms) b = if b.crashed then b else moves ms (move m b)

-- main: the first pool.
abbrev pub started : {A : Type 0} → ℕ → ℕ → Board A
started workers size = record {
  pools = new_pool workers size ∷ [];
  current = some 0;
  retired = [];
  senders = [];
  crashed = false;
}
