-- ===== src/Tests/Pools.antt =====
-- The theorems about the pools of workers at concrete inputs; a job is a number.
use chowkidar.Prelude.{
  ℕ, ◌+◌, ◌<◌, ◌≡◌, refl, true, false, List, [], ◌∷◌, none, some, nat_eq, arith,
}
use chowkidar.Worker.{
  Pool, Board, Move, asks, sends, receives, finishes, replaces, stops, closes, move, moves, started,
}
use chowkidar.Worker.Drain.{WorkerMove, work, tally_pool, can_move, drive-work}
use chowkidar.Worker.Steps.{IsSound}
use chowkidar.Worker.Bounds.{moves-IsSound}
use chowkidar.Worker.Races.{stale_send_panics}

abbrev a_day : List (Move ℕ)
a_day =
    asks 1
    ∷ asks 2
    ∷ sends 0
    ∷ receives 0
    ∷ replaces 2 4
    ∷ sends 0
    ∷ closes 0
    ∷ finishes 0 0
    ∷ stops
    ∷ []

moves-IsSound_example :
    IsSound (moves a_day (started 1 1))
    × ((move (closes 0) (moves a_day (started 1 1))).crashed ≡ (moves a_day (started 1 1)).crashed)
moves-IsSound_example = moves-IsSound a_day 1 1 0

abbrev busy : Pool ℕ
busy = record {
  workers = 2;
  size = 4;
  closed = true;
  queue = 3 ∷ 4 ∷ [];
  running = 1 ∷ 2 ∷ [];
  done = [];
}

abbrev busy_later : Pool ℕ
busy_later = record busy { queue = 4 ∷ []; running = 1 ∷ 3 ∷ []; done = 2 ∷ [] }

drive-work_example :
    (2 + work busy_later ≡ work busy)
    × (tally_pool (nat_eq 3) busy_later ≡ tally_pool (nat_eq 3) busy)
    × (0 < work busy_later → can_move busy_later ≡ true)
unfolding chowkidar.Worker.Drain.drive chowkidar.Worker.finish chowkidar.Worker.receive
drive-work_example =
    drive-work (nat_eq 3) (some 1 ∷ none ∷ []) busy {p' = busy_later} (omega arith) refl

abbrev full_board : Board ℕ
full_board = record {
  pools = busy ∷ record busy { closed = false } ∷ [];
  current = some 1;
  retired = [];
  senders = (0, 7) ∷ [];
  crashed = false;
}

stale_send_panics_example :
    ((moves (asks 9 ∷ replaces 2 8 ∷ closes 0 ∷ sends 1 ∷ []) full_board).crashed ≡ true)
    × ((moves (asks 9 ∷ replaces 2 8 ∷ sends 1 ∷ []) full_board).crashed ≡ false)
unfolding chowkidar.Worker.pool_at
stale_send_panics_example =
    stale_send_panics 9 2 8 full_board 1 (record busy { closed = false }) refl refl refl refl
