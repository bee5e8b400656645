-- ===== src/Notify/Daily.antt =====
-- The daily limit of a profile holds for sendJobNotifications, across restarts too.
use chowkidar.Prelude.{
  ℕ, ◌<◌, ◌≤◌, ◌≡◌, refl, true, String, List, [], ◌∷◌, some, lookup, pos, arith,
}
use chowkidar.Model.{Time}
use chowkidar.Profiles.{Profile}
use chowkidar.Notify.{NotifyState, NotifyEnv, notif_day_key, by_id, notify_recipients, restart}
use chowkidar.Notify.Counters.{sent_on}
use chowkidar.Notify.Counted.{Counted}
use chowkidar.Notify.Rounds.{recipient-Counted, restart-Counted}

-- A call of sendJobNotifications, with the profiles at its begin and the recipients with their times; or a
-- restart of the server.
pub data Happening : Type 0 where
  call : String → List Profile → List (String × Time) → Happening
  again : Happening

module _ (env : NotifyEnv) where
  unfoldable pub happen : Happening → NotifyState → NotifyState
  happen (call event profiles recipients) s = notify_recipients env event profiles recipients s
  happen again s = restart env s

  unfoldable pub run : List Happening → NotifyState → NotifyState
  unfolding happen
  run [] s = s
  run (h ∷ hs) s = run hs (happen h s)

  -- No clock goes back behind a day that was reached, the days from `t` on.
  unfoldable pub last_day : ℕ → List (String × Time) → ℕ
  last_day t [] = t
  last_day t ((k, now) ∷ rest) = last_day (notif_day_key env now) rest

  abbrev pub InOrder : ℕ → List (String × Time) → Type 0
  InOrder t [] = Unit
  InOrder t ((k, now) ∷ rest) = (t ≤ notif_day_key env now) × InOrder (notif_day_key env now) rest

  -- The days do not go back, and each call finds the profile with the daily limit `L`, if it finds it.
  abbrev pub Fits : String → ℕ → ℕ → List Happening → Type 0
  Fits id L t [] = Unit
  Fits id L t (call event profiles recipients ∷ hs) =
      InOrder t recipients
      × ((p : Profile) → by_id id profiles ≡ some p → p.daily_limit ≡ pos L)
      × Fits id L (last_day t recipients) hs
  Fits id L t (again ∷ hs) = Fits id L t hs

abbrev pub nothing_sent : List Profile → NotifyState
nothing_sent profiles = record { profiles = profiles; usage = []; stored = []; sent = [] }

module _ (env : NotifyEnv) (id : String) (d L : ℕ) where
  recipients-Counted :
      (event : String) (ps : List Profile) (rs : List (String × Time)) (t : ℕ) (s : NotifyState)
      → 0 < L
      → ((p : Profile) → by_id id ps ≡ some p → p.daily_limit ≡ pos L)
      → InOrder env t rs
      → ((u : Time) → env.saves u ≡ true)
      → Counted env id d L t s
      → Counted env id d L (last_day env t rs) (notify_recipients env event ps rs s)
  unfolding notify_recipients last_day
  recipients-Counted event ps [] t s some_limit limited o saved h = h
  recipients-Counted event ps ((k, now) ∷ rs) t s some_limit limited (l, o) saved h =
      recipients-Counted event ps rs _ _ some_limit limited o saved
        (recipient-Counted env id d L event ps k now t s some_limit limited l (saved now) h)

  run-Counted :
      (hs : List Happening) (t : ℕ) (s : NotifyState)
      → 0 < L
      → Fits env id L t hs
      → ((u : Time) → env.saves u ≡ true)
      → Counted env id d L t s
      → sent_on env id d (run env hs s).sent ≤ L
  unfolding run happen
  run-Counted [] t s some_limit f saved h = h.few
  run-Counted (call event ps rs ∷ hs) t s some_limit (o, limited, f) saved h =
      run-Counted hs _ _ some_limit f saved
        (recipients-Counted event ps rs t s some_limit limited o saved h)
  run-Counted (again ∷ hs) t s some_limit f saved h =
      run-Counted hs t _ some_limit f saved (restart-Counted env id d L t s h)

  -- Over any sequence of calls of sendJobNotifications and restarts, one after the other, from a state with
  -- nothing sent, in which the local day does not go back, each call finds the profile with the daily limit
  -- `L`, and the usage file can be written, these calls deliver at most `L` messages to it on a local day.
  pub daily_limit_holds :
      (hs : List Happening) (profiles : List Profile)
      → 0 < L
      → Fits env id L 0 hs
      → ((u : Time) → env.saves u ≡ true)
      → sent_on env id d (run env hs (nothing_sent profiles)).sent ≤ L
  unfolding lookup sent_on
  daily_limit_holds hs profiles some_limit f saved =
      run-Counted hs 0 (nothing_sent profiles) some_limit f saved
        (record { live = λ e. refl; kept = λ e. refl; few = omega arith })
