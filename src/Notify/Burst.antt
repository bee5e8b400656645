-- ===== src/Notify/Burst.antt =====
-- A burst limit without a window.
use chowkidar.Prelude.{
  ℕ, ◌<◌, ◌≤◌, ◌≡◌, refl, Bool, true, false, not, ◌||◌, String, List, [], ◌∷◌, Assoc, lookup,
  lookup-insert, pos, leb_ℤ, arith, ==_refl, if◌then◌else◌, ◌∙◌,
}
use chowkidar.Text.{trim_space, is_empty}
use chowkidar.Model.{Time}
use chowkidar.Profiles.{Profile}
use chowkidar.Notify.{
  Usage, NotifyState, NotifyEnv, notif_day_key, current_usage, roll_day, roll_burst, usage_or_new,
  has_limits, reached, is_profile_suspended, limit_hit, suspend_profile, touch_usage,
  notify_profile,
}

roll_day-burst : (t : ℕ) (u : Usage) → (roll_day t u).burst_count ≡ u.burst_count
unfolding roll_day
roll_day-burst t u = ground arith

module _ (env : NotifyEnv) (p : Profile) (B : ℕ)
    (windowless : leb_ℤ p.burst_window_minutes (pos 0) ≡ true) (limited : p.burst_limit ≡ pos B)
    (some_limit : 0 < B) where
  burst_kept :
      (now : Time) (us : Assoc Usage)
      → (current_usage env p now us).burst_count ≡ (usage_or_new (lookup p.id us)).burst_count
  unfolding current_usage roll_burst
  burst_kept now us =
      rw windowless (roll_day-burst (notif_day_key env now) (usage_or_new (lookup p.id us)))

  -- The burst counter of the profile has reached the limit.
  abbrev Full : NotifyState → Type 0
  Full s = B ≤ (usage_or_new (lookup p.id s.usage)).burst_count

  -- Nothing is sent, and the counter stays.
  abbrev Blocked : NotifyState → NotifyState → Type 0
  Blocked s s' = (s'.sent ≡ s.sent) × Full s'

  either :
      (b : Bool) (s x y : NotifyState) → Blocked s x → Blocked s y → Blocked s (if b then x else y)
  either true s x y h k = h
  either false s x y h k = k

  has_burst : has_limits p ≡ true
  has_burst = ground arith

  touch-Blocked : (now : Time) (s : NotifyState) → Full s → Blocked s (touch_usage env p now s)
  unfolding touch_usage
  touch-Blocked now s h = (
    refl,
    rw (lookup-insert p.id p.id (current_usage env p now s.usage) s.usage, ==_refl p.id)
        (rw (burst_kept now s.usage) h),
  )

  hit-Blocked :
      (now : Time) (burst : Bool) (s s' : NotifyState)
      → Blocked s s'
      → Blocked s (limit_hit env p burst now s')
  unfolding limit_hit suspend_profile
  hit-Blocked now burst s s' h = either _ s _ s' h h

  round-Blocked :
      (event : String) (now : Time) (s : NotifyState)
      → Full s
      → Blocked s (notify_profile env event p now s)
  unfolding notify_profile
  round-Blocked event now s h =
      let u = current_usage env p now s.usage in
      let full : reached p.burst_limit u.burst_count ≡ true =
        ground (arith, burst_kept now s.usage) in
      either (not p.enabled || is_empty (trim_space p.service)) s _ _ (refl, h)
        (either (is_profile_suspended p now) s _ _ (refl, h)
          (rw (has_burst, full) (hit-Blocked now true s _ (touch-Blocked now s h))))

  -- The rounds of the profile at these times, one after the other.
  unfoldable pub rounds : String → List Time → NotifyState → NotifyState
  rounds event [] s = s
  rounds event (now ∷ times) s = rounds event times (notify_profile env event p now s)

  -- Once a profile with a burst limit and no burst window has reached the limit, no later round sends it a
  -- message, however much time goes by.
  pub burst_never_ends :
      (event : String) (times : List Time) (s : NotifyState)
      → B ≤ (usage_or_new (lookup p.id s.usage)).burst_count
      → (rounds event times s).sent ≡ s.sent
  unfolding rounds
  burst_never_ends event [] s h = refl
  burst_never_ends event (now ∷ times) s h =
      let (same, full) = round-Blocked event now s h in
      burst_never_ends event times (notify_profile env event p now s) full ∙ same
