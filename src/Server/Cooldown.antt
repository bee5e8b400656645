-- ===== src/Server/Cooldown.antt =====
-- shouldNotify of cmd/server/state.go: the notices that ask it keep their distance.
use chowkidar.Prelude.{
  ℕ, ◌+◌, ◌*◌, ◌<◌, ◌≡◌, Bool, true, false, String, some, arith, lookup, lookup-insert, Bool-cases,
  inl, inr, ==_refl, pos, scale, scale_exact, ltb, leb_ℤ, not, ap, ◌∙◌,
}
use chowkidar.Model.{Time, second, Config}
use chowkidar.Calendar.{before_add}
use chowkidar.Server.{App, should_notify, within_cooldown}

abbrev cooling : Config → App → String → Time → Bool
cooling cfg a name now =
    within_cooldown now (scale cfg.notification_cooldown_seconds second)
      (lookup name a.last_notified)

-- A notice that is sent under a cooldown notes its time.
noted :
    (cfg : Config) (a : App) (name : String) (now : Time)
    → leb_ℤ cfg.notification_cooldown_seconds (pos 0) ≡ false
    → (should_notify cfg now name a).1 ≡ true
    → lookup name (should_notify cfg now name a).0.last_notified ≡ some now
unfolding should_notify
noted cfg a name now on sent = elim (Bool-cases (cooling cfg a name now)) [
  | inl e ↦ absurd (ground arith)
  | inr e ↦ rw (on, e, lookup-insert, ==_refl name)
]

-- The answer depends on the time of the last notice alone.
answer :
    (cfg : Config) (b : App) (name : String) (last later : Time)
    → leb_ℤ cfg.notification_cooldown_seconds (pos 0) ≡ false
    → lookup name b.last_notified ≡ some last
    → (should_notify cfg later name b).1
      ≡ not (before_add later last (scale cfg.notification_cooldown_seconds second))
unfolding should_notify
answer cfg b name last later on found = elim (Bool-cases (cooling cfg b name later)) [
  | inl e ↦ rw (on, e) (ground arith)
  | inr e ↦ rw (on, e) (ground arith)
]

-- After a notice that shouldNotify let pass at `now` it lets none pass for the same container before the cooldown is over, and
-- from then on it lets one pass; the cooldown is below the 292 years that a duration can hold.
pub should_notify_again :
    (cfg : Config) (a : App) (name : String) (now later seconds : ℕ)
    → cfg.notification_cooldown_seconds ≡ pos seconds
    → 0 < seconds
    → seconds * second < 9223372036854775808
    → (should_notify cfg now name a).1 ≡ true
    → (should_notify cfg later name (should_notify cfg now name a).0).1
      ≡ not (ltb later (now + seconds * second))
should_notify_again cfg a name now later seconds e positive small sent =
    let on : leb_ℤ cfg.notification_cooldown_seconds (pos 0) ≡ false = ground arith in
    let last = noted cfg a name now on sent in
    let exact = scale_exact seconds second small in
    let rule = answer cfg (should_notify cfg now name a).0 name now later on last in
    rule ∙ ap (λ d. not (before_add later now d)) (ap (λ n. scale n second) e ∙ exact)
