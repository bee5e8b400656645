-- ===== src/Notify/Rounds.antt =====
-- One recipient's round keeps the counters of a profile with a daily limit.
use chowkidar.Prelude.{
  ℕ, ◌<◌, ◌≤◌, ◌≡◌, Bool, true, false, ◌||◌, not, String, List, some, pos, arith, Bool-cases,
  Option-cases, inl, inr, ◌==◌, text_iff, if◌then◌else◌, ap, sym, ◌∙◌,
}
use chowkidar.Model.{Time}
use chowkidar.Text.{trim_space, is_empty}
use chowkidar.Profiles.{Profile}
use chowkidar.Notify.{
  Usage, is_profile_suspended, NotifyState, NotifyEnv, notif_day_key, current_usage, by_id,
  has_limits, reached, limit_hit, send_message, touch_usage, notify_profile, notify_recipient,
  restart,
}
use chowkidar.Notify.Counters.{lookup-load_notif_usage, by_id-id}
use chowkidar.Notify.Counted.{
  Counted, later, either, limit_hit-Counted, send-Counted, touch-other, sending-other, count-other,
}
use chowkidar.Notify.Own.{touch-own, count-own, has_own, below, count-touch}

module _ (env : NotifyEnv) (id : String) (d L : ℕ) where
  abbrev muted : Profile → Bool
  muted p = not p.enabled || is_empty (trim_space p.service)

  abbrev over : Profile → Usage → Bool
  over p u = reached p.burst_limit u.burst_count || reached p.daily_limit u.day_count

  -- What a round does for a profile that is neither muted nor suspended.
  abbrev limited_round : String → Profile → Time → NotifyState → NotifyState
  limited_round event p now s =
      let u = current_usage env p now s.usage in
      if not (has_limits p)
      then send_message env event p now s
      else if over p u
      then limit_hit env p (reached p.burst_limit u.burst_count) now (touch_usage env p now s)
      else send_message env event p now (touch_usage env p now s)

  notify-own :
      (event : String) (p : Profile) (now : Time) (t : ℕ) (s : NotifyState)
      → p.id ≡ id
      → p.daily_limit ≡ pos L
      → 0 < L
      → t ≤ notif_day_key env now
      → env.saves now ≡ true
      → Counted env id d L t s
      → Counted env id d L (notif_day_key env now) (notify_profile env event p now s)
  unfolding notify_profile
  notify-own event p now t s mine limited some_limit l saved h =
      let t' = notif_day_key env now in
      let same = later env id d L t t' s l h in
      let touched = touch-own env id d L p now mine limited some_limit t s l h in
      let u = current_usage env p now s.usage in
      either env id d L (muted p) t' s _ same (
        either env id d L (is_profile_suspended p now) t' s (limited_round event p now s) same (
          rw (has_own env id d L p now mine limited some_limit) (elim (Bool-cases (over p u)) [
            | inl e ↦ rw e (limit_hit-Counted env id d L t' p _ now _ touched)
            | inr e ↦
                let less =
                  below env id d L p now mine limited some_limit u.day_count (ground arith) in
                let enough = count-touch env id d L p now mine limited some_limit s in
                rw e (
                  send-Counted env id d L event p now t' _ touched (
                    count-own env id d L p now mine limited some_limit event _ saved touched
                      (rw enough less)))
          ])))

  notify-other :
      (event : String) (p : Profile) (now : Time) (t : ℕ) (s : NotifyState)
      → (p.id == id) ≡ false
      → env.saves now ≡ true
      → Counted env id d L t s
      → Counted env id d L t (notify_profile env event p now s)
  unfolding notify_profile
  notify-other event p now t s different saved h =
      let touched = touch-other env id d L p now different t s h in
      let sends = λ (s : NotifyState) (h : Counted env id d L t s).
        send-Counted env id d L event p now t s h (
          count-other env id d L p now different t _ saved
            (sending-other env id d L p now different event t s h)) in
      let u = current_usage env p now s.usage in
      let burst = reached p.burst_limit u.burst_count in
      either env id d L (muted p) t s _ h (
        either env id d L (is_profile_suspended p now) t s _ h (
          either env id d L (not (has_limits p)) t _ _ (sends s h) (
            either env id d L (over p u) t _ _
              (limit_hit-Counted env id d L t p burst now _ touched) (sends _ touched))))

  pub recipient-Counted :
      (event : String) (ps : List Profile) (k : String) (now : Time) (t : ℕ) (s : NotifyState)
      → 0 < L
      → ((p : Profile) → by_id id ps ≡ some p → p.daily_limit ≡ pos L)
      → t ≤ notif_day_key env now
      → env.saves now ≡ true
      → Counted env id d L t s
      → Counted env id d L (notif_day_key env now) (notify_recipient env event ps k now s)
  unfolding notify_recipient
  recipient-Counted event ps k now t s some_limit limited l saved h =
      elim (Option-cases (by_id k ps)) [
        | inl e ↦ rw (e, notify_recipient) (later env id d L t (notif_day_key env now) s l h)
        | inr (p, e) ↦
            rw (e, notify_recipient)
              (elim (Bool-cases (p.id == id)) [
                | inl mine ↦
                    let same : p.id ≡ id = (text_iff p.id id).0 mine in
                    let k_is : k ≡ id = sym (by_id-id k ps e) ∙ same in
                    notify-own event p now t s same
                      (limited p (ap (λ (x : String). by_id x ps) (sym k_is) ∙ e)) some_limit l
                      saved h
                | inr different ↦
                    notify-other event p now (notif_day_key env now) s different saved
                      (later env id d L t (notif_day_key env now) s l h)
              ])
      ]

  pub restart-Counted :
      (t : ℕ) (s : NotifyState) → Counted env id d L t s → Counted env id d L t (restart env s)
  unfolding restart
  restart-Counted t s h = record {
    live = rw (lookup-load_notif_usage id s.stored) h.kept;
    kept = h.kept;
    few = h.few;
  }
