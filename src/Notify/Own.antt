-- ===== src/Notify/Own.antt =====
-- The counters of a profile with a daily limit when a message is sent to it.
use chowkidar.Prelude.{
  ℕ, ◌+◌, ◌<◌, ◌≤◌, ◌≡◌, refl, true, false, String, ◌∷◌, Option, some, Assoc, lookup, insert,
  lookup-insert, pos, nat_eq, arith, Bool-cases, inl, inr, ==_refl, if◌then◌else◌, ap, ◌∙◌,
}
use chowkidar.Model.{Time}
use chowkidar.Profiles.{Profile}
use chowkidar.Notify.{
  Usage, NotifyState, NotifyEnv, notif_day_key, roll_day, usage_or_new, current_usage, has_limits,
  reached, count_sent, touch_usage,
}
use chowkidar.Notify.Counters.{sent_on, Covers, Covers-later, roll_day-Covers, current_usage-day}
use chowkidar.Notify.Counted.{Counted, written, message, sending}

module _ (env : NotifyEnv) (id : String) (d L : ℕ) where
  -- The profile itself.
  module _ (p : Profile) (now : Time) (mine : p.id ≡ id) (limited : p.daily_limit ≡ pos L)
      (some_limit : 0 < L) where
    abbrev today : ℕ
    today = notif_day_key env now

    abbrev count_now : NotifyState → ℕ
    count_now s = (current_usage env p now s.usage).day_count

    found : (u : Usage) (us : Assoc Usage) → lookup id (insert p.id u us) ≡ some u
    found u us = lookup-insert p.id id u us ∙ rw mine (rw (==_refl id) refl)

    now-Covers :
        (t : ℕ) (s : NotifyState)
        → t ≤ today
        → Counted env id d L t s
        → Covers d today (some (some today, count_now s)) (sent_on env id d s.sent)
    now-Covers t s l h =
        let (_, c) = current_usage-day env p now s.usage in
        rw (c, mine) (roll_day-Covers d t today (lookup id s.usage) _ l h.live)

    pub touch-own :
        (t : ℕ) (s : NotifyState)
        → t ≤ today
        → Counted env id d L t s
        → Counted env id d L today (touch_usage env p now s)
    unfolding touch_usage
    touch-own t s l h =
        let (k, _) = current_usage-day env p now s.usage in
        record {
          live = rw (found (current_usage env p now s.usage) s.usage, k) (now-Covers t s l h);
          kept = Covers-later d t today _ _ l h.kept;
          few = h.few;
        }

    sent_own :
        (event : String) (s : NotifyState)
        → sent_on env id d (message env id d L event p now true ∷ s.sent)
          ≡ (if nat_eq today d then sent_on env id d s.sent + 1 else sent_on env id d s.sent)
    unfolding sent_on
    sent_own event s = ground (arith, ==_refl id)

    one_more :
        (c n n' : ℕ)
        → Covers d today (some (some today, c)) n
        → n ≤ L
        → c < L
        → n' ≡ (if nat_eq today d then n + 1 else n)
        → Covers d today (some (some today, c + 1)) n' × (n' ≤ L)
    one_more c n n' h few less e = elim (Bool-cases (nat_eq today d)) [
      | inl q ↦
          let same : today ≡ d = ground arith in
          let (_, (b, _)) = h (omega (arith, same)) in
          let n'_is : n' ≡ n + 1 = ground arith in
          (
            λ r. (
              omega arith,
              (λ k. omega (arith, b same, n'_is), λ k. absurd (omega (arith, same))),
            ),
            omega (arith, b same, n'_is),
          )
      | inr q ↦
          let n'_is : n' ≡ n = ground arith in
          let differ : today ≡ d → ⊥ = λ k. ground arith in
          (
            λ r. let (a, (b, z)) = h r in (a, (λ k. absurd (differ k), λ k. n'_is ∙ z k)),
            omega (arith, n'_is),
          )
    ]

    pub has_own : has_limits p ≡ true
    has_own = ground arith

    pub count-own :
        (event : String) (s : NotifyState)
        → env.saves now ≡ true
        → Counted env id d L today s
        → count_now s < L
        → Counted env id d L today (count_sent env p now (sending env id d L event p now true s))
    unfolding count_sent
    count-own event s saved h less =
        let (k, _) = current_usage-day env p now s.usage in
        let (c, few) =
          one_more (count_now s) _ _ (now-Covers today s (omega arith) h) h.few less
            (sent_own event s) in
        rw (has_own, saved)
          (written env id d L today (sending env id d L event p now true s) _
            (rw (found _ s.usage, k) c) few)

    roll_same : (u : Usage) → u.day_key ≡ some today → roll_day today u ≡ u
    unfolding roll_day
    roll_same u e = rw (e, roll_day) (ground arith)

    there : (u : Usage) (us : Assoc Usage) → lookup p.id (insert p.id u us) ≡ some u
    there u us = lookup-insert p.id p.id u us ∙ rw (==_refl p.id) refl

    pub count-touch : (s : NotifyState) → count_now (touch_usage env p now s) ≡ count_now s
    unfolding touch_usage
    count-touch s =
        let u = current_usage env p now s.usage in
        let (k, _) = current_usage-day env p now s.usage in
        let (_, c) = current_usage-day env p now (insert p.id u s.usage) in
        c
        ∙ ap (λ (o : Option Usage). (roll_day today (usage_or_new o)).day_count) (there u s.usage)
        ∙ ap (λ (v : Usage). v.day_count) (roll_same u k)

    pub below : (c : ℕ) → reached p.daily_limit c ≡ false → c < L
    below c h = ground arith
