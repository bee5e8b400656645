-- ===== src/Notify/Counted.antt =====
-- The counters of a profile with a daily limit cover what it was sent, whatever happens to others.
use chowkidar.Prelude.{
  ℕ, ◌≤◌, ◌≡◌, refl, Bool, true, false, String, ◌∷◌, Option, none, some, Assoc, lookup,
  lookup-insert, arith, ◌==◌, if◌then◌else◌,
}
use chowkidar.Model.{Time}
use chowkidar.Profiles.{Profile}
use chowkidar.Notify.{
  Usage, Message, NotifyState, NotifyEnv, usage_snapshot, has_limits, suspend_profile, limit_hit,
  after_error, count_sent, send_message, touch_usage, title_of, body_of,
}
use chowkidar.Notify.Counters.{
  day_of, lookup-usage_snapshot, sent_on, Covers, Covers-later, stored-Covers,
}

module _ (env : NotifyEnv) (id : String) (d L : ℕ) where
  -- On the day `t`, the counters and the file cover what was delivered to the profile on the day `d`, and
  -- that is no more than the limit.
  pub record Counted (t : ℕ) (s : NotifyState) : Type 0 where
    pub live : Covers d t (day_of (lookup id s.usage)) (sent_on env id d s.sent)
    pub kept : Covers d t (lookup id s.stored) (sent_on env id d s.sent)
    pub few : sent_on env id d s.sent ≤ L

  pub later : (t t' : ℕ) (s : NotifyState) → t ≤ t' → Counted t s → Counted t' s
  later t t' s l h = record {
    live = Covers-later d t t' _ _ l h.live;
    kept = Covers-later d t t' _ _ l h.kept;
    few = h.few;
  }

  -- Only the counters, the file and the messages matter.
  pub moved :
      (t : ℕ) (s s' : NotifyState)
      → lookup id s'.usage ≡ lookup id s.usage
      → lookup id s'.stored ≡ lookup id s.stored
      → sent_on env id d s'.sent ≡ sent_on env id d s.sent
      → Counted t s
      → Counted t s'
  moved t s s' u k n h = record {
    live = rw (u, n) h.live;
    kept = rw (k, n) h.kept;
    few = rw n h.few;
  }

  -- The file is written from the counters.
  pub written :
      (t : ℕ) (s : NotifyState) (usage : Assoc Usage)
      → Covers d t (day_of (lookup id usage)) (sent_on env id d s.sent)
      → sent_on env id d s.sent ≤ L
      → Counted t (record s { usage = usage; stored = usage_snapshot usage })
  written t s usage c few = record {
    live = c;
    kept = rw (lookup-usage_snapshot id usage) (stored-Covers d t (lookup id usage) _ c);
    few = few;
  }

  pub suspend-Counted :
      (t : ℕ) (s : NotifyState) (k : String) (until : Time) (reason : String) (now : Time)
      → Counted t s
      → Counted t (suspend_profile k until reason now s)
  unfolding suspend_profile
  suspend-Counted t s k until reason now h = moved t s _ refl refl refl h

  pub either :
      (b : Bool) (t : ℕ) (x y : NotifyState)
      → Counted t x
      → Counted t y
      → Counted t (if b then x else y)
  either true t x y h k = h
  either false t x y h k = k

  pub limit_hit-Counted :
      (t : ℕ) (p : Profile) (burst : Bool) (now : Time) (s : NotifyState)
      → Counted t s
      → Counted t (limit_hit env p burst now s)
  unfolding limit_hit
  limit_hit-Counted t p burst now s h = either _ t _ s (suspend-Counted t s _ _ _ _ h) h

  pub after_error-Counted :
      (t : ℕ) (p : Profile) (message : String) (now : Time) (s : NotifyState)
      → Counted t s
      → Counted t (after_error env p message now s)
  unfolding after_error
  after_error-Counted t p message now s h = either _ t _ s (suspend-Counted t s _ _ _ _ h) h

  -- The message that a round sends.
  abbrev pub message : String → Profile → Time → Bool → Message
  message event p now delivered = record {
    profile_id = p.id;
    service = p.service;
    title = title_of env event p;
    body = body_of env event p;
    at = now;
    delivered = delivered;
  }

  abbrev pub sending : String → Profile → Time → Bool → NotifyState → NotifyState
  sending event p now delivered s = record s { sent = message event p now delivered ∷ s.sent }

  pub undelivered :
      (event : String) (p : Profile) (now : Time) (t : ℕ) (s : NotifyState)
      → Counted t s
      → Counted t (sending event p now false s)
  undelivered event p now t s h = moved t s _ refl refl (unfold sent_on in ground arith) h

  pub send-Counted :
      (event : String) (p : Profile) (now : Time) (t : ℕ) (s : NotifyState)
      → Counted t s
      → Counted t (count_sent env p now (sending event p now true s))
      → Counted t (send_message env event p now s)
  unfolding send_message
  send-Counted event p now t s h k =
      by_answer (env.deliver p.service (title_of env event p) (body_of env event p) now)
    where
      by_answer :
          (answer : Option String)
          → Counted t (elim answer as (λ o. NotifyState) [
            | none ↦ count_sent env p now (sending event p now true s)
            | some text ↦ after_error env p text now (sending event p now false s)
          ])
      by_answer none = k
      by_answer (some text) = after_error-Counted t p text now _ (undelivered event p now t s h)

  -- A profile with another identifier.
  module _ (p : Profile) (now : Time) (different : (p.id == id) ≡ false) where
    pub touch-other : (t : ℕ) (s : NotifyState) → Counted t s → Counted t (touch_usage env p now s)
    unfolding touch_usage
    touch-other t s h =
        moved t s _ (rw (lookup-insert p.id id _ s.usage) (rw different refl)) refl refl h

    pub sending-other :
        (event : String) (t : ℕ) (s : NotifyState)
        → Counted t s
        → Counted t (sending event p now true s)
    sending-other event t s h = moved t s _ refl refl (unfold sent_on in ground arith) h

    pub count-other :
        (t : ℕ) (s : NotifyState)
        → env.saves now ≡ true
        → Counted t s
        → Counted t (count_sent env p now s)
    unfolding count_sent
    count-other t s saved h = rw saved (
        either (has_limits p) t _ s
          (written t s _ (rw (lookup-insert p.id id _ s.usage) (rw different h.live)) h.few) h)
