-- ===== src/Hosts/Outage.antt =====
-- How often an outage is told.
use chowkidar.Prelude.{
  ℕ, ◌+◌, ◌≡◌, refl, ap, ◌∙◌, any, Bool, true, false, not, ◌&&◌, List, [], ◌∷◌, nat_eq,
  if◌then◌else◌, Bool-cases, inl, inr, arith, ℤ,
}
use chowkidar.Model.{Time}
use chowkidar.Hosts.{
  Tracking, never_seen, HostNotice, silent, online, offline, noted, outage_due, confirmed, ping,
}

count : HostNotice → ℕ
count silent = 0
count online = 0
count offline = 1

-- The offline notices of a run of pings that all fail, and what is left of the maps.
pub outage_notices : ℤ → List Time → Tracking → ℕ
unfolding count
outage_notices confirm [] t = 0
outage_notices confirm (now ∷ later) t =
    count (ping confirm false now t).1 + outage_notices confirm later (ping confirm false now t).0

-- A host that was told of stays quiet for the rest of the outage.
told_quiet :
    (confirm : ℤ) (ts : List Time) (t : Tracking)
    → t.notified ≡ true
    → outage_notices confirm ts t ≡ 0
unfolding outage_notices count ping noted outage_due
told_quiet confirm [] t h = refl
told_quiet confirm (now ∷ ts) t h =
    rw (untold t.notified _ h) (ap (0 +◌) (told_quiet confirm ts (noted false now t) h))
  where
    untold : (u v : Bool) → u ≡ true → (not u && v) ≡ false
    untold u v e = ground arith

-- In an outage that began at `since`, of which nothing was told yet, the pings that fail tell of it
-- exactly once if one of them comes when the confirmation time is over, and never if none does.
pub outage_told_once :
    (confirm : ℤ) (since : Time) (ts : List Time)
    → nat_eq since 0 ≡ false
    → outage_notices confirm ts
        (record { connected = false; offline_since = since; notified = false })
      ≡ (if any (confirmed confirm since) ts then 1 else 0)
unfolding outage_notices count ping noted outage_due
outage_told_once confirm since [] h = refl
outage_told_once confirm since (now ∷ ts) h = elim (Bool-cases (confirmed confirm since now)) [
  | inl e ↦
      rw (h, e)
        (ap (1 +◌) (
          told_quiet confirm ts
            (record { connected = false; offline_since = since; notified = true }) refl))
  | inr e ↦ rw (h, e) (zero_plus _ ∙ outage_told_once confirm since ts h)
]
  where
    zero_plus : (n : ℕ) → 0 + n ≡ n
    zero_plus n = omega arith

-- Of a host that no ping has reached since the start nothing is ever told, however long it is down.
pub never_seen_quiet : (confirm : ℤ) (ts : List Time) → outage_notices confirm ts never_seen ≡ 0
unfolding outage_notices count ping noted outage_due
never_seen_quiet confirm [] = refl
never_seen_quiet confirm (now ∷ ts) = ap (0 +◌) (never_seen_quiet confirm ts)
