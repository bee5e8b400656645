-- ===== src/Hosts.antt =====
-- cmd/server/monitor.go, scanOnce: how the pings of an extra Docker host turn into notices. The maps
-- dockerHostConnected, dockerHostOfflineSince and dockerHostNotified are kept host by host.
pub mod Outage
use chowkidar.Prelude.{
  ℕ, ◌+◌, Bool, true, false, ◌&&◌, not, List, [], ◌∷◌, ◌++◌, Option, none, some, ltb, nat_eq, leb_ℤ,
  if◌then◌else◌, ℤ, pos, scale,
}
use chowkidar.Model.{Time, second}
use chowkidar.Calendar.{before_add}

-- One host's entries; `offline_since` is 0 where the map has none.
pub record Tracking : Type 0 where
  pub connected : Bool
  pub offline_since : Time
  pub notified : Bool

abbrev pub never_seen : Tracking
never_seen = record { connected = false; offline_since = 0; notified = false }

-- What a ping makes sendDockerHostNotif tell, if anything.
pub data HostNotice : Type 0 where
  silent : HostNotice
  online : HostNotice
  offline : HostNotice

-- The confirmation time of a host, half an hour if it gives none.
abbrev pub confirm_seconds : ℤ → ℤ
confirm_seconds n = if leb_ℤ n (pos 0) then pos 1800 else n

-- The maps after a ping, before a notice.
unfoldable pub noted : Bool → Time → Tracking → Tracking
noted true now t = record {
  connected = true;
  offline_since = 0;
  notified = if t.connected then t.notified else false;
}
noted false now t = record t {
  connected = false;
  offline_since = if t.connected then now else t.offline_since;
}

-- time.Since(offlineSince) >= confirm.
abbrev pub confirmed : ℤ → Time → Time → Bool
confirmed confirm since now = not (before_add now since (scale (confirm_seconds confirm) second))

unfoldable pub outage_due : ℤ → Time → Tracking → Bool
outage_due confirm now t =
    not t.notified && not (nat_eq t.offline_since 0) && confirmed confirm t.offline_since now

-- One ping of a host.
unfoldable pub ping : ℤ → Bool → Time → Tracking → Tracking × HostNotice
unfolding noted outage_due
ping confirm true now t = (noted true now t, if t.connected then silent else online)
ping confirm false now t =
    let t₁ = noted false now t in
    if outage_due confirm now t₁ then (record t₁ { notified = true }, offline) else (t₁, silent)
