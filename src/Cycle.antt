-- ===== src/Cycle.antt =====
-- cmd/server/monitor.go, scanOnce: one scan over the local daemon and the extra hosts.
pub mod Allowed
use chowkidar.Prelude.{
  ℕ, ◌+◌, Bool, true, false, ◌&&◌, not, String, List, [], ◌∷◌, ◌++◌, Option, none, some, Assoc,
  lookup, insert, get_or, ltb, ltb_ℤ, if◌then◌else◌, ℤ, pos, scale,
}
use chowkidar.Model.{Time, second, Job, Container, Window}
use chowkidar.Calendar.{before_add}
use chowkidar.Pause.{
  Pause, compute_maintenance_pause, filter_paused_jobs, host_paused, job_ids, jobs_for_host,
  force_cancelled,
}
use chowkidar.Transitions.{State, check_maintenance_transitions}
use chowkidar.Due.{compute_due_jobs}
use chowkidar.Docker.{Host}
use chowkidar.Server.{App, Env}
use chowkidar.Scan.{Found, scan_host}
use chowkidar.Recovery.{problematic, finalize_state, announce_recoveries}
use chowkidar.Hosts.{Tracking, never_seen, HostNotice, silent, ping}
use chowkidar.Pulses.{record_health_pulses}

-- An entry of a.extraClients: its profile, whether the ping of this scan reaches it, and its daemon.
pub record ExtraHost : Type 1 where
  pub host : Host
  pub enabled : Bool
  pub monitor_interval_seconds : ℤ
  pub offline_confirm_seconds : ℤ
  pub answers : Bool

-- The state that scans carry from one to the next.
pub record ScanState : Type 0 where
  pub app : App
  pub maintenance : State
  pub tracking : Assoc Tracking
  pub host_scans : Assoc Time
  -- What sendDockerHostNotif was called with, and whose running action was cancelled, oldest first.
  pub host_notices : List (String × HostNotice)
  pub cancelled : List String

abbrev pub both : Found → Found → Found
both f g = record {
  filtered = f.filtered ++ g.filtered;
  exited = f.exited ++ g.exited;
  restarting = f.restarting ++ g.restarting;
  starting = f.starting ++ g.starting;
}

-- What one scan works with.
pub record Round : Type 0 where
  pub env : Env
  pub now : Time
  pub pause : Pause
  pub jobs : List Job
  pub due_jobs : List Job

abbrev pub scan_in : Round → Host → App → App × Found
scan_in r host a = scan_host r.env host r.now r.jobs r.due_jobs (job_ids r.due_jobs) a

-- The guards of the loop over the extra hosts; time.Since of a host that was never scanned is large.
unfoldable pub is_host_due : Round → ExtraHost → Assoc Time → Bool
is_host_due r h scans =
    h.enabled
    && not (host_paused r.pause h.host.id)
    && not (
        ltb_ℤ (pos 0) h.monitor_interval_seconds
        && before_add r.now (get_or 0 (lookup h.host.id scans))
            (scale h.monitor_interval_seconds second))

-- The ping, and its trace in the maps.
abbrev tell : String → HostNotice → List (String × HostNotice)
tell id silent = []
tell id notice = (id, notice) ∷ []

unfoldable pub ping_host : Round → ExtraHost → ScanState → ScanState
ping_host r h s =
    let (t, notice) =
      ping h.offline_confirm_seconds h.answers r.now
        (get_or never_seen (lookup h.host.id s.tracking)) in
    record s {
      tracking = insert h.host.id t s.tracking;
      host_scans = insert h.host.id r.now s.host_scans;
      host_notices = s.host_notices ++ tell h.host.id notice;
    }

-- One round of the loop over the extra hosts.
unfoldable pub extra_host : Round → ExtraHost → ScanState × Found → ScanState × Found
unfolding is_host_due ping_host
extra_host r h (s, f) =
    if not (is_host_due r h s.host_scans)
    then (s, f)
    else let s₁ = ping_host r h s in
      if not h.answers
      then (s₁, f)
      else let (a, g) = scan_in r h.host s₁.app in (record s₁ { app = a }, both f g)

unfoldable pub extra_hosts : Round → List ExtraHost → ScanState × Found → ScanState × Found
unfolding extra_host
extra_hosts r [] x = x
extra_hosts r (h ∷ hs) x = extra_hosts r hs (extra_host r h x)

unfoldable pub pulse_hosts : Round → List String → List Host → App → App
pulse_hosts r problems [] a = a
pulse_hosts r problems (h ∷ hs) a =
    pulse_hosts r problems hs (
      record_health_pulses r.env h r.now (jobs_for_host r.jobs h.id) (job_ids r.due_jobs) problems
        a)

abbrev pub daemons : List ExtraHost → List Host
daemons [] = []
daemons (h ∷ hs) = h.host ∷ daemons hs

-- The end of a scan: recoveries, their notices, health pulses.
unfoldable pub finish_scan : Round → Host → List ExtraHost → App → Found → App
unfolding pulse_hosts
finish_scan r local extras a f =
    let problems = problematic a f.filtered f.exited f.restarting f.starting in
    let (a₁, back) = finalize_state problems r.now f.filtered f.exited f.restarting a in
    pulse_hosts r problems (local ∷ daemons extras) (announce_recoveries r.env.config r.now back a₁)

unfoldable pub scan_hosts : Round → Host → List ExtraHost → ScanState → ScanState
unfolding extra_hosts finish_scan
scan_hosts r local extras s =
    let (a, f) = scan_in r local s.app in
    let (s₁, g) = extra_hosts r extras (record s { app = a }, f) in
    record s₁ { app = finish_scan r local extras s₁.app g }

-- Running actions are cancelled only in the scan in which a force-cancel window opens.
abbrev cancelled_by : List Window → Pause → App → List String
cancelled_by [] pause a = []
cancelled_by (w ∷ ws) pause a = force_cancelled pause a.active_job_cancels

unfoldable pub round_of : Env → Time → App → Round × App
round_of env now a =
    let pause = compute_maintenance_pause env.lib env.windows env.jobs now in
    let jobs = filter_paused_jobs env.jobs pause in
    let (due, scans) = compute_due_jobs now jobs a.last_job_scan in
    (
      record { env = env; now = now; pause = pause; jobs = jobs; due_jobs = due },
      record a { last_job_scan = scans },
    )

-- scanOnce.
unfoldable pub scan_once : Env → Host → List ExtraHost → Time → ScanState → ScanState
unfolding round_of scan_hosts
scan_once env local extras now s =
    let pause = compute_maintenance_pause env.lib env.windows env.jobs now in
    let (m, started) = check_maintenance_transitions pause.active now s.maintenance in
    let s₁ = record s {
      maintenance = m;
      cancelled = s.cancelled ++ cancelled_by started pause s.app;
    } in
    let (r, a) = round_of env now s.app in
    if pause.skip_entire_scan then s₁ else scan_hosts r local extras (record s₁ { app = a })
