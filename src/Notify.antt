-- ===== src/Notify.antt =====
-- cmd/server/notify.go: the notifications of a job, with the limits of each profile. `deliver` is the
-- program that sends a title and a body to a service, with the text of its error; `render` fills a template.
-- One instant stands for the calls of time.Now of one recipient's round.
pub mod Texts
pub mod Services
pub mod Counters
pub mod Counted
pub mod Own
pub mod Rounds
pub mod Daily
pub mod Burst
use chowkidar.Prelude.{
  ℕ, zero, suc, ◌+◌, ◌-◌, ◌/◌, ◌%◌, Bool, true, false, ◌||◌, ◌&&◌, not, String, List, [], ◌∷◌, ◌++◌,
  Option, none, some, Assoc, lookup, insert, delete, ℤ, pos, negsuc, pos_part, ltb, leb_ℤ, ltb_ℤ,
  nat_eq, ◌==◌, if◌then◌else◌, scale, select,
}
use chowkidar.Text.{trim_space, is_empty, join}
use chowkidar.Model.{Time, second, minute}
use chowkidar.Calendar.{Location, Library, utc}
use chowkidar.Occurrence.{location}
use chowkidar.Profiles.{Profile, Templates, applied_template, applied_title_template}
use chowkidar.Notify.Texts.{is_rate_limit_error, clean_notif_error}

-- notifProfileUsage. The day is the number of the local day, the bucket the second at which it starts;
-- both are `none` for the empty text.
pub record Usage : Type 0 where
  pub day_key : Option ℕ
  pub day_count : ℕ
  pub burst_key : Option ℕ
  pub burst_count : ℕ

abbrev pub no_usage : Usage
no_usage = record { day_key = none; day_count = 0; burst_key = none; burst_count = 0 }

-- A call of notifier.Send.
pub record Message : Type 0 where
  pub profile_id : String
  pub service : String
  pub title : String
  pub body : String
  pub at : Time
  pub delivered : Bool

-- The part of `app` that notifications change; `stored` is notification-usage.json, and `sent` lists the
-- messages, the newest one first.
pub record NotifyState : Type 0 where
  pub profiles : List Profile
  pub usage : Assoc Usage
  pub stored : Assoc (Option ℕ × ℕ)
  pub sent : List Message

-- What is around the notifications: the zone database, the display zone at each instant (resolveTimezone
-- follows the settings, TZ and the browser), whether the usage file can be written at an instant, the host
-- name and the default templates.
pub record NotifyEnv : Type 0 where
  pub lib : Library
  pub zone : Time → String
  pub saves : Time → Bool
  pub external_hostname : String
  pub defaults : Option (Assoc Templates)
  pub deliver : String → String → String → Time → Option String
  pub render : String → String

-- The zone of nextMidnight and notifDayKey; LoadLocation takes "" for UTC.
abbrev pub display_location : NotifyEnv → Time → Location
display_location env now = if is_empty (env.zone now) then utc else location env.lib (env.zone now)

abbrev pub notif_day_key : NotifyEnv → Time → ℕ
notif_day_key env now = (display_location env now).day now

unfoldable pub next_midnight : NotifyEnv → Time → Time
next_midnight env now = let loc = display_location env now in loc.date (loc.day now + 1) 0

unfoldable pub is_profile_suspended : Profile → Time → Bool
is_profile_suspended p now = elim p.suspended_until [ none ↦ false | some until ↦ ltb now until ]

-- time.Now().UTC().Truncate(minutes), in seconds; a duration that is not positive truncates nothing.
unfoldable pub bucket : ℤ → Time → ℕ
bucket minutes now = elim (scale minutes minute) [
  | pos n ↦ elim n [ zero ↦ now / second | suc m ↦ (now - now % suc m) / second ]
  | negsuc n ↦ now / second
]

abbrev pub same_key : Option ℕ → ℕ → Bool
same_key none k = false
same_key (some n) k = nat_eq n k

unfoldable pub roll_day : ℕ → Usage → Usage
roll_day today u =
    if same_key u.day_key today then u else record u { day_key = some today; day_count = 0 }

unfoldable pub roll_burst : Profile → Time → Usage → Usage
roll_burst p now u =
    if leb_ℤ p.burst_window_minutes (pos 0)
    then u
    else if same_key u.burst_key (bucket p.burst_window_minutes now)
    then u
    else record u { burst_key = some (bucket p.burst_window_minutes now); burst_count = 0 }

abbrev pub usage_or_new : Option Usage → Usage
usage_or_new none = no_usage
usage_or_new (some u) = u

-- getOrCreateUsage: the counters for now.
unfoldable pub current_usage : NotifyEnv → Profile → Time → Assoc Usage → Usage
unfolding roll_day roll_burst
current_usage env p now usage =
    roll_burst p now (roll_day (notif_day_key env now) (usage_or_new (lookup p.id usage)))

-- The entries of persistNotifUsage. An entry hides those with its key behind it.
unfoldable pub usage_snapshot : Assoc Usage → Assoc (Option ℕ × ℕ)
usage_snapshot [] = []
usage_snapshot ((id, u) ∷ rest) =
    let others = usage_snapshot rest in
    if ltb 0 u.day_count then (id, (u.day_key, u.day_count)) ∷ others else delete id others

-- loadNotifUsage, at a start.
unfoldable pub load_notif_usage : Assoc (Option ℕ × ℕ) → Assoc Usage
load_notif_usage [] = []
load_notif_usage ((id, (key, count)) ∷ rest) =
    (id, record { day_key = key; day_count = count; burst_key = none; burst_count = 0 })
    ∷ load_notif_usage rest

-- The loop of suspendProfile.
unfoldable pub suspended : String → Time → String → Time → List Profile → List Profile
suspended id until reason now [] = []
suspended id until reason now (p ∷ ps) =
    let rest = suspended id until reason now ps in
    let q = record p { suspended_until = some until } in
    if p.id == id
    then (if is_empty reason
        then q
        else record q { last_rate_limit_error = reason; last_rate_limit_at = some now })
      ∷ ps
    else p ∷ rest

unfoldable pub suspend_profile : String → Time → String → Time → NotifyState → NotifyState
unfolding suspended
suspend_profile id until reason now s = record s {
  profiles = suspended id until reason now s.profiles;
}

unfoldable pub resumed : String → List Profile → List Profile
resumed id [] = []
resumed id (p ∷ ps) =
    let rest = resumed id ps in
    if p.id == id then record p { suspended_until = none } ∷ ps else p ∷ rest

-- byID: the last profile with an identifier is the one that is found.
unfoldable pub by_id : String → List Profile → Option Profile
by_id id [] = none
by_id id (p ∷ ps) = elim (by_id id ps) [
  | some q ↦ some q
  | none ↦ if p.id == id then some p else none
]

abbrev pub has_limits : Profile → Bool
has_limits p = ltb_ℤ (pos 0) p.daily_limit || ltb_ℤ (pos 0) p.burst_limit

-- count >= limit, for a limit above 0.
abbrev pub reached : ℤ → ℕ → Bool
reached limit count = ltb_ℤ (pos 0) limit && leb_ℤ limit (pos count)

abbrev pub auto_suspends : Profile → Bool
auto_suspends p = is_empty p.on_limit_action || p.on_limit_action == "auto-suspend"

-- The title and the body of a message.
abbrev pub title_of : NotifyEnv → String → Profile → String
title_of env event p =
    let host = trim_space env.external_hostname in
    let prefix = if is_empty host then "[chowkidar]" else join "[chowkidar@" (join host "]") in
    let template = applied_title_template env.defaults p event in
    join prefix (join " " (if is_empty template then event else env.render template))

abbrev pub body_of : NotifyEnv → String → Profile → String
body_of env event p =
    let host = trim_space env.external_hostname in
    let body = env.render (applied_template env.defaults p event) in
    if is_empty host then body else join "host=" (join host (join " | " body))

module _ (env : NotifyEnv) where
  -- What follows a limit that is reached.
  unfoldable pub limit_hit : Profile → Bool → Time → NotifyState → NotifyState
  unfolding suspend_profile
  limit_hit p burst now s =
      let reason = if burst then "burst limit reached" else "daily limit reached" in
      if auto_suspends p then suspend_profile p.id (next_midnight env now) reason now s else s

  unfoldable pub after_error : Profile → String → Time → NotifyState → NotifyState
  unfolding suspend_profile
  after_error p message now s =
      if is_rate_limit_error message
        && (p.auto_suspend_on_error || auto_suspends p)
        && not (is_profile_suspended p now)
      then suspend_profile p.id (next_midnight env now) (clean_notif_error message) now s
      else s

  -- The counters after a message was delivered, and the file with them: a file that cannot be written is
  -- only logged.
  unfoldable pub count_sent : Profile → Time → NotifyState → NotifyState
  count_sent p now s =
      let u = current_usage env p now s.usage in
      let usage =
        insert p.id (record u { day_count = u.day_count + 1; burst_count = u.burst_count + 1 })
          s.usage in
      if has_limits p
      then record s {
        usage = usage;
        stored = if env.saves now then usage_snapshot usage else s.stored;
      }
      else s

  unfoldable pub send_message : String → Profile → Time → NotifyState → NotifyState
  unfolding after_error count_sent
  send_message event p now s =
      let title = title_of env event p in
      let body = body_of env event p in
      let sent = λ (delivered : Bool). record s {
        sent =
            record {
              profile_id = p.id;
              service = p.service;
              title = title;
              body = body;
              at = now;
              delivered = delivered;
            }
            ∷ s.sent;
      } in
      elim (env.deliver p.service title body now) [
        | none ↦ count_sent p now (sent true)
        | some message ↦ after_error p message now (sent false)
      ]

  -- The counters are looked up, and with them made new, where there are limits.
  unfoldable pub touch_usage : Profile → Time → NotifyState → NotifyState
  touch_usage p now s = record s { usage = insert p.id (current_usage env p now s.usage) s.usage }

  unfoldable pub notify_profile : String → Profile → Time → NotifyState → NotifyState
  unfolding touch_usage limit_hit send_message
  notify_profile event p now s =
      let u = current_usage env p now s.usage in
      if not p.enabled || is_empty (trim_space p.service)
      then s
      else if is_profile_suspended p now
      then s
      else if not (has_limits p)
      then send_message event p now s
      else if reached p.burst_limit u.burst_count || reached p.daily_limit u.day_count
      then limit_hit p (reached p.burst_limit u.burst_count) now (touch_usage p now s)
      else send_message event p now (touch_usage p now s)

  -- One recipient: the profile as it was when the call began.
  unfoldable pub notify_recipient :
      String → List Profile → String → Time → NotifyState → NotifyState
  unfolding notify_profile
  notify_recipient event profiles id now s = elim (by_id id profiles) [
    | none ↦ s
    | some p ↦ notify_profile event p now s
  ]

  -- The recipients, each with the time at which its turn comes.
  unfoldable pub notify_recipients :
      String → List Profile → List (String × Time) → NotifyState → NotifyState
  unfolding notify_recipient
  notify_recipients event profiles [] s = s
  notify_recipients event profiles ((id, now) ∷ rest) s =
      notify_recipients event profiles rest (notify_recipient event profiles id now s)

  unfoldable pub send_job_notifications : String → List (String × Time) → NotifyState → NotifyState
  unfolding notify_recipients
  send_job_notifications event recipients s = notify_recipients event s.profiles recipients s

  -- A stop and a start of the server: the counters are those of the file.
  unfoldable pub restart : NotifyState → NotifyState
  unfolding load_notif_usage
  restart s = record s { usage = load_notif_usage s.stored }
