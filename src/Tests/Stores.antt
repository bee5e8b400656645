-- ===== src/Tests/Stores.antt =====
-- The theorems about the window table, the history and the sessions at concrete inputs.
use chowkidar.Prelude.{
  ◌+◌, ◌-◌, ◌*◌, ◌≤◌, ◌≡◌, ◌↔◌, refl, true, false, not, String, Bool, List, [], ◌∷◌, none, some,
  is_some, pos, Memᴰ, All, arith, sym, subst, Assoc, if◌then◌else◌, ◌==◌, ==_refl, text_iff,
}
use chowkidar.Prelude.Checks.{bad, good}
use chowkidar.Model.{Time, second, minute, Window}
use chowkidar.Calendar.{Library}
use chowkidar.Tests.Zones.{eastern, eastern-IsRegular}
use chowkidar.Server.{Entry}
use chowkidar.Occurrence.{last_occurrence, active_maintenance_windows}
use chowkidar.Windows.{normalize_window}
use chowkidar.Windows.Valid.{IsValidWindow}
use chowkidar.Windows.Normal.{normalize-IsValidWindow}
use chowkidar.Windows.Stable.{IsValidWindow-normalize}
use chowkidar.Windows.Handlers.{handle_maintenance, prune_finished, post, put_at, delete_at}
use chowkidar.Windows.Spec.{Event, serve, replay, view}
use chowkidar.Windows.Refine.{serve-replay}
use chowkidar.Windows.Weekly.{weekly_window_runs}
use chowkidar.Windows.Cleanup.{prune_finished-active}
use chowkidar.Windows.Errors.{failed_request_unchanged}
use chowkidar.History.{Line, blank, junk, written, holding, slice_bounds, prune}
use chowkidar.History.Requests.{handle_history}
use chowkidar.History.Pages.{newest_first, first_pages, first_pages-newest_first, far_page_panics}
use chowkidar.History.Prune.{Pruned, prune_exact}
use chowkidar.Crypto.Laws.{some_inj}
use chowkidar.Text.{is_empty}
use chowkidar.Auth.{
  AuthConfig, AuthState, Bcrypt, Session, LoginBody, PasswordBody, login, other, change_password,
  unauthorized, logged_in, ok, handle_login, handle_change_password, validate_session, day,
}
use chowkidar.Auth.Logins.{Login, logins}
use chowkidar.Auth.Sessions.{session_backed}
use chowkidar.Auth.Passwords.{IsBcrypt, new_password_logs_in, session_outlives_password}
use chowkidar.Tests.Data.{noon, midnight, plain_window, weekly_window}

-- Every zone is one with summer time.
abbrev world : Library
world = record midnight { load_location = λ name. some eastern }

abbrev any_cron : String → Bool
any_cron e = true

abbrev in_zone : Window
in_zone = record weekly_window { timezone = "Europe/Berlin" }

-- As a user may send it.
abbrev as_sent : Window
as_sent = record in_zone { title = " patch day "; on_start = "FORCE-CANCEL" }

in_zone-accepted : normalize_window world any_cron as_sent ≡ good in_zone
unfolding normalize_window chowkidar.Windows.check_targets chowkidar.Windows.tidied
    chowkidar.Text.trim_space chowkidar.Windows.is_supported_strategy chowkidar.Text.to_lower
    chowkidar.Windows.is_supported_on_start chowkidar.Windows.default_on_start
    chowkidar.Names.dedupe_non_empty chowkidar.Windows.with_schedule chowkidar.Schedule.strategy_of
    chowkidar.Windows.dedupe_ints_in_range chowkidar.Windows.distinct_in_range
    chowkidar.Windows.require_time chowkidar.Schedule.parse_time_of_day chowkidar.Text.split
    chowkidar.Text.atoi chowkidar.Names.dedupe_from chowkidar.Text.is_space chowkidar.Text.lower
    chowkidar.Text.trim_left chowkidar.Text.trim_right chowkidar.Windows.insert_int
    chowkidar.Windows.require_valid_timezone chowkidar.Windows.sort_ints
in_zone-accepted = refl

normalize-IsValidWindow_example : IsValidWindow world any_cron in_zone
normalize-IsValidWindow_example =
    normalize-IsValidWindow world any_cron as_sent {v = in_zone} in_zone-accepted

IsValidWindow-normalize_example :
    IsValidWindow world any_cron in_zone ↔ (normalize_window world any_cron in_zone ≡ good in_zone)
IsValidWindow-normalize_example = IsValidWindow-normalize world any_cron in_zone

in_zone-IsValid : IsValidWindow world any_cron in_zone
in_zone-IsValid = normalize-IsValidWindow world any_cron as_sent {v = in_zone} in_zone-accepted

abbrev edits : List Event
edits =
    (post (some (record as_sent { id = "w9" })), noon, true)
    ∷ (put_at "/api/maintenance/w2" (some in_zone), noon + second, true)
    ∷ (delete_at "/api/maintenance/w9", noon + minute, false)
    ∷ []

serve-replay_example :
    All (IsValidWindow world any_cron) (serve world any_cron edits (in_zone ∷ []))
    × (view (serve world any_cron edits (in_zone ∷ []))
        ≡ replay world any_cron edits (view (in_zone ∷ [])))
serve-replay_example = serve-replay world any_cron edits (in_zone ∷ []) (in_zone-IsValid, tt)

failed_request_unchanged_example :
    (handle_maintenance world any_cron noon true
      (post (some (record in_zone { title = " " })))
      (in_zone ∷ [])).0
    ≡ in_zone ∷ []
unfolding handle_maintenance chowkidar.Windows.upsert_window normalize_window
    chowkidar.Windows.check_targets chowkidar.Windows.tidied chowkidar.Text.trim_space
failed_request_unchanged_example =
    failed_request_unchanged world any_cron noon true (post (some (record in_zone { title = " " })))
      (in_zone ∷ []) refl

weekly_window_runs_example : is_some (last_occurrence world in_zone noon) ≡ true
weekly_window_runs_example =
    weekly_window_runs world any_cron in_zone noon eastern-IsRegular in_zone-IsValid refl
      (omega arith)

plain_window-IsValid : IsValidWindow world any_cron plain_window
unfolding normalize_window chowkidar.Windows.check_targets chowkidar.Windows.tidied
    chowkidar.Text.trim_space chowkidar.Windows.is_supported_strategy chowkidar.Text.to_lower
    chowkidar.Windows.is_supported_on_start chowkidar.Windows.default_on_start
    chowkidar.Names.dedupe_non_empty chowkidar.Windows.with_schedule chowkidar.Schedule.strategy_of
plain_window-IsValid = normalize-IsValidWindow world any_cron plain_window {v = plain_window} refl

prune_finished-active_example :
    active_maintenance_windows world
      (prune_finished world any_cron (noon + 86400 * second) true (plain_window ∷ in_zone ∷ []))
      (noon + 86400 * second)
    ≡ active_maintenance_windows world (plain_window ∷ in_zone ∷ []) (noon + 86400 * second)
prune_finished-active_example =
    prune_finished-active world any_cron (noon + 86400 * second) true (plain_window ∷ in_zone ∷ [])
      (noon + 86400 * second) (plain_window-IsValid, (in_zone-IsValid, tt)) (omega arith)

abbrev entry_at : Time → String → Entry
entry_at at status = record {
  timestamp = at;
  container_id = "c1";
  container_name = "web";
  reason = "unhealthy";
  action = "restart";
  attempt = 1;
  status = status;
  error = "";
  output = "";
  duration_ms = 5;
}

abbrev some_lines : List Line
some_lines =
    written (entry_at (noon - 40 * 86400 * second) "failed")
    ∷ blank
    ∷ junk "{"
    ∷ written (entry_at noon "healthy")
    ∷ written (entry_at noon "success")
    ∷ []

first_pages-newest_first_example :
    first_pages false 1 "" (holding some_lines) 2 ≡ newest_first false "" some_lines
unfolding newest_first chowkidar.History.entries chowkidar.History.listed
first_pages-newest_first_example =
    first_pages-newest_first false 0 "" some_lines 2 (omega arith) (omega arith)

far_page_panics_example :
    handle_history false "25" "368934881474191034" "" (holding some_lines) ≡ bad slice_bounds
unfolding chowkidar.History.Requests.page_number chowkidar.Text.atoi chowkidar.Text.trim_space
    chowkidar.History.Requests.page_size
far_page_panics_example =
    far_page_panics false "25" "368934881474191034" "" some_lines (omega arith)

prune_exact_example :
    Pruned (noon + minute) 29 some_lines (prune true (noon + minute) (pos 30) (holding some_lines))
prune_exact_example = prune_exact (noon + minute) 29 some_lines

-- A hash is the password with nothing done to it.
abbrev plain_bcrypt : Bcrypt
plain_bcrypt = record {
  matches = λ hash password. hash == password;
  generate = λ password. if is_empty password then none else some password;
}

hashed :
    (b : Bool) (password hash : String)
    → (if b then none else some password) ≡ some hash
    → (b ≡ false) × (password ≡ hash)
hashed true password hash h = absurd (cc)
hashed false password hash h = (refl, some_inj h)

plain_bcrypt-IsBcrypt : IsBcrypt plain_bcrypt
plain_bcrypt-IsBcrypt = record {
  matches_own = λ password hash h.
      (text_iff hash password).1 (sym (hashed (is_empty password) password hash h).1);
  not_empty = λ password hash h.
      let (b, same) = hashed (is_empty password) password hash h in
      subst (λ x. is_empty x ≡ false) same b;
}

abbrev owner : AuthConfig
owner = record { enabled = true; username = "ada"; password_hash = "old" }

abbrev old_login : LoginBody
old_login = record { username = "ada"; password = "old"; remember = true }

abbrev new_password : PasswordBody
new_password = record { current_password = "old"; new_password = "new"; username = "" }

abbrev one_open : Assoc Session
one_open = ("t1", record { username = "ada"; expires_at = noon + day }) ∷ []

session_backed_example :
    (l : Login) × Memᴰ l (
      logins plain_bcrypt
        (record { auth = some owner; sessions = [] })
        ((login (some old_login), none, noon, "t1", true) ∷ [])
        [])
    × (l.token ≡ "t1")
    × (l.username ≡ "ada")
    × (noon + day ≤ l.at + 30 * day)
unfolding chowkidar.Auth.guarded_by chowkidar.Auth.Logins.run chowkidar.Auth.Logins.respond
    chowkidar.Auth.serve chowkidar.Prelude.lookup chowkidar.Prelude.insert
session_backed_example =
    session_backed plain_bcrypt (some owner) ((login (some old_login), none, noon, "t1", true) ∷ [])
      "t1" (noon + day) {user = "ada"} refl refl

new_password_logs_in_example :
    (c : AuthConfig) × ((handle_change_password plain_bcrypt true
        (some new_password)
        (record { auth = some owner; sessions = one_open })).0.auth
      ≡ some c)
    × ((handle_login plain_bcrypt
          (some (record { username = c.username; password = "new"; remember = false }))
          "t2"
          noon
          (handle_change_password plain_bcrypt true
            (some new_password)
            (record { auth = some owner; sessions = one_open })).0).1
        ≡ logged_in "t2")
unfolding handle_change_password chowkidar.Auth.guarded_by
new_password_logs_in_example =
    new_password_logs_in plain_bcrypt true false new_password (some owner) one_open "t2" noon
      plain_bcrypt-IsBcrypt refl

session_outlives_password_example :
    (validate_session
      (some "t1")
      noon
      (handle_change_password plain_bcrypt true
        (some new_password)
        (record { auth = some owner; sessions = one_open })).0).1
    ≡ some "ada"
unfolding handle_change_password chowkidar.Auth.guarded_by chowkidar.Auth.check_token
    chowkidar.Prelude.lookup
session_outlives_password_example =
    session_outlives_password plain_bcrypt true new_password (some owner) one_open "t1" noon
      {user = "ada"} plain_bcrypt-IsBcrypt refl refl
