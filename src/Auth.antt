-- ===== src/Auth.antt =====
-- cmd/server/auth.go: sessions, and the requests on /api/auth. Hashing passwords is bcrypt's, tokens are
-- the random source's; `saved` says whether the configuration could be written.
pub mod Logins
pub mod Backed
pub mod Sessions
pub mod Passwords
use chowkidar.Prelude.{
  ℕ, ◌+◌, ◌*◌, Bool, true, false, ◌||◌, ◌&&◌, not, String, List, [], ◌∷◌, ◌++◌, Option, none, some,
  Assoc, lookup, insert, delete, ltb, ◌==◌, if◌then◌else◌, ◌≡◌,
}
use chowkidar.Text.{is_empty}
use chowkidar.Model.{Time, second}

pub record Session : Type 0 where
  pub username : String
  pub expires_at : Time

-- config.AuthConfig.
pub record AuthConfig : Type 0 where
  pub enabled : Bool
  pub username : String
  pub password_hash : String

-- The part of `app` that these requests read and write.
pub record AuthState : Type 0 where
  pub auth : Option AuthConfig
  pub sessions : Assoc Session

-- bcrypt.CompareHashAndPassword and bcrypt.GenerateFromPassword.
pub record Bcrypt : Type 0 where
  pub matches : String → String → Bool
  pub generate : String → Option String

abbrev pub day : ℕ
day = 24 * 3600 * second

unfoldable pub create_session : String → Bool → String → Time → AuthState → AuthState
create_session username remember token now s = record s {
  sessions =
      insert token
        (record { username = username; expires_at = now + (if remember then 30 * day else day) })
        s.sessions;
}

unfoldable pub delete_session : Option String → AuthState → AuthState
delete_session none s = s
delete_session (some token) s = record s { sessions = delete token s.sessions }

-- The user, unless the request has no session; a session that is over is dropped.
unfoldable pub check_token : Option String → Time → AuthState → AuthState × Option String
check_token none now s = (s, none)
check_token (some token) now s = elim (lookup token s.sessions) [
  | none ↦ (record s { sessions = delete token s.sessions }, none)
  | some e ↦
      if ltb e.expires_at now
      then (record s { sessions = delete token s.sessions }, none)
      else (s, some e.username)
]

-- Whether a password is asked for at all.
unfoldable pub guarded_by : Option AuthConfig → Bool
guarded_by none = false
guarded_by (some c) = c.enabled && not (is_empty c.password_hash)

unfoldable pub validate_session : Option String → Time → AuthState → AuthState × Option String
unfolding check_token guarded_by
validate_session cookie now s = if guarded_by s.auth then check_token cookie now s else (s, some "")

pub data Reply : Type 0 where
  ok bad_request unauthorized failed auth_disabled : Reply
  logged_in : String → Reply

pub record LoginBody : Type 0 where
  pub username : String
  pub password : String
  pub remember : Bool

pub record PasswordBody : Type 0 where
  pub current_password : String
  pub new_password : String
  pub username : String

pub data Request : Type 0 where
  login : Option LoginBody → Request
  logout disable : Request
  change_password : Option PasswordBody → Request
  -- Any other request behind authMiddleware.
  other : Request

module _ (bcrypt : Bcrypt) where
  unfoldable pub log_in : AuthConfig → LoginBody → String → Time → AuthState → AuthState × Reply
  unfolding create_session
  log_in c b token now s =
      if not c.enabled
      then (s, auth_disabled)
      else if not (b.username == c.username)
      then (s, unauthorized)
      else if not (bcrypt.matches c.password_hash b.password)
      then (s, unauthorized)
      else (create_session b.username b.remember token now s, logged_in token)

  unfoldable pub handle_login : Option LoginBody → String → Time → AuthState → AuthState × Reply
  unfolding log_in
  handle_login none token now s = (s, bad_request)
  handle_login (some b) token now s = elim s.auth [
    | none ↦ (s, auth_disabled)
    | some c ↦ log_in c b token now s
  ]

  -- What is stored, and whether it could be written.
  abbrev store : Bool → AuthConfig → AuthState → AuthState × Reply
  store saved c s = (record s { auth = some c }, if saved then ok else failed)

  set_up : Bool → PasswordBody → AuthState → AuthState × Reply
  set_up saved b s =
      if is_empty b.username then (s, bad_request) else elim (bcrypt.generate b.new_password) [
        | none ↦ (s, failed)
        | some hash ↦
            store saved (record { enabled = true; username = b.username; password_hash = hash }) s
      ]

  change : Bool → AuthConfig → PasswordBody → AuthState → AuthState × Reply
  change saved c b s =
      if not (bcrypt.matches c.password_hash b.current_password)
      then (s, unauthorized)
      else elim (bcrypt.generate b.new_password) [
        | none ↦ (s, failed)
        | some hash ↦ store saved (record c { password_hash = hash }) s
      ]

  unfoldable pub handle_change_password : Bool → Option PasswordBody → AuthState → AuthState × Reply
  unfolding set_up change
  handle_change_password saved none s = (s, bad_request)
  handle_change_password saved (some b) s =
      if is_empty b.new_password then (s, bad_request) else elim s.auth [
        | none ↦ set_up saved b s
        | some c ↦ if guarded_by (some c) then change saved c b s else set_up saved b s
      ]

  -- A failure to write is only logged here.
  unfoldable pub handle_disable : AuthState → AuthState × Reply
  handle_disable s = (
    record {
      auth = elim s.auth [ none ↦ none | some c ↦ some (record c { enabled = false }) ];
      sessions = [];
    },
    ok,
  )

  -- authMiddleware: the handler runs on what the check of the session leaves.
  unfoldable pub behind_auth :
      Option String → Time → (AuthState → AuthState × Reply) → AuthState → AuthState × Reply
  unfolding validate_session
  behind_auth cookie now handler s =
      let (s', user) = validate_session cookie now s in
      elim user [ none ↦ (s', unauthorized) | some name ↦ handler s' ]

  -- One request with its cookie, the time, the token that a login would get, and whether files can be written.
  unfoldable pub serve :
      Request → Option String → Time → String → Bool → AuthState → AuthState × Reply
  unfolding handle_login handle_change_password handle_disable behind_auth delete_session
  serve (login b) cookie now token saved s = handle_login b token now s
  serve logout cookie now token saved s = (delete_session cookie s, ok)
  serve disable cookie now token saved s = behind_auth cookie now handle_disable s
  serve (change_password b) cookie now token saved s =
      behind_auth cookie now (handle_change_password saved b) s
  serve other cookie now token saved s = behind_auth cookie now (λ s'. (s', ok)) s
