-- ===== src/Auth/Passwords.antt =====
-- What a change of the password, a logout and a missing session lead to.
use chowkidar.Prelude.{
  ◌≡◌, refl, Bool, true, false, String, Option, none, some, Assoc, lookup, arith, Bool-cases,
  Option-cases, inl, inr, text_iff, ap, ◌∙◌,
}
use chowkidar.Text.{is_empty}
use chowkidar.Model.{Time}
use chowkidar.Auth.Sessions.{change_password-sessions}
use chowkidar.Auth.{
  Session, AuthConfig, AuthState, Bcrypt, LoginBody, PasswordBody, Request, login, logout, disable,
  change_password, other, Reply, ok, unauthorized, logged_in, serve, handle_login, log_in,
  handle_disable, handle_change_password, behind_auth, validate_session, check_token, guarded_by,
  set_up, change,
}

-- A hash matches the password that it was made from, and is not empty.
pub record IsBcrypt (bcrypt : Bcrypt) : Type 0 where
  pub matches_own :
      (password hash : String)
      → bcrypt.generate password ≡ some hash
      → bcrypt.matches hash password ≡ true
  pub not_empty :
      (password hash : String) → bcrypt.generate password ≡ some hash → is_empty hash ≡ false

check_token-sessions :
    (cookie : Option String) (now : Time) (a a' : Option AuthConfig) (es : Assoc Session)
    → (check_token cookie now (record { auth = a; sessions = es })).1
      ≡ (check_token cookie now (record { auth = a'; sessions = es })).1
unfolding check_token
check_token-sessions none now a a' es = refl
check_token-sessions (some token) now a a' es = elim (Option-cases (lookup token es)) [
  | inl e ↦ ground arith
  | inr (v, e) ↦ ground arith
]

-- A state that asks for a password and has the sessions `es` lets in who had one of these.
lets_in :
    (token : String) (now : Time) (s : AuthState) (c : AuthConfig) (a : Option AuthConfig)
    (es : Assoc Session) {user : String}
    → s.auth ≡ some c
    → guarded_by (some c) ≡ true
    → s.sessions ≡ es
    → (check_token (some token) now (record { auth = a; sessions = es })).1 ≡ some user
    → (validate_session (some token) now s).1 ≡ some user
unfolding validate_session
lets_in token now s c a es e g same h =
    let at_auth = λ (x : Option AuthConfig).
      (validate_session (some token) now (record { auth = x; sessions = s.sessions })).1 in
    let at_sessions = λ (x : Assoc Session).
      (check_token (some token) now (record { auth = some c; sessions = x })).1 in
    ap at_auth e
    ∙ asks
    ∙ ap at_sessions same
    ∙ check_token-sessions (some token) now (some c) a es
    ∙ h
  where
    asks :
        (validate_session (some token) now (record { auth = some c; sessions = s.sessions })).1
        ≡ (check_token (some token) now (record { auth = some c; sessions = s.sessions })).1
    asks = rw g refl

-- The requests behind authMiddleware.
abbrev pub is_behind : Request → Bool
is_behind (login b) = false
is_behind logout = false
is_behind _ = true

validate_session-auth :
    (cookie : Option String) (now : Time) (s : AuthState)
    → (validate_session cookie now s).0.auth ≡ s.auth
unfolding validate_session check_token
validate_session-auth none now s = ground arith
validate_session-auth (some token) now s = elim (Option-cases (lookup token s.sessions)) [
  | inl e ↦ ground arith
  | inr (v, e) ↦ ground arith
]

module _ (bcrypt : Bcrypt) where
  shut_out :
      (cookie : Option String) (now : Time) (handler : AuthState → AuthState × Reply)
      (s : AuthState)
      → (validate_session cookie now s).1 ≡ none
      → ((behind_auth bcrypt cookie now handler s).1 ≡ unauthorized)
        × ((behind_auth bcrypt cookie now handler s).0.auth ≡ s.auth)
  unfolding behind_auth
  shut_out cookie now handler s h =
      (rw (h, behind_auth) refl, rw (h, behind_auth) (validate_session-auth cookie now s))

  -- The configuration after a change that went well.
  abbrev Changed : PasswordBody → Option AuthConfig → Type 0
  Changed b auth =
      (c : AuthConfig) × (auth ≡ some c)
      × (c.enabled ≡ true)
      × (bcrypt.generate b.new_password ≡ some c.password_hash)

  set_up-Changed :
      (saved : Bool) (b : PasswordBody) (s : AuthState)
      → (set_up bcrypt saved b s).1 ≡ ok
      → Changed b (set_up bcrypt saved b s).0.auth
  unfolding set_up
  set_up-Changed saved b s h = elim (Option-cases (bcrypt.generate b.new_password)) [
    | inl e ↦ absurd (ground arith)
    | inr (hash, e) ↦ (
      record { enabled = true; username = b.username; password_hash = hash },
      ground arith,
      refl,
      e,
    )
  ]

  change-Changed :
      (saved : Bool) (c : AuthConfig) (b : PasswordBody) (s : AuthState)
      → c.enabled ≡ true
      → (change bcrypt saved c b s).1 ≡ ok
      → Changed b (change bcrypt saved c b s).0.auth
  unfolding change
  change-Changed saved c b s on h = elim (Option-cases (bcrypt.generate b.new_password)) [
    | inl e ↦ absurd (ground arith)
    | inr (hash, e) ↦ (record c { password_hash = hash }, ground arith, on, e)
  ]

  changed :
      (saved : Bool) (b : PasswordBody) (auth : Option AuthConfig) (es : Assoc Session)
      → (handle_change_password bcrypt saved (some b) (record { auth = auth; sessions = es })).1
        ≡ ok
      → Changed b
          (handle_change_password bcrypt saved
            (some b)
            (record { auth = auth; sessions = es })).0.auth
  unfolding handle_change_password
  changed saved b none es h = elim (Bool-cases (is_empty b.new_password)) [
    | inl e ↦ absurd (ground arith)
    | inr e ↦ rw e (set_up-Changed saved b _ (rw e at h))
  ]
  changed saved b (some c) es h = elim (Bool-cases (is_empty b.new_password)) [
    | inl e ↦ absurd (ground arith)
    | inr e ↦ elim (Bool-cases (guarded_by (some c))) [
      | inl g ↦ rw (e, g) (change-Changed saved c b _ (on c g) (rw (e, g) at h))
      | inr g ↦ rw (e, g) (set_up-Changed saved b _ (rw (e, g) at h))
    ]
  ]
    where
      on : (c : AuthConfig) → guarded_by (some c) ≡ true → c.enabled ≡ true
      on c g = unfold guarded_by in ground arith

  login_with :
      (c : AuthConfig) (b : LoginBody) (token : String) (now : Time) (es : Assoc Session)
      → c.enabled ≡ true
      → b.username ≡ c.username
      → bcrypt.matches c.password_hash b.password ≡ true
      → (handle_login bcrypt (some b) token now (record { auth = some c; sessions = es })).1
        ≡ logged_in token
  unfolding handle_login log_in
  login_with c b token now es on same fits = ground (arith, text_iff b.username c.username)

  -- After a change of the password that was answered with success, a login with the name then in force and
  -- the new password is let in.
  pub new_password_logs_in :
      (saved remember : Bool) (b : PasswordBody) (auth : Option AuthConfig) (es : Assoc Session)
      (token : String) (now : Time)
      → IsBcrypt bcrypt
      → (handle_change_password bcrypt saved (some b) (record { auth = auth; sessions = es })).1
        ≡ ok
      → (c : AuthConfig) × ((handle_change_password bcrypt saved
            (some b)
            (record { auth = auth; sessions = es })).0.auth
          ≡ some c)
        × ((handle_login bcrypt
              (some
                (record { username = c.username; password = b.new_password; remember = remember }))
              token
              now
              (handle_change_password bcrypt saved
                (some b)
                (record { auth = auth; sessions = es })).0).1
            ≡ logged_in token)
  new_password_logs_in saved remember b auth es token now laws h =
      let (c, e, on, made) = changed saved b auth es h in
      let after =
        (handle_change_password bcrypt saved (some b) (record { auth = auth; sessions = es })).0 in
      (
        c,
        e,
        rw_state after c _ e (
            login_with c
              (record { username = c.username; password = b.new_password; remember = remember })
              token now after.sessions on refl
              (laws.matches_own b.new_password c.password_hash made)),
      )
    where
      rw_state :
          (s : AuthState) (c : AuthConfig) (body : LoginBody)
          → s.auth ≡ some c
          → (handle_login bcrypt
              (some body)
              token
              now
              (record { auth = some c; sessions = s.sessions })).1
            ≡ logged_in token
          → (handle_login bcrypt (some body) token now s).1 ≡ logged_in token
      rw_state s c body e h =
          ap
            (λ a.
              (handle_login bcrypt (some body) token now
                (record { auth = a; sessions = s.sessions })).1)
            e
          ∙ h

  -- A change of the password, answered with success, leaves every session that was open as it was: whoever
  -- was let through before it is let through after it.
  pub session_outlives_password :
      (saved : Bool) (b : PasswordBody) (auth : Option AuthConfig) (es : Assoc Session)
      (token : String) (now : Time) {user : String}
      → IsBcrypt bcrypt
      → (handle_change_password bcrypt saved (some b) (record { auth = auth; sessions = es })).1
        ≡ ok
      → (check_token (some token) now (record { auth = auth; sessions = es })).1 ≡ some user
      → (validate_session
          (some token)
          now
          (handle_change_password bcrypt saved
            (some b)
            (record { auth = auth; sessions = es })).0).1
        ≡ some user
  session_outlives_password saved b auth es token now laws h open_before =
      let (c, e, on, made) = changed saved b auth es h in
      lets_in token now _ c auth es e
        (guarded c on (laws.not_empty b.new_password c.password_hash made))
        (change_password-sessions bcrypt saved (some b) (record { auth = auth; sessions = es }))
        open_before
    where
      guarded :
          (c : AuthConfig)
          → c.enabled ≡ true
          → is_empty c.password_hash ≡ false
          → guarded_by (some c) ≡ true
      guarded c on full = unfold guarded_by in ground arith

  -- A request without a session that is open, where a password is asked for, is refused and leaves the
  -- configuration as it was.
  pub stranger_shut_out :
      (request : Request) (cookie : Option String) (now : Time) (token : String) (saved : Bool)
      (s : AuthState)
      → is_behind request ≡ true
      → (validate_session cookie now s).1 ≡ none
      → ((serve bcrypt request cookie now token saved s).1 ≡ unauthorized)
        × ((serve bcrypt request cookie now token saved s).0.auth ≡ s.auth)
  unfolding serve
  stranger_shut_out (login b) cookie now token saved s b' h = absurd (cc)
  stranger_shut_out logout cookie now token saved s b' h = absurd (cc)
  stranger_shut_out disable cookie now token saved s b' h =
      shut_out cookie now (handle_disable bcrypt) s h
  stranger_shut_out (change_password b) cookie now token saved s b' h =
      shut_out cookie now (handle_change_password bcrypt saved b) s h
  stranger_shut_out other cookie now token saved s b' h = shut_out cookie now (λ x. (x, ok)) s h
