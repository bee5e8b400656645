-- ===== src/Auth/Sessions.antt =====
-- Every session goes back to a login with the right name and password.
use chowkidar.Prelude.{
  ◌+◌, ◌*◌, ◌≤◌, ◌≡◌, refl, Bool, true, false, ◌&&◌, not, String, List, [], ◌∷◌, ◌++◌, Option, none,
  some, Assoc, lookup, insert, Memᴰ, arith, Option-cases, inl, inr, sym, subst, ◌∙◌, ◌==◌,
  if◌then◌else◌,
}
use chowkidar.Model.{Time}
use chowkidar.Auth.{
  Session, AuthConfig, AuthState, Bcrypt, LoginBody, PasswordBody, unauthorized, ok, login, logout,
  disable, change_password, other, Reply, serve, handle_login, log_in, create_session,
  delete_session, handle_disable, handle_change_password, behind_auth, validate_session,
  check_token, guarded_by, day, set_up, change,
}
use chowkidar.Auth.Logins.{Event, Login, respond, let_in, run, logins}
use chowkidar.Auth.Backed.{
  Backs, AllBacked, more, delete-AllBacked, insert-AllBacked, lookup-Backed, validate-AllBacked,
}

module _ (bcrypt : Bcrypt) where
  behind-AllBacked :
      (ls : List Login) (cookie : Option String) (now : Time)
      (handler : AuthState → AuthState × Reply) (s : AuthState)
      → ((s' : AuthState) → AllBacked ls s'.sessions → AllBacked ls (handler s').0.sessions)
      → AllBacked ls s.sessions
      → AllBacked ls (behind_auth bcrypt cookie now handler s).0.sessions
  unfolding behind_auth
  behind-AllBacked ls cookie now handler s keep h =
      by_user (validate_session cookie now s).1 (validate-AllBacked ls cookie now s h)
    where
      by_user :
          (user : Option String)
          → AllBacked ls (validate_session cookie now s).0.sessions
          → AllBacked ls
              (elim user as (λ u. AuthState × Reply) [
                | none ↦ ((validate_session cookie now s).0, unauthorized)
                | some name ↦ handler (validate_session cookie now s).0
              ]).0.sessions
      by_user none k = k
      by_user (some name) k = keep _ k

  set_up-sessions :
      (saved : Bool) (b : PasswordBody) (s : AuthState)
      → (set_up bcrypt saved b s).0.sessions ≡ s.sessions
  unfolding set_up
  set_up-sessions saved b s = ground arith

  change-sessions :
      (saved : Bool) (c : AuthConfig) (b : PasswordBody) (s : AuthState)
      → (change bcrypt saved c b s).0.sessions ≡ s.sessions
  unfolding change
  change-sessions saved c b s = ground arith

  changed-sessions :
      (saved : Bool) (b : PasswordBody) (auth : Option AuthConfig) (es : Assoc Session)
      → (handle_change_password bcrypt saved
          (some b)
          (record { auth = auth; sessions = es })).0.sessions
        ≡ es
  unfolding handle_change_password
  changed-sessions saved b none es =
      ground (arith, set_up-sessions saved b (record { auth = none; sessions = es }))
  changed-sessions saved b (some c) es = ground (
    arith,
    set_up-sessions saved b (record { auth = some c; sessions = es }),
    change-sessions saved c b (record { auth = some c; sessions = es }),
  )

  pub change_password-sessions :
      (saved : Bool) (b : Option PasswordBody) (s : AuthState)
      → (handle_change_password bcrypt saved b s).0.sessions ≡ s.sessions
  unfolding handle_change_password
  change_password-sessions saved none s = refl
  change_password-sessions saved (some b) s = changed-sessions saved b s.auth s.sessions

  -- The three tests of a login, and what comes after them.
  gated : {R : Type 0} → AuthState → AuthState → R → R → R → R → Bool → Bool → Bool → AuthState × R
  gated s s' x y z w a b d =
      if not a then (s, x) else if not b then (s, y) else if not d then (s, z) else (s', w)

  gate :
      {R : Type 0} (ls : List Login) (l : Login) (s s' : AuthState) (x y z w : R) (a b d : Bool)
      → AllBacked ls s.sessions
      → AllBacked (l ∷ ls) s'.sessions
      → AllBacked ((if a && b && d then l ∷ [] else []) ++ ls) (gated s s' x y z w a b d).0.sessions
  unfolding gated
  gate ls l s s' x y z w false b d h k = h
  gate ls l s s' x y z w true false d h k = h
  gate ls l s s' x y z w true true false h k = h
  gate ls l s s' x y z w true true true h k = k

  expiry :
      (remember : Bool) (now : Time) → now + (if remember then 30 * day else day) ≤ now + 30 * day
  expiry remember now = ground arith

  login-AllBacked :
      (ls : List Login) (b : LoginBody) (cookie : Option String) (now : Time) (token : String)
      (saved : Bool) (auth : Option AuthConfig) (es : Assoc Session)
      → AllBacked ls es
      → AllBacked
          (let_in bcrypt
              (record { auth = auth; sessions = es })
              (login (some b), cookie, now, token, saved)
            ++ ls)
          (handle_login bcrypt
            (some b)
            token
            now
            (record { auth = auth; sessions = es })).0.sessions
  unfolding handle_login log_in create_session gated
  login-AllBacked ls b cookie now token saved none es h = h
  login-AllBacked ls b cookie now token saved (some c) es h =
      let l : Login = record { token = token; username = b.username; at = now } in
      let s : AuthState = record { auth = some c; sessions = es } in
      let session : Session = record {
        username = b.username;
        expires_at = now + (if b.remember then 30 * day else day);
      } in
      let backs : Backs token session l = record {
        same_token = refl;
        same_user = refl;
        recent = expiry b.remember now;
      } in
      gate ls l s (record { auth = some c; sessions = insert token session es }) _ _ _ _ c.enabled
        (b.username == c.username) (bcrypt.matches c.password_hash b.password) h
        (insert-AllBacked (l ∷ ls) token session es (l, Memᴰ.head refl, backs)
          (more (l ∷ []) ls es h))

  respond-AllBacked :
      (ls : List Login) (s : AuthState) (e : Event)
      → AllBacked ls s.sessions
      → AllBacked (let_in bcrypt s e ++ ls) (respond bcrypt s e).sessions
  unfolding respond serve handle_login handle_disable delete_session
  respond-AllBacked ls s (login none, cookie, now, token, saved) h = h
  respond-AllBacked ls s (login (some b), cookie, now, token, saved) h =
      login-AllBacked ls b cookie now token saved s.auth s.sessions h
  respond-AllBacked ls s (logout, none, now, token, saved) h = h
  respond-AllBacked ls s (logout, some t, now, token, saved) h = delete-AllBacked ls t s.sessions h
  respond-AllBacked ls s (disable, cookie, now, token, saved) h =
      behind-AllBacked ls cookie now (handle_disable bcrypt) s (λ s' k. tt) h
  respond-AllBacked ls s (change_password b, cookie, now, token, saved) h =
      behind-AllBacked ls cookie now (handle_change_password bcrypt saved b) s
        (λ s' k. subst (AllBacked ls) (sym (change_password-sessions saved b s')) k) h
  respond-AllBacked ls s (other, cookie, now, token, saved) h =
      behind-AllBacked ls cookie now (λ x. (x, ok)) s (λ s' k. k) h

  run-AllBacked :
      (ls : List Login) (s : AuthState) (es : List Event)
      → AllBacked ls s.sessions
      → AllBacked (logins bcrypt s es ls) (run bcrypt s es).sessions
  unfolding run logins
  run-AllBacked ls s [] h = h
  run-AllBacked ls s (e ∷ es) h =
      run-AllBacked (let_in bcrypt s e ++ ls) (respond bcrypt s e) es (respond-AllBacked ls s e h)

checked_session :
    (token : String) (now : Time) (s : AuthState) {user : String}
    → (check_token (some token) now s).1 ≡ some user
    → (e : Session) × (lookup token s.sessions ≡ some e)
      × (now ≤ e.expires_at)
      × (e.username ≡ user)
unfolding check_token
checked_session token now s h = elim (Option-cases (lookup token s.sessions)) [
  | inl e ↦ absurd (ground arith)
  | inr (v, e) ↦ (v, e, ground arith, ground arith)
]

-- Whoever is let through with a token, where a password is asked for, logged in with that token and the
-- password in force then, at most thirty days ago, if the server started without sessions.
pub session_backed :
    (bcrypt : Bcrypt) (auth : Option AuthConfig) (es : List Event) (token : String) (now : Time)
    {user : String}
    → guarded_by (run bcrypt (record { auth = auth; sessions = [] }) es).auth ≡ true
    → (validate_session (some token) now (run bcrypt (record { auth = auth; sessions = [] }) es)).1
      ≡ some user
    → (l : Login) × Memᴰ l (logins bcrypt (record { auth = auth; sessions = [] }) es [])
      × (l.token ≡ token)
      × (l.username ≡ user)
      × (now ≤ l.at + 30 * day)
unfolding validate_session
session_backed bcrypt auth es token now g h =
    let start : AuthState = record { auth = auth; sessions = [] } in
    let (e, found, alive, same) = checked_session token now (run bcrypt start es) (rw g at h) in
    let (l, m, b) =
      lookup-Backed (logins bcrypt start es []) token _ (run-AllBacked bcrypt [] start es tt)
        found in
    (l, m, b.same_token, b.same_user ∙ same, omega (arith, b.recent))
