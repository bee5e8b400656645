-- ===== src/Auth/Logins.antt =====
-- The logins that were let in, over a sequence of requests.
use chowkidar.Prelude.{
  Bool, false, ◌&&◌, String, List, [], ◌∷◌, ◌++◌, Option, none, some, ◌==◌, if◌then◌else◌,
}
use chowkidar.Model.{Time}
use chowkidar.Auth.{AuthConfig, AuthState, Bcrypt, LoginBody, Request, login, serve}

-- A request with its cookie, the time, the token that a login would get, and whether files can be written.
abbrev pub Event : Type 0
Event = Request × Option String × Time × String × Bool

-- A login that was let in.
pub record Login : Type 0 where
  pub token : String
  pub username : String
  pub at : Time

module _ (bcrypt : Bcrypt) where
  unfoldable pub respond : AuthState → Event → AuthState
  respond s (request, cookie, now, token, saved) = (serve bcrypt request cookie now token saved s).0

  -- Whether the name and the password are those of the configuration in force.
  abbrev pub knows : Option AuthConfig → LoginBody → Bool
  knows none b = false
  knows (some c) b =
      c.enabled && b.username == c.username && bcrypt.matches c.password_hash b.password

  abbrev pub let_in : AuthState → Event → List Login
  let_in s (login (some b), cookie, now, token, saved) =
      if knows s.auth b then record { token = token; username = b.username; at = now } ∷ [] else []
  let_in s _ = []

  unfoldable pub run : AuthState → List Event → AuthState
  run s [] = s
  run s (e ∷ es) = run (respond s e) es

  -- The logins that were let in, the newest ones first.
  unfoldable pub logins : AuthState → List Event → List Login → List Login
  logins s [] before = before
  logins s (e ∷ es) before = logins (respond s e) es (let_in s e ++ before)
