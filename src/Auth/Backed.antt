-- ===== src/Auth/Backed.antt =====
-- Sessions that go back to logins, and how the tables of sessions keep that.
use chowkidar.Prelude.{
  ◌+◌, ◌*◌, ◌≤◌, ◌≡◌, Bool, true, false, String, List, [], ◌∷◌, ◌++◌, Option, none, some, Assoc,
  lookup, insert, delete, All, Memᴰ, arith, Bool-cases, Option-cases, inl, inr, subst, ◌==◌,
  text_iff, if◌then◌else◌, ltb,
}
use chowkidar.Model.{Time}
use chowkidar.Auth.{Session, AuthState, validate_session, check_token, guarded_by, day}
use chowkidar.Auth.Logins.{Login}

-- A login with the token and the name of the session, at most thirty days before the session ends.
pub record Backs (token : String) (e : Session) (l : Login) : Type 0 where
  pub same_token : l.token ≡ token
  pub same_user : l.username ≡ e.username
  pub recent : e.expires_at ≤ l.at + 30 * day

abbrev pub IsBacked : List Login → String × Session → Type 0
IsBacked ls (token, e) = (l : Login) × Memᴰ l ls × Backs token e l

abbrev pub AllBacked : List Login → Assoc Session → Type 0
AllBacked ls = All (IsBacked ls)

pub more :
    (new : List Login) (ls : List Login) (es : Assoc Session)
    → AllBacked ls es
    → AllBacked (new ++ ls) es
more new ls [] h = tt
more new ls (e ∷ es) ((l, m, b), hs) = ((l, later new m, b), more new ls es hs)
  where
    later : {l : Login} {ls : List Login} (new : List Login) → Memᴰ l ls → Memᴰ l (new ++ ls)
    later [] m = m
    later (n ∷ new) m = Memᴰ.tail (later new m)

pub delete-AllBacked :
    (ls : List Login) (k : String) (es : Assoc Session)
    → AllBacked ls es
    → AllBacked ls (delete k es)
unfolding delete
delete-AllBacked ls k [] h = tt
delete-AllBacked ls k (e ∷ es) (h, hs) = elim (Bool-cases (e.0 == k)) [
  | inl t ↦ rw t (delete-AllBacked ls k es hs)
  | inr t ↦ rw t (h, delete-AllBacked ls k es hs)
]

pub insert-AllBacked :
    (ls : List Login) (k : String) (s : Session) (es : Assoc Session)
    → IsBacked ls (k, s)
    → AllBacked ls es
    → AllBacked ls (insert k s es)
unfolding insert
insert-AllBacked ls k s [] b h = (b, tt)
insert-AllBacked ls k s (e ∷ es) b (h, hs) = elim (Bool-cases (e.0 == k)) [
  | inl t ↦ rw t (b, hs)
  | inr t ↦ rw t (h, insert-AllBacked ls k s es b hs)
]

pub lookup-Backed :
    (ls : List Login) (k : String) (es : Assoc Session) {s : Session}
    → AllBacked ls es
    → lookup k es ≡ some s
    → IsBacked ls (k, s)
unfolding lookup
lookup-Backed ls k [] h e = absurd (cc)
lookup-Backed ls k ((name, value) ∷ es) {s} (h, hs) e = elim (Bool-cases (name == k)) [
  | inl t ↦ subst (IsBacked ls) (ground (arith, text_iff name k)) h
  | inr t ↦ lookup-Backed ls k es hs (rw t at e)
]

pub either :
    {R : Type 0} (ls : List Login) (b : Bool) (x y : AuthState × R)
    → AllBacked ls x.0.sessions
    → AllBacked ls y.0.sessions
    → AllBacked ls (if b then x else y).0.sessions
either ls true x y h k = h
either ls false x y h k = k

pub check-AllBacked :
    (ls : List Login) (cookie : Option String) (now : Time) (s : AuthState)
    → AllBacked ls s.sessions
    → AllBacked ls (check_token cookie now s).0.sessions
unfolding check_token
check-AllBacked ls none now s h = h
check-AllBacked ls (some token) now s h = elim (Option-cases (lookup token s.sessions)) [
  | inl e ↦ rw (e, check_token) (delete-AllBacked ls token s.sessions h)
  | inr (v, e) ↦
      rw (e, check_token)
        (either ls (ltb v.expires_at now) _ (s, some v.username)
          (delete-AllBacked ls token s.sessions h) h)
]

pub validate-AllBacked :
    (ls : List Login) (cookie : Option String) (now : Time) (s : AuthState)
    → AllBacked ls s.sessions
    → AllBacked ls (validate_session cookie now s).0.sessions
unfolding validate_session
validate-AllBacked ls cookie now s h =
    either ls (guarded_by s.auth) (check_token cookie now s) (s, some "")
      (check-AllBacked ls cookie now s h) h
