-- ===== src/Execute/Allowed.antt =====
-- cmd/server/action.go: which scripts an action may run, and how long a call may take.
use chowkidar.Prelude.{
  ℕ, Bool, ◌*◌, ◌≤◌, ◌≡◌, ◌&&◌, not, true, inl, inr, Bool-cases, String, List, [], ◌∷◌, Memᴰ, ◌==◌,
  any, ℤ, pos, negsuc, arith, refl, text_iff,
}
use chowkidar.Text.{trim_space, is_empty}
use chowkidar.Model.{second, Config, Container}
use chowkidar.Server.{Env, ScriptEntry}
use chowkidar.Execute.{
  Call, restart, start, stop, inline_script, script_file, Request, calls, answers, at_least,
  effective_timeout, is_script_allowed, execute_run_script, execute_action,
}

at_least-ge : (z : ℤ) → 5 * second ≤ at_least z
at_least-ge (pos n) = omega arith
at_least-ge (negsuc n) = omega arith

-- The time limit of an action is at least 5 seconds, whatever the job and the settings give.
pub effective_timeout-ge : (sec : ℤ) (cfg : Config) → 5 * second ≤ effective_timeout sec cfg
unfolding effective_timeout
effective_timeout-ge sec cfg = at_least-ge _

limit : Call → ℕ
limit (restart _ _ t) = t
limit (start _ t) = t
limit (stop _ _ t) = t
limit (inline_script _ _ _ t) = t
limit (script_file _ _ _ t) = t

-- The container that a call is about.
target : Call → String
target (restart id _ _) = id
target (start id _) = id
target (stop id _ _) = id
target (inline_script _ id _ _) = id
target (script_file _ id _ _) = id

-- A script file is on the allowlist, and enabled there.
IsListed : List ScriptEntry → Call → Type 0
IsListed entries (script_file path _ _ _) =
    (s : ScriptEntry) × Memᴰ s entries × (s.enabled ≡ true) × (trim_space s.path ≡ trim_space path)
IsListed entries _ = Unit

-- A request asks nothing, or it is about the container, within the limit, and allowed.
pub IsSafe : Env → Container → ℕ → Request → Type 0
unfolding limit target IsListed
IsSafe env c t (answers _) = Unit
IsSafe env c t (calls k) = (target k ≡ c.id) × (limit k ≡ t) × IsListed env.scripts k

pub any-Memᴰ {ℓ} :
    {A : Type ℓ} (p : A → Bool) (xs : List A) → any p xs ≡ true → (x : A) × Memᴰ x xs × (p x ≡ true)
any-Memᴰ p [] h = absurd (ground (arith, h))
any-Memᴰ p (x ∷ xs) h = elim (Bool-cases (p x)) [
  | inl e ↦ (x, Memᴰ.head refl, e)
  | inr e ↦ let (y, m, k) = any-Memᴰ p xs (rw e at h) in (y, Memᴰ.tail m, k)
]

is_script_allowed-Memᴰ :
    (entries : List ScriptEntry) (path : String)
    → is_script_allowed entries path ≡ true
    → (s : ScriptEntry) × Memᴰ s entries
      × (s.enabled ≡ true)
      × (trim_space s.path ≡ trim_space path)
unfolding is_script_allowed
is_script_allowed-Memᴰ entries path h =
    let test = λ (s : ScriptEntry). s.enabled && trim_space s.path == trim_space path in
    let (s, m, k) = any-Memᴰ test entries (second_of (not (is_empty (trim_space path))) _ h) in
    (s, m, ground arith, (text_iff _ _).0 (ground arith))
  where
    second_of : (a b : Bool) → (a && b) ≡ true → b ≡ true
    second_of a b h = ground arith

execute_run_script-IsSafe :
    (env : Env) (script : String) (c : Container) (t : ℕ)
    → IsSafe env c t (execute_run_script env script c t)
unfolding execute_run_script IsSafe limit target IsListed
execute_run_script-IsSafe env script c t = elim (Bool-cases (is_empty (trim_space script))) [
  | inr e ↦ rw e (refl, refl, tt)
  | inl e ↦ elim (Bool-cases (is_empty (trim_space env.config.run_script_path))) [
    | inl f ↦ rw e (rw f tt)
    | inr f ↦ elim (Bool-cases (is_script_allowed env.scripts env.config.run_script_path)) [
      | inl g ↦ rw e (rw f (rw g (refl, refl, is_script_allowed-Memᴰ _ _ g)))
      | inr g ↦ rw e (rw f (rw g tt))
    ]
  ]
]

-- Whatever action a job asks for, the request is safe: it makes no call, or one call, about the
-- container itself, within the time limit, and a script file is run only if it is listed and enabled
-- in the scripts allowlist.
pub execute_action-IsSafe :
    (env : Env) (action script : String) (c : Container) (sec : ℤ)
    → IsSafe env c (effective_timeout sec env.config) (execute_action env action script c sec)
unfolding execute_action IsSafe limit target IsListed
execute_action-IsSafe env action script c sec = elim (Bool-cases (action == "restart")) [
  | inl e ↦ rw e (refl, refl, tt)
  | inr e ↦ elim (Bool-cases (action == "start")) [
    | inl f ↦ rw e (rw f (refl, refl, tt))
    | inr f ↦ elim (Bool-cases (action == "stop")) [
      | inl g ↦ rw e (rw f (rw g (refl, refl, tt)))
      | inr g ↦ elim (Bool-cases (action == "none")) [
        | inl h ↦ rw e (rw f (rw g (rw h tt)))
        | inr h ↦ elim (Bool-cases (action == "run-script")) [
          | inl k ↦ rw e (rw f (rw g (rw h (rw k (execute_run_script-IsSafe env script c _)))))
          | inr k ↦ rw e (rw f (rw g (rw h (rw k tt))))
        ]
      ]
    ]
  ]
]
