-- ===== src/Server/Requests.antt =====
-- containerNameByID of cmd/server/state.go, and handleResetCooldown of cmd/server/handlers.go.
use chowkidar.Prelude.{
  ℕ, zero, suc, Bool, true, false, String, List, [], ◌∷◌, Option, none, some, lookup, ◌==◌,
  if◌then◌else◌,
}
use chowkidar.Text.{trim_space, trim_prefix, is_empty, join}
use chowkidar.Notify.Texts.{trim_suffix}
use chowkidar.Model.{Time, Container}
use chowkidar.Server.{App, container_name, log_action_history, reset_action_cooldown}

-- id[:12], where the text is longer than that; an identifier is ASCII.
unfoldable pub first_letters : ℕ → String → String
first_letters n String.[] = ""
first_letters zero (String.◌∷◌ c s) = ""
first_letters (suc n) (String.◌∷◌ c s) = String.◌∷◌ c (first_letters n s)

-- The name of the first container in the list with the identifier.
unfoldable pub name_in : String → List Container → Option String
name_in id [] = none
name_in id (c ∷ cs) =
    let rest = name_in id cs in if c.id == id then some (container_name c) else rest

unfoldable pub container_name_by_id : String → App → String
unfolding name_in first_letters
container_name_by_id id a = elim (name_in id a.unhealthy) [
  | some name ↦ name
  | none ↦ elim (name_in id a.exited) as (λ o. String) [
    | some name ↦ name
    | none ↦ elim (lookup id a.known_names) as (λ o. String) [
      | some name ↦ name
      | none ↦ first_letters 12 id
    ]
  ]
]

-- The identifier in the path of the request.
unfoldable pub reset_id : String → String
reset_id path = trim_space (trim_suffix (trim_prefix path "/api/containers/") "/reset-cooldown")

-- POST of a reset at a path; `false` is the refusal of a blank identifier.
unfoldable pub handle_reset_cooldown : String → Time → App → App × Bool
unfolding reset_id container_name_by_id
handle_reset_cooldown path now a =
    let id = reset_id path in
    let name = container_name_by_id id a in
    let c : Container = record {
      id = id;
      names = join "/" name ∷ [];
      state = "";
      status = "";
      labels = [];
    } in
    let logged =
      log_action_history c "resume monitoring" "resume" 0 "success" "" "" 0 now
        (reset_action_cooldown name a) in
    if is_empty id then (a, false) else (logged, true)
