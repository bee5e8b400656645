-- ===== src/Transitions.antt =====
-- cmd/server/maintenance.go, checkMaintenanceTransitions: the edges at which windows open and close.
pub mod Edges
pub mod Once
use chowkidar.Prelude.{
  ℕ, ◌+◌, Bool, true, false, String, List, [], ◌∷◌, ◌++◌, Option, none, some, Assoc, lookup, insert,
  ltb, ◌==◌, if◌then◌else◌, select, is_some, not,
}
use chowkidar.Model.{Time, Window, force_cancel}

pub record Transition : Type 0 where
  pub window_id : String
  pub title : String
  pub kind : String
  pub at : Time

-- maintenanceTransitionRetention.
abbrev pub retention : ℕ
retention = 86400000000000

-- The fields of the server that the check reads and writes: maintenanceActiveIDs and
-- maintenanceTransitions.
pub record State : Type 0 where
  pub active_ids : Assoc String
  pub transitions : List Transition

-- The maps `current` and `byID`, filled window by window.
unfoldable pub titles_onto : Assoc String → List Window → Assoc String
titles_onto m [] = m
titles_onto m (w ∷ ws) = titles_onto (insert w.id w.title m) ws

unfoldable pub by_id_onto : Assoc Window → List Window → Assoc Window
by_id_onto m [] = m
by_id_onto m (w ∷ ws) = by_id_onto (insert w.id w m) ws

-- An edge of the given kind for each entry of `m` whose key `other` does not have.
unfoldable pub edges : String → Time → Assoc String → Assoc String → List Transition
edges kind now other [] = []
edges kind now other ((id, title) ∷ m) =
    let rest = edges kind now other m in
    if is_some (lookup id other)
    then rest
    else record { window_id = id; title = title; kind = kind; at = now } ∷ rest

abbrev force_cancels : Option Window → List Window → List Window
force_cancels none rest = rest
force_cancels (some w) rest = if w.on_start == force_cancel then w ∷ rest else rest

-- The force-cancel windows among the entries of `current` that are new.
unfoldable pub force_started : Assoc Window → Assoc String → Assoc String → List Window
force_started by_id prev [] = []
force_started by_id prev ((id, title) ∷ m) =
    let rest = force_started by_id prev m in
    if is_some (lookup id prev) then rest else force_cancels (lookup id by_id) rest

-- t.At.After(now - retention).
abbrev pub is_recent : Time → Transition → Bool
is_recent now t = ltb now (t.at + retention)

abbrev pub record_edges : Time → List Transition → List Transition → List Transition
record_edges now [] old = old
record_edges now (e ∷ es) old = select (is_recent now) old ++ (e ∷ es)

unfoldable pub new_edges : Time → Assoc String → Assoc String → List Transition
unfolding edges
new_edges now prev current = edges "started" now prev current ++ edges "ended" now current prev

-- The new state, and the force-cancel windows that have just opened.
unfoldable pub check_maintenance_transitions : List Window → Time → State → State × List Window
unfolding titles_onto by_id_onto new_edges force_started
check_maintenance_transitions active now s =
    let current = titles_onto [] active in
    (
      record {
        active_ids = current;
        transitions = record_edges now (new_edges now s.active_ids current) s.transitions;
      },
      force_started (by_id_onto [] active) s.active_ids current,
    )
