-- ===== src/Windows/Spec.antt =====
-- What the requests on /api/maintenance promise: a partial function from identifiers to windows.
use chowkidar.Prelude.{Bool, String, List, [], ◌∷◌, Option, none, some, ◌==◌, if◌then◌else◌}
use chowkidar.Prelude.Checks.{bad, good}
use chowkidar.Model.{Time, Window}
use chowkidar.Calendar.{Library}
use chowkidar.Table.{row, inherited}
use chowkidar.Windows.{window_id, keep_created, normalize_window, stamp_window}
use chowkidar.Windows.Handlers.{
  Request, post, put_at, delete_at, path_id, no_id, handle_maintenance,
}

abbrev pub Windows : Type 0
Windows = String → Option Window

abbrev pub view : List Window → Windows
view windows id = row window_id id windows

-- The window that is there now keeps its creation time.
abbrev pub store : Window → Windows → Windows
store new table id =
    if new.id == id then some (inherited keep_created (table new.id) new) else table id

abbrev pub forget : String → Windows → Windows
forget gone table id = if gone == id then none else table id

module _ (lib : Library) (is_cron : String → Bool) (now : Time) where
  -- A window that is valid is stored; any other changes nothing.
  unfoldable pub store_valid : Window → Windows → Windows
  store_valid w table = elim (normalize_window lib is_cron w) [
    | bad problem ↦ table
    | good n ↦ store (stamp_window now n) table
  ]

  unfoldable pub promised : Request → Windows → Windows
  promised (post none) table = table
  promised (post (some w)) table = store_valid w table
  promised (put_at path none) table = table
  promised (put_at path (some w)) table =
      if no_id (path_id path) then table else store_valid (record w { id = path_id path }) table
  promised (delete_at path) table =
      if no_id (path_id path) then table else forget (path_id path) table

-- A request, its time, and whether the file could be written.
abbrev pub Event : Type 0
Event = Request × Time × Bool

module _ (lib : Library) (is_cron : String → Bool) where
  unfoldable pub serve : List Event → List Window → List Window
  serve [] windows = windows
  serve ((request, now, written) ∷ rest) windows =
      serve rest (handle_maintenance lib is_cron now written request windows).0

  unfoldable pub replay : List Event → Windows → Windows
  unfolding promised
  replay [] table = table
  replay ((request, now, written) ∷ rest) table =
      replay rest (if written then promised lib is_cron now request table else table)
