-- ===== src/Windows/Handlers.antt =====
-- cmd/server/maintenance_handlers.go and persistence.go: the requests on /api/maintenance and the
-- removal of finished windows. `written` says whether the file could be written, `sent` is the body of
-- the request, with `none` where it is no JSON.
use chowkidar.Prelude.{
  Bool, ◌||◌, not, String, List, Option, none, some, ◌==◌, if◌then◌else◌, select, length, nat_eq,
}
use chowkidar.Prelude.Checks.{bad, good}
use chowkidar.Text.{trim_space, trim_prefix, is_empty}
use chowkidar.Model.{Time, Window}
use chowkidar.Calendar.{Library}
use chowkidar.Pause.{should_auto_remove_maintenance_window}
use chowkidar.Windows.{WindowError, upsert_window, delete_window, save_windows}

-- The status of an answer, with its message.
pub data Reply : Type 0 where
  ok_saved created : Window → Reply
  ok_deleted bad_json id_required not_found write_failed : Reply
  refused save_refused : WindowError → Reply

pub data Request : Type 0 where
  post : Option Window → Request
  put_at : String → Option Window → Request
  delete_at : String → Request

-- The identifier in a path.
unfoldable pub path_id : String → String
path_id path = trim_space (trim_prefix path "/api/maintenance/")

unfoldable pub no_id : String → Bool
no_id id = is_empty id || id == "active"

module _ (lib : Library) (is_cron : String → Bool) (now : Time) (written : Bool) where
  -- persistMaintenanceWindows: the table changes only where the file was written.
  unfoldable pub persist_windows : List Window → List Window → Reply → List Window × Reply
  persist_windows old new reply = elim (save_windows lib is_cron new) [
    | bad problem ↦ (old, save_refused problem)
    | good sorted ↦ if written then (new, reply) else (old, write_failed)
  ]

  unfoldable pub upsert_request : (Window → Reply) → List Window → Window → List Window × Reply
  unfolding persist_windows
  upsert_request answer windows w = elim (upsert_window lib is_cron windows w now) [
    | bad problem ↦ (windows, refused problem)
    | good (next, saved) ↦ persist_windows windows next (answer saved)
  ]

  unfoldable pub delete_request : List Window → String → List Window × Reply
  unfolding persist_windows
  delete_request windows id =
      let (next, removed) = delete_window windows id in
      if not removed then (windows, not_found) else persist_windows windows next ok_deleted

  unfoldable pub handle_maintenance : Request → List Window → List Window × Reply
  unfolding upsert_request delete_request path_id no_id
  handle_maintenance (post none) windows = (windows, bad_json)
  handle_maintenance (post (some w)) windows = upsert_request created windows w
  handle_maintenance (put_at path none) windows =
      if no_id (path_id path) then (windows, id_required) else (windows, bad_json)
  handle_maintenance (put_at path (some w)) windows =
      if no_id (path_id path)
      then (windows, id_required)
      else upsert_request ok_saved windows (record w { id = path_id path })
  handle_maintenance (delete_at path) windows =
      if no_id (path_id path) then (windows, id_required) else delete_request windows (path_id path)

  -- One round of pruneFinishedMaintenanceLoop.
  unfoldable pub prune_finished : List Window → List Window
  unfolding persist_windows
  prune_finished windows =
      let kept = select (λ w. not (should_auto_remove_maintenance_window w now)) windows in
      if nat_eq (length kept) (length windows)
      then windows
      else (persist_windows windows kept ok_deleted).0
