-- ===== src/Windows/Errors.antt =====
-- A request on /api/maintenance that fails changes nothing.
use chowkidar.Prelude.{
  ◌≡◌, refl, Bool, true, false, List, String, none, some, Bool-cases, inl, inr, arith,
}
use chowkidar.Prelude.Checks.{Checked, bad, good}
use chowkidar.Model.{Time, Window}
use chowkidar.Calendar.{Library}
use chowkidar.Windows.{WindowError, upsert_window, delete_window}
use chowkidar.Windows.Handlers.{
  Request, post, put_at, delete_at, Reply, ok_saved, created, ok_deleted, path_id, no_id,
  handle_maintenance, persist_windows, upsert_request, delete_request,
}

-- The answers with a status of 2xx.
abbrev pub is_success : Reply → Bool
is_success (ok_saved w) = true
is_success (created w) = true
is_success ok_deleted = true
is_success _ = false

module _ (lib : Library) (is_cron : String → Bool) (now : Time) (written : Bool) where
  abbrev Unchanged : List Window → List Window × Reply → Type 0
  Unchanged windows out = is_success out.1 ≡ false → out.0 ≡ windows

  persist-Unchanged :
      (old new : List Window) (reply : Reply)
      → is_success reply ≡ true
      → Unchanged old (persist_windows lib is_cron now written old new reply)
  unfolding persist_windows
  persist-Unchanged old new reply s h = ground arith

  upsert-Unchanged :
      (answer : Window → Reply) (windows : List Window) (w : Window)
      → ((saved : Window) → is_success (answer saved) ≡ true)
      → Unchanged windows (upsert_request lib is_cron now written answer windows w)
  unfolding upsert_request
  upsert-Unchanged answer windows w s h = by_outcome (upsert_window lib is_cron windows w now) refl
    where
      by_outcome :
          (c : Checked WindowError (List Window × Window))
          → upsert_window lib is_cron windows w now ≡ c
          → (upsert_request lib is_cron now written answer windows w).0 ≡ windows
      by_outcome (bad problem) e = rw (e, upsert_request) refl
      by_outcome (good (next, saved)) e =
          rw (e, upsert_request)
            (persist-Unchanged windows next (answer saved) (s saved) (rw (e, upsert_request) at h))

  delete-Unchanged :
      (windows : List Window) (id : String)
      → Unchanged windows (delete_request lib is_cron now written windows id)
  unfolding delete_request
  delete-Unchanged windows id h = elim (Bool-cases (delete_window windows id).1) [
    | inl e ↦
        rw e (persist-Unchanged windows (delete_window windows id).0 ok_deleted refl (rw e at h))
    | inr e ↦ rw e refl
  ]

  -- A request whose answer is not one of success leaves the table of windows as it was.
  pub failed_request_unchanged :
      (request : Request) (windows : List Window)
      → is_success (handle_maintenance lib is_cron now written request windows).1 ≡ false
      → (handle_maintenance lib is_cron now written request windows).0 ≡ windows
  unfolding handle_maintenance
  failed_request_unchanged (post none) windows h = refl
  failed_request_unchanged (post (some w)) windows h =
      upsert-Unchanged created windows w (λ saved. refl) h
  failed_request_unchanged (put_at path none) windows h = ground arith
  failed_request_unchanged (put_at path (some w)) windows h =
      elim (Bool-cases (no_id (path_id path))) [
        | inl e ↦ rw e refl
        | inr e ↦ rw e (
            upsert-Unchanged ok_saved windows (record w { id = path_id path }) (λ saved. refl)
              (rw e at h))
      ]
  failed_request_unchanged (delete_at path) windows h = elim (Bool-cases (no_id (path_id path))) [
    | inl e ↦ rw e refl
    | inr e ↦ rw e (delete-Unchanged windows (path_id path) (rw e at h))
  ]
