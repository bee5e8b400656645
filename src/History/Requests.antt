-- ===== src/History/Requests.antt =====
-- cmd/server/handlers.go, handleHistory and handleHistoryEndpoint. The texts are the parameters of the
-- query; the page and its size come back with the entries, and are left out here.
use chowkidar.Prelude.{
  ℕ, suc, ◌-◌, Bool, String, List, [], ◌∷◌, Option, some, ℤ, pos, leb, if◌then◌else◌, scale,
}
use chowkidar.Prelude.Checks.{Checked, bad, good}
use chowkidar.Text.{trim_space, atoi}
use chowkidar.Model.{Time}
use chowkidar.Server.{Entry}
use chowkidar.History.{File, HistoryError, list_page, append, clear}

-- A number that was read, if it is from 1 to `max`.
unfoldable pub count_up_to : ℕ → ℕ → Option ℤ → ℕ
count_up_to max other (some (pos (suc n))) = if leb (suc n) max then suc n else other
count_up_to max other _ = other

unfoldable pub page_size : Bool → String → ℕ
unfolding count_up_to
page_size bars raw = count_up_to (if bars then 2000 else 500) 25 (atoi (trim_space raw))

-- Any positive int64.
unfoldable pub page_number : String → ℕ
unfolding count_up_to
page_number raw = count_up_to 9223372036854775807 1 (atoi (trim_space raw))

-- ListPage as handleHistory calls it; the offset is an int64.
unfoldable pub history_page : Bool → ℕ → ℕ → String → File → Checked HistoryError (List Entry × ℕ)
history_page bars limit page service file =
    list_page
      (record {
        limit = pos limit;
        offset = scale (pos (page - 1)) limit;
        service = service;
        exclude_status = if bars then "" else "healthy";
        only_statuses = [];
      })
      file

unfoldable pub handle_history :
    Bool → String → String → String → File → Checked HistoryError (List Entry × ℕ)
unfolding page_size page_number history_page
handle_history bars limit page service file =
    history_page bars (page_size bars limit) (page_number page) (trim_space service) file

-- POST: the entries are added one by one, and those before an error stay.
unfoldable pub seed_history : Bool → Time → List Entry → File → File
seed_history writable now [] file = file
seed_history writable now (e ∷ es) file = elim (append writable now e file) [
  | bad problem ↦ file
  | good next ↦ seed_history writable now es next
]

-- DELETE.
unfoldable pub wipe_history : Bool → File → File
wipe_history removable file = elim (clear removable file) [ bad problem ↦ file | good next ↦ next ]
