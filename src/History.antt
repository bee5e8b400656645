-- ===== src/History.antt =====
-- internal/history/store.go, and the requests on /api/history of cmd/server/handlers.go: the action
-- history as a file of lines, oldest first, of which the newest entries are shown first.
pub mod Pages
pub mod Prune
pub mod Requests
use chowkidar.Prelude.{
  ℕ, zero, suc, ◌+◌, ◌-◌, ◌*◌, Bool, true, false, ◌&&◌, ◌||◌, not, String, List, [], ◌∷◌, ◌++◌,
  Option, none, some, ℤ, pos, negsuc, ltb, leb, nat_eq, leb_ℤ, ltb_ℤ, ◌==◌, if◌then◌else◌, scale,
  length, take, drop, select, any,
}
use chowkidar.Prelude.Checks.{Checked, bad, good, ◌>>=◌}
use mathlib.Core.List.{reverse}
use chowkidar.Text.{trim_space, is_empty, atoi}
use chowkidar.Model.{Time}
use chowkidar.Calendar.{day_length}
use chowkidar.Server.{Entry}

-- A line that is empty, one that is no JSON entry, and an entry.
pub data Line : Type 0 where
  blank : Line
  junk : String → Line
  written : Entry → Line

-- What os.Open and the scanner find.
pub data File : Type 0 where
  missing unreadable : File
  holding : List Line → File

-- `slice_bounds` is the panic of a slice expression.
pub data HistoryError : Type 0 where
  cannot_read cannot_write slice_bounds : HistoryError

pub record ListOptions : Type 0 where
  pub limit : ℤ
  pub offset : ℤ
  pub service : String
  pub exclude_status : String
  pub only_statuses : List String

abbrev pub no_statuses : List String → Bool
no_statuses [] = true
no_statuses (_ ∷ _) = false

-- The tests of the loop of ListPage.
unfoldable pub listed : ListOptions → Entry → Bool
listed o e =
    (is_empty o.service || e.container_name == o.service || e.container_id == o.service)
    && (is_empty o.exclude_status || not (e.status == o.exclude_status))
    && (no_statuses o.only_statuses || any (λ s. e.status == s) o.only_statuses)

unfoldable pub entries : List Line → List Entry
entries [] = []
entries (blank ∷ ls) = entries ls
entries (junk text ∷ ls) = entries ls
entries (written e ∷ ls) = e ∷ entries ls

abbrev pub default_limit : ℤ → ℕ
default_limit (pos (suc n)) = suc n
default_limit _ = 50

-- `all[offset:]`, then at most `limit` of it.
unfoldable pub slice : ℤ → ℕ → List Entry → Checked HistoryError (List Entry)
slice (negsuc n) limit all = bad slice_bounds
slice (pos n) limit all =
    let rest = drop n all in good (if ltb limit (length rest) then take limit rest else rest)

unfoldable pub list_page : ListOptions → File → Checked HistoryError (List Entry × ℕ)
unfolding slice
list_page o missing = good ([], 0)
list_page o unreadable = bad cannot_read
list_page o (holding lines) =
    let all = reverse (select (listed o) (entries lines)) in
    if leb_ℤ (pos (length all)) o.offset
    then good ([], length all)
    else (slice o.offset (default_limit o.limit) all >>= λ page. good (page, length all))

-- `writable` says whether the file can be opened and written.
unfoldable pub append : Bool → Time → Entry → File → Checked HistoryError File
append false now e file = bad cannot_write
append true now e missing = good (
    holding
      (written (record e { timestamp = if nat_eq e.timestamp 0 then now else e.timestamp }) ∷ []))
append true now e unreadable = good unreadable
append true now e (holding lines) = good (
    holding (
      lines
      ++ written (record e { timestamp = if nat_eq e.timestamp 0 then now else e.timestamp }) ∷ []))

unfoldable pub clear : Bool → File → Checked HistoryError File
clear removable missing = good missing
clear true file = good missing
clear false file = bad cannot_write

-- Before now.AddDate(0, 0, -days), in UTC.
unfoldable pub older : Time → ℕ → Entry → Bool
older now days e = leb (days * day_length) now && ltb e.timestamp (now - days * day_length)

-- The loop of Prune: the lines that are kept, and the number of those removed.
unfoldable pub sift : (Entry → Bool) → List Line → List Line × ℕ
sift old [] = ([], 0)
sift old (blank ∷ ls) = sift old ls
sift old (junk text ∷ ls) = let (kept, removed) = sift old ls in (junk text ∷ kept, removed)
sift old (written e ∷ ls) =
    let (kept, removed) = sift old ls in
    if old e then (kept, removed + 1) else (written e ∷ kept, removed)

-- The file, and the number of entries removed. A failed rewrite leaves the file as it was.
unfoldable pub prune_days : Bool → Time → ℕ → File → File × Checked HistoryError ℕ
prune_days writable now days missing = (missing, good 0)
prune_days writable now days unreadable = (unreadable, bad cannot_read)
prune_days writable now days (holding lines) =
    let (kept, removed) = sift (older now days) lines in
    if nat_eq removed 0
    then (holding lines, good 0)
    else if writable
    then (holding kept, good removed)
    else (holding lines, bad cannot_write)

unfoldable pub prune : Bool → Time → ℤ → File → File × Checked HistoryError ℕ
unfolding prune_days
prune writable now (pos (suc n)) file = prune_days writable now (suc n) file
prune writable now days file = (file, good 0)
