-- ===== src/History/Pages.antt =====
-- The pages of the history are the history, newest first; a page that is too far on is a panic.
use chowkidar.Prelude.{
  ℕ, zero, suc, ◌+◌, ◌-◌, ◌*◌, ◌%◌, ◌<◌, ◌≤◌, ◌≡◌, refl, Bool, true, String, List, [], ◌∷◌, ◌++◌,
  pos, length, take, drop, select, arith, ap, Bool-cases, inl, inr, ltb, leb_ℤ, if◌then◌else◌,
  scale, scale_exact, sym, ◌∙◌, nat_eq, select-append,
}
use mathlib.Core.List.{reverse, reverse-append}
use chowkidar.Prelude.Checks.{bad, good, ◌>>=◌, good_inj}
use chowkidar.Model.{Time}
use chowkidar.Server.{Entry}
use chowkidar.History.{
  append, Line, blank, junk, written, File, holding, slice_bounds, ListOptions, listed, entries,
  list_page, slice,
}
use chowkidar.History.Requests.{history_page, handle_history, page_size, page_number}

drop_all : {A : Type 0} (n : ℕ) (xs : List A) → length xs ≤ n → drop n xs ≡ []
drop_all zero [] h = refl
drop_all zero (x ∷ xs) h = absurd (omega arith)
drop_all (suc n) [] h = refl
drop_all (suc n) (x ∷ xs) h = drop_all n xs (omega arith)

take_all : {A : Type 0} (n : ℕ) (xs : List A) → length xs ≤ n → take n xs ≡ xs
take_all zero [] h = refl
take_all zero (x ∷ xs) h = absurd (omega arith)
take_all (suc n) [] h = refl
take_all (suc n) (x ∷ xs) h = ap (x ∷◌) (take_all n xs (omega arith))

take_nil : {A : Type 0} (n : ℕ) → ◌≡◌ {A = List A} (take n []) []
take_nil zero = refl
take_nil (suc n) = refl

take_add : {A : Type 0} (m n : ℕ) (xs : List A) → take (m + n) xs ≡ take m xs ++ take n (drop m xs)
take_add zero n xs = ap (λ k. take k xs) (omega arith)
take_add (suc m) n [] = take_nil (suc m + n) ∙ sym (take_nil n)
take_add (suc m) n (x ∷ xs) =
    let step : suc m + n ≡ suc (m + n) = omega arith in rw step (ap (x ∷◌) (take_add m n xs))

-- What a request without a service shows, newest first.
abbrev pub shown : Bool → String → ListOptions
shown bars service = record {
  limit = pos 0;
  offset = pos 0;
  service = service;
  exclude_status = if bars then "" else "healthy";
  only_statuses = [];
}

unfoldable pub newest_first : Bool → String → List Line → List Entry
newest_first bars service lines = reverse (select (listed (shown bars service)) (entries lines))

slice-take :
    (n limit : ℕ) (all : List Entry) → slice (pos n) limit all ≡ good (take limit (drop n all))
unfolding slice
slice-take n limit all = elim (Bool-cases (ltb limit (length (drop n all)))) [
  | inl e ↦ rw e refl
  | inr e ↦ rw e (ap good (sym (take_all limit (drop n all) (ground arith))))
]

-- A page whose offset an int64 holds.
page_of :
    (bars : Bool) (l page : ℕ) (service : String) (lines : List Line)
    → page * suc l < 9223372036854775808
    → history_page bars (suc l) (suc page) service (holding lines)
      ≡ good (
        take (suc l) (drop (page * suc l) (newest_first bars service lines)),
        length (newest_first bars service lines),
      )
unfolding history_page list_page newest_first listed slice
page_of bars l page service lines h =
    let all = newest_first bars service lines in
    let at : scale (pos (suc page - 1)) (suc l) ≡ pos (page * suc l) =
      ap (λ n. scale (pos n) (suc l)) (omega arith) ∙ scale_exact page (suc l) h in
    rw at (elim (Bool-cases (leb_ℤ (pos (length all)) (pos (page * suc l)))) [
      | inl e ↦ rw e (
          ap (λ xs. good (xs, length all))
            (sym (ap (take (suc l)) (drop_all (page * suc l) all (ground arith)))))
      | inr e ↦
          rw e (ap (λ c. c >>= λ xs. good (xs, length all)) (slice-take (page * suc l) (suc l) all))
    ])

-- The entries of the first `n` pages.
unfoldable pub first_pages : Bool → ℕ → String → File → ℕ → List Entry
first_pages bars limit service file zero = []
first_pages bars limit service file (suc n) =
    first_pages bars limit service file n ++ elim (history_page bars limit (suc n) service file) [
      | bad problem ↦ []
      | good (page, total) ↦ page
    ]

first_pages-take :
    (bars : Bool) (l : ℕ) (service : String) (lines : List Line) (n : ℕ)
    → n * suc l < 9223372036854775808
    → first_pages bars (suc l) service (holding lines) n
      ≡ take (n * suc l) (newest_first bars service lines)
unfolding first_pages
first_pages-take bars l service lines zero h =
    ap (λ k. take k (newest_first bars service lines)) zero_pages
  where
    zero_pages : 0 ≡ 0 * suc l
    zero_pages = grind arith
first_pages-take bars l service lines (suc n) h =
    let all = newest_first bars service lines in
    let before = first_pages-take bars l service lines n (grind arith) in
    let last = page_of bars l n service lines (grind arith) in
    rw (before, last) (sym (take_add (n * suc l) (suc l) all) ∙ ap (λ k. take k all) (grind arith))

-- The pages of size `l + 1` put one behind the other are the listed entries, newest first, once there
-- are pages for all of them.
pub first_pages-newest_first :
    (bars : Bool) (l : ℕ) (service : String) (lines : List Line) (n : ℕ)
    → n * suc l < 9223372036854775808
    → length (newest_first bars service lines) ≤ n * suc l
    → first_pages bars (suc l) service (holding lines) n ≡ newest_first bars service lines
first_pages-newest_first bars l service lines n h enough =
    first_pages-take bars l service lines n h
    ∙ take_all (n * suc l) (newest_first bars service lines) enough

far_offset :
    (bars : Bool) (limit page : ℕ) (service : String) (lines : List Line)
    → 9223372036854775808 ≤ (page - 1) * limit % 18446744073709551616
    → history_page bars limit page service (holding lines) ≡ bad slice_bounds
unfolding history_page list_page slice scale
far_offset bars limit page service lines h = ground arith

-- A page so far on that its offset wraps below 0 is a panic, whatever the file holds.
pub far_page_panics :
    (bars : Bool) (limit page service : String) (lines : List Line)
    → 9223372036854775808 ≤ (page_number page - 1) * page_size bars limit % 18446744073709551616
    → handle_history bars limit page service (holding lines) ≡ bad slice_bounds
unfolding handle_history
far_page_panics bars limit page service lines h = far_offset bars _ _ _ lines h

-- The entry as Append writes it.
abbrev pub stamped : Time → Entry → Entry
stamped now e = record e { timestamp = if nat_eq e.timestamp 0 then now else e.timestamp }

entries-append :
    (ls : List Line) (e : Entry) → entries (ls ++ written e ∷ []) ≡ entries ls ++ e ∷ []
unfolding entries
entries-append [] e = refl
entries-append (blank ∷ ls) e = entries-append ls e
entries-append (junk text ∷ ls) e = entries-append ls e
entries-append (written x ∷ ls) e = ap (x ∷◌) (entries-append ls e)

newest-append :
    (bars : Bool) (service : String) (ls : List Line) (e : Entry)
    → listed (shown bars service) e ≡ true
    → newest_first bars service (ls ++ written e ∷ []) ≡ e ∷ newest_first bars service ls
unfolding newest_first
newest-append bars service ls e h =
    let found = listed (shown bars service) in
    ap (λ es. reverse (select found es)) (entries-append ls e)
    ∙ ap reverse (select-append found (entries ls) (e ∷ []))
    ∙ reverse-append (select found (entries ls)) (select found (e ∷ []))
    ∙ rw h refl

-- An entry that is added is the first one of the first page that lists it, and the total grows by one.
pub append-first_page :
    (bars : Bool) (l : ℕ) (service : String) (lines : List Line) (now : Time) (e : Entry)
    {file : File}
    → append true now e (holding lines) ≡ good file
    → listed (shown bars service) (stamped now e) ≡ true
    → history_page bars (suc l) 1 service file
      ≡ good (
        stamped now e ∷ take l (newest_first bars service lines),
        suc (length (newest_first bars service lines)),
      )
unfolding append
append-first_page bars l service lines now e h shows =
    let all = newest_first bars service lines in
    ap (history_page bars (suc l) 1 service) (sym (good_inj h))
    ∙ page_of bars l 0 service _ (grind arith)
    ∙ rw (newest-append bars service lines (stamped now e) shows, none_before) refl
  where
    none_before : 0 * suc l ≡ 0
    none_before = grind arith
