-- ===== src/Names.antt =====
-- internal/config/maintenance.go, dedupeNonEmpty: lists of identifiers with the blanks and the
-- repetitions taken out. normalizeJob has the same loop twice, written out.
pub mod Laws
use chowkidar.Prelude.{◌≡◌, refl, Bool, ◌&&◌, not, String, List, [], ◌∷◌, if◌then◌else◌, elem}
use chowkidar.Text.{trim_space, is_empty}

-- The loop, with the keys of `seen`.
unfoldable pub dedupe_from : List String → List String → List String
dedupe_from seen [] = []
dedupe_from seen (x ∷ xs) =
    let id = trim_space x in
    let kept = id ∷ dedupe_from (id ∷ seen) xs in
    let rest = dedupe_from seen xs in if not (is_empty id) && not (elem id seen) then kept else rest

unfoldable pub dedupe_non_empty : List String → List String
unfolding dedupe_from
dedupe_non_empty = dedupe_from []

dedupe_example : dedupe_non_empty (" a" ∷ "" ∷ "b" ∷ "a " ∷ []) ≡ "a" ∷ "b" ∷ []
unfolding dedupe_non_empty trim_space
dedupe_example = refl
