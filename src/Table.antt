-- ===== src/Table.antt =====
-- The shape of internal/config's tables, for maintenance windows here: rows with an identifier, kept in
-- a slice; an update takes the place of the first row with its identifier.
pub mod Laws
use chowkidar.Prelude.{
  Bool, true, false, String, List, [], ◌∷◌, Option, none, some, ◌==◌, if◌then◌else◌,
}

-- `key` reads the identifier; `inherit old new` is what the new row takes over from the old one.
module _ {A : Type 0} (key : A → String) where
  unfoldable pub row : String → List A → Option A
  row id [] = none
  row id (x ∷ xs) = let rest = row id xs in if key x == id then some x else rest

  unfoldable pub drop_row : String → List A → List A × Bool
  drop_row id [] = ([], false)
  drop_row id (x ∷ xs) =
      let (out, removed) = drop_row id xs in if key x == id then (out, true) else (x ∷ out, removed)

  unfoldable pub put_row : (A → A → A) → List A → A → List A
  put_row inherit [] new = new ∷ []
  put_row inherit (x ∷ xs) new =
      let rest = put_row inherit xs new in if key x == key new then inherit x new ∷ xs else x ∷ rest

-- A new row, with what it takes over from the row that it replaces.
unfoldable pub inherited : {A : Type 0} → (A → A → A) → Option A → A → A
inherited inherit none new = new
inherited inherit (some old) new = inherit old new
