-- ===== src/Table/Laws.antt =====
-- A table of rows is a partial function of the identifier.
use chowkidar.Prelude.{
  ◌≡◌, refl, String, List, [], ◌∷◌, none, some, ◌==◌, if◌then◌else◌, arith, text_iff, any,
}
use chowkidar.Table.{row, drop_row, put_row, inherited}

module _ {A : Type 0} (key : A → String) (inherit : A → A → A)
    (same_key : (old new : A) → key (inherit old new) ≡ key new) where
  pub row-put_row :
      (id : String) (xs : List A) (new : A)
      → row key id (put_row key inherit xs new) ≡ (
          if key new == id
          then some (inherited inherit (row key (key new) xs) new)
          else row key id xs)
  unfolding row put_row inherited
  row-put_row id [] new = refl
  row-put_row id (x ∷ xs) new = ground (
    arith,
    same_key x new,
    text_iff (key x) (key new),
    text_iff (key new) id,
    text_iff (key x) id,
    row-put_row id xs new,
  )

module _ {A : Type 0} (key : A → String) where
  pub row-drop_row :
      (id k : String) (xs : List A)
      → row key k (drop_row key id xs).0 ≡ (if id == k then none else row key k xs)
  unfolding row drop_row
  row-drop_row id k [] = ground arith
  row-drop_row id k (x ∷ xs) =
      ground (arith, text_iff (key x) id, text_iff id k, text_iff (key x) k, row-drop_row id k xs)

  pub removed-drop_row :
      (id : String) (xs : List A) → (drop_row key id xs).1 ≡ any (λ x. key x == id) xs
  unfolding drop_row
  removed-drop_row id [] = refl
  removed-drop_row id (x ∷ xs) = ground (arith, removed-drop_row id xs)
