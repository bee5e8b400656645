-- ===== src/Prelude/Maps.antt =====
-- Go's `map[string]V` as a list of entries; a range over the map goes through the list in order,
-- which is one of the orders that Go may take.
use Prim.Native.String.{String}
use mathlib.Core.Path.{◌≡◌, refl}
use mathlib.Core.List.{List, [], ◌∷◌}
use mathlib.Core.Option.{Option, none, some}
use native.Mathlib.Omega.{arith}
use chowkidar.Prelude.Tests.{if◌then◌else◌, ◌==◌, text_iff}

abbrev pub Assoc {ℓ} : Type ℓ → Type ℓ
Assoc V = List (String × V)

module _ {ℓ} {V : Type ℓ} where
  -- delete(m, k)
  unfoldable pub delete : String → Assoc V → Assoc V
  delete key [] = []
  delete key (entry ∷ rest) =
      let others = delete key rest in if entry.0 == key then others else entry ∷ others

  -- v, ok := m[k]
  unfoldable pub lookup : String → Assoc V → Option V
  lookup key [] = none
  lookup key ((name, value) ∷ rest) =
      let later = lookup key rest in if name == key then some value else later

  -- m[k] = v
  unfoldable pub insert : String → V → Assoc V → Assoc V
  insert key new [] = (key, new) ∷ []
  insert key new (entry ∷ rest) =
      let others = insert key new rest in
      if entry.0 == key then (key, new) ∷ rest else entry ∷ others

  pub lookup-delete :
      (key other : String) (entries : Assoc V)
      → lookup other (delete key entries) ≡ (if key == other then none else lookup other entries)
  unfolding delete lookup
  lookup-delete key other [] = ground arith
  lookup-delete key other ((name, value) ∷ rest) = ground (
    arith,
    lookup-delete key other rest,
    text_iff name other,
    text_iff key other,
    text_iff name key,
  )

  pub lookup-insert :
      (key other : String) (new : V) (entries : Assoc V)
      → lookup other (insert key new entries)
        ≡ (if key == other then some new else lookup other entries)
  unfolding insert lookup
  lookup-insert key other new [] = refl
  lookup-insert key other new ((name, value) ∷ rest) = ground (
    arith,
    lookup-insert key other new rest,
    text_iff name other,
    text_iff key other,
    text_iff name key,
  )

-- m[k] with the zero value where the key is missing.
abbrev pub get_or {ℓ} : {V : Type ℓ} → V → Option V → V
get_or d none = d
get_or d (some v) = v
