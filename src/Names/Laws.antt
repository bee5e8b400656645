-- ===== src/Names/Laws.antt =====
-- dedupeNonEmpty keeps each trimmed name that is not blank, once, and leaves its results alone.
use chowkidar.Prelude.{
  ◌≡◌, refl, false, ◌&&◌, not, String, List, [], ◌∷◌, elem, any, arith, text_iff, Bool-cases, inl,
  inr, ◌==◌, ap,
}
use chowkidar.Text.{trim_space, is_empty}
use chowkidar.Text.Laws.{trim_space_idem}
use chowkidar.Names.{dedupe_from, dedupe_non_empty}

-- Each name is trimmed, is not blank, and does not stand again further on or in `seen`.
abbrev pub IsClean : List String → List String → Type 0
IsClean seen [] = Unit
IsClean seen (x ∷ xs) =
    (trim_space x ≡ x) × (is_empty x ≡ false) × (elem x seen ≡ false) × IsClean (x ∷ seen) xs

pub dedupe_from-IsClean : (seen xs : List String) → IsClean seen (dedupe_from seen xs)
unfolding dedupe_from
dedupe_from-IsClean seen [] = tt
dedupe_from-IsClean seen (x ∷ xs) =
    elim (Bool-cases (not (is_empty (trim_space x)) && not (elem (trim_space x) seen))) [
      | inl e ↦ rw e (
        trim_space_idem x,
        ground arith,
        ground arith,
        dedupe_from-IsClean (trim_space x ∷ seen) xs,
      )
      | inr e ↦ rw e (dedupe_from-IsClean seen xs)
    ]

dedupe_from_of_IsClean : (seen xs : List String) → IsClean seen xs → dedupe_from seen xs ≡ xs
unfolding dedupe_from
dedupe_from_of_IsClean seen [] h = refl
dedupe_from_of_IsClean seen (x ∷ xs) (t, e, s, h) =
    rw (t, e, s) (ap (λ (r : List String). x ∷ r) (dedupe_from_of_IsClean (x ∷ seen) xs h))

pub dedupe-IsClean : (xs : List String) → IsClean [] (dedupe_non_empty xs)
unfolding dedupe_non_empty
dedupe-IsClean xs = dedupe_from-IsClean [] xs

pub dedupe_of_IsClean : (xs : List String) → IsClean [] xs → dedupe_non_empty xs ≡ xs
unfolding dedupe_non_empty
dedupe_of_IsClean xs h = dedupe_from_of_IsClean [] xs h

elem-dedupe_from :
    (k : String) (seen xs : List String)
    → elem k (dedupe_from seen xs)
      ≡ (not (is_empty k) && not (elem k seen) && any (λ x. trim_space x == k) xs)
unfolding dedupe_from
elem-dedupe_from k seen [] = ground arith
elem-dedupe_from k seen (x ∷ xs) = ground (
  arith,
  text_iff (trim_space x) k,
  elem-dedupe_from k (trim_space x ∷ seen) xs,
  elem-dedupe_from k seen xs,
)

-- The cleaned list holds a name exactly if the name is not blank and some entry is it once trimmed.
pub elem-dedupe :
    (k : String) (xs : List String)
    → elem k (dedupe_non_empty xs) ≡ (not (is_empty k) && any (λ x. trim_space x == k) xs)
unfolding dedupe_non_empty
elem-dedupe k xs = ground (arith, elem-dedupe_from k [] xs)
