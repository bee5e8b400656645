-- ===== src/Text/Laws.antt =====
-- Trimming twice is trimming once, and a trimmed text that is not empty has no space at its ends.
use chowkidar.Prelude.{◌≡◌, refl, false, ◌&&◌, String, arith, Bool-cases, ap, inl, inr, ◌∙◌}
use chowkidar.Text.{is_space, is_empty, trim_left, trim_right, trim_space}

-- The first character is no space.
abbrev pub StartsDark : String → Type 0
StartsDark String.[] = Unit
StartsDark (String.◌∷◌ c s) = is_space c ≡ false

trim_left-StartsDark : (s : String) → StartsDark (trim_left s)
unfolding trim_left
trim_left-StartsDark String.[] = tt
trim_left-StartsDark (String.◌∷◌ c s) = elim (Bool-cases (is_space c)) [
  | inl e ↦ rw e (trim_left-StartsDark s)
  | inr e ↦ rw e e
]

trim_left_of_StartsDark : (s : String) → StartsDark s → trim_left s ≡ s
unfolding trim_left
trim_left_of_StartsDark String.[] h = refl
trim_left_of_StartsDark (String.◌∷◌ c s) h = rw h

trim_right-StartsDark : (s : String) → StartsDark s → StartsDark (trim_right s)
unfolding trim_right
trim_right-StartsDark String.[] h = tt
trim_right-StartsDark (String.◌∷◌ c s) h = ground arith

trim_right_idem : (s : String) → trim_right (trim_right s) ≡ trim_right s
unfolding trim_right
trim_right_idem String.[] = refl
trim_right_idem (String.◌∷◌ c s) = elim (Bool-cases (is_empty (trim_right s) && is_space c)) [
  | inl e ↦ rw e
  | inr e ↦ rw (e, trim_right_idem s, e)
]

pub trim_space_idem : (s : String) → trim_space (trim_space s) ≡ trim_space s
unfolding trim_space
trim_space_idem s =
    ap trim_right (trim_left_of_StartsDark _ (trim_right-StartsDark _ (trim_left-StartsDark s)))
    ∙ trim_right_idem (trim_left s)
