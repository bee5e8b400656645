-- ===== src/Text/Lower.antt =====
-- strings.ToLower leaves no ASCII capital.
use Prim.Native.Char.{Char, code}
use chowkidar.Prelude.{
  ℕ, suc, ◌≡◌, refl, Bool, true, false, ◌||◌, ◌&&◌, not, String, List, [], ◌∷◌, nat_eq, leb, ltb,
  if◌then◌else◌, arith, Bool-cases, inl, inr,
}
use chowkidar.Text.{lower_in, lower_table, paired, paired_in, far_lower, lower, to_lower}
use chowkidar.Text.Capitals.{far_capitals}

abbrev pub is_capital : Char → Bool
is_capital c = leb 65 (code c) && leb (code c) 90

abbrev pub has_capital : String → Bool
has_capital String.[] = false
has_capital (String.◌∷◌ c s) = is_capital c || has_capital s

paired-small :
    (big small : String) (c other : Char)
    → has_capital small ≡ false
    → is_capital other ≡ false
    → is_capital (paired big small c other) ≡ false
unfolding paired
paired-small String.[] small c other h k = k
paired-small (String.◌∷◌ b big) String.[] c other h k = k
paired-small (String.◌∷◌ b big) (String.◌∷◌ s small) c other h k =
    ground (arith, h, k, paired-small big small c other)

all_small : List (String × String) → Bool
all_small [] = true
all_small ((big, small) ∷ rows) = not (has_capital small) && all_small rows

paired_in-small :
    (rows : List (String × String)) (c : Char)
    → all_small rows ≡ true
    → is_capital c ≡ false
    → is_capital (paired_in rows c) ≡ false
unfolding paired_in all_small
paired_in-small [] c h k = k
paired_in-small ((big, small) ∷ rows) c h k =
    paired-small big small c (paired_in rows c) (ground (arith, h))
      (paired_in-small rows c (ground (arith, h)) k)

far-all_small : all_small far_capitals ≡ true
unfolding all_small
far-all_small = refl

far_lower-small : (c : Char) → is_capital c ≡ false → is_capital (far_lower c) ≡ false
unfolding far_lower
far_lower-small c k = elim (Bool-cases (ltb (code c) 128)) [
  | inl e ↦ rw e k
  | inr e ↦ rw e (paired_in-small far_capitals c far-all_small k)
]

-- The letter is none of the capitals before the one with the code `n`.
abbrev Past : ℕ → Char → Type 0
Past n c = (ltb (code c) 65 || leb n (code c)) ≡ true

-- The table gives no capital, and has the capitals from the code `n` on.
small_from : ℕ → List (ℕ × Char) → Bool
small_from n [] = nat_eq n 91
small_from n ((m, d) ∷ rest) =
    let next = small_from (suc n) rest in
    let behind = small_from n rest in
    not (is_capital d) && (if nat_eq m n then next else nat_eq n 91 && behind)

lower_in-small :
    (n : ℕ) (table : List (ℕ × Char)) (c : Char)
    → small_from n table ≡ true
    → Past n c
    → is_capital (lower_in table c) ≡ false
unfolding lower_in small_from
lower_in-small n [] c h past = far_lower-small c (ground arith)
lower_in-small n ((m, d) ∷ rest) c h past = elim (Bool-cases (nat_eq (code c) m)) [
  | inl e ↦ rw e (ground arith)
  | inr e ↦ rw e (elim (Bool-cases (nat_eq m n)) [
    | inl q ↦ lower_in-small (suc n) rest c (ground arith) (ground arith)
    | inr q ↦ lower_in-small n rest c (ground arith) past
  ])
]

lower-small : (c : Char) → is_capital (lower c) ≡ false
unfolding lower small_from
lower-small c = lower_in-small 65 lower_table c refl (ground arith)

pub to_lower-small : (s : String) → has_capital (to_lower s) ≡ false
unfolding to_lower
to_lower-small String.[] = refl
to_lower-small (String.◌∷◌ c s) = ground (arith, lower-small c, to_lower-small s)
