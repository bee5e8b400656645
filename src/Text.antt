-- ===== src/Text.antt =====
-- What the code uses of Go's `strings`: trimming, lower case, prefixes, substrings, splitting.
-- A text is a sequence of Unicode characters; a Go string that is no valid UTF-8 is not modelled.
pub mod Laws
pub mod Lower
mod Capitals
use Capitals.{far_capitals}
use Prim.Native.Char.{Char, code}
use Prim.Native.String.{◌++◌ as text_append}
use chowkidar.Prelude.{
  ℕ, zero, suc, ◌/◌, ◌%◌, ◌≡◌, refl, Bool, true, false, ◌&&◌, ◌||◌, String, List, [], ◌∷◌, ◌+◌, ◌-◌,
  ◌*◌, Option, none, some, ℤ, pos, negsuc, nat_eq, leb, ltb, if◌then◌else◌, ◌==◌,
}

-- unicode.IsSpace.
abbrev pub is_space_code : ℕ → Bool
is_space_code c =
    (leb 9 c && leb c 13)
    || nat_eq c 32
    || nat_eq c 133
    || nat_eq c 160
    || nat_eq c 5760
    || (leb 8192 c && leb c 8202)
    || nat_eq c 8232
    || nat_eq c 8233
    || nat_eq c 8239
    || nat_eq c 8287
    || nat_eq c 12288

unfoldable pub is_space : Char → Bool
is_space c = is_space_code (code c)

abbrev pub is_empty : String → Bool
is_empty String.[] = true
is_empty (String.◌∷◌ c s) = false

unfoldable pub trim_left : String → String
trim_left String.[] = ""
trim_left (String.◌∷◌ c s) = let rest = trim_left s in if is_space c then rest else String.◌∷◌ c s

unfoldable pub trim_right : String → String
trim_right String.[] = ""
trim_right (String.◌∷◌ c s) =
    let rest = trim_right s in if is_empty rest && is_space c then "" else String.◌∷◌ c rest

-- strings.TrimSpace.
unfoldable pub trim_space : String → String
unfolding trim_left trim_right is_space
trim_space s = trim_right (trim_left s)

-- The letters that unicode.ToLower takes to an ASCII letter.
abbrev lower_table : List (ℕ × Char)
lower_table =
    (65, "a")
    ∷ (66, "b")
    ∷ (67, "c")
    ∷ (68, "d")
    ∷ (69, "e")
    ∷ (70, "f")
    ∷ (71, "g")
    ∷ (72, "h")
    ∷ (73, "i")
    ∷ (74, "j")
    ∷ (75, "k")
    ∷ (76, "l")
    ∷ (77, "m")
    ∷ (78, "n")
    ∷ (79, "o")
    ∷ (80, "p")
    ∷ (81, "q")
    ∷ (82, "r")
    ∷ (83, "s")
    ∷ (84, "t")
    ∷ (85, "u")
    ∷ (86, "v")
    ∷ (87, "w")
    ∷ (88, "x")
    ∷ (89, "y")
    ∷ (90, "z")
    ∷ (304, "i")
    ∷ (8490, "k")
    ∷ []

-- The letter at the place that `c` has in `big`, and `other` where it has none.
paired : String → String → Char → Char → Char
paired (String.◌∷◌ b big) (String.◌∷◌ s small) c other =
    let rest = paired big small c other in if nat_eq (code c) (code b) then s else rest
paired _ _ c other = other

paired_in : List (String × String) → Char → Char
unfolding paired
paired_in [] c = c
paired_in ((big, small) ∷ rows) c = paired big small c (paired_in rows c)

-- A letter beyond ASCII.
far_lower : Char → Char
unfolding paired_in
far_lower c = let found = paired_in far_capitals c in if ltb (code c) 128 then c else found

lower_in : List (ℕ × Char) → Char → Char
unfolding far_lower
lower_in [] c = far_lower c
lower_in ((n, d) ∷ rest) c = let other = lower_in rest c in if nat_eq (code c) n then d else other

-- unicode.ToLower.
unfoldable pub lower : Char → Char
unfolding lower_in
lower = lower_in lower_table

-- strings.ToLower.
unfoldable pub to_lower : String → String
unfolding lower
to_lower String.[] = ""
to_lower (String.◌∷◌ c s) = String.◌∷◌ (lower c) (to_lower s)

-- strings.HasPrefix.
unfoldable pub has_prefix : String → String → Bool
has_prefix s String.[] = true
has_prefix String.[] (String.◌∷◌ d t) = false
has_prefix (String.◌∷◌ c s) (String.◌∷◌ d t) = nat_eq (code c) (code d) && has_prefix s t

-- The text behind the first characters of `s`, as many as `t` has.
unfoldable pub drop_prefix : String → String → String
drop_prefix s String.[] = s
drop_prefix String.[] (String.◌∷◌ d t) = ""
drop_prefix (String.◌∷◌ c s) (String.◌∷◌ d t) = drop_prefix s t

-- strings.TrimPrefix.
unfoldable pub trim_prefix : String → String → String
unfolding has_prefix drop_prefix
trim_prefix s t = if has_prefix s t then drop_prefix s t else s

-- strings.Contains.
unfoldable pub contains : String → String → Bool
unfolding has_prefix
contains String.[] t = has_prefix "" t
contains (String.◌∷◌ c s) t = has_prefix (String.◌∷◌ c s) t || contains s t

abbrev pub head_append : Char → List String → List String
head_append c [] = (String.◌∷◌ c "") ∷ []
head_append c (s ∷ rest) = (String.◌∷◌ c s) ∷ rest

-- strings.Split at a separator of one character.
unfoldable pub split : String → ℕ → List String
split String.[] sep = "" ∷ []
split (String.◌∷◌ c s) sep =
    let rest = split s sep in if nat_eq (code c) sep then "" ∷ rest else head_append c rest

-- `+` on texts.
abbrev pub join : String → String → String
join s t = text_append s t

-- The digits that `%d` prints.
digit : ℕ → String
digit zero = "0"
digit (suc zero) = "1"
digit (suc (suc zero)) = "2"
digit (suc (suc (suc zero))) = "3"
digit (suc (suc (suc (suc zero)))) = "4"
digit (suc (suc (suc (suc (suc zero))))) = "5"
digit (suc (suc (suc (suc (suc (suc zero)))))) = "6"
digit (suc (suc (suc (suc (suc (suc (suc zero))))))) = "7"
digit (suc (suc (suc (suc (suc (suc (suc (suc zero)))))))) = "8"
digit (suc (suc (suc (suc (suc (suc (suc (suc (suc n))))))))) = "9"

decimal_fuel : ℕ → ℕ → String
unfolding digit
decimal_fuel zero n = ""
decimal_fuel (suc fuel) n =
    let rest = decimal_fuel fuel (n / 10) in if leb n 9 then digit n else join rest (digit (n % 10))

-- A number has fewer digits than it counts, so the fuel does not run out.
unfoldable pub decimal : ℕ → String
unfolding decimal_fuel
decimal n = decimal_fuel (suc n) n

decimal_example : decimal 1700000000000000042 ≡ "1700000000000000042"
unfolding decimal
decimal_example = refl

-- A run of ASCII digits, read onto the number before it.
digits_onto : ℕ → String → Option ℕ
digits_onto acc String.[] = some acc
digits_onto acc (String.◌∷◌ c s) =
    let rest = digits_onto (acc * 10 + (code c - 48)) s in
    if leb 48 (code c) && leb (code c) 57 then rest else none

natural : String → Option ℕ
unfolding digits_onto
natural String.[] = none
natural (String.◌∷◌ c s) = digits_onto 0 (String.◌∷◌ c s)

-- The number with its sign, if an int64 can hold it.
signed : Bool → Option ℕ → Option ℤ
signed minus none = none
signed true (some zero) = some (pos 0)
signed true (some (suc n)) = if leb (suc n) 9223372036854775808 then some (negsuc n) else none
signed false (some n) = if leb n 9223372036854775807 then some (pos n) else none

-- strconv.Atoi, with `none` for an error.
unfoldable pub atoi : String → Option ℤ
unfolding natural signed
atoi String.[] = none
atoi (String.◌∷◌ c s) =
    if nat_eq (code c) b'-'
    then signed true (natural s)
    else if nat_eq (code c) b'+'
    then signed false (natural s)
    else signed false (natural (String.◌∷◌ c s))

atoi_example : atoi "-12" ≡ some (negsuc 11)
unfolding atoi
atoi_example = refl

atoi_out_of_range : atoi "9223372036854775808" ≡ none
unfolding atoi
atoi_out_of_range = refl

trim_example : trim_space "  a b  " ≡ "a b"
unfolding trim_space
trim_example = refl

lower_example : to_lower "Run-SCRIPT" ≡ "run-script"
unfolding to_lower
lower_example = refl

contains_example : contains "web-api-1" "api" ≡ true
unfolding contains
contains_example = refl

split_example : split "a,,bc" b',' ≡ "a" ∷ "" ∷ "bc" ∷ []
unfolding split
split_example = refl

trim_prefix_example : join "job-" (trim_prefix "rule-7" "rule-") ≡ "job-7"
unfolding trim_prefix
trim_prefix_example = refl
