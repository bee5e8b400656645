-- ===== src/Exit.antt =====
-- cmd/server/util.go, parseExitCode, and the reason that processCrashedContainer makes of the code.
use Prim.Native.Char.{code}
use chowkidar.Prelude.{
  ℕ, zero, suc, ◌+◌, ◌-◌, ◌≡◌, refl, String, Option, none, some, leb, nat_eq, if◌then◌else◌, ℤ, pos,
  negsuc,
}
use chowkidar.Text.{join, decimal, atoi, trim_space}

-- strings.Index of one character, counted from `n`.
unfoldable pub index_from : ℕ → String → ℕ → Option ℕ
index_from n String.[] sep = none
index_from n (String.◌∷◌ c s) sep =
    let rest = index_from (suc n) s sep in if nat_eq (code c) sep then some n else rest

-- s[:n] and s[n:].
unfoldable pub front : ℕ → String → String
front zero s = ""
front (suc n) String.[] = ""
front (suc n) (String.◌∷◌ c s) = String.◌∷◌ c (front n s)

unfoldable pub back : ℕ → String → String
back zero s = s
back (suc n) String.[] = ""
back (suc n) (String.◌∷◌ c s) = back n s

code_or_none : Option ℤ → ℤ
code_or_none none = negsuc 0
code_or_none (some n) = n

between : String → Option ℕ → Option ℕ → ℤ
unfolding front back trim_space atoi code_or_none
between s (some i) (some k) =
    if leb k i
    then negsuc 0
    else code_or_none (atoi (trim_space (front (k - (i + 1)) (back (i + 1) s))))
between s _ _ = negsuc 0

-- parseExitCode: -1 where the status names no number.
unfoldable pub parse_exit_code : String → ℤ
unfolding index_from between
parse_exit_code s = between s (index_from 0 s b'(') (index_from 0 s b')')

-- `%d` of an int.
unfoldable pub int_text : ℤ → String
unfolding decimal
int_text (pos n) = decimal n
int_text (negsuc n) = join "-" (decimal (n + 1))

unfoldable pub crash_reason : ℤ → String
unfolding int_text
crash_reason n = join "crash (exit " (join (int_text n) ")")

exit_example : parse_exit_code "Exited (137) 2 hours ago" ≡ pos 137
unfolding parse_exit_code
exit_example = refl

no_exit_example : parse_exit_code "Up 2 hours" ≡ negsuc 0
unfolding parse_exit_code
no_exit_example = refl

crash_example : crash_reason (pos 137) ≡ "crash (exit 137)"
unfolding crash_reason
crash_example = refl
