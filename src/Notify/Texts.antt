-- ===== src/Notify/Texts.antt =====
-- cmd/server/notify.go: what is read from the text of an error, and from the text of a duration.
use Prim.Native.Char.{code}
use chowkidar.Prelude.{
  ℕ, suc, ◌*◌, Bool, ◌||◌, ◌&&◌, String, List, [], ◌∷◌, Option, none, some, ℤ, pos, nat_eq, ◌==◌,
  if◌then◌else◌, scale, any, ◌≡◌, refl,
}
use chowkidar.Text.{trim_space, to_lower, contains, has_prefix, drop_prefix, is_empty, atoi}
use chowkidar.Model.{minute}

-- isRateLimitError, for an error with this text.
unfoldable pub is_rate_limit_error : String → Bool
is_rate_limit_error message =
    any (λ word. contains (to_lower message) word)
      ("quota" ∷ "rate limit" ∷ "too many" ∷ "429" ∷ "limit reached" ∷ "throttl" ∷ "42908"
        ∷ "daily message" ∷ "exceeded" ∷ [])

-- The text before and behind the first `t` in `s`.
unfoldable pub cut : String → String → Option (String × String)
cut String.[] t = if is_empty t then some ("", "") else none
cut (String.◌∷◌ c s) t =
    let rest = cut s t in
    if has_prefix (String.◌∷◌ c s) t
    then some ("", drop_prefix (String.◌∷◌ c s) t)
    else elim rest [ none ↦ none | some (before, behind) ↦ some (String.◌∷◌ c before, behind) ]

-- The first characters of `s`, as many as `t` has.
unfoldable pub as_long_as : String → String → String
as_long_as String.[] s = ""
as_long_as (String.◌∷◌ d t) String.[] = ""
as_long_as (String.◌∷◌ d t) (String.◌∷◌ c s) = String.◌∷◌ c (as_long_as t s)

-- strings.TrimSuffix.
unfoldable pub trim_suffix : String → String → String
trim_suffix String.[] t = ""
trim_suffix (String.◌∷◌ c s) t =
    let rest = trim_suffix s t in if String.◌∷◌ c s == t then "" else String.◌∷◌ c rest

-- strings.TrimRight(s, " ;,").
unfoldable pub trim_right_marks : String → String
trim_right_marks String.[] = ""
trim_right_marks (String.◌∷◌ c s) =
    let rest = trim_right_marks s in
    let mark = nat_eq (code c) 32 || nat_eq (code c) 59 || nat_eq (code c) 44 in
    if is_empty rest && mark then "" else String.◌∷◌ c rest

-- The loop over the phrases that end the part worth showing.
unfoldable pub strip_phrases : List String → String → String
unfolding trim_right_marks as_long_as
strip_phrases [] s = s
strip_phrases (phrase ∷ phrases) s = strip_phrases phrases (elim (cut (to_lower s) phrase) [
  | none ↦ s
  | some (before, behind) ↦ trim_right_marks (as_long_as before s)
])

abbrev verbose_phrases : List String
verbose_phrases =
    "; increase your" ∷ "; upgrade your" ∷ "; consider upgrading" ∷ "; see https" ∷ "; visit https"
    ∷ " see https" ∷ ", see https" ∷ " https://" ∷ " http://" ∷ []

-- strings.SplitN(s, " - ", 3), where it has three parts.
abbrev third_part : String → Option String
third_part s = elim (cut s " - ") as (λ o. Option String) [
  | none ↦ none
  | some (before, behind) ↦ elim (cut behind " - ") as (λ o. Option String) [
    | none ↦ none
    | some (level, message) ↦ some message
  ]
]

abbrev unwrapped : String → String
unwrapped raw = elim (cut raw " (") as (λ o. String) [ none ↦ raw | some (before, behind) ↦ behind ]

abbrev without_header : String → String
without_header s = elim (third_part s) as (λ o. String) [
  | none ↦ s
  | some message ↦ trim_space message
]

unfoldable pub clean_notif_error : String → String
unfolding trim_suffix strip_phrases
clean_notif_error raw =
    let inner = trim_suffix (trim_space (unwrapped raw)) ")" in
    let shown = trim_space (strip_phrases verbose_phrases (without_header inner)) in
    if is_empty shown then trim_space raw else shown

-- The text without its last character, and the code of that one.
unfoldable pub split_last : String → Option (String × ℕ)
split_last String.[] = none
split_last (String.◌∷◌ c s) = elim (split_last s) [
  | none ↦ some ("", code c)
  | some (before, last) ↦ some (String.◌∷◌ c before, last)
]

abbrev unit_of : ℕ → Option ℕ
unit_of c =
    if nat_eq c b'm'
    then some minute
    else if nat_eq c b'h'
    then some (60 * minute)
    else if nat_eq c b'd'
    then some (24 * 60 * minute)
    else if nat_eq c b'w'
    then some (7 * 24 * 60 * minute)
    else none

abbrev at_least_one : Option ℤ → Option ℕ
at_least_one (some (pos (suc n))) = some (suc n)
at_least_one _ = none

-- parseSuspendDuration: an int64 of nanoseconds; `none` is the error.
unfoldable pub parse_suspend_duration : String → Option ℤ
unfolding split_last
parse_suspend_duration s = elim (split_last s) [
  | none ↦ none
  | some (before, last) ↦ elim (at_least_one (atoi before)) [
    | none ↦ none
    | some n ↦ elim (unit_of last) [ none ↦ none | some unit ↦ some (scale (pos n) unit) ]
  ]
]

clean_example :
    clean_notif_error
      "apprise send failed: exit status 1 (2026-06-02 12:43:43,738 - WARNING - Failed to send ntfy: quota reached; increase your limits, see https://ntfy.sh/app)"
    ≡ "Failed to send ntfy: quota reached"
unfolding clean_notif_error cut has_prefix drop_prefix trim_space to_lower
clean_example = refl
