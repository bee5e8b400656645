-- ===== src/Profiles/Urls.antt =====
-- internal/config/notifications.go: the service addresses that are built from the details. `escape` is
-- url.QueryEscape.
use chowkidar.Prelude.{
  Bool, ◌||◌, String, List, [], ◌∷◌, ◌++◌, Assoc, lookup, get_or, ◌==◌, if◌then◌else◌,
}
use Prim.Native.Char.{code}
use chowkidar.Prelude.{nat_eq}
use chowkidar.Text.{trim_space, to_lower, is_empty, join, contains}
use chowkidar.Profiles.Details.{without_scheme, trim_right_slashes}

abbrev pub detail : Assoc String → String → String
detail details key = get_or "" (lookup key details)

abbrev pub join_and : List String → String
join_and [] = ""
join_and (s ∷ []) = s
join_and (s ∷ t ∷ rest) = join s (join "&" (join_and (t ∷ rest)))

unfoldable pub join_query : List String → String
join_query [] = ""
join_query (p ∷ ps) = join "?" (join_and (p ∷ ps))

-- strings.TrimLeft(s, "/").
unfoldable pub trim_left_slashes : String → String
trim_left_slashes String.[] = ""
trim_left_slashes (String.◌∷◌ c s) =
    let rest = trim_left_slashes s in if nat_eq (code c) 47 then rest else String.◌∷◌ c s

module _ (escape : String → String) where
  -- `name=value`, if the detail is not blank.
  unfoldable pub param : String → String → List String
  param name value =
      if is_empty (trim_space value)
      then []
      else join name (join "=" (escape (trim_space value))) ∷ []

  unfoldable pub build_slack_url : Assoc String → String
  unfolding param
  build_slack_url d =
      let address = trim_space (detail d "webhookurl") in
      let params =
        param "username" (detail d "username")
        ++ (param "iconemoji" (detail d "iconemoji") ++ param "channel" (detail d "channel")) in
      if is_empty address
      then join "slack://" (
          join (detail d "tokena")
            (join "/" (join (detail d "tokenb") (join "/" (detail d "tokenc")))))
      else elim params [
        | [] ↦ address
        | p ∷ ps ↦
            join address (join (if contains address "?" then "&" else "?") (join_and (p ∷ ps)))
      ]

  unfoldable pub is_silent : String → Bool
  is_silent value = let s = to_lower (trim_space value) in s == "yes" || s == "true" || s == "1"

  unfoldable pub build_telegram_url : Assoc String → String
  unfolding param is_silent join_query
  build_telegram_url d = join "tgram://" (
      join (detail d "bottoken") (
        join "/" (
          join (detail d "chatid") (
            join_query (
              param "thread" (detail d "threadid")
              ++ (if is_silent (detail d "silent") then "silent=yes" ∷ [] else []))))))

  -- The part of the switch on the method of authentication.
  unfoldable pub ntfy_auth : Assoc String → List String
  unfolding param
  ntfy_auth d =
      let auth = trim_space (detail d "authMethod") in
      if is_empty auth || auth == "none"
      then []
      else join "auth=" (escape auth)
        ∷ (if auth == "userpass"
            then param "user" (detail d "username") ++ param "pass" (detail d "password")
            else if auth == "token"
            then param "token" (detail d "token")
            else [])

  unfoldable pub ntfy_base : Assoc String → String
  unfolding trim_left_slashes
  ntfy_base d = join "ntfy://" (
      join (without_scheme (trim_right_slashes (detail d "host")))
        (join "/" (trim_left_slashes (detail d "topic"))))

  unfoldable pub build_ntfy_url : Assoc String → String
  unfolding param ntfy_auth ntfy_base join_query
  build_ntfy_url d = join (ntfy_base d) (
      join_query (
        param "priority" (detail d "priority")
        ++ (param "icon" (detail d "iconUrl") ++ ntfy_auth d)))

  unfoldable pub build_pover_url : Assoc String → String
  unfolding param join_query
  build_pover_url d = join "pover://" (
      join (detail d "user") (
        join "@" (
          join (detail d "token") (
            join_query (
              param "device" (detail d "device")
              ++ (param "title" (detail d "title")
                  ++ (param "priority" (detail d "priority")
                      ++ (param "sound" (detail d "sound") ++ param "ttl" (detail d "ttl")))))))))

unfoldable pub build_gotify_url : Assoc String → String
build_gotify_url d =
    join "gotify://"
      (join (without_scheme (trim_right_slashes (detail d "host"))) (join "/" (detail d "token")))
