-- ===== src/Profiles/Details.antt =====
-- internal/config/notifications.go: the details of a profile, tidied and encrypted. A range over the map
-- goes through its entries in order; an entry hides those with its key behind it.
use Prim.Native.Char.{code}
use chowkidar.Prelude.{
  Bool, ◌||◌, String, [], ◌∷◌, Option, none, some, Assoc, insert, elem, nat_eq, ◌==◌, if◌then◌else◌,
}
use chowkidar.Text.{trim_space, to_lower, is_empty, has_prefix, drop_prefix}
use chowkidar.Crypto.{Cipher, maybe_encrypt, maybe_decrypt}

-- httpSchemeRE.ReplaceAllString(s, "").
unfoldable pub without_scheme : String → String
without_scheme s =
    if has_prefix s "http://"
    then drop_prefix s "http://"
    else if has_prefix s "https://"
    then drop_prefix s "https://"
    else s

-- strings.TrimRight(s, "/").
unfoldable pub trim_right_slashes : String → String
trim_right_slashes String.[] = ""
trim_right_slashes (String.◌∷◌ c s) =
    let rest = trim_right_slashes s in
    if is_empty rest
    then (if nat_eq (code c) 47 then "" else String.◌∷◌ c "")
    else String.◌∷◌ c rest

unfoldable pub detail_key : String → String
detail_key k = to_lower (trim_space k)

unfoldable pub detail_value : String → String → String
unfolding without_scheme trim_right_slashes
detail_value key value =
    if key == "host" || key == "server"
    then trim_right_slashes (without_scheme (trim_space value))
    else trim_space value

-- The loop of normalizeNotificationDetails.
unfoldable pub tidy_details : Assoc String → Assoc String → Assoc String
unfolding detail_key detail_value
tidy_details out [] = out
tidy_details out ((k, v) ∷ rest) =
    tidy_details
      (if is_empty (detail_key k)
        then out
        else insert (detail_key k) (detail_value (detail_key k) v) out)
      rest

unfoldable pub normalize_notification_details : Assoc String → Assoc String
unfolding tidy_details
normalize_notification_details details = tidy_details [] details

-- sensitiveDetailKeys.
unfoldable pub is_sensitive : String → Bool
is_sensitive key = elem key (
    "password" ∷ "token" ∷ "bottoken" ∷ "webhookurl" ∷ "webhookid" ∷ "tokena" ∷ "tokenb" ∷ "tokenc"
    ∷ "user" ∷ "url" ∷ "dkimkey" ∷ [])

module _ (cipher : Cipher) (secret : Option String) where
  -- `salts` gives the nonce for a key.
  unfoldable pub encrypt_details : (String → Option String) → Assoc String → Option (Assoc String)
  encrypt_details salts [] = some []
  encrypt_details salts ((k, v) ∷ rest) =
      elim (if is_sensitive k then maybe_encrypt cipher secret (salts k) v else some v) [
        | none ↦ none
        | some stored ↦ elim (encrypt_details salts rest) [
          | none ↦ none
          | some others ↦ some ((k, stored) ∷ others)
        ]
      ]

  -- A detail that cannot be decrypted is cleared.
  unfoldable pub decrypt_details : Assoc String → Assoc String
  decrypt_details [] = []
  decrypt_details ((k, v) ∷ rest) =
      (
        k,
        (if is_sensitive k
            then elim (maybe_decrypt cipher secret 0 v).0 [ none ↦ "" | some plain ↦ plain ]
            else v),
      )
      ∷ decrypt_details rest
