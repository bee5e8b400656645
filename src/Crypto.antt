-- ===== src/Crypto.antt =====
-- internal/crypto/crypto.go: secrets in the configuration files. AES-GCM with base64 around it is a
-- parameter; the key is what SetKey derives from the passphrase, and `none` where it is not set.
pub mod Laws
use chowkidar.Prelude.{
  ℕ, suc, ◌≡◌, Bool, true, false, ◌||◌, not, String, Option, none, some, if◌then◌else◌,
}
use chowkidar.Text.{is_empty, join, has_prefix, trim_prefix}

-- gcm.Seal behind its nonce, as base64, where the random source gave a nonce; and the way back.
pub record Cipher : Type 0 where
  pub seal : String → Option String → String → Option String
  pub open_sealed : String → String → Option String

abbrev pub secret_prefix : String
secret_prefix = "enc:v1:"

unfoldable pub is_encrypted : String → Bool
is_encrypted value = has_prefix value secret_prefix

module _ (cipher : Cipher) where
  abbrev sealed : Option String → Option String
  sealed none = none
  sealed (some text) = some (join secret_prefix text)

  unfoldable pub encrypt_with_key : String → Option String → String → Option String
  encrypt_with_key plaintext salt key = sealed (cipher.seal key salt plaintext)

  unfoldable pub encrypt : Option String → Option String → String → Option String
  unfolding encrypt_with_key
  encrypt none salt plaintext = some plaintext
  encrypt (some key) salt plaintext =
      if is_empty plaintext then some plaintext else encrypt_with_key plaintext salt key

  unfoldable pub maybe_encrypt : Option String → Option String → String → Option String
  unfolding encrypt
  maybe_encrypt none salt value = some value
  maybe_encrypt (some key) salt value =
      if is_empty value || is_encrypted value then some value else encrypt (some key) salt value

  unfoldable pub decrypt_with_key : String → String → Option String
  decrypt_with_key value key = cipher.open_sealed key (trim_prefix value secret_prefix)

  -- With the number of failures; `none` is the error.
  unfoldable pub maybe_decrypt : Option String → ℕ → String → Option String × ℕ
  unfolding decrypt_with_key
  maybe_decrypt key failures value =
      if not (is_encrypted value) then (some value, failures) else elim key [
        | none ↦ (none, failures)
        | some k ↦ elim (decrypt_with_key value k) [
          | none ↦ (none, suc failures)
          | some plain ↦ (some plain, failures)
        ]
      ]
