-- ===== src/Crypto/Laws.antt =====
-- What is encrypted is found again with the same key, and with no other.
use text.Mathlib.TextLemmas.{nil-append, cons-append}
use chowkidar.Prelude.{
  ℕ, ◌≡◌, refl, true, false, String, Option, none, some, arith, Bool-cases, Option-cases, inl, inr,
  subst,
}
use chowkidar.Text.{is_empty, join, has_prefix, trim_prefix, drop_prefix}
use chowkidar.Crypto.{
  Cipher, secret_prefix, is_encrypted, encrypt_with_key, encrypt, maybe_encrypt, decrypt_with_key,
  maybe_decrypt,
}

-- What was sealed with a key is opened with it.
pub record IsCipher (cipher : Cipher) : Type 0 where
  pub opens :
      (key plain text : String) (salt : Option String)
      → cipher.seal key salt plain ≡ some text
      → cipher.open_sealed key text ≡ some plain

has_prefix-join : (p s : String) → has_prefix (join p s) p ≡ true
unfolding has_prefix
has_prefix-join String.[] s = refl
has_prefix-join (String.◌∷◌ c p) s = rw (cons-append c p s) (ground (arith, has_prefix-join p s))

drop_prefix-join : (p s : String) → drop_prefix (join p s) p ≡ s
unfolding drop_prefix
drop_prefix-join String.[] s = nil-append s
drop_prefix-join (String.◌∷◌ c p) s = rw (cons-append c p s) (drop_prefix-join p s)

trim_prefix-join : (p s : String) → trim_prefix (join p s) p ≡ s
unfolding trim_prefix
trim_prefix-join p s = rw (has_prefix-join p s) (drop_prefix-join p s)

pub some_inj : {A : Type 0} {a b : A} → ◌≡◌ {A = Option A} (some a) (some b) → a ≡ b
some_inj h = cc

-- A value with the prefix is opened with the key.
opened :
    (cipher : Cipher) (key : String) (failures : ℕ) (value text : String)
    → cipher.open_sealed key text ≡ some value
    → maybe_decrypt cipher (some key) failures (join secret_prefix text) ≡ (some value, failures)
unfolding maybe_decrypt decrypt_with_key is_encrypted
opened cipher key failures value text h =
    rw (has_prefix-join secret_prefix text) (rw (trim_prefix-join secret_prefix text) (rw h refl))

-- A value without the prefix is left alone.
left_alone :
    (cipher : Cipher) (key : Option String) (failures : ℕ) (value : String)
    → is_encrypted value ≡ false
    → maybe_decrypt cipher key failures value ≡ (some value, failures)
unfolding maybe_decrypt
left_alone cipher key failures value h = rw h refl

module _ (cipher : Cipher) where
  -- A value that does not look encrypted, once encrypted with the key in force or left alone where there is
  -- none, is decrypted to itself, with no failure.
  pub maybe_decrypt-maybe_encrypt :
      (key salt : Option String) (failures : ℕ) (value : String) {stored : String}
      → IsCipher cipher
      → is_encrypted value ≡ false
      → maybe_encrypt cipher key salt value ≡ some stored
      → maybe_decrypt cipher key failures stored ≡ (some value, failures)
  unfolding maybe_encrypt encrypt encrypt_with_key
  maybe_decrypt-maybe_encrypt none salt failures value laws plain h =
      subst (λ v. maybe_decrypt cipher none failures v ≡ (some value, failures)) (some_inj h)
        (left_alone cipher none failures value plain)
  maybe_decrypt-maybe_encrypt (some key) salt failures value {stored} laws plain h =
      elim (Bool-cases (is_empty value)) [
        | inl e ↦
            subst (λ v. maybe_decrypt cipher (some key) failures v ≡ (some value, failures))
              (some_inj (rw e at h)) (left_alone cipher (some key) failures value plain)
        | inr e ↦ elim (Option-cases (cipher.seal key salt value)) [
          | inl q ↦ absurd (ground arith)
          | inr (text, q) ↦
              let stored_is : join secret_prefix text ≡ stored = ground arith in
              subst (λ v. maybe_decrypt cipher (some key) failures v ≡ (some value, failures))
                stored_is (opened cipher key failures value text (laws.opens key value text salt q))
        ]
      ]
