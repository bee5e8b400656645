-- ===== src/Profiles/Sealed.antt =====
-- The details are decrypted to what was encrypted.
use chowkidar.Prelude.{
  ◌≡◌, refl, Bool, true, false, String, [], ◌∷◌, Option, none, some, Assoc, All, if◌then◌else◌,
  Option-cases, inl, inr, subst, sym, arith,
}
use chowkidar.Crypto.{Cipher, is_encrypted, maybe_encrypt, maybe_decrypt}
use chowkidar.Crypto.Laws.{IsCipher, maybe_decrypt-maybe_encrypt, some_inj}
use chowkidar.Profiles.Details.{is_sensitive, encrypt_details, decrypt_details}

-- No value looks encrypted.
abbrev pub IsPlainText : Assoc String → Type 0
IsPlainText = All (λ e. is_encrypted e.1 ≡ false)

module _ (cipher : Cipher) (secret : Option String) (laws : IsCipher cipher) where
  abbrev opened : Bool → String → String
  opened b v =
      if b then elim (maybe_decrypt cipher secret 0 v).0 [ none ↦ "" | some plain ↦ plain ] else v

  opened-back :
      (b : Bool) (salt : Option String) (v : String) {stored : String}
      → is_encrypted v ≡ false
      → (if b then maybe_encrypt cipher secret salt v else some v) ≡ some stored
      → opened b stored ≡ v
  opened-back false salt v plain h = sym (some_inj h)
  opened-back true salt v plain h =
      rw (maybe_decrypt-maybe_encrypt cipher secret salt 0 v laws plain h) refl

  -- Where the details of a profile could be encrypted and no value of theirs looks encrypted before, what
  -- was encrypted is decrypted to the same details with the same secret, or with none both times.
  pub decrypt_details-encrypt_details :
      (salts : String → Option String) (details : Assoc String) {stored : Assoc String}
      → IsPlainText details
      → encrypt_details cipher secret salts details ≡ some stored
      → decrypt_details cipher secret stored ≡ details
  unfolding encrypt_details decrypt_details
  decrypt_details-encrypt_details salts [] plain h =
      subst (λ s. decrypt_details cipher secret s ≡ []) (some_inj h) refl
  decrypt_details-encrypt_details salts ((k, v) ∷ rest) {stored} (plain, rest_plain) h =
      elim (Option-cases
        (if is_sensitive k then maybe_encrypt cipher secret (salts k) v else some v)) [
          | inl e ↦ absurd (ground arith)
          | inr (text, e) ↦ elim (Option-cases (encrypt_details cipher secret salts rest)) [
            | inl q ↦ absurd (ground arith)
            | inr (others, q) ↦
                let stored_is : (k, text) ∷ others ≡ stored = ground arith in
                subst (λ s. decrypt_details cipher secret s ≡ (k, v) ∷ rest) stored_is
                  (consed k v text rest others (opened-back (is_sensitive k) (salts k) v plain e)
                    (decrypt_details-encrypt_details salts rest rest_plain q))
          ]
        ]
    where
      consed :
          (k v text : String) (rest others : Assoc String)
          → opened (is_sensitive k) text ≡ v
          → decrypt_details cipher secret others ≡ rest
          → decrypt_details cipher secret ((k, text) ∷ others) ≡ (k, v) ∷ rest
      consed k v text rest others e q = λ i. (k, e i) ∷ q i
