-- ===== src/DockerHosts/Secrets.antt =====
-- TLS fields are read back as they were saved, with the key of that time; with another they are lost.
use chowkidar.Prelude.{
  ℕ, suc, ◌≡◌, refl, false, String, List, [], ◌∷◌, Option, none, some, All, ap, sym, subst, ◌∙◌,
}
use chowkidar.Prelude.Checks.{Checked, good, ◌>>=◌, needed, good_bind, good_after, good_inj}
use chowkidar.Crypto.{Cipher, is_encrypted, maybe_encrypt, maybe_decrypt}
use chowkidar.Crypto.Laws.{IsCipher, maybe_decrypt-maybe_encrypt, some_inj}
use chowkidar.DockerHosts.{
  HostProfile, HostError, Salts, normalize_docker_host_profile, tidied_host, check_host,
  encrypt_host, save_hosts, decrypt_or_clear, load_host, load_hosts, boot_hosts,
}

-- The validation alone.
unfoldable pub normalize_hosts : ℕ → List HostProfile → Checked HostError (List HostProfile)
normalize_hosts idx [] = good []
normalize_hosts idx (p ∷ ps) = do
  n ← normalize_docker_host_profile p idx
  rest ← normalize_hosts (suc idx) ps
  good (n ∷ rest)

-- No TLS field looks encrypted.
abbrev pub IsPlain : HostProfile → Type 0
IsPlain p =
    (is_encrypted p.tls_ca_cert ≡ false)
    × (is_encrypted p.tls_cert ≡ false)
    × (is_encrypted p.tls_key ≡ false)

abbrev tls : HostProfile → String × String × String
tls p = (p.tls_ca_cert, p.tls_cert, p.tls_key)

abbrev PlainTls : String × String × String → Type 0
PlainTls (a, b, c) = (is_encrypted a ≡ false) × (is_encrypted b ≡ false) × (is_encrypted c ≡ false)

abbrev BlankTls : String × String × String → Type 0
BlankTls (a, b, c) = (a ≡ "") × (b ≡ "") × (c ≡ "")

normalize-tls :
    (p : HostProfile) (idx : ℕ) {n : HostProfile}
    → normalize_docker_host_profile p idx ≡ good n
    → tls n ≡ tls p
unfolding normalize_docker_host_profile tidied_host
normalize-tls p idx h =
    subst (λ n. tls n ≡ tls p) (good_after (check_host (tidied_host p idx)) h) refl

module _ (cipher : Cipher) (secret : Option String) where
  needed-some :
      {A : Type 0} (o : Option A) (e : HostError) {a : A} → needed o e ≡ good a → o ≡ some a
  needed-some none e h = cc
  needed-some (some a) e h = ap some (good_inj h)

  read_back :
      (salt : Option String) (value : String) {stored : String}
      → IsCipher cipher
      → is_encrypted value ≡ false
      → maybe_encrypt cipher secret salt value ≡ some stored
      → decrypt_or_clear cipher secret stored ≡ value
  unfolding decrypt_or_clear
  read_back salt value laws plain h =
      rw (maybe_decrypt-maybe_encrypt cipher secret salt 0 value laws plain h, decrypt_or_clear)
        refl

  load-encrypt :
      (salts : Salts) (n : HostProfile) {e : HostProfile}
      → IsCipher cipher
      → IsPlain n
      → encrypt_host cipher secret salts n ≡ good e
      → load_host cipher secret e ≡ n
  unfolding encrypt_host load_host
  load-encrypt salts n laws (pa, pb, pc) h =
      let (a, ea, h) =
        good_bind (needed (maybe_encrypt cipher secret salts.ca_cert n.tls_ca_cert) _) _ h in
      let (b, eb, h) =
        good_bind (needed (maybe_encrypt cipher secret salts.cert n.tls_cert) _) _ h in
      let (c, ec, h) = good_bind (needed (maybe_encrypt cipher secret salts.key n.tls_key) _) _ h in
      let ra = read_back salts.ca_cert n.tls_ca_cert laws pa (needed-some _ _ ea) in
      let rb = read_back salts.cert n.tls_cert laws pb (needed-some _ _ eb) in
      let rc = read_back salts.key n.tls_key laws pc (needed-some _ _ ec) in
      subst (λ e. load_host cipher secret e ≡ n) (good_inj h)
        (λ i. record n { tls_ca_cert = ra i; tls_cert = rb i; tls_key = rc i })

  consed :
      (idx : ℕ) (p : HostProfile) (ps : List HostProfile) (n e : HostProfile)
      (rest : List HostProfile)
      → normalize_docker_host_profile p idx ≡ good n
      → normalize_hosts (suc idx) ps ≡ good (load_hosts cipher secret rest)
      → load_host cipher secret e ≡ n
      → normalize_hosts idx (p ∷ ps) ≡ good (load_hosts cipher secret (e ∷ rest))
  unfolding normalize_hosts load_hosts
  consed idx p ps n e rest en others same =
      rw (en, others) (ap (λ x. good (x ∷ load_hosts cipher secret rest)) (sym same))

  -- What SaveDockerHostProfiles wrote, LoadDockerHostProfiles reads as the validated profiles, with the same
  -- key and where no TLS field looks encrypted.
  pub load_hosts-save_hosts :
      (salts : ℕ → Salts) (idx : ℕ) (ps : List HostProfile) {file : List HostProfile}
      → IsCipher cipher
      → All IsPlain ps
      → save_hosts cipher secret salts idx ps ≡ good file
      → normalize_hosts idx ps ≡ good (load_hosts cipher secret file)
  unfolding save_hosts load_hosts normalize_hosts
  load_hosts-save_hosts salts idx [] laws plain h =
      subst (λ f. normalize_hosts idx [] ≡ good (load_hosts cipher secret f)) (good_inj h) refl
  load_hosts-save_hosts salts idx (p ∷ ps) laws (plain, rest_plain) h =
      let (n, en, h) = good_bind (normalize_docker_host_profile p idx) _ h in
      let (e, ee, h) = good_bind (encrypt_host cipher secret (salts idx) n) _ h in
      let (rest, er, h) = good_bind (save_hosts cipher secret salts (suc idx) ps) _ h in
      let same =
        load-encrypt (salts idx) n laws (subst PlainTls (sym (normalize-tls p idx en)) plain) ee in
      let others = load_hosts-save_hosts salts (suc idx) ps laws rest_plain er in
      subst (λ f. normalize_hosts idx (p ∷ ps) ≡ good (load_hosts cipher secret f)) (good_inj h)
        (consed idx p ps n e rest en others same)

  -- No TLS field can be decrypted.
  abbrev pub DecryptFails : String → Type 0
  DecryptFails value = (maybe_decrypt cipher secret 0 value).0 ≡ none

  abbrev pub IsUnreadable : HostProfile → Type 0
  IsUnreadable p =
      (DecryptFails p.tls_ca_cert) × (DecryptFails p.tls_cert) × (DecryptFails p.tls_key)

  abbrev pub IsBlank : HostProfile → Type 0
  IsBlank p = (p.tls_ca_cert ≡ "") × (p.tls_cert ≡ "") × (p.tls_key ≡ "")

  cleared : (value : String) → DecryptFails value → decrypt_or_clear cipher secret value ≡ ""
  unfolding decrypt_or_clear
  cleared value h = rw (h, decrypt_or_clear) refl

  blank_stays : (salt : Option String) → maybe_encrypt cipher secret salt "" ≡ some ""
  unfolding maybe_encrypt
  blank_stays salt = by_secret secret
    where
      by_secret : (s : Option String) → maybe_encrypt cipher s salt "" ≡ some ""
      by_secret none = refl
      by_secret (some key) = refl

  blank_of :
      (salt : Option String) (value : String) {stored : String}
      → value ≡ ""
      → maybe_encrypt cipher secret salt value ≡ some stored
      → stored ≡ ""
  blank_of salt value e h =
      some_inj (sym h ∙ ap (maybe_encrypt cipher secret salt) e ∙ blank_stays salt)

  encrypt-IsBlank :
      (salts : Salts) (n : HostProfile) {e : HostProfile}
      → IsBlank n
      → encrypt_host cipher secret salts n ≡ good e
      → IsBlank e
  unfolding encrypt_host
  encrypt-IsBlank salts n (a, b, c) h =
      let (a', ea, h) =
        good_bind (needed (maybe_encrypt cipher secret salts.ca_cert n.tls_ca_cert) _) _ h in
      let (b', eb, h) =
        good_bind (needed (maybe_encrypt cipher secret salts.cert n.tls_cert) _) _ h in
      let (c', ec, h) =
        good_bind (needed (maybe_encrypt cipher secret salts.key n.tls_key) _) _ h in
      subst IsBlank (good_inj h) (
        blank_of salts.ca_cert n.tls_ca_cert a (needed-some _ _ ea),
        blank_of salts.cert n.tls_cert b (needed-some _ _ eb),
        blank_of salts.key n.tls_key c (needed-some _ _ ec),
      )

  IsBlank-next :
      (salts : Salts) (idx : ℕ) (q : HostProfile) {n e : HostProfile}
      → IsBlank q
      → normalize_docker_host_profile q idx ≡ good n
      → encrypt_host cipher secret salts n ≡ good e
      → IsBlank e
  IsBlank-next salts idx q blank en ee =
      encrypt-IsBlank salts _ (subst BlankTls (sym (normalize-tls q idx en)) blank) ee

  -- A start of the server with a key that opens none of the TLS fields in the file, or with none, writes the
  -- file back with all of them empty.
  pub boot_erases_secrets :
      (salts : ℕ → Salts) (file : List HostProfile) {file' : List HostProfile}
      → All IsUnreadable file
      → boot_hosts cipher secret salts file ≡ good file'
      → All IsBlank file'
  unfolding boot_hosts load_hosts save_hosts load_host
  boot_erases_secrets salts file lost h = go 0 file lost h
    where
      go :
          (idx : ℕ) (ps : List HostProfile) {out : List HostProfile}
          → All IsUnreadable ps
          → save_hosts cipher secret salts idx (load_hosts cipher secret ps) ≡ good out
          → All IsBlank out
      go idx [] lost h = subst (All IsBlank) (good_inj h) tt
      go idx (p ∷ ps) ((la, lb, lc), rest_lost) h =
          let (n, en, h) =
            good_bind (normalize_docker_host_profile (load_host cipher secret p) idx) _ h in
          let (e, ee, h) = good_bind (encrypt_host cipher secret (salts idx) n) _ h in
          let (rest, er, h) =
            good_bind (save_hosts cipher secret salts (suc idx) (load_hosts cipher secret ps)) _
              h in
          let blank =
            IsBlank-next (salts idx) idx _
              (cleared p.tls_ca_cert la, cleared p.tls_cert lb, cleared p.tls_key lc) en ee in
          subst (All IsBlank) (good_inj h) (blank, go (suc idx) ps rest_lost er)
