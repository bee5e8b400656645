-- ===== src/DockerHosts.antt =====
-- internal/config/docker_hosts.go: the profiles of extra Docker hosts, their validation, and how their TLS
-- fields are written encrypted and read back. Reading and writing docker_hosts.yaml itself is left out:
-- the operations take and give the profiles in the file. The count of failed decryptions is left out.
pub mod Secrets
use chowkidar.Prelude.{
  ℕ, suc, ◌+◌, ◌≡◌, Bool, true, false, ◌||◌, ◌&&◌, not, String, List, [], ◌∷◌, Option, none, some,
  ℤ, ◌==◌, if◌then◌else◌,
}
use chowkidar.Prelude.Checks.{Checked, bad, good, ◌>>=◌, ◌>>◌, expect, needed}
use chowkidar.Text.{trim_space, to_lower, is_empty, join, has_prefix, decimal}
use chowkidar.Crypto.{Cipher, maybe_encrypt, maybe_decrypt}

-- DockerHostProfile; `kind` is its type.
pub record HostProfile : Type 0 where
  pub id : String
  pub name : String
  pub kind : String
  pub endpoint : String
  pub enabled : Bool
  pub tls_ca_cert : String
  pub tls_cert : String
  pub tls_key : String
  pub tls_skip_verify : Bool
  pub notifications : List String
  pub down_template : String
  pub recovery_template : String
  pub monitor_interval_seconds : ℤ
  pub ping_timeout_seconds : ℤ
  pub offline_confirm_seconds : ℤ

pub data HostError : Type 0 where
  name_required endpoint_required absolute_path_required tls_pair_required cannot_encrypt :
      HostError
  unsupported_type scheme_required : String → HostError

abbrev pub default_kind : String → String
default_kind kind = if is_empty kind then "socket" else kind

-- The fields as normalizeDockerHostProfile rewrites them; the identifier is that of the position.
unfoldable pub tidied_host : HostProfile → ℕ → HostProfile
tidied_host p idx = record p {
  id =
      if is_empty (trim_space p.id)
      then join "docker-host-" (decimal (idx + 1))
      else trim_space p.id;
  name = trim_space p.name;
  kind = default_kind (to_lower (trim_space p.kind));
  endpoint = trim_space p.endpoint;
}

abbrev pub is_supported_kind : String → Bool
is_supported_kind kind = kind == "socket" || kind == "http" || kind == "https"

-- The tests of normalizeDockerHostProfile, in their order.
unfoldable pub check_host : HostProfile → Checked HostError (Unit {0})
check_host n = do
  expect (not (is_empty n.name)) name_required
  expect (is_supported_kind n.kind) (unsupported_type n.kind)
  expect (not (is_empty n.endpoint)) endpoint_required
  expect (not (n.kind == "socket") || has_prefix n.endpoint "/") absolute_path_required
  expect (n.kind == "socket" || has_prefix n.endpoint (join n.kind "://")) (scheme_required n.kind)
  expect
      (not (
        (not (is_empty n.tls_cert) && is_empty n.tls_key)
        || (not (is_empty n.tls_key) && is_empty n.tls_cert)))
      tls_pair_required

unfoldable pub normalize_docker_host_profile : HostProfile → ℕ → Checked HostError HostProfile
unfolding tidied_host
normalize_docker_host_profile p idx = do check_host (tidied_host p idx); good (tidied_host p idx)

-- The nonces that the three fields of a profile get.
pub record Salts : Type 0 where
  pub ca_cert : Option String
  pub cert : Option String
  pub key : Option String

module _ (cipher : Cipher) (secret : Option String) where
  unfoldable pub encrypt_host : Salts → HostProfile → Checked HostError HostProfile
  encrypt_host salts n = do
    ca_cert ← needed (maybe_encrypt cipher secret salts.ca_cert n.tls_ca_cert) cannot_encrypt
    cert ← needed (maybe_encrypt cipher secret salts.cert n.tls_cert) cannot_encrypt
    key ← needed (maybe_encrypt cipher secret salts.key n.tls_key) cannot_encrypt
    good (record n { tls_ca_cert = ca_cert; tls_cert = cert; tls_key = key })

  -- SaveDockerHostProfiles: the profiles in the file. `salts` gives the nonces by position.
  unfoldable pub save_hosts :
      (ℕ → Salts) → ℕ → List HostProfile → Checked HostError (List HostProfile)
  unfolding encrypt_host
  save_hosts salts idx [] = good []
  save_hosts salts idx (p ∷ ps) = do
    n ← normalize_docker_host_profile p idx
    e ← encrypt_host (salts idx) n
    rest ← save_hosts salts (suc idx) ps
    good (e ∷ rest)

  -- A field that cannot be decrypted is cleared.
  unfoldable pub decrypt_or_clear : String → String
  decrypt_or_clear value = elim (maybe_decrypt cipher secret 0 value).0 [
    | none ↦ ""
    | some plain ↦ plain
  ]

  unfoldable pub load_host : HostProfile → HostProfile
  unfolding decrypt_or_clear
  load_host p = record p {
    tls_ca_cert = decrypt_or_clear p.tls_ca_cert;
    tls_cert = decrypt_or_clear p.tls_cert;
    tls_key = decrypt_or_clear p.tls_key;
  }

  -- LoadDockerHostProfiles.
  unfoldable pub load_hosts : List HostProfile → List HostProfile
  unfolding load_host
  load_hosts [] = []
  load_hosts (p ∷ ps) = load_host p ∷ load_hosts ps

  -- bootLoadFiles, for this file: it is read and written back.
  unfoldable pub boot_hosts : (ℕ → Salts) → List HostProfile → Checked HostError (List HostProfile)
  unfolding load_hosts save_hosts
  boot_hosts salts file = save_hosts salts 0 (load_hosts file)
