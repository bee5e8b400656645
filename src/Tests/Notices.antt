-- ===== src/Tests/Notices.antt =====
-- The theorems about notification profiles, notices and secrets at concrete inputs.
use chowkidar.Prelude.{
  ◌+◌, ◌*◌, ◌≤◌, ◌≡◌, refl, sym, true, false, String, List, [], ◌∷◌, none, some, pos, Assoc, All,
  elem, subst, if◌then◌else◌, arith,
}
use chowkidar.Prelude.Checks.{good}
use chowkidar.Model.{second, minute}
use chowkidar.Text.{join}
use chowkidar.Crypto.{Cipher}
use chowkidar.Crypto.Laws.{IsCipher, some_inj}
use chowkidar.DockerHosts.{HostProfile, Salts, load_hosts, save_hosts}
use chowkidar.DockerHosts.Secrets.{normalize_hosts, load_hosts-save_hosts}
use chowkidar.Profiles.{Templates, Profile, no_texts, has_content}
use chowkidar.Profiles.Details.{normalize_notification_details, encrypt_details, decrypt_details}
use chowkidar.Profiles.Sealed.{decrypt_details-encrypt_details}
use chowkidar.Profiles.Urls.{detail, param, join_query, ntfy_base, build_ntfy_url}
use chowkidar.Profiles.Lost.{ntfy_without_auth}
use chowkidar.Profiles.Saved.{
  agent_templates, written_templates, merge_templates, stripped, no_templates,
  merge_templates-saved,
}
use chowkidar.Notify.{NotifyState, NotifyEnv, by_id}
use chowkidar.Notify.Counters.{sent_on}
use chowkidar.Notify.Daily.{last_day, Happening, call, again, run, nothing_sent, daily_limit_holds}
use chowkidar.Notify.Burst.{rounds, burst_never_ends}
use chowkidar.Tests.Data.{noon, midnight}

abbrev titles_only : Templates
titles_only = record { titles = record no_texts { cooldown = "wait" }; bodies = no_texts }

abbrev ntfy_profile : Profile
ntfy_profile = record {
  id = "p-ui-7";
  name = "phone";
  provider = "ntfy";
  details = [];
  service = "ntfy://ntfy.sh/chow";
  enabled = true;
  is_default = false;
  templates = titles_only;
  burst_limit = pos 2;
  burst_window_minutes = pos 0;
  daily_limit = pos 1;
  on_limit_action = "drop";
  auto_suspend_on_error = false;
  suspended_until = none;
  last_rate_limit_error = "";
  last_rate_limit_at = none;
}

merge_templates-saved_example :
    merge_templates
      (written_templates (agent_templates [] (ntfy_profile ∷ [])))
      (stripped ntfy_profile)
    ≡ record ntfy_profile {
      templates = if has_content titles_only then titles_only else no_templates;
    }
unfolding by_id
merge_templates-saved_example = merge_templates-saved (ntfy_profile ∷ []) ntfy_profile refl refl

abbrev with_token : Assoc String
with_token =
    ("host", "https://ntfy.sh/")
    ∷ ("topic", "chow")
    ∷ ("authMethod", "token")
    ∷ ("token", "tk")
    ∷ ("priority", "high")
    ∷ []

ntfy_without_auth_example :
    build_ntfy_url (λ s. s) (normalize_notification_details with_token)
    ≡ join (ntfy_base (λ s. s) (normalize_notification_details with_token)) (
        join_query (
          param
            (λ s. s)
            "priority"
            (detail (normalize_notification_details with_token) "priority")))
ntfy_without_auth_example = ntfy_without_auth (λ s. s) with_token

-- Every message is delivered.
abbrev calm : NotifyEnv
calm = record {
  lib = midnight;
  zone = λ t. "";
  saves = λ t. true;
  external_hostname = "";
  defaults = none;
  deliver = λ service title body now. none;
  render = λ template. template;
}

abbrev three_calls : List Happening
three_calls =
    call "cooldown" (ntfy_profile ∷ []) (("p-ui-7", noon) ∷ ("p-ui-7", noon + second) ∷ [])
    ∷ again
    ∷ call "cooldown" (ntfy_profile ∷ []) (("p-ui-7", noon + minute) ∷ [])
    ∷ []

found_limit : (p : Profile) → by_id "p-ui-7" (ntfy_profile ∷ []) ≡ some p → p.daily_limit ≡ pos 1
unfolding by_id
found_limit p h = subst (λ (q : Profile). q.daily_limit ≡ pos 1) (some_inj h) refl

daily_limit_holds_example :
    sent_on calm "p-ui-7" 738944 (run calm three_calls (nothing_sent (ntfy_profile ∷ []))).sent ≤ 1
unfolding last_day
daily_limit_holds_example =
    daily_limit_holds calm "p-ui-7" 738944 1 three_calls (ntfy_profile ∷ []) (omega arith)
      ((omega arith, (omega arith, tt)), found_limit, ((omega arith, tt), found_limit, tt))
      (λ u. refl)

abbrev used_up : NotifyState
used_up = record {
  profiles = ntfy_profile ∷ [];
  usage =
      ("p-ui-7", record { day_key = none; day_count = 0; burst_key = none; burst_count = 2 }) ∷ [];
  stored = [];
  sent = [];
}

burst_never_ends_example :
    (rounds calm ntfy_profile 2 refl refl
      (omega arith)
      "cooldown"
      ((noon + 86400 * second) ∷ (noon + 2 * 86400 * second) ∷ [])
      used_up).sent
    ≡ []
unfolding chowkidar.Prelude.lookup
burst_never_ends_example =
    burst_never_ends calm ntfy_profile 2 refl refl (omega arith) "cooldown"
      ((noon + 86400 * second) ∷ (noon + 2 * 86400 * second) ∷ []) used_up (omega arith)

-- A cipher that keeps the text as it is.
abbrev open_cipher : Cipher
open_cipher = record { seal = λ key salt plain. some plain; open_sealed = λ key text. some text }

open_cipher-IsCipher : IsCipher open_cipher
open_cipher-IsCipher = record { opens = λ key plain text salt h. sym h }

abbrev far_host : HostProfile
far_host = record {
  id = "";
  name = " nas ";
  kind = "HTTPS";
  endpoint = "https://nas:2376";
  enabled = true;
  tls_ca_cert = "ca";
  tls_cert = "cert";
  tls_key = "key";
  tls_skip_verify = false;
  notifications = [];
  down_template = "";
  recovery_template = "";
  monitor_interval_seconds = pos 30;
  ping_timeout_seconds = pos 5;
  offline_confirm_seconds = pos 60;
}

abbrev saved_host : HostProfile
saved_host = record far_host {
  id = "docker-host-1";
  name = "nas";
  kind = "https";
  tls_ca_cert = "enc:v1:ca";
  tls_cert = "enc:v1:cert";
  tls_key = "enc:v1:key";
}

abbrev no_salts : Salts
no_salts = record { ca_cert = none; cert = none; key = none }

load_hosts-save_hosts_example :
    normalize_hosts 0 (far_host ∷ []) ≡ good (load_hosts open_cipher (some "k") (saved_host ∷ []))
unfolding chowkidar.Crypto.is_encrypted chowkidar.Text.has_prefix save_hosts
    chowkidar.DockerHosts.normalize_docker_host_profile chowkidar.DockerHosts.check_host
    chowkidar.Text.trim_space chowkidar.Text.to_lower chowkidar.Crypto.maybe_encrypt
    chowkidar.Text.decimal
load_hosts-save_hosts_example =
    load_hosts-save_hosts open_cipher (some "k") (λ n. no_salts) 0 (far_host ∷ [])
      {file = saved_host ∷ []} open_cipher-IsCipher ((refl, refl, refl), tt) refl

abbrev stored_token : Assoc String
stored_token = ("token", "enc:v1:tk") ∷ ("topic", "chow") ∷ []

decrypt_details-encrypt_details_example :
    decrypt_details open_cipher (some "k") stored_token ≡ ("token", "tk") ∷ ("topic", "chow") ∷ []
unfolding chowkidar.Crypto.is_encrypted chowkidar.Text.has_prefix encrypt_details
    chowkidar.Crypto.maybe_encrypt chowkidar.Profiles.Details.is_sensitive
decrypt_details-encrypt_details_example =
    decrypt_details-encrypt_details open_cipher (some "k") open_cipher-IsCipher (λ k. none)
      (("token", "tk") ∷ ("topic", "chow") ∷ []) {stored = stored_token} (refl, (refl, tt)) refl
