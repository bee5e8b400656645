-- ===== src/Profiles.antt =====
-- internal/config/notifications.go, notification_defaults.go and notification_templates_store.go: the
-- notification profiles, their templates, and how they are saved and loaded.
pub mod Details
pub mod Urls
pub mod Lost
pub mod Saved
pub mod Sealed
pub mod Migration
use chowkidar.Prelude.{
  Bool, true, false, ◌||◌, ◌&&◌, not, String, List, [], ◌∷◌, Option, none, some, Assoc, lookup,
  insert, ℤ, ◌==◌, if◌then◌else◌, get_or,
}
use chowkidar.Text.{trim_space, is_empty}
use chowkidar.Model.{Time}

-- The seven texts of NotificationTitleTemplates, and of the bodies of NotificationTemplates.
pub record Texts : Type 0 where
  pub boot_up : String
  pub unhealthy_detected : String
  pub retrying : String
  pub cooldown : String
  pub container_recovered : String
  pub action_failed : String
  pub retry_limit : String

abbrev pub no_texts : Texts
no_texts = record {
  boot_up = "";
  unhealthy_detected = "";
  retrying = "";
  cooldown = "";
  container_recovered = "";
  action_failed = "";
  retry_limit = "";
}

pub record Templates : Type 0 where
  pub titles : Texts
  pub bodies : Texts

unfoldable pub has_content : Templates → Bool
has_content t =
    not (is_empty t.bodies.boot_up)
    || not (is_empty t.bodies.unhealthy_detected)
    || not (is_empty t.bodies.retrying)
    || not (is_empty t.bodies.cooldown)
    || not (is_empty t.bodies.container_recovered)
    || not (is_empty t.bodies.action_failed)
    || not (is_empty t.bodies.retry_limit)

-- The `switch event` of pickBody and pickTitle.
unfoldable pub pick : String → Texts → String
pick event t =
    if event == "startup"
    then t.boot_up
    else if event == "unhealthy detected"
    then t.unhealthy_detected
    else if event == "retrying"
    then t.retrying
    else if event == "cooldown"
    then t.cooldown
    else if event == "container recovered"
    then t.container_recovered
    else if event == "action failed"
    then t.action_failed
    else if event == "retry limit reached"
    then t.retry_limit
    else ""

unfoldable pub pick_body : Templates → String → String
unfolding pick
pick_body t event = pick event t.bodies

unfoldable pub pick_title : Templates → String → String
unfolding pick
pick_title t event = pick event t.titles

pub record Profile : Type 0 where
  pub id : String
  pub name : String
  pub provider : String
  pub details : Assoc String
  pub service : String
  pub enabled : Bool
  pub is_default : Bool
  pub templates : Templates
  pub burst_limit : ℤ
  pub burst_window_minutes : ℤ
  pub daily_limit : ℤ
  pub on_limit_action : String
  pub auto_suspend_on_error : Bool
  pub suspended_until : Option Time
  pub last_rate_limit_error : String
  pub last_rate_limit_at : Option Time

-- DefaultTemplateFor and DefaultTitleTemplateFor; `choose` is pickBody or pickTitle, and `none` stands for
-- defaults that were not loaded.
unfoldable pub default_for : (Templates → String) → Option (Assoc Templates) → String → String
default_for choose none provider = ""
default_for choose (some defaults) provider =
    let generic = elim (lookup "default" defaults) as (λ o. String) [
      | none ↦ ""
      | some t ↦ choose t
    ] in
    elim (lookup provider defaults) [
      | none ↦ generic
      | some t ↦ if is_empty (choose t) then generic else choose t
    ]

unfoldable pub default_template_for : Option (Assoc Templates) → String → String → String
unfolding default_for
default_template_for defaults provider event =
    default_for (λ t. pick_body t event) defaults provider

unfoldable pub default_title_template_for : Option (Assoc Templates) → String → String → String
unfolding default_for
default_title_template_for defaults provider event =
    default_for (λ t. pick_title t event) defaults provider

unfoldable pub applied_template : Option (Assoc Templates) → Profile → String → String
unfolding default_template_for
applied_template defaults p event =
    if is_empty (trim_space (pick_body p.templates event))
    then default_template_for defaults p.provider event
    else pick_body p.templates event

unfoldable pub applied_title_template : Option (Assoc Templates) → Profile → String → String
unfolding default_title_template_for
applied_title_template defaults p event =
    if is_empty (trim_space (pick_title p.templates event))
    then default_title_template_for defaults p.provider event
    else pick_title p.templates event
