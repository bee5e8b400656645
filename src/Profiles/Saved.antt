-- ===== src/Profiles/Saved.antt =====
-- internal/config/notifications.go and notification_templates_store.go: the last steps of
-- SaveNotificationProfiles, which keep one default profile and write the templates to a file of their own,
-- and the merge of that file into the profiles when they are loaded.
use chowkidar.Prelude.{
  ◌≡◌, refl, Bool, true, false, ◌||◌, ◌&&◌, not, String, List, [], ◌∷◌, Option, none, some, Assoc,
  lookup, insert, delete, lookup-insert, lookup-delete, if◌then◌else◌, arith, Bool-cases, inl, inr,
  text_iff, ap, ◌∙◌, take,
}
use chowkidar.Text.{is_empty}
use chowkidar.Profiles.{Profile, Templates, no_texts, has_content}
use chowkidar.Notify.{by_id}

-- The loop over `defaultSeen`.
unfoldable pub keep_one_default : Bool → List Profile → List Profile
keep_one_default seen [] = []
keep_one_default seen (p ∷ ps) =
    record p { is_default = p.is_default && not seen } ∷ keep_one_default (seen || p.is_default) ps

-- agentTemplates: the templates by identifier.
unfoldable pub agent_templates : Assoc Templates → List Profile → Assoc Templates
agent_templates out [] = out
agent_templates out (p ∷ ps) =
    agent_templates (if is_empty p.id then out else insert p.id p.templates out) ps

-- The entries that saveAgentTemplates writes. An entry hides those with its key behind it.
unfoldable pub written_templates : Assoc Templates → Assoc Templates
written_templates [] = []
written_templates ((id, t) ∷ rest) =
    let others = written_templates rest in
    if has_content t then (id, t) ∷ others else delete id others

abbrev pub no_templates : Templates
no_templates = record { titles = no_texts; bodies = no_texts }

-- The profile as notifications.yaml has it.
abbrev pub stripped : Profile → Profile
stripped p = record p { templates = no_templates }

-- LoadNotificationProfiles, for the templates of one profile.
unfoldable pub merge_templates : Assoc Templates → Profile → Profile
merge_templates file p = elim (lookup p.id file) [ none ↦ p | some t ↦ record p { templates = t } ]

abbrev pub default_ids : List Profile → List String
default_ids [] = []
default_ids (p ∷ ps) = let rest = default_ids ps in if p.is_default then p.id ∷ rest else rest

none_kept : (ps : List Profile) → default_ids (keep_one_default true ps) ≡ []
unfolding keep_one_default
none_kept [] = refl
none_kept (p ∷ ps) = ground (arith, none_kept ps)

-- Of the default profiles, the first one is the default that is saved, and the only one.
pub default_ids-keep_one_default :
    (ps : List Profile) → default_ids (keep_one_default false ps) ≡ take 1 (default_ids ps)
unfolding keep_one_default
default_ids-keep_one_default [] = refl
default_ids-keep_one_default (p ∷ ps) = elim (Bool-cases p.is_default) [
  | inl e ↦ ground (arith, none_kept ps)
  | inr e ↦ ground (arith, default_ids-keep_one_default ps)
]

abbrev found : Option Profile → Option Templates → Option Templates
found none other = other
found (some p) other = some p.templates

lookup-agent_templates :
    (k : String) (out : Assoc Templates) (ps : List Profile)
    → is_empty k ≡ false
    → lookup k (agent_templates out ps) ≡ found (by_id k ps) (lookup k out)
unfolding agent_templates by_id
lookup-agent_templates k out [] h = refl
lookup-agent_templates k out (p ∷ ps) h = elim (Bool-cases (is_empty p.id)) [
  | inl e ↦ rw e (ground (arith, lookup-agent_templates k out ps h, text_iff p.id k, ap is_empty))
  | inr e ↦ rw e (
      ground (
        arith,
        lookup-agent_templates k (insert p.id p.templates out) ps h,
        lookup-insert p.id k p.templates out,
      ))
]

abbrev with_content : Option Templates → Option Templates
with_content none = none
with_content (some t) = if has_content t then some t else none

lookup-written_templates :
    (k : String) (m : Assoc Templates) → lookup k (written_templates m) ≡ with_content (lookup k m)
unfolding written_templates lookup
lookup-written_templates k [] = refl
lookup-written_templates k ((id, t) ∷ m) =
    ground
      (arith, text_iff id k, lookup-delete id k (written_templates m), lookup-written_templates k m)

-- A profile that is saved and loaded has its templates again if one of the bodies is not empty; otherwise
-- it has none, whatever its titles were.
pub merge_templates-saved :
    (ps : List Profile) (p : Profile)
    → is_empty p.id ≡ false
    → by_id p.id ps ≡ some p
    → merge_templates (written_templates (agent_templates [] ps)) (stripped p)
      ≡ record p { templates = if has_content p.templates then p.templates else no_templates }
unfolding merge_templates
merge_templates-saved ps p h e =
    let at =
      lookup-written_templates p.id (agent_templates [] ps)
      ∙ ap with_content
          (lookup-agent_templates p.id [] ps h ∙ ap (λ o. found o (lookup p.id [])) e) in
    rw (at, merge_templates) (merged p (has_content p.templates))
  where
    merged :
        (p : Profile) (b : Bool)
        → (elim (if b then some p.templates else none) as (λ o. Profile) [
          | none ↦ stripped p
          | some t ↦ record (stripped p) { templates = t }
        ])
          ≡ record p { templates = if b then p.templates else no_templates }
    merged p true = refl
    merged p false = refl
