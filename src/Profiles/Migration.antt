-- ===== src/Profiles/Migration.antt =====
-- internal/config/notifications.go: the migration of profile identifiers, in the profiles and in the jobs.
use chowkidar.Prelude.{
  ℕ, ◌≡◌, refl, Bool, true, false, ◌||◌, String, List, [], ◌∷◌, Option, none, some, Assoc, lookup,
  insert, lookup-insert, elem, leb, ◌==◌, if◌then◌else◌, arith, Bool-cases, inl, inr, text_iff, ap,
  ◌∙◌, sym, subst,
}
use chowkidar.Text.{has_prefix, trim_prefix, join}
use chowkidar.Model.{Job}
use chowkidar.Profiles.{Profile}

-- The new identifier of a profile, if its form is an old one.
unfoldable pub new_profile_id : String → Option String
new_profile_id id =
    if has_prefix id "profile-"
    then some (join "notification-agent-" (trim_prefix id "profile-"))
    else if has_prefix id "p-ui-"
    then some (join "notification-agent-" (trim_prefix id "p-ui-"))
    else none

abbrev pub or_same : String → Option String → String
or_same id none = id
or_same id (some new) = new

-- The loop of migrateNotificationProfiles, v0 to v1: the profiles, and idMapping.
unfoldable pub rename_profiles : List Profile → List Profile
unfolding new_profile_id
rename_profiles [] = []
rename_profiles (p ∷ ps) = record p { id = or_same p.id (new_profile_id p.id) } ∷ rename_profiles ps

unfoldable pub id_mapping : Assoc String → List Profile → Assoc String
id_mapping out [] = out
id_mapping out (p ∷ ps) =
    id_mapping (elim (new_profile_id p.id) [ none ↦ out | some new ↦ insert p.id new out ]) ps

unfoldable pub migrate_notification_profiles : ℕ → List Profile → List Profile × Assoc String
unfolding rename_profiles id_mapping
migrate_notification_profiles version ps =
    if leb 1 version then (ps, []) else (rename_profiles ps, id_mapping [] ps)

-- applyNotificationIDMappingToJobs.
unfoldable pub map_reference : Assoc String → String → String
map_reference mapping id = or_same id (lookup id mapping)

unfoldable pub map_references : Assoc String → List String → List String
unfolding map_reference
map_references mapping [] = []
map_references mapping (id ∷ ids) = map_reference mapping id ∷ map_references mapping ids

unfoldable pub apply_notification_id_mapping : Assoc String → List Job → List Job
unfolding map_references
apply_notification_id_mapping mapping [] = []
apply_notification_id_mapping mapping (j ∷ js) =
    record j { notifications = map_references mapping j.notifications }
    ∷ apply_notification_id_mapping mapping js

abbrev pub profile_ids : List Profile → List String
profile_ids [] = []
profile_ids (p ∷ ps) = p.id ∷ profile_ids ps

abbrev either_of : Option String → Option String → Option String
either_of none other = other
either_of (some new) other = some new

-- The mapping has the new identifier of each profile with an old one.
mapped_step :
    (k : String) (out : Assoc String) (p : Profile) (new : Option String)
    → new_profile_id p.id ≡ new
    → lookup k (elim new as (λ o. Assoc String) [ none ↦ out | some n ↦ insert p.id n out ])
      ≡ (if p.id == k then either_of (new_profile_id k) (lookup k out) else lookup k out)
mapped_step k out p none h = elim (Bool-cases (p.id == k)) [
  | inl e ↦ rw (e, sym (ap new_profile_id ((text_iff p.id k).0 e)) ∙ h) refl
  | inr e ↦ rw e refl
]
mapped_step k out p (some n) h = elim (Bool-cases (p.id == k)) [
  | inl e ↦
      lookup-insert p.id k n out ∙ rw (e, sym (ap new_profile_id ((text_iff p.id k).0 e)) ∙ h) refl
  | inr e ↦ lookup-insert p.id k n out ∙ rw e refl
]

lookup-id_mapping :
    (k : String) (out : Assoc String) (ps : List Profile)
    → lookup k (id_mapping out ps) ≡ (
        if elem k (profile_ids ps)
        then either_of (new_profile_id k) (lookup k out)
        else lookup k out)
unfolding id_mapping
lookup-id_mapping k out [] = refl
lookup-id_mapping k out (p ∷ ps) =
    lookup-id_mapping k
      (elim (new_profile_id p.id) as (λ o. Assoc String) [
        | none ↦ out
        | some n ↦ insert p.id n out
      ])
      ps
    ∙ ap (λ o. if elem k (profile_ids ps) then either_of (new_profile_id k) o else o)
        (mapped_step k out p (new_profile_id p.id) refl)
    ∙ settle (elem k (profile_ids ps)) (p.id == k) (new_profile_id k) (lookup k out)
  where
    settle :
        (b c : Bool) (new o : Option String)
        → (if b
            then either_of new (if c then either_of new o else o)
            else if c
            then either_of new o
            else o)
          ≡ (if c || b then either_of new o else o)
    settle true true none o = refl
    settle true true (some n) o = refl
    settle true false new o = refl
    settle false true new o = refl
    settle false false new o = refl

renamed-elem :
    (k : String) (ps : List Profile)
    → elem k (profile_ids ps) ≡ true
    → elem (or_same k (new_profile_id k)) (profile_ids (rename_profiles ps)) ≡ true
unfolding rename_profiles
renamed-elem k [] h = h
renamed-elem k (p ∷ ps) h = elim (Bool-cases (p.id == k)) [
  | inl e ↦
      let same = ap (λ x. or_same x (new_profile_id x)) ((text_iff p.id k).0 e) in
      ground (
        arith,
        (text_iff (or_same p.id (new_profile_id p.id)) (or_same k (new_profile_id k))).1 same,
      )
  | inr e ↦ ground (arith, renamed-elem k ps (ground arith))
]

-- An identifier that some profile has is mapped, in the jobs, to an identifier that some profile has after
-- the migration.
pub map_reference-elem :
    (version : ℕ) (k : String) (ps : List Profile)
    → elem k (profile_ids ps) ≡ true
    → elem
        (map_reference (migrate_notification_profiles version ps).1 k)
        (profile_ids (migrate_notification_profiles version ps).0)
      ≡ true
unfolding migrate_notification_profiles map_reference lookup
map_reference-elem version k ps h = elim (Bool-cases (leb 1 version)) [
  | inl e ↦ rw e h
  | inr e ↦
      let found : new_profile_id k ≡ lookup k (id_mapping [] ps) =
        sym (lookup-id_mapping k [] ps ∙ rw h (no_other (new_profile_id k))) in
      rw e (
        subst (λ n. elem (or_same k n) (profile_ids (rename_profiles ps)) ≡ true) found
          (renamed-elem k ps h))
]
  where
    no_other : (new : Option String) → either_of new none ≡ new
    no_other none = refl
    no_other (some n) = refl
