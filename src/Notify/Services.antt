-- ===== src/Notify/Services.antt =====
-- cmd/server/notify.go, buildNotifierServicesFromProfiles: the services of the notifier that no job chooses.
use chowkidar.Prelude.{◌&&◌, not, String, List, [], ◌∷◌, Option, none, some, if◌then◌else◌}
use chowkidar.Text.{trim_space, is_empty, join}
use chowkidar.Profiles.{Profile}

-- buildNotifierServicesFromProfiles: the default profile, or every profile that is enabled.
unfoldable pub default_service : List Profile → Option String
default_service [] = none
default_service (p ∷ ps) =
    let rest = default_service ps in
    if p.is_default && not (is_empty (trim_space p.service))
    then some (trim_space p.service)
    else rest

abbrev pub join_comma : List String → String
join_comma [] = ""
join_comma (s ∷ []) = s
join_comma (s ∷ t ∷ rest) = join s (join "," (join_comma (t ∷ rest)))

unfoldable pub enabled_services : List Profile → List String
enabled_services [] = []
enabled_services (p ∷ ps) =
    let rest = enabled_services ps in
    if p.enabled && not (is_empty (trim_space p.service)) then trim_space p.service ∷ rest else rest

unfoldable pub build_notifier_services : List Profile → String
unfolding default_service enabled_services
build_notifier_services profiles = elim (default_service profiles) [
  | some service ↦ service
  | none ↦ join_comma (enabled_services profiles)
]
