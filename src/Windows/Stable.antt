-- ===== src/Windows/Stable.antt =====
-- normalizeMaintenanceWindow leaves valid windows alone, so that validating twice is validating once.
use chowkidar.Prelude.{
  ◌≡◌, refl, Bool, true, ◌||◌, String, List, [], ◌∷◌, pos, All, arith, Bool-cases, inl, inr, sym,
  ap, subst, ◌↔◌, ◌==◌, text_iff,
}
use chowkidar.Prelude.Checks.{good}
use chowkidar.Text.{trim_space, to_lower}
use chowkidar.Names.Laws.{dedupe_of_IsClean}
use chowkidar.Model.{
  Window, manual, single_strategy, cron_strategy, interval_strategy, weekly_strategy,
  monthly_strategy, allow_finish, force_cancel,
}
use chowkidar.Calendar.{Library}
use chowkidar.Schedule.{Strategy, by_hand, once, by_cron, by_interval, by_week, by_month, unknown}
use chowkidar.Windows.{
  is_supported_strategy, is_supported_on_start, tidied, check_targets, default_on_start,
  normalize_window, with_schedule, require_valid_timezone, require_time, save_windows,
}
use chowkidar.Windows.Sorted.{dedupe_ints_of_IsAscending}
use chowkidar.Windows.Valid.{IsZone, IsScheduled, IsValidWindow}
use chowkidar.Windows.Normal.{normalize-IsValidWindow}

-- To go through a list of names that a text may be, from the last one.
by_name :
    (P : String → Type 0) (s t : String) (b : Bool)
    → P t
    → (b ≡ true → P s)
    → (b || s == t) ≡ true
    → P s
by_name P s t b here earlier h = elim (Bool-cases (s == t)) [
  | inl e ↦ subst P (sym ((text_iff s t).0 e)) here
  | inr e ↦ earlier (ground arith)
]

lower_strategy : (s : String) → is_supported_strategy s ≡ true → to_lower (trim_space s) ≡ s
unfolding is_supported_strategy to_lower trim_space
lower_strategy s =
    let P = λ (t : String). to_lower (trim_space t) ≡ t in
    by_name P s monthly_strategy _ refl (
      by_name P s weekly_strategy _ refl (
        by_name P s interval_strategy _ refl (
          by_name P s cron_strategy _ refl (
            by_name P s single_strategy _ refl
              (λ h. subst P (sym ((text_iff s manual).0 h)) refl)))))

lower_on_start :
    (s : String) → is_supported_on_start s ≡ true → default_on_start (to_lower (trim_space s)) ≡ s
unfolding is_supported_on_start default_on_start to_lower trim_space
lower_on_start s =
    let P = λ (t : String). default_on_start (to_lower (trim_space t)) ≡ t in
    by_name P s force_cancel _ refl (λ h. subst P (sym ((text_iff s allow_finish).0 h)) refl)

module _ (lib : Library) (is_cron : String → Bool) where
  tidied_of_IsValid : (v : Window) → IsValidWindow lib is_cron v → tidied v ≡ v
  unfolding tidied
  tidied_of_IsValid v h = ground (
    arith,
    h.titled,
    h.described,
    h.zoned,
    lower_strategy v.strategy h.known,
    lower_on_start v.on_start h.on_start_known,
    dedupe_of_IsClean v.job_ids h.jobs,
    dedupe_of_IsClean v.docker_host_ids h.hosts,
  )

  checked_of_IsValid : (v : Window) → IsValidWindow lib is_cron v → check_targets v ≡ good tt
  unfolding check_targets
  checked_of_IsValid v h =
      ground (arith, h.titled, h.known, h.on_start_known, h.some_target, h.one_kind)

  zone_of : (zone : String) → IsZone lib zone → require_valid_timezone lib zone ≡ good tt
  unfolding require_valid_timezone
  zone_of zone h = ground arith

  scheduled_of_IsScheduled :
      (s : Strategy) (v : Window)
      → IsScheduled lib is_cron s v
      → with_schedule lib is_cron s v ≡ good v
  unfolding with_schedule require_time
  scheduled_of_IsScheduled by_hand v (e, z) = rw (zone_of v.timezone z) (ap good (sym e))
  scheduled_of_IsScheduled once v (s, e, o) =
      subst (λ x. with_schedule lib is_cron once x ≡ good x) (sym e) (rw o refl)
  scheduled_of_IsScheduled by_cron v (c, e, t, k, d, z) =
      subst (λ x. with_schedule lib is_cron by_cron x ≡ good x) (sym e)
        (ground (arith, zone_of v.timezone z))
  scheduled_of_IsScheduled by_interval v (r, e, n, (t, d), z) =
      subst (λ x. with_schedule lib is_cron by_interval x ≡ good x) (sym e)
        (ground (arith, zone_of v.timezone z))
  scheduled_of_IsScheduled by_week v (r, e, (n, (a, b)), (t, d), z) =
      subst (λ x. with_schedule lib is_cron by_week x ≡ good x) (sym e)
        (ground (
          arith,
          zone_of v.timezone z,
          dedupe_ints_of_IsAscending r.weekdays (pos 0) (pos 6) "weekday" a b,
        ))
  scheduled_of_IsScheduled by_month v (r, e, (n, (a, b)), (t, d), z) =
      subst (λ x. with_schedule lib is_cron by_month x ≡ good x) (sym e)
        (ground (
          arith,
          zone_of v.timezone z,
          dedupe_ints_of_IsAscending r.days_of_month (pos 1) (pos 31) "day of month" a b,
        ))
  scheduled_of_IsScheduled unknown v e = ap good (sym e)

  pub normalize_of_IsValid :
      (v : Window) → IsValidWindow lib is_cron v → normalize_window lib is_cron v ≡ good v
  unfolding normalize_window
  normalize_of_IsValid v h = rw (tidied_of_IsValid v h) (
      rw (checked_of_IsValid v h)
        (rw (scheduled_of_IsScheduled _ v h.scheduled) (rw h.in_range refl)))

  -- A window that was accepted is accepted again, unchanged.
  pub normalize_window_idem :
      (w : Window) {v : Window}
      → normalize_window lib is_cron w ≡ good v
      → normalize_window lib is_cron v ≡ good v
  normalize_window_idem w h = normalize_of_IsValid _ (normalize-IsValidWindow lib is_cron w h)

  -- A table of valid windows is saved as it is.
  pub save_of_IsValid :
      (ws : List Window)
      → All (IsValidWindow lib is_cron) ws
      → save_windows lib is_cron ws ≡ good ws
  unfolding save_windows
  save_of_IsValid [] h = refl
  save_of_IsValid (w ∷ ws) (h, hs) = rw (normalize_of_IsValid w h) (rw (save_of_IsValid ws hs) refl)

  -- The valid windows are exactly those that normalizeMaintenanceWindow accepts and leaves as they are.
  pub IsValidWindow-normalize :
      (v : Window) → IsValidWindow lib is_cron v ↔ (normalize_window lib is_cron v ≡ good v)
  IsValidWindow-normalize v = (normalize_of_IsValid v, normalize-IsValidWindow lib is_cron v)
