-- ===== src/Windows/Normal.antt =====
-- normalizeMaintenanceWindow accepts valid windows only.
use chowkidar.Prelude.{
  ◌≡◌, refl, Bool, true, false, ◌&&◌, ◌||◌, not, String, List, [], Option, none, some, ℤ, pos,
  ltb_ℤ, is_some, arith, sym, ap, subst,
}
use chowkidar.Prelude.Checks.{Checked, good, ◌>>=◌, ◌>>◌, needed, good_bind, good_then, good_inj}
use chowkidar.Text.{trim_space, is_empty}
use chowkidar.Text.Laws.{trim_space_idem}
use chowkidar.Names.Laws.{IsClean, dedupe-IsClean}
use chowkidar.Model.{Window}
use chowkidar.Calendar.{Library}
use chowkidar.Schedule.{
  Strategy, by_hand, once, by_cron, by_interval, by_week, by_month, unknown, strategy_of,
  parse_time_of_day, nonempty,
}
use chowkidar.Windows.{
  WindowError, positive, ranged, is_supported_strategy, is_supported_on_start, tidied,
  check_targets, normalize_window, with_schedule, require_valid_timezone, require_time,
  dedupe_ints_in_range,
}
use chowkidar.Windows.Sorted.{dedupe_ints-IsAscending, dedupe_ints-nonempty}
use chowkidar.Windows.Valid.{IsZone, IsDays, IsScheduled, IsValidWindow}

module _ {B : Type 0} {b : B} (c : Checked WindowError B) where
  IsZone-then :
      (lib : Library) (zone : String)
      → (require_valid_timezone lib zone >> c) ≡ good b
      → IsZone lib zone × (c ≡ good b)
  unfolding require_valid_timezone
  IsZone-then lib zone h = ground arith

  time_then :
      (s : String)
      → (require_time s >> c) ≡ good b
      → (is_some (parse_time_of_day s) ≡ true) × (c ≡ good b)
  unfolding require_time
  time_then s h = good_then _ _ c h

needed_bind :
    {A B : Type 0} (o : Option A) (e : WindowError) (f : A → Checked WindowError B) {b : B}
    → (needed o e >>= f) ≡ good b
    → (a : A) × (f a ≡ good b)
needed_bind none e f h = absurd (cc)
needed_bind (some a) e f h = (a, h)

found-IsDays :
    (days : List ℤ) (min max : ℤ) (label : String) {out : List ℤ}
    → nonempty days ≡ true
    → dedupe_ints_in_range days min max label ≡ good out
    → IsDays min max out
found-IsDays days min max label n e =
    (dedupe_ints-nonempty days _ _ _ n e, dedupe_ints-IsAscending days _ _ _ e)

at_least_one : (n : ℤ) → not (ltb_ℤ n (pos 1)) ≡ true → positive n ≡ true
at_least_one n h = ground arith

-- What the switch leaves alone.
abbrev head : Window → String × String × String × String × List String × List String
head w = (w.title, w.description, w.strategy, w.on_start, w.job_ids, w.docker_host_ids)

module _ (lib : Library) (is_cron : String → Bool) (w : Window) where
  abbrev Outcome : Strategy → Window → Type 0
  Outcome s v =
      IsScheduled lib is_cron s v
      × (head v ≡ head w)
      × (trim_space w.timezone ≡ w.timezone → trim_space v.timezone ≡ v.timezone)

module _ (lib : Library) (is_cron : String → Bool) (w : Window) {v : Window} where
  scheduled_by_hand : with_schedule lib is_cron by_hand w ≡ good v → Outcome lib is_cron w by_hand v
  unfolding with_schedule
  scheduled_by_hand h =
      let (z, h) = IsZone-then _ lib w.timezone h in
      subst (Outcome lib is_cron w by_hand) (good_inj h) ((refl, z), refl, λ k. k)

  scheduled_once : with_schedule lib is_cron once w ≡ good v → Outcome lib is_cron w once v
  unfolding with_schedule trim_space
  scheduled_once h =
      let (s, h) = needed_bind w.single _ _ h in
      let (o, h) = good_then _ _ _ h in
      subst (Outcome lib is_cron w once) (good_inj h) ((s, refl, o), refl, λ k. refl)

  scheduled_by_cron : with_schedule lib is_cron by_cron w ≡ good v → Outcome lib is_cron w by_cron v
  unfolding with_schedule
  scheduled_by_cron h =
      let (c, h) = needed_bind w.cron _ _ h in
      let (e, h) = good_then _ _ _ h in
      let (d, h) = good_then _ _ _ h in
      let (z, h) = IsZone-then _ lib w.timezone h in
      let trimmed = record c { expression = trim_space c.expression } in
      subst (Outcome lib is_cron w by_cron) (good_inj h)
        ((trimmed, refl, trim_space_idem c.expression, e, d, z), refl, λ k. k)

  scheduled_by_interval :
      with_schedule lib is_cron by_interval w ≡ good v → Outcome lib is_cron w by_interval v
  unfolding with_schedule
  scheduled_by_interval h =
      let (r, h) = needed_bind w.recur_interval _ _ h in
      let (n, h) = good_then _ _ _ h in
      let (t, h) = time_then _ r.time_of_day h in
      let (d, h) = good_then _ _ _ h in
      let (z, h) = IsZone-then _ lib w.timezone h in
      subst (Outcome lib is_cron w by_interval) (good_inj h)
        ((r, refl, at_least_one r.every_days n, (t, d), z), refl, λ k. k)

  scheduled_by_week : with_schedule lib is_cron by_week w ≡ good v → Outcome lib is_cron w by_week v
  unfolding with_schedule
  scheduled_by_week h =
      let (r, h) = needed_bind w.recur_weekly _ _ h in
      let (n, h) = good_then _ _ _ h in
      let (days, e, h) =
        good_bind (dedupe_ints_in_range r.weekdays (pos 0) (pos 6) "weekday") _ h in
      let (t, h) = time_then _ r.time_of_day h in
      let (d, h) = good_then _ _ _ h in
      let (z, h) = IsZone-then _ lib w.timezone h in
      subst (Outcome lib is_cron w by_week) (good_inj h) (
        (record r { weekdays = days }, refl, found-IsDays r.weekdays _ _ _ n e, (t, d), z),
        refl,
        λ k. k,
      )

  scheduled_by_month :
      with_schedule lib is_cron by_month w ≡ good v → Outcome lib is_cron w by_month v
  unfolding with_schedule
  scheduled_by_month h =
      let (r, h) = needed_bind w.recur_monthly _ _ h in
      let (n, h) = good_then _ _ _ h in
      let (days, e, h) =
        good_bind (dedupe_ints_in_range r.days_of_month (pos 1) (pos 31) "day of month") _ h in
      let (t, h) = time_then _ r.time_of_day h in
      let (d, h) = good_then _ _ _ h in
      let (z, h) = IsZone-then _ lib w.timezone h in
      subst (Outcome lib is_cron w by_month) (good_inj h) (
        (
          record r { days_of_month = days },
          refl,
          found-IsDays r.days_of_month _ _ _ n e,
          (t, d),
          z,
        ),
        refl,
        λ k. k,
      )

  with_schedule-Outcome :
      (s : Strategy) → with_schedule lib is_cron s w ≡ good v → Outcome lib is_cron w s v
  unfolding with_schedule
  with_schedule-Outcome by_hand h = scheduled_by_hand h
  with_schedule-Outcome once h = scheduled_once h
  with_schedule-Outcome by_cron h = scheduled_by_cron h
  with_schedule-Outcome by_interval h = scheduled_by_interval h
  with_schedule-Outcome by_week h = scheduled_by_week h
  with_schedule-Outcome by_month h = scheduled_by_month h
  with_schedule-Outcome unknown h =
      subst (Outcome lib is_cron w unknown) (good_inj h) (refl, refl, λ k. k)

check_then :
    {B : Type 0} (w : Window) (c : Checked WindowError B) {b : B}
    → (check_targets w >> c) ≡ good b
    → (is_empty w.title ≡ false)
      × (is_supported_strategy w.strategy ≡ true)
      × (is_supported_on_start w.on_start ≡ true)
      × ((nonempty w.job_ids || nonempty w.docker_host_ids) ≡ true)
      × ((nonempty w.job_ids && nonempty w.docker_host_ids) ≡ false)
      × (c ≡ good b)
unfolding check_targets
check_then w c h = ground arith

-- What holds of the fields that the switch leaves alone.
abbrev IsHead : String × String × String × String × List String × List String → Type 0
IsHead (title, description, strategy, on_start, jobs, hosts) =
    ((trim_space title ≡ title) × (is_empty title ≡ false))
    × (trim_space description ≡ description)
    × (is_supported_strategy strategy ≡ true)
    × (is_supported_on_start on_start ≡ true)
    × IsClean [] jobs
    × IsClean [] hosts
    × ((nonempty jobs || nonempty hosts) ≡ true)
    × ((nonempty jobs && nonempty hosts) ≡ false)

assembled :
    (lib : Library) (is_cron : String → Bool) (t u : Window)
    → IsHead (head t)
    → head u ≡ head t
    → trim_space u.timezone ≡ u.timezone
    → IsScheduled lib is_cron (strategy_of t.strategy) u
    → ranged u.effective_from u.effective_to ≡ true
    → IsValidWindow lib is_cron u
assembled lib is_cron t u facts same zoned scheduled in_range =
    let (titled, described, known, on_start, jobs, hosts, some_target, one_kind) =
      subst IsHead (sym same) facts in
    record {
      titled = titled;
      described = described;
      zoned = zoned;
      known = known;
      on_start_known = on_start;
      jobs = jobs;
      hosts = hosts;
      some_target = some_target;
      one_kind = one_kind;
      scheduled =
          subst (λ s. IsScheduled lib is_cron (strategy_of s) u) (sym (ap (λ h. h.2) same))
            scheduled;
      in_range = in_range;
    }

-- A window that is accepted is valid, whatever was sent.
pub normalize-IsValidWindow :
    (lib : Library) (is_cron : String → Bool) (w : Window) {v : Window}
    → normalize_window lib is_cron w ≡ good v
    → IsValidWindow lib is_cron v
unfolding normalize_window tidied
normalize-IsValidWindow lib is_cron w h =
    let (titled, known, on_start, some_target, one_kind, h) = check_then (tidied w) _ h in
    let (u, e, h) =
      good_bind (with_schedule lib is_cron (strategy_of (tidied w).strategy) (tidied w)) _ h in
    let (in_range, h) = good_then _ _ _ h in
    let (scheduled, same, zone) = with_schedule-Outcome lib is_cron (tidied w) _ e in
    let facts : IsHead (head (tidied w)) = (
      (trim_space_idem w.title, titled),
      trim_space_idem w.description,
      known,
      on_start,
      dedupe-IsClean w.job_ids,
      dedupe-IsClean w.docker_host_ids,
      some_target,
      one_kind,
    ) in
    subst (IsValidWindow lib is_cron) (good_inj h) (
      assembled lib is_cron (tidied w) _ facts same (zone (trim_space_idem w.timezone)) scheduled
        in_range)
