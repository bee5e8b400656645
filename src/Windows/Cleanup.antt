-- ===== src/Windows/Cleanup.antt =====
-- The hourly removal of finished windows takes nothing that pauses anything.
use chowkidar.Prelude.{
  ◌≡◌, ◌≤◌, refl, Bool, true, false, not, List, [], ◌∷◌, String, All, arith, Bool-cases, inl, inr,
  select,
}
use chowkidar.Model.{Time, Window}
use chowkidar.Calendar.{Library}
use chowkidar.Occurrence.{is_active, active_maintenance_windows}
use chowkidar.Pause.{should_auto_remove_maintenance_window}
use chowkidar.Pause.Cleanup.{auto_removed_inactive}
use chowkidar.Windows.Valid.{IsValidWindow}
use chowkidar.Windows.Stable.{save_of_IsValid}
use chowkidar.Windows.Handlers.{persist_windows, prune_finished}

select-select :
    (p q : Window → Bool)
    → ((w : Window) → p w ≡ false → q w ≡ false)
    → (ws : List Window) → select q (select p ws) ≡ select q ws
select-select p q h [] = refl
select-select p q h (w ∷ ws) = elim (Bool-cases (p w)) [
  | inl e ↦ rw e (ground (arith, select-select p q h ws))
  | inr e ↦ rw e (ground (arith, h w e, select-select p q h ws))
]

select-All :
    (P : Window → Type 0) (p : Window → Bool) (ws : List Window) → All P ws → All P (select p ws)
select-All P p [] h = tt
select-All P p (w ∷ ws) (h, hs) = elim (Bool-cases (p w)) [
  | inl e ↦ rw e (h, select-All P p ws hs)
  | inr e ↦ rw e (select-All P p ws hs)
]

-- From `now` on, a round of the cleanup, with its file written or not, leaves the windows that are active
-- at an instant as they were, if all windows are valid.
pub prune_finished-active :
    (lib : Library) (is_cron : String → Bool) (now : Time) (written : Bool) (ws : List Window)
    (t : Time)
    → All (IsValidWindow lib is_cron) ws
    → now ≤ t
    → active_maintenance_windows lib (prune_finished lib is_cron now written ws) t
      ≡ active_maintenance_windows lib ws t
unfolding active_maintenance_windows prune_finished persist_windows
prune_finished-active lib is_cron now written ws t v later =
    let kept = λ (w : Window). not (should_auto_remove_maintenance_window w now) in
    let gone =
      λ (w : Window) (e : kept w ≡ false). auto_removed_inactive lib w now t (not_false e) later in
    let same = select-select kept (λ w. is_active lib w t) gone ws in
    let saved = save_of_IsValid lib is_cron (select kept ws) (select-All _ kept ws v) in
    ground (arith, same, saved)
  where
    not_false : {b : Bool} → not b ≡ false → b ≡ true
    not_false {b} h = ground arith
