-- ===== src/Pause/Cleanup.antt =====
-- Windows that are removed on their own are over.
use chowkidar.Prelude.{
  ◌≡◌, ◌≤◌, true, false, arith, Bool-cases, Option-cases, inl, inr, ◌==◌, ap, text_iff,
}
use chowkidar.Model.{Window, Time, manual, single_strategy}
use chowkidar.Calendar.{Library}
use chowkidar.Schedule.{strategy_of, once, by_hand}
use chowkidar.Occurrence.{is_active}
use chowkidar.Occurrence.Active.{single_ended, manual_ended}
use chowkidar.Pause.{should_auto_remove_maintenance_window}

-- A window that is removed automatically is not active at that instant, nor at any later one.
pub auto_removed_inactive :
    (lib : Library) (w : Window) (now t : Time)
    → should_auto_remove_maintenance_window w now ≡ true
    → now ≤ t
    → is_active lib w t ≡ false
unfolding should_auto_remove_maintenance_window
auto_removed_inactive lib w now t h later = elim (Bool-cases (w.strategy == single_strategy)) [
  | inl e ↦ elim (Option-cases w.single) [
    | inl q ↦ absurd (ground arith)
    | inr (s, q) ↦ single_ended lib w t {s = s} (single_once e) q (ground arith)
  ]
  | inr n ↦ elim (Bool-cases (w.strategy == manual)) [
    | inr e ↦ absurd (ground arith)
    | inl e ↦ elim (Option-cases w.effective_to) [
      | inl q ↦ absurd (ground arith)
      | inr (end, q) ↦ manual_ended lib w t {end = end} (manual_by_hand e) q (ground arith)
    ]
  ]
]
  where
    single_once : (w.strategy == single_strategy) ≡ true → strategy_of w.strategy ≡ once
    single_once e = unfold strategy_of in ap strategy_of ((text_iff w.strategy single_strategy).0 e)

    manual_by_hand : (w.strategy == manual) ≡ true → strategy_of w.strategy ≡ by_hand
    manual_by_hand e = unfold strategy_of in ap strategy_of ((text_iff w.strategy manual).0 e)
