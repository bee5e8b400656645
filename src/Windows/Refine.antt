-- ===== src/Windows/Refine.antt =====
-- The table of windows is what the requests promise.
use mathlib.Core.Path.{fun_ext}
use chowkidar.Prelude.{
  ◌≡◌, refl, Bool, true, false, String, List, [], ◌∷◌, none, some, ◌==◌, if◌then◌else◌, All, arith,
  Bool-cases, inl, inr, ap, sym, subst, is_some, any, ◌∙◌, text_iff,
}
use chowkidar.Prelude.Checks.{Checked, bad, good}
use chowkidar.Text.{trim_space, is_empty}
use chowkidar.Text.Laws.{trim_space_idem}
use chowkidar.Model.{Time, Window}
use chowkidar.Calendar.{Library}
use chowkidar.Schedule.{Strategy, by_hand, once, by_cron, by_interval, by_week, by_month, unknown}
use chowkidar.Table.{row, put_row, drop_row}
use chowkidar.Table.Laws.{row-put_row, row-drop_row, removed-drop_row}
use chowkidar.Windows.{
  WindowError, window_id, keep_created, normalize_window, stamp_window, upsert_window,
  delete_window,
}
use chowkidar.Windows.Valid.{IsScheduled, IsValidWindow}
use chowkidar.Windows.Normal.{normalize-IsValidWindow}
use chowkidar.Windows.Stable.{save_of_IsValid}
use chowkidar.Windows.Handlers.{
  Request, post, put_at, delete_at, Reply, path_id, no_id, handle_maintenance, persist_windows,
  upsert_request, delete_request,
}
use chowkidar.Windows.Spec.{
  Windows, view, store, forget, store_valid, promised, Event, serve, replay,
}

-- A window with another identifier and other times.
abbrev retouch : String → Time → Time → Window → Window
retouch id created updated w = record w { id = id; created_at = created; updated_at = updated }

module _ (lib : Library) (is_cron : String → Bool) where
  abbrev pub AllValid : List Window → Type 0
  AllValid = All (IsValidWindow lib is_cron)

  retouch-IsScheduled :
      (id : String) (c u : Time) (s : Strategy) (w : Window)
      → IsScheduled lib is_cron s w
      → IsScheduled lib is_cron s (retouch id c u w)
  retouch-IsScheduled id c u by_hand w (e, z) = (ap (retouch id c u) e, z)
  retouch-IsScheduled id c u once w (s, e, o) = (s, ap (retouch id c u) e, o)
  retouch-IsScheduled id c u by_cron w (k, e, t, v, d, z) = (k, ap (retouch id c u) e, t, v, d, z)
  retouch-IsScheduled id c u by_interval w (r, e, d, t, z) = (r, ap (retouch id c u) e, d, t, z)
  retouch-IsScheduled id c u by_week w (r, e, d, t, z) = (r, ap (retouch id c u) e, d, t, z)
  retouch-IsScheduled id c u by_month w (r, e, d, t, z) = (r, ap (retouch id c u) e, d, t, z)
  retouch-IsScheduled id c u unknown w e = ap (retouch id c u) e

  retouch-IsValid :
      (id : String) (c u : Time) (w : Window)
      → IsValidWindow lib is_cron w
      → IsValidWindow lib is_cron (retouch id c u w)
  retouch-IsValid id c u w h = record {
    titled = h.titled;
    described = h.described;
    zoned = h.zoned;
    known = h.known;
    on_start_known = h.on_start_known;
    jobs = h.jobs;
    hosts = h.hosts;
    some_target = h.some_target;
    one_kind = h.one_kind;
    scheduled = retouch-IsScheduled id c u _ w h.scheduled;
    in_range = h.in_range;
  }

  stamp-IsValid :
      (now : Time) (w : Window)
      → IsValidWindow lib is_cron w
      → IsValidWindow lib is_cron (stamp_window now w)
  unfolding stamp_window
  stamp-IsValid now w h = retouch-IsValid _ _ _ w h

  put_row-AllValid :
      (xs : List Window) (new : Window)
      → AllValid xs
      → IsValidWindow lib is_cron new
      → AllValid (put_row window_id keep_created xs new)
  unfolding put_row
  put_row-AllValid [] new h n = (n, tt)
  put_row-AllValid (x ∷ xs) new (h, hs) n = elim (Bool-cases (x.id == new.id)) [
    | inl e ↦ rw e (retouch-IsValid new.id x.created_at new.updated_at new n, hs)
    | inr e ↦ rw e (h, put_row-AllValid xs new hs n)
  ]

  drop_row-AllValid :
      (id : String) (xs : List Window) → AllValid xs → AllValid (drop_row window_id id xs).0
  unfolding drop_row
  drop_row-AllValid id [] h = tt
  drop_row-AllValid id (x ∷ xs) (h, hs) = elim (Bool-cases (x.id == id)) [
    | inl e ↦ rw e (drop_row-AllValid id xs hs)
    | inr e ↦ rw e (h, drop_row-AllValid id xs hs)
  ]

any-row :
    (id : String) (xs : List Window) → any (λ x. x.id == id) xs ≡ is_some (row window_id id xs)
unfolding row
any-row id [] = refl
any-row id (x ∷ xs) = ground (arith, any-row id xs)

view-put_row :
    (xs : List Window) (new : Window)
    → view (put_row window_id keep_created xs new) ≡ store new (view xs)
view-put_row xs new = fun_ext (λ id. row-put_row window_id keep_created (λ old n. refl) id xs new)

view-drop_row :
    (id : String) (xs : List Window) → view (drop_row window_id id xs).0 ≡ forget id (view xs)
view-drop_row id xs = fun_ext (λ k. row-drop_row window_id id k xs)

path_id_trimmed : (path : String) → trim_space (path_id path) ≡ path_id path
unfolding path_id
path_id_trimmed path = trim_space_idem _

has_id : (path : String) → no_id (path_id path) ≡ false → is_empty (path_id path) ≡ false
unfolding no_id
has_id path h = ground arith

module _ (lib : Library) (is_cron : String → Bool) where
  -- A valid table that holds what was promised.
  abbrev pub Holds : List Window → Windows → Type 0
  Holds windows table = AllValid lib is_cron windows × (view windows ≡ table)

  persist-Holds :
      (now : Time) (written : Bool) (old new : List Window) (reply : Reply) (t u : Windows)
      → Holds old t
      → Holds new u
      → Holds (persist_windows lib is_cron now written old new reply).0 (if written then u else t)
  unfolding persist_windows
  persist-Holds now true old new reply t u (v, e) (v', e') =
      rw (save_of_IsValid lib is_cron new v', persist_windows) (v', e')
  persist-Holds now false old new reply t u (v, e) (v', e') =
      rw (save_of_IsValid lib is_cron new v', persist_windows) (v, e)

  same :
      (written : Bool) (ws : List Window) (t : Windows)
      → Holds ws t
      → Holds ws (if written then t else t)
  same true ws t h = h
  same false ws t h = h

  upsert-Holds :
      (now : Time) (written : Bool) (answer : Window → Reply) (ws : List Window) (w : Window)
      (t : Windows)
      → Holds ws t
      → Holds
          (upsert_request lib is_cron now written answer ws w).0
          (if written then store_valid lib is_cron now w t else t)
  unfolding upsert_request upsert_window store_valid
  upsert-Holds now written answer ws w t (v, e) = by_outcome (normalize_window lib is_cron w) refl
    where
      by_outcome :
          (c : Checked WindowError Window)
          → normalize_window lib is_cron w ≡ c
          → Holds
              (upsert_request lib is_cron now written answer ws w).0
              (if written then store_valid lib is_cron now w t else t)
      by_outcome (bad problem) h =
          rw (h, upsert_request, upsert_window, store_valid) (same written _ _ (v, e))
      by_outcome (good n) h =
          let stamped = stamp-IsValid lib is_cron now n (normalize-IsValidWindow lib is_cron w h) in
          rw (h, upsert_request, upsert_window, store_valid)
            (persist-Holds now written ws _ _ t (store (stamp_window now n) t) (v, e)
              (
                put_row-AllValid lib is_cron ws _ v stamped,
                view-put_row ws (stamp_window now n) ∙ ap (store (stamp_window now n)) e,
              ))

  forget_missing : (id : String) (t : Windows) → is_some (t id) ≡ false → t ≡ forget id t
  forget_missing id t h = fun_ext (λ k. ground (arith, text_iff id k))

  delete-Holds :
      (now : Time) (written : Bool) (ws : List Window) (id : String) (t : Windows)
      → trim_space id ≡ id
      → is_empty id ≡ false
      → Holds ws t
      → Holds (delete_request lib is_cron now written ws id).0 (if written then forget id t else t)
  unfolding delete_request delete_window
  delete-Holds now written ws id t trimmed some_id (v, e) =
      rw (trimmed, some_id)
        (elim (Bool-cases (drop_row window_id id ws).1) [
          | inl found ↦ rw found (
              persist-Holds now written ws _ _ t (forget id t) (v, e)
                (drop_row-AllValid lib is_cron id ws v, view-drop_row id ws ∙ ap (forget id) e))
          | inr gone ↦
              let missing =
                forget_missing id t (
                  rw (← e) (sym (any-row id ws) ∙ sym (removed-drop_row window_id id ws) ∙ gone)) in
              rw gone
                (subst (λ u. Holds ws (if written then u else t)) missing (same written _ _ (v, e)))
        ])

  handle-Holds :
      (request : Request) (now : Time) (written : Bool) (ws : List Window) (t : Windows)
      → Holds ws t
      → Holds
          (handle_maintenance lib is_cron now written request ws).0
          (if written then promised lib is_cron now request t else t)
  unfolding handle_maintenance promised
  handle-Holds (post none) now written ws t h = same written ws t h
  handle-Holds (post (some w)) now written ws t h = upsert-Holds now written _ ws w t h
  handle-Holds (put_at path none) now written ws t h = elim (Bool-cases (no_id (path_id path))) [
    | inl e ↦ rw e (same written ws t h)
    | inr e ↦ rw e (same written ws t h)
  ]
  handle-Holds (put_at path (some w)) now written ws t h =
      elim (Bool-cases (no_id (path_id path))) [
        | inl e ↦ rw e (same written ws t h)
        | inr e ↦ rw e (upsert-Holds now written _ ws _ t h)
      ]
  handle-Holds (delete_at path) now written ws t h = elim (Bool-cases (no_id (path_id path))) [
    | inl e ↦ rw e (same written ws t h)
    | inr e ↦
        rw e (delete-Holds now written ws (path_id path) t (path_id_trimmed path) (has_id path e) h)
  ]

  -- After any sequence of requests on a valid table, with the file written or not, the table is valid and
  -- each identifier has the window that the replay of the requests on a partial function gives it.
  pub serve-replay :
      (events : List Event) (ws : List Window)
      → AllValid lib is_cron ws
      → AllValid lib is_cron (serve lib is_cron events ws)
        × (view (serve lib is_cron events ws) ≡ replay lib is_cron events (view ws))
  unfolding serve replay
  serve-replay events ws v = go events ws (view ws) (v, refl)
    where
      go :
          (events : List Event) (ws : List Window) (t : Windows)
          → Holds ws t
          → Holds (serve lib is_cron events ws) (replay lib is_cron events t)
      go [] ws t h = h
      go ((request, now, written) ∷ rest) ws t h =
          go rest _ _ (handle-Holds request now written ws t h)
