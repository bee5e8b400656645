-- ===== src/Transitions/Edges.antt =====
-- Each change of the set of active windows is recorded once.
use chowkidar.Prelude.{
  ◌≡◌, refl, Bool, false, String, List, [], ◌∷◌, ◌++◌, Assoc, lookup, insert, lookup-insert, ◌==◌,
  is_some, not, any, ◌||◌, ◌&&◌, arith, text_iff, ==_refl, true, ℕ, nat_eq, ap, ◌∙◌, select,
}
use chowkidar.Model.{Time, Window}
use chowkidar.Transitions.{
  Transition, State, titles_onto, edges, new_edges, check_maintenance_transitions, record_edges,
  is_recent,
}

-- Whether a window of the list has the identifier.
abbrev pub is_among : List Window → String → Bool
is_among ws id = any (λ (w : Window). w.id == id) ws

lookup-titles_onto :
    (m : Assoc String) (ws : List Window) (id : String)
    → is_some (lookup id (titles_onto m ws)) ≡ (is_among ws id || is_some (lookup id m))
unfolding titles_onto
lookup-titles_onto m [] id = refl
lookup-titles_onto m (w ∷ ws) id =
    ground
      (arith, lookup-titles_onto (insert w.id w.title m) ws id, lookup-insert w.id id w.title m)

-- Whether an edge of the kind is recorded for the identifier at that instant.
abbrev pub has_edge : Time → String → String → List Transition → Bool
has_edge now kind id =
    any (λ (t : Transition). t.kind == kind && t.window_id == id && nat_eq t.at now)

same_instant : (n : ℕ) → nat_eq n n ≡ true
same_instant n = ground arith

has_edge-edges :
    (kind id : String) (now : Time) (other m : Assoc String)
    → has_edge now kind id (edges kind now other m)
      ≡ (is_some (lookup id m) && not (is_some (lookup id other)))
unfolding edges lookup
has_edge-edges kind id now other [] = refl
has_edge-edges kind id now other ((k, title) ∷ m) =
    ground
      (arith, text_iff k id, ==_refl kind, same_instant now, has_edge-edges kind id now other m)

has_edge-other :
    (kind kind' id : String) (now : Time) (other m : Assoc String)
    → (kind == kind') ≡ false
    → has_edge now kind' id (edges kind now other m) ≡ false
unfolding edges
has_edge-other kind kind' id now other [] ne = refl
has_edge-other kind kind' id now other ((k, title) ∷ m) ne =
    ground (arith, has_edge-other kind kind' id now other m ne)

any-append {ℓ} :
    {A : Type ℓ} (p : A → Bool) (xs ys : List A) → any p (xs ++ ys) ≡ (any p xs || any p ys)
any-append p [] ys = refl
any-append p (x ∷ xs) ys = ground (arith, any-append p xs ys)

-- No other edge is recorded where none was at that instant.
has_edge-recorded :
    (now : Time) (kind id : String) (found old : List Transition)
    → has_edge now kind id old ≡ false
    → has_edge now kind id (record_edges now found old) ≡ has_edge now kind id found
has_edge-recorded now kind id [] old h = h
has_edge-recorded now kind id (e ∷ es) old h =
    any-append (λ (t : Transition). t.kind == kind && t.window_id == id && nat_eq t.at now)
      (select (is_recent now) old) (e ∷ es)
    ∙ rw (kept_none old h) refl
  where
    kept_none :
        (old : List Transition)
        → has_edge now kind id old ≡ false
        → has_edge now kind id (select (is_recent now) old) ≡ false
    kept_none [] h = refl
    kept_none (t ∷ ts) h = ground (arith, h, kept_none ts)

has_edge-new_edges :
    (now : Time) (prev current : Assoc String) (id : String)
    → (has_edge now "started" id (new_edges now prev current)
        ≡ (is_some (lookup id current) && not (is_some (lookup id prev))))
      × (has_edge now "ended" id (new_edges now prev current)
          ≡ (is_some (lookup id prev) && not (is_some (lookup id current))))
unfolding new_edges
has_edge-new_edges now prev current id = ground (
  arith,
  any-append (λ (t : Transition). t.kind == "started" && t.window_id == id && nat_eq t.at now)
      (edges "started" now prev current) (edges "ended" now current prev),
  any-append (λ (t : Transition). t.kind == "ended" && t.window_id == id && nat_eq t.at now)
      (edges "started" now prev current) (edges "ended" now current prev),
  has_edge-edges "started" id now prev current,
  has_edge-edges "ended" id now current prev,
  has_edge-other "started" "ended" id now prev current refl,
  has_edge-other "ended" "started" id now current prev refl,
)

-- A check remembers the windows that are active now. It records a start at that instant exactly for the
-- windows that are active now and were not before, and an end exactly for those that were and are not any
-- more, where the old record has no edge of the window at that instant.
pub new_edges_exact :
    (active : List Window) (now : Time) (s : State) (id : String)
    → has_edge now "started" id s.transitions ≡ false
    → has_edge now "ended" id s.transitions ≡ false
    → let s' = (check_maintenance_transitions active now s).0 in
      let was = is_some (lookup id s.active_ids) in
      (is_some (lookup id s'.active_ids) ≡ is_among active id)
      × (has_edge now "started" id s'.transitions ≡ (is_among active id && not was))
      × (has_edge now "ended" id s'.transitions ≡ (was && not (is_among active id)))
unfolding check_maintenance_transitions
new_edges_exact active now s id hs he =
    let current = titles_onto [] active in
    let found = new_edges now s.active_ids current in
    let (started, ended) = has_edge-new_edges now s.active_ids current id in
    let among : is_some (lookup id current) ≡ is_among active id =
      ground (arith, lookup-titles_onto [] active id, nothing) in
    (
      among,
      has_edge-recorded now "started" id found s.transitions hs
          ∙ started
          ∙ ap (λ x. x && not (is_some (lookup id s.active_ids))) among,
      has_edge-recorded now "ended" id found s.transitions he
          ∙ ended
          ∙ ap (λ x. is_some (lookup id s.active_ids) && not x) among,
    )
  where
    nothing : is_some (lookup {V = String} id []) ≡ false
    nothing = unfold lookup in refl
