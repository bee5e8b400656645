-- ===== src/Transitions/Once.antt =====
-- What a check returns, and what a second one finds.
use chowkidar.Prelude.{
  ◌≡◌, refl, true, false, String, List, [], ◌∷◌, some, Assoc, lookup, insert, lookup-insert, ◌==◌,
  is_some, arith, text_iff, Bool-cases, Option-cases, inl, inr, ==_refl, Memᴰ, ◌⊎◌, sym,
}
use chowkidar.Model.{Time, Window, force_cancel}
use chowkidar.Transitions.{
  State, titles_onto, by_id_onto, edges, force_started, check_maintenance_transitions,
}

abbrev Covers : Assoc String → Assoc String → Type 0
Covers other m = (id : String) → is_some (lookup id m) ≡ true → is_some (lookup id other) ≡ true

-- A map that covers an entry and more covers the more.
Covers-tail :
    (k title : String) (m other : Assoc String) → Covers other ((k, title) ∷ m) → Covers other m
unfolding lookup
Covers-tail k title m other c id h =
    c id (elim (Bool-cases (k == id)) [ inl e ↦ rw e | inr e ↦ rw e h ])

edges_covered :
    (kind : String) (now : Time) (other m : Assoc String)
    → Covers other m
    → edges kind now other m ≡ []
unfolding edges
edges_covered kind now other [] c = refl
edges_covered kind now other ((k, title) ∷ m) c =
    rw (c k head_found) (edges_covered kind now other m (Covers-tail k title m other c))
  where
    head_found : is_some (lookup k ((k, title) ∷ m)) ≡ true
    head_found = unfold lookup in rw (==_refl k)

force_covered :
    (by_id : Assoc Window) (prev m : Assoc String) → Covers prev m → force_started by_id prev m ≡ []
unfolding force_started
force_covered by_id prev [] c = refl
force_covered by_id prev ((k, title) ∷ m) c =
    rw (c k head_found) (force_covered by_id prev m (Covers-tail k title m prev c))
  where
    head_found : is_some (lookup k ((k, title) ∷ m)) ≡ true
    head_found = unfold lookup in rw (==_refl k)

-- A second check that sees the same windows, at any time, records no edge, starts no force-cancel and
-- leaves the state as it is.
pub check_twice :
    (active : List Window) (now later : Time) (s : State)
    → let s' = (check_maintenance_transitions active now s).0 in
      check_maintenance_transitions active later s' ≡ (s', [])
unfolding check_maintenance_transitions
check_twice active now later s =
    let current = titles_onto [] active in
    ground (
      arith,
      edges_covered "started" later current current (λ id h. h),
      edges_covered "ended" later current current (λ id h. h),
      force_covered (by_id_onto [] active) current current (λ id h. h),
    )

lookup-by_id_onto :
    (m : Assoc Window) (ws : List Window) (id : String) {w : Window}
    → lookup id (by_id_onto m ws) ≡ some w
    → (Memᴰ w ws × (w.id ≡ id)) ⊎ (lookup id m ≡ some w)
unfolding by_id_onto
lookup-by_id_onto m [] id h = inr h
lookup-by_id_onto m (x ∷ ws) id {w} h = elim (lookup-by_id_onto (insert x.id x m) ws id h) [
  | inl (mem, e) ↦ inl (Memᴰ.tail mem, e)
  | inr old ↦ elim (Bool-cases (x.id == id)) [
    | inl e ↦
        let same : x ≡ w = ground (arith, lookup-insert x.id id x m) in
        inl (Memᴰ.head (sym same), rw (← same) ((text_iff x.id id).0 e))
    | inr e ↦ inr (ground (arith, lookup-insert x.id id x m))
  ]
]

force_started_sound :
    (by_id : Assoc Window) (prev m : Assoc String) {w : Window}
    → Memᴰ w (force_started by_id prev m)
    → (id : String) × (lookup id by_id ≡ some w)
      × (is_some (lookup id prev) ≡ false)
      × ((w.on_start == force_cancel) ≡ true)
unfolding force_started
force_started_sound by_id prev [] m = elim m [ ]
force_started_sound by_id prev ((k, title) ∷ m) {w} mem =
    elim (Bool-cases (is_some (lookup k prev))) [
      | inl e ↦ force_started_sound by_id prev m (rw e at mem)
      | inr e ↦ elim (Option-cases (lookup k by_id)) [
        | inl q ↦ force_started_sound by_id prev m (rw (e, q) at mem)
        | inr (x, q) ↦ elim (Bool-cases (x.on_start == force_cancel)) [
          | inr f ↦ force_started_sound by_id prev m (rw (e, q, f) at mem)
          | inl f ↦ pick x q e f (force_started_sound by_id prev m) (rw (e, q, f) at mem)
        ]
      ]
    ]
  where
    pick :
        (x : Window)
        → lookup k by_id ≡ some x
        → is_some (lookup k prev) ≡ false
        → (x.on_start == force_cancel) ≡ true
        → (Memᴰ w (force_started by_id prev m)
            → (id : String) × (lookup id by_id ≡ some w)
              × (is_some (lookup id prev) ≡ false)
              × ((w.on_start == force_cancel) ≡ true))
        → Memᴰ w (x ∷ force_started by_id prev m)
        → (id : String) × (lookup id by_id ≡ some w)
          × (is_some (lookup id prev) ≡ false)
          × ((w.on_start == force_cancel) ≡ true)
    pick x q e f ih (Memᴰ.head same) = (k, rw same q, e, rw same f)
    pick x q e f ih (Memᴰ.tail rest) = ih rest

-- Each window that the check hands on for force-cancelling is active, asks for it, and was not active
-- at the check before.
pub force_cancel_started :
    (active : List Window) (now : Time) (s : State) {w : Window}
    → Memᴰ w (check_maintenance_transitions active now s).1
    → Memᴰ w active
      × ((w.on_start == force_cancel) ≡ true)
      × (is_some (lookup w.id s.active_ids) ≡ false)
unfolding check_maintenance_transitions
force_cancel_started active now s {w} m =
    let (id, found, fresh, asks) =
      force_started_sound (by_id_onto [] active) s.active_ids (titles_onto [] active) m in
    elim (lookup-by_id_onto [] active id found) [
      | inl (mem, e) ↦ (mem, asks, rw e fresh)
      | inr no_entry ↦ absurd (unfold lookup in ground (arith, no_entry))
    ]
