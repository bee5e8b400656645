-- ===== src/Notify/Counters.antt =====
-- The counters of a profile cover what was delivered to it on a day.
use chowkidar.Prelude.{
  ℕ, ◌+◌, ◌<◌, ◌≤◌, ◌≡◌, refl, ◌&&◌, String, List, [], ◌∷◌, Option, none, some, Assoc, lookup,
  lookup-delete, ltb, nat_eq, arith, Bool-cases, Option-cases, inl, inr, ◌==◌, text_iff,
  if◌then◌else◌, ◌∙◌,
}
use chowkidar.Model.{Time}
use chowkidar.Profiles.{Profile}
use chowkidar.Notify.{
  Usage, Message, NotifyEnv, notif_day_key, same_key, roll_day, roll_burst, usage_or_new,
  current_usage, usage_snapshot, load_notif_usage, by_id,
}

-- The day and the count of the counters.
abbrev pub day_of : Option Usage → Option (Option ℕ × ℕ)
day_of none = none
day_of (some u) = some (u.day_key, u.day_count)

abbrev pub stored_of : Option Usage → Option (Option ℕ × ℕ)
stored_of none = none
stored_of (some u) = if ltb 0 u.day_count then some (u.day_key, u.day_count) else none

pub lookup-usage_snapshot :
    (k : String) (us : Assoc Usage) → lookup k (usage_snapshot us) ≡ stored_of (lookup k us)
unfolding lookup usage_snapshot
lookup-usage_snapshot k [] = refl
lookup-usage_snapshot k ((id, u) ∷ us) =
    ground
      (arith, text_iff id k, lookup-delete id k (usage_snapshot us), lookup-usage_snapshot k us)

pub lookup-load_notif_usage :
    (k : String) (es : Assoc (Option ℕ × ℕ)) → day_of (lookup k (load_notif_usage es)) ≡ lookup k es
unfolding lookup load_notif_usage
lookup-load_notif_usage k [] = refl
lookup-load_notif_usage k ((id, (key, count)) ∷ es) = ground (arith, lookup-load_notif_usage k es)

pub by_id-id : (id : String) (ps : List Profile) {p : Profile} → by_id id ps ≡ some p → p.id ≡ id
unfolding by_id
by_id-id id [] h = absurd (cc)
by_id-id id (q ∷ ps) h = elim (Option-cases (by_id id ps)) [
  | inr (r, e) ↦ by_id-id id ps (e ∙ (rw (e, by_id) at h))
  | inl e ↦ ground (arith, text_iff q.id id)
]

-- The number of messages delivered to a profile on a day.
unfoldable pub sent_on : NotifyEnv → String → ℕ → List Message → ℕ
sent_on env id d [] = 0
sent_on env id d (m ∷ ms) =
    let rest = sent_on env id d ms in
    if m.profile_id == id && m.delivered && nat_eq (notif_day_key env m.at) d
    then rest + 1
    else rest

module _ (d : ℕ) where
  -- Counters that stood on the day `t` or before it, and `n` messages of the day `d`: while `d` is not over,
  -- the counters are those of `d` and count the messages, or there are none.
  abbrev pub Covers : ℕ → Option (Option ℕ × ℕ) → ℕ → Type 0
  Covers t none n = t ≤ d → n ≡ 0
  Covers t (some (none, c)) n = t ≤ d → n ≡ 0
  Covers t (some (some k, c)) n = t ≤ d → (k ≤ t) × ((k ≡ d → n ≤ c) × (k < d → n ≡ 0))

  pub Covers-later :
      (t t' : ℕ) (o : Option (Option ℕ × ℕ)) (n : ℕ) → t ≤ t' → Covers t o n → Covers t' o n
  Covers-later t t' none n l h = λ e. h (omega arith)
  Covers-later t t' (some (none, c)) n l h = λ e. h (omega arith)
  Covers-later t t' (some (some k, c)) n l h =
      λ e. let (a, (b, z)) = h (omega arith) in (omega arith, (b, z))

  pub roll_day-Covers :
      (t t' : ℕ) (o : Option Usage) (n : ℕ)
      → t ≤ t'
      → Covers t (day_of o) n
      → Covers t' (some (some t', (roll_day t' (usage_or_new o)).day_count)) n
  unfolding roll_day
  roll_day-Covers t t' none n l h e =
      (omega arith, (λ q. omega (arith, h (omega arith)), λ q. h (omega arith)))
  roll_day-Covers t t' (some u) n l h e = by_key u.day_key refl h
    where
      by_key :
          (key : Option ℕ)
          → u.day_key ≡ key
          → Covers t (some (key, u.day_count)) n
          → (t' ≤ t') × ((t' ≡ d → n ≤ (roll_day t' u).day_count) × (t' < d → n ≡ 0))
      by_key none q h = (omega arith, (λ r. omega (arith, h (omega arith)), λ r. h (omega arith)))
      by_key (some k) q h =
          let (a, (b, z)) = h (omega arith) in (omega arith, (λ r. ground arith, λ r. ground arith))

  -- What is not stored has counted nothing.
  pub stored-Covers :
      (t : ℕ) (o : Option Usage) (n : ℕ) → Covers t (day_of o) n → Covers t (stored_of o) n
  stored-Covers t none n h = h
  stored-Covers t (some u) n h = elim (Bool-cases (ltb 0 u.day_count)) [
    | inl e ↦ rw (e, stored_of) h
    | inr e ↦ rw (e, stored_of) (dropped u.day_key u.day_count (ground arith) h)
  ]
    where
      dropped : (key : Option ℕ) (c : ℕ) → c ≡ 0 → Covers t (some (key, c)) n → Covers t none n
      dropped none c q h = h
      dropped (some k) c q h = λ e.
          let (a, (b, z)) = h e in
          elim (Bool-cases (nat_eq k d)) [
            | inl same ↦ omega (arith, b (ground arith))
            | inr other ↦ z (ground arith)
          ]

roll_day-key : (t : ℕ) (u : Usage) → (roll_day t u).day_key ≡ some t
unfolding roll_day
roll_day-key t u = by_key u.day_key refl
  where
    by_key :
        (key : Option ℕ)
        → u.day_key ≡ key
        → (if same_key key t then u else record u { day_key = some t; day_count = 0 }).day_key
          ≡ some t
    by_key none e = refl
    by_key (some k) e = ground arith

roll_burst-day :
    (p : Profile) (now : Time) (u : Usage)
    → ((roll_burst p now u).day_key ≡ u.day_key) × ((roll_burst p now u).day_count ≡ u.day_count)
unfolding roll_burst
roll_burst-day p now u = (ground arith, ground arith)

-- The counters that a round works with are those of its day.
pub current_usage-day :
    (env : NotifyEnv) (p : Profile) (now : Time) (us : Assoc Usage)
    → ((current_usage env p now us).day_key ≡ some (notif_day_key env now))
      × ((current_usage env p now us).day_count
          ≡ (roll_day (notif_day_key env now) (usage_or_new (lookup p.id us))).day_count)
unfolding current_usage
current_usage-day env p now us =
    let u = roll_day (notif_day_key env now) (usage_or_new (lookup p.id us)) in
    let (k, c) = roll_burst-day p now u in (k ∙ roll_day-key (notif_day_key env now) _, c)
