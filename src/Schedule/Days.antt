-- ===== src/Schedule/Days.antt =====
-- The loops of the schedules: what they return lies on the right side of the reference, on a day
-- that is wanted, and they do return where such a day is among those that they visit.
use chowkidar.Prelude.{
  ℕ, zero, suc, ◌+◌, ◌-◌, ◌≤◌, ◌<◌, ◌≡◌, Bool, true, some, arith, ltb, leb, Bool-cases, inl, inr,
  is_some, dec_lt,
}
use chowkidar.Model.{Time}
use chowkidar.Calendar.{Location, IsRegular, days_back, days_ahead}
use chowkidar.Schedule.{walk_back, scan_back, walk_ahead, scan_ahead, aligned}

module _ (loc : Location) (wanted : ℕ → Bool) (clock : ℕ) (ref : Time) where
  -- An occurrence on a wanted day, at the hour of the window.
  abbrev pub Scheduled : Time → Type 0
  Scheduled s = (day : ℕ) × (s ≡ loc.date day clock) × (wanted day ≡ true)

  pub scan_back_sound :
      (n i : ℕ) {s : Time} → scan_back loc wanted clock ref n i ≡ some s → (s ≤ ref) × Scheduled s
  unfolding scan_back
  scan_back_sound zero i h = absurd (ground arith)
  scan_back_sound (suc n) i {s} h =
      let day = loc.day (days_back loc ref i) in
      elim (Bool-cases (wanted day)) [
        | inr e ↦ scan_back_sound n (suc i) (rw e at h)
        | inl e ↦ elim (Bool-cases (leb (loc.date day clock) ref)) [
          | inr q ↦ scan_back_sound n (suc i) (rw (e, q) at h)
          | inl q ↦ (ground arith, (day, ground arith, e))
        ]
      ]

  pub scan_ahead_sound :
      (n i : ℕ) {s : Time} → scan_ahead loc wanted clock ref n i ≡ some s → (ref < s) × Scheduled s
  unfolding scan_ahead
  scan_ahead_sound zero i h = absurd (ground arith)
  scan_ahead_sound (suc n) i {s} h =
      let day = loc.day (days_ahead loc ref i) in
      elim (Bool-cases (wanted day)) [
        | inr e ↦ scan_ahead_sound n (suc i) (rw e at h)
        | inl e ↦ elim (Bool-cases (ltb ref (loc.date day clock))) [
          | inr q ↦ scan_ahead_sound n (suc i) (rw (e, q) at h)
          | inl q ↦ (ground arith, (day, ground arith, e))
        ]
      ]

  pub scan_back_total :
      (n i j : ℕ)
      → i ≤ j
      → j < i + n
      → wanted (loc.day (days_back loc ref j)) ≡ true
      → loc.date (loc.day (days_back loc ref j)) clock ≤ ref
      → is_some (scan_back loc wanted clock ref n i) ≡ true
  unfolding scan_back
  scan_back_total zero i j lo hi w past = absurd (omega arith)
  scan_back_total (suc n) i j lo hi w past = elim (dec_lt i j) [
    | yes later ↦ ground (arith, scan_back_total n (suc i) j)
    | no same ↦ let e : j ≡ i = omega arith in ground (arith, rw e at w, rw e at past)
  ]

module _ (loc : Location) (regular : IsRegular loc) where
  pub day-days_back : (t : Time) (n : ℕ) → loc.day (days_back loc t n) ≡ loc.day t - n
  unfolding days_back
  day-days_back t n = regular.day_of_date _ _ (regular.clock_bound t)

  -- The instant is the one that time.Date gives for its day and wall clock.
  abbrev pub IsDate : Time → Type 0
  IsDate t = loc.date (loc.day t) (loc.clock t) ≡ t

  pub days_back-IsDate : (t : Time) (n : ℕ) → IsDate (days_back loc t n)
  unfolding days_back
  days_back-IsDate t n = regular.date_again (loc.day t - n) (loc.clock t) (regular.clock_bound t)

  pub days_ahead-IsDate : (t : Time) (n : ℕ) → IsDate (days_ahead loc t n)
  unfolding days_ahead
  days_ahead-IsDate t n = regular.date_again (loc.day t + n) (loc.clock t) (regular.clock_bound t)

  same_day : (t : Time) (d : ℕ) → IsDate t → d ≡ loc.day t → loc.date d (loc.clock t) ≡ t
  same_day t d h e = rw e h

  pub days_back-le : (t : Time) (n : ℕ) → IsDate t → days_back loc t n ≤ t
  days_back-le t n h = elim (dec_lt (loc.day t - n) (loc.day t)) [
    | yes earlier ↦
        omega (arith, regular.day_order (days_back loc t n) t (rw (day-days_back t n) earlier))
    | no same ↦
        let e : loc.day t - n ≡ loc.day t = omega arith in
        unfold days_back in omega (arith, same_day t (loc.day t - n) h e)
  ]

  pub day-days_ahead : (t : Time) (n : ℕ) → loc.day (days_ahead loc t n) ≡ loc.day t + n
  unfolding days_ahead
  day-days_ahead t n = regular.day_of_date _ _ (regular.clock_bound t)

  pub days_ahead-ge : (t : Time) (n : ℕ) → IsDate t → t ≤ days_ahead loc t n
  days_ahead-ge t zero h =
      let e : loc.day t + 0 ≡ loc.day t = omega arith in
      unfold days_ahead in omega (arith, same_day t (loc.day t + 0) h e)
  days_ahead-ge t (suc n) h =
      omega (arith, day-days_ahead t (suc n), regular.day_order t (days_ahead loc t (suc n)))

  module _ (anchor start : Time) (every : ℕ) (date : IsDate start) where
    pub walk_back_sound :
        (n i : ℕ) {s : Time}
        → walk_back loc anchor start every n i ≡ some s
        → (s ≤ start) × (anchor ≤ s) × (aligned loc anchor s every ≡ true)
    unfolding walk_back
    walk_back_sound zero i h = absurd (ground arith)
    walk_back_sound (suc n) i {s} h =
        let day = days_back loc start i in
        elim (Bool-cases (ltb day anchor)) [
          | inl e ↦ absurd (ground arith)
          | inr e ↦ elim (Bool-cases (aligned loc anchor day every)) [
            | inr q ↦ walk_back_sound n (suc i) (rw (e, q) at h)
            | inl q ↦
                let hit : day ≡ s = ground arith in
                rw (← hit) (days_back-le start i date, ground arith, q)
          ]
        ]

    pub walk_ahead_sound :
        (n i : ℕ) {s : Time}
        → walk_ahead loc anchor start every n i ≡ some s
        → (start ≤ s) × (aligned loc anchor s every ≡ true)
    unfolding walk_ahead
    walk_ahead_sound zero i h = absurd (ground arith)
    walk_ahead_sound (suc n) i {s} h =
        let day = days_ahead loc start i in
        elim (Bool-cases (aligned loc anchor day every)) [
          | inr q ↦ walk_ahead_sound n (suc i) (rw q at h)
          | inl q ↦ let hit : day ≡ s = ground arith in rw (← hit) (days_ahead-ge start i date, q)
        ]
