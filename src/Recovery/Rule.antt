-- ===== src/Recovery/Rule.antt =====
-- When a container recovers.
use chowkidar.Prelude.{
  ℕ, suc, ◌≡◌, refl, ap, subst, ◌∙◌, Bool, true, false, ◌&&◌, ◌||◌, not, String, List, [], ◌∷◌,
  Option, none, some, lookup, Assoc, elem, ltb, leb, if◌then◌else◌, ◌==◌, Bool-cases, inl, inr,
  arith, text_iff, ==_refl,
}
use chowkidar.Model.{Time}
use chowkidar.Server.{CycleState}
use chowkidar.Recovery.{
  Verdict, keeps, recovers, required_scans, verdict_of, keep_entry, kept, recovered_entry,
  recovered,
}

-- A bucket recovers if its retries are not exhausted, the container has no problem, the wait after
-- the last action is over, and after a failed action the container has been stable long enough.
abbrev pub may_recover : Bool → Time → CycleState → Bool
may_recover problem now s =
    not s.exhausted
    && not problem
    && leb s.deadline now
    && (not s.last_failed || leb (required_scans s.stable_scans_required) (suc s.stable_scans))

does_recover : Verdict → Bool
does_recover (keeps s) = false
does_recover recovers = true

verdict_of_rule :
    (problem : Bool) (now : Time) (s : CycleState)
    → does_recover (verdict_of problem now s) ≡ may_recover problem now s
unfolding verdict_of does_recover
verdict_of_rule problem now s =
    go s.exhausted problem s.last_failed (required_scans s.stable_scans_required)
  where
    go :
        (e p f : Bool) (r : ℕ)
        → does_recover (
            if e
            then keeps s
            else if p
            then keeps (record s { stable_scans = 0 })
            else if ltb now s.deadline
            then keeps s
            else if f
            then if ltb (suc s.stable_scans) r
              then keeps (record s { stable_scans = suc s.stable_scans })
              else recovers
            else recovers)
          ≡ (not e && not p && leb s.deadline now && (not f || leb r (suc s.stable_scans)))
    go e p f r = ground arith

-- The names that a map has, each once.
abbrev pub names : Assoc CycleState → List String
names [] = []
names ((k, _) ∷ m) = k ∷ names m

abbrev pub IsMap : Assoc CycleState → Type 0
IsMap [] = Unit
IsMap ((k, s) ∷ m) = (elem k (names m) ≡ false) × IsMap m

lookup-none : (k : String) (m : Assoc CycleState) → elem k (names m) ≡ false → lookup k m ≡ none
unfolding lookup
lookup-none k [] h = refl
lookup-none k ((j, s) ∷ m) h = ground (arith, lookup-none k m)

-- What becomes of a name's bucket.
unfoldable pub kept_state : Verdict → Option CycleState
kept_state (keeps t) = some t
kept_state recovers = none

unfoldable pub settle : Bool → Time → Option CycleState → Option CycleState
unfolding kept_state
settle problem now none = none
settle problem now (some s) = kept_state (verdict_of problem now s)

abbrev pub recovers_now : Bool → Time → Option CycleState → Bool
recovers_now problem now none = false
recovers_now problem now (some s) = may_recover problem now s

recovered-entry :
    (name k : String) (v : Verdict) (rest : List String)
    → elem name (recovered_entry k v rest) ≡ ((k == name && does_recover v) || elem name rest)
unfolding does_recover
recovered-entry name k (keeps s) rest = ground arith
recovered-entry name k recovers rest = ground arith

not_recovered :
    (problems : List String) (now : Time) (m : Assoc CycleState) (name : String)
    → elem name (names m) ≡ false
    → elem name (recovered problems now m) ≡ false
unfolding recovered
not_recovered problems now [] name h = refl
not_recovered problems now ((k, s) ∷ m) name h =
    recovered-entry name k (verdict_of (elem k problems) now s) (recovered problems now m)
    ∙ ground (arith, h, not_recovered problems now m name)

-- In a map with distinct names, a container recovers in a scan exactly if it has a bucket, its
-- retries are not exhausted, it is not problematic, no wait is left, and after a failed action it
-- has been stable for as many scans as its job wants.
pub recovered_rule :
    (problems : List String) (now : Time) (m : Assoc CycleState) (name : String)
    → IsMap m
    → elem name (recovered problems now m) ≡ recovers_now (elem name problems) now (lookup name m)
unfolding recovered lookup
recovered_rule problems now [] name h = refl
recovered_rule problems now ((k, s) ∷ m) name (new, h) =
    recovered-entry name k (verdict_of (elem k problems) now s) (recovered problems now m)
    ∙ elim (Bool-cases (k == name)) [
      | inr e ↦ rw e (recovered_rule problems now m name h)
      | inl e ↦
          let same : k ≡ name = (text_iff k name).0 e in
          let gone =
            not_recovered problems now m name (subst (λ x. elem x (names m) ≡ false) same new) in
          rw (e, gone)
            (own (does_recover (verdict_of (elem k problems) now s))
              ∙ verdict_of_rule (elem k problems) now s
              ∙ ap (λ x. may_recover (elem x problems) now s) same)
    ]
  where
    own : (b : Bool) → (b || false) ≡ b
    own b = ground arith

lookup-keep_entry :
    (name k : String) (v : Verdict) (rest : Assoc CycleState)
    → k == name ≡ false
    → lookup name (keep_entry k v rest) ≡ lookup name rest
unfolding lookup
lookup-keep_entry name k (keeps s) rest e = rw e refl
lookup-keep_entry name k recovers rest e = refl

not_kept :
    (problems : List String) (now : Time) (m : Assoc CycleState) (name : String)
    → elem name (names m) ≡ false
    → lookup name (kept problems now m) ≡ none
unfolding kept lookup
not_kept problems now [] name h = refl
not_kept problems now ((k, s) ∷ m) name h =
    lookup-keep_entry name k (verdict_of (elem k problems) now s) (kept problems now m)
      (ground arith)
    ∙ not_kept problems now m name (ground arith)

own_entry :
    (name : String) (v : Verdict) (rest : Assoc CycleState)
    → lookup name rest ≡ none
    → lookup name (keep_entry name v rest) ≡ kept_state v
unfolding lookup kept_state
own_entry name (keeps s) rest h = rw (==_refl name) refl
own_entry name recovers rest h = h

-- In a map with distinct names, what is found under a name after a scan is what the verdict on its
-- bucket leaves, and nothing if the bucket recovers or there was none.
pub kept_rule :
    (problems : List String) (now : Time) (m : Assoc CycleState) (name : String)
    → IsMap m
    → lookup name (kept problems now m) ≡ settle (elem name problems) now (lookup name m)
unfolding kept settle lookup
kept_rule problems now [] name h = refl
kept_rule problems now ((k, s) ∷ m) name (new, h) = elim (Bool-cases (k == name)) [
  | inr e ↦ rw e (
      lookup-keep_entry name k (verdict_of (elem k problems) now s) (kept problems now m) e
      ∙ kept_rule problems now m name h)
  | inl e ↦
      let same : k ≡ name = (text_iff k name).0 e in
      rw e (
        ap
          (λ x.
            lookup name (keep_entry x (verdict_of (elem x problems) now s) (kept problems now m)))
          same
        ∙ own_entry name (verdict_of (elem name problems) now s) (kept problems now m)
            (not_kept problems now m name (subst (λ x. elem x (names m) ≡ false) same new)))
]
