-- ===== src/Prelude/Checks.antt =====
-- Go's `(value, error)` results with a type of errors: a chain stops at the first error.
use mathlib.Core.Path.{◌≡◌, refl}
use mathlib.Core.Bool.{Bool, true, false}
use mathlib.Core.Option.{Option, none, some}

pub data Checked (E A : Type 0) : Type 0 where
  bad : E → Checked E A
  good : A → Checked E A

module _ {E : Type 0} where
  infixl 5 ◌>>=◌ ◌>>◌
  abbrev pub ◌>>=◌ : {A B : Type 0} → Checked E A → (A → Checked E B) → Checked E B
  bad problem >>= step = bad problem
  good found >>= step = step found

  abbrev pub ◌>>◌ : {B : Type 0} → Checked E (Unit {0}) → Checked E B → Checked E B
  bad problem >> others = bad problem
  good found >> others = others

  -- `if !test { return problem }`.
  abbrev pub expect : Bool → E → Checked E (Unit {0})
  expect true problem = good tt
  expect false problem = bad problem

  -- `if pointer == nil { return problem }`.
  abbrev pub needed : {A : Type 0} → Option A → E → Checked E A
  needed none problem = bad problem
  needed (some found) problem = good found

  pub good_inj : {A : Type 0} {a b : A} → ◌≡◌ {A = Checked E A} (good a) (good b) → a ≡ b
  good_inj h = cc

  pub good_bind :
      {A B : Type 0} (c : Checked E A) (f : A → Checked E B) {b : B}
      → (c >>= f) ≡ good b
      → (a : A) × (c ≡ good a) × (f a ≡ good b)
  good_bind (good a) f h = (a, refl, h)
  good_bind (bad e) f h = absurd (cc)

  pub good_then :
      {B : Type 0} (t : Bool) (problem : E) (c : Checked E B) {b : B}
      → (expect t problem >> c) ≡ good b
      → (t ≡ true) × (c ≡ good b)
  good_then true problem c h = (refl, h)
  good_then false problem c h = absurd (cc)

  pub good_after :
      {A : Type 0} (c : Checked E (Unit {0})) {a b : A} → (c >> good a) ≡ good b → a ≡ b
  good_after (good t) h = good_inj h
  good_after (bad e) h = absurd (cc)
