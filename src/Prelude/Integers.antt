-- ===== src/Prelude/Integers.antt =====
-- Go's signed integers over the native numbers. `negsuc n` is -(n + 1).
use Prim.Native.Nat.{ℕ, suc, ◌+◌, ◌-◌, ◌*◌, ◌%◌, ◌<◌}
use mathlib.Core.Path.{◌≡◌}
use mathlib.Core.Bool.{Bool}
use native.Mathlib.Omega.{arith}
use chowkidar.Prelude.Tests.{ltb, leb, if◌then◌else◌}

pub data ℤ : Type 0 where
  pos : ℕ → ℤ
  negsuc : ℕ → ℤ

abbrev pub pos_part : ℤ → ℕ
pos_part (pos n) = n
pos_part (negsuc n) = 0

abbrev pub neg_part : ℤ → ℕ
neg_part (pos n) = 0
neg_part (negsuc n) = suc n

-- a < b.
abbrev pub ltb_ℤ : ℤ → ℤ → Bool
ltb_ℤ a b = ltb (pos_part a + neg_part b) (pos_part b + neg_part a)

-- a <= b.
abbrev pub leb_ℤ : ℤ → ℤ → Bool
leb_ℤ a b = leb (pos_part a + neg_part b) (pos_part b + neg_part a)

-- The int64 with the bit pattern `n % 2 ^ 64`.
unfoldable pub to_int64 : ℕ → ℤ
to_int64 n =
    let w = n % 18446744073709551616 in
    if ltb w 9223372036854775808 then pos w else negsuc (18446744073709551615 - w)

-- int64 multiplication of `a` by a positive constant, wrapping as Go's does.
unfoldable pub scale : ℤ → ℕ → ℤ
unfolding to_int64
scale (pos n) k = to_int64 (n * k)
scale (negsuc n) k = to_int64 (18446744073709551616 - (suc n * k) % 18446744073709551616)

-- In range the product is exact.
pub scale_exact : (n k : ℕ) → n * k < 9223372036854775808 → scale (pos n) k ≡ pos (n * k)
unfolding scale
scale_exact n k h = ground arith
