-- ===== src/Prelude/Integers.antt =====
-- Go's `int` and `time.Duration`: signed integers, with the wrap-around to 64 bits written out.
use Prim.Native.Nat.{ℕ, suc, ◌+◌, ◌-◌, ◌*◌, ◌%◌, ◌≤◌, ◌<◌}
use mathlib.Core.Bool.{Bool}
use mathlib.Core.Path.{◌≡◌}
use native.Mathlib.Omega.{arith}
use mentor_ia_worker.Prelude.Tests.{leb, ltb, if◌then◌else◌}

-- `negsuc n` is -(n + 1).
pub data ℤ : Type 0 where
  pos : ℕ → ℤ
  negsuc : ℕ → ℤ

abbrev pub pos_part : ℤ → ℕ
pos_part (pos n) = n
pos_part (negsuc n) = 0

abbrev pub neg_part : ℤ → ℕ
neg_part (pos n) = 0
neg_part (negsuc n) = suc n

infix 50 ◌≤ℤ◌ ◌<ℤ◌
abbrev pub ◌≤ℤ◌ : ℤ → ℤ → Type 0
a ≤ℤ b = pos_part a + neg_part b ≤ pos_part b + neg_part a

abbrev pub ◌<ℤ◌ : ℤ → ℤ → Type 0
a <ℤ b = pos_part a + neg_part b < pos_part b + neg_part a

abbrev pub leb_ℤ : ℤ → ℤ → Bool
leb_ℤ a b = leb (pos_part a + neg_part b) (pos_part b + neg_part a)

abbrev pub ltb_ℤ : ℤ → ℤ → Bool
ltb_ℤ a b = ltb (pos_part a + neg_part b) (pos_part b + neg_part a)

-- a - b, as an integer.
abbrev pub sub_ℕ : ℕ → ℕ → ℤ
sub_ℕ a b = if leb b a then pos (a - b) else negsuc (b - a - 1)

abbrev pub two_63 : ℕ
two_63 = 9223372036854775808

-- The 64-bit pattern of an integer, read back in two's complement.
pub signed64 : ℕ → ℤ
signed64 n = if ltb n two_63 then pos n else negsuc (2 * two_63 - n - 1)

unfoldable pub wrap64 : ℤ → ℤ
unfolding signed64
wrap64 (pos n) = signed64 (n % (2 * two_63))
wrap64 (negsuc n) = signed64 (2 * two_63 - 1 - n % (2 * two_63))

infixl 65 ◌+ℤ◌
infixl 70 ◌*ℤ◌
-- Addition and multiplication of 64-bit integers.
unfoldable pub ◌+ℤ◌ : ℤ → ℤ → ℤ
unfolding wrap64
a +ℤ b = wrap64 (sub_ℕ (pos_part a + pos_part b) (neg_part a + neg_part b))

unfoldable pub ◌*ℤ◌ : ℤ → ℤ → ℤ
unfolding wrap64
a *ℤ b = wrap64 (
    sub_ℕ (pos_part a * pos_part b + neg_part a * neg_part b)
      (pos_part a * neg_part b + neg_part a * pos_part b))

-- Sums and products of positive numbers that fit 63 bits are exact.
pub +ℤ_fits : (a b : ℕ) → a + b < two_63 → pos a +ℤ pos b ≡ pos (a + b)
unfolding ◌+ℤ◌ wrap64
+ℤ_fits a b h = ground arith

pub *ℤ_fits : (a b : ℕ) → a * b < two_63 → pos a *ℤ pos b ≡ pos (a * b)
unfolding ◌*ℤ◌ wrap64
*ℤ_fits a b h = ground arith
