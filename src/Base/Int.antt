-- ===== src/Base/Int.antt =====
-- Signed integers over the native numbers, and their two's complement patterns.
use Prim.Native.Nat.{ℕ, suc, ◌+◌, ◌-◌, ◌*◌, ◌%◌, ◌≤◌, ◌<◌}
use mathlib.Core.Path.{◌≡◌}
use mathlib.Core.Bool.{Bool}
use native.Mathlib.Omega.{arith}
use native.Mathlib.Nat.{mod-eq_of_lt}
use goshire.Base.Tests.{ltb, leb, if◌then◌else◌}

-- `negsuc n` is -(n + 1).
pub data ℤ : Type 0 where
  pos : ℕ → ℤ
  negsuc : ℕ → ℤ

abbrev pub pos_part : ℤ → ℕ
pos_part (pos n) = n
pos_part (negsuc n) = 0

abbrev pub neg_part : ℤ → ℕ
neg_part (pos n) = 0
neg_part (negsuc n) = suc n

abbrev pub sub_ℕ : ℕ → ℕ → ℤ
sub_ℕ a b = if leb b a then pos (a - b) else negsuc (b - a - 1)

infixl 65 ◌+ℤ◌
infixl 70 ◌*ℤ◌
unfoldable pub ◌+ℤ◌ : ℤ → ℤ → ℤ
a +ℤ b = sub_ℕ (pos_part a + pos_part b) (neg_part a + neg_part b)

unfoldable pub ◌*ℤ◌ : ℤ → ℤ → ℤ
a *ℤ b =
    sub_ℕ (pos_part a * pos_part b + neg_part a * neg_part b)
      (pos_part a * neg_part b + neg_part a * pos_part b)

abbrev pub ltb_ℤ : ℤ → ℤ → Bool
ltb_ℤ a b = ltb (pos_part a + neg_part b) (pos_part b + neg_part a)

-- -h ≤ a < h: the integers that a signed word of 2 * h patterns holds.
abbrev pub Fits : ℕ → ℤ → Type 0
Fits h a = (pos_part a < h) × (neg_part a ≤ h)

-- The conversion to a signed word of 2 * h patterns, as its bit pattern.
unfoldable pub to_word : ℕ → ℤ → ℕ
to_word h (pos n) = n % (h + h)
to_word h (negsuc n) = h + h - 1 - n % (h + h)

-- The integer that a bit pattern of 2 * h patterns stands for.
unfoldable pub of_word : ℕ → ℕ → ℤ
of_word h u = if ltb u h then pos u else negsuc (h + h - 1 - u)

pub of_word-to_word : (h : ℕ) (a : ℤ) → Fits h a → of_word h (to_word h a) ≡ a
unfolding of_word to_word
of_word-to_word h (pos n) f = ground (arith, mod-eq_of_lt {n = n} {m = h + h} (omega arith))
of_word-to_word h (negsuc n) f = ground (arith, mod-eq_of_lt {n = n} {m = h + h} (omega arith))

pub to_word-lt : (h : ℕ) (a : ℤ) → 0 < h → to_word h a < h + h
unfolding to_word
to_word-lt h (pos n) p = grind arith
to_word-lt h (negsuc n) p = omega arith
