-- ===== src/Base/Int.antt =====
-- Signed integers over the native numbers, and Go's `int64` inside them: a value of type `int64`
-- is a `ℤ`, and each addition or multiplication of the source is followed by the wrap `i64`.
use Prim.Native.Nat.{ℕ, suc, ◌+◌, ◌-◌, ◌*◌, ◌%◌, ◌^◌, ◌≤◌, ◌<◌}
use mathlib.Core.Path.{◌≡◌}
use mathlib.Core.Bool.{Bool}
use native.Mathlib.Omega.{arith}
use api_ratelimiter.Base.Tests.{ltb, leb, ◌==◌, if◌then◌else◌}

-- `negsuc n` is -(n + 1).
pub data ℤ : Type 0 where
  pos : ℕ → ℤ
  negsuc : ℕ → ℤ

abbrev pub pos_part : ℤ → ℕ
pos_part (pos n) = n
pos_part (negsuc n) = 0

abbrev pub neg_part : ℤ → ℕ
neg_part (pos n) = 0
neg_part (negsuc n) = suc n

-- a - b, as an integer.
abbrev pub sub_ℕ : ℕ → ℕ → ℤ
sub_ℕ a b = if leb b a then pos (a - b) else negsuc (b - a - 1)

infixl 65 ◌+ℤ◌
infixl 70 ◌*ℤ◌
infix 50 ◌≤ℤ◌
infix 50 ◌<ℤ◌
unfoldable pub ◌+ℤ◌ : ℤ → ℤ → ℤ
a +ℤ b = sub_ℕ (pos_part a + pos_part b) (neg_part a + neg_part b)

unfoldable pub ◌*ℤ◌ : ℤ → ℤ → ℤ
a *ℤ b =
    sub_ℕ (pos_part a * pos_part b + neg_part a * neg_part b)
      (pos_part a * neg_part b + neg_part a * pos_part b)

abbrev pub ◌≤ℤ◌ : ℤ → ℤ → Type 0
a ≤ℤ b = pos_part a + neg_part b ≤ pos_part b + neg_part a

abbrev pub ◌<ℤ◌ : ℤ → ℤ → Type 0
a <ℤ b = pos_part a + neg_part b < pos_part b + neg_part a

abbrev pub ltb_ℤ : ℤ → ℤ → Bool
ltb_ℤ a b = ltb (pos_part a + neg_part b) (pos_part b + neg_part a)

abbrev pub leb_ℤ : ℤ → ℤ → Bool
leb_ℤ a b = leb (pos_part a + neg_part b) (pos_part b + neg_part a)

abbrev pub eqb_ℤ : ℤ → ℤ → Bool
eqb_ℤ a b = (pos_part a + neg_part b) == (pos_part b + neg_part a)

-- The bit complement, -a - 1.
abbrev pub complement : ℤ → ℤ
complement (pos n) = negsuc n
complement (negsuc n) = pos n

-- The int64 that a natural number wraps to.
abbrev i64_pos : ℕ → ℤ
i64_pos n = let m = n % 2 ^ 64 in if ltb m (2 ^ 63) then pos m else negsuc (2 ^ 64 - 1 - m)

-- The int64 that an integer wraps to: two's complement commutes with the bit complement.
unfoldable pub i64 : ℤ → ℤ
i64 (pos n) = i64_pos n
i64 (negsuc n) = complement (i64_pos n)

-- The values of an int64.
abbrev pub IsInt64 : ℤ → Type 0
IsInt64 a = (pos_part a < 2 ^ 63) × (neg_part a ≤ 2 ^ 63)

-- A value in range is kept.
pub i64_of_IsInt64 : (a : ℤ) → IsInt64 a → i64 a ≡ a
unfolding i64
i64_of_IsInt64 (pos n) h = ground arith
i64_of_IsInt64 (negsuc n) h = ground arith

-- The wrapped value is always in range.
pub i64-IsInt64 : (a : ℤ) → IsInt64 (i64 a)
unfolding i64
i64-IsInt64 (pos n) = ground arith
i64-IsInt64 (negsuc n) = ground arith

pub +ℤ_pos : (a b : ℕ) → pos a +ℤ pos b ≡ pos (a + b)
unfolding ◌+ℤ◌
+ℤ_pos a b = ground arith

pub +ℤ_parts :
    (a b : ℤ)
    → pos_part (a +ℤ b) + neg_part a + neg_part b ≡ neg_part (a +ℤ b) + pos_part a + pos_part b
unfolding ◌+ℤ◌
+ℤ_parts a b = ground arith

-- The int64 addition and multiplication of Go.
infixl 65 ◌+64◌
infixl 70 ◌*64◌
unfoldable pub ◌+64◌ : ℤ → ℤ → ℤ
a +64 b = i64 (a +ℤ b)

unfoldable pub ◌*64◌ : ℤ → ℤ → ℤ
a *64 b = i64 (a *ℤ b)

pub +64_pos : (a b : ℕ) → a + b < 2 ^ 63 → pos a +64 pos b ≡ pos (a + b)
unfolding ◌+64◌ i64 ◌+ℤ◌
+64_pos a b h = ground arith

pub *64_pos : (a b : ℕ) → a * b < 2 ^ 63 → pos a *64 pos b ≡ pos (a * b)
unfolding ◌*64◌ i64 ◌*ℤ◌
*64_pos a b h = ground arith

-- One more, of a count that has room.
pub inc_parts :
    (a : ℤ)
    → neg_part a ≡ 0
    → pos_part a + 1 < 2 ^ 63
    → (pos_part (a +64 pos 1) ≡ pos_part a + 1) × (neg_part (a +64 pos 1) ≡ 0)
unfolding ◌+64◌ i64 ◌+ℤ◌
inc_parts (pos n) h b = ground arith
inc_parts (negsuc n) h b = absurd (omega arith)
