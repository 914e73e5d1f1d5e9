-- ===== src/Base/Int.antt =====
-- Signed integers over the native numbers, under the library's names (its ℤ stands on the unary ℕ).
-- Sums and orders go through the two parts of an integer, which are numbers that `omega` reads.
use Prim.Native.Nat.{ℕ, suc, ◌+◌, ◌-◌, ◌%◌, ◌≤◌, ◌<◌}
use mathlib.Core.Path.{◌≡◌}
use mathlib.Core.Bool.{Bool, ◌&&◌}
use native.Mathlib.Omega.{arith}
use kubevela_catalog.Base.Tests.{ltb, leb, ◌==◌, if◌then◌else◌}

-- `negsuc n` is -(n + 1).
pub data ℤ : Type 0 where
  pos : ℕ → ℤ
  negsuc : ℕ → ℤ

abbrev pub pos_part : ℤ → ℕ
pos_part (pos n) = n
pos_part (negsuc n) = 0

abbrev pub neg_part : ℤ → ℕ
neg_part (pos n) = 0
neg_part (negsuc n) = suc n

-- a - b, as an integer.
abbrev pub sub_ℕ : ℕ → ℕ → ℤ
sub_ℕ a b = if leb b a then pos (a - b) else negsuc (b - a - 1)

infixl 65 ◌+ℤ◌ ◌-ℤ◌
infix 50 ◌≤ℤ◌
unfoldable pub ◌+ℤ◌ : ℤ → ℤ → ℤ
a +ℤ b = sub_ℕ (pos_part a + pos_part b) (neg_part a + neg_part b)

unfoldable pub ◌-ℤ◌ : ℤ → ℤ → ℤ
a -ℤ b = sub_ℕ (pos_part a + neg_part b) (neg_part a + pos_part b)

abbrev pub ◌≤ℤ◌ : ℤ → ℤ → Type 0
a ≤ℤ b = pos_part a + neg_part b ≤ pos_part b + neg_part a

abbrev pub ltb_ℤ : ℤ → ℤ → Bool
ltb_ℤ a b = ltb (pos_part a + neg_part b) (pos_part b + neg_part a)

infix 50 ◌<ℤ◌
abbrev pub ◌<ℤ◌ : ℤ → ℤ → Type 0
a <ℤ b = pos_part a + neg_part b < pos_part b + neg_part a

abbrev pub leb_ℤ : ℤ → ℤ → Bool
leb_ℤ a b = leb (pos_part a + neg_part b) (pos_part b + neg_part a)

abbrev pub eq_ℤ : ℤ → ℤ → Bool
eq_ℤ a b = pos_part a == pos_part b && neg_part a == neg_part b

pub eq_of_parts : (a b : ℤ) → pos_part a + neg_part b ≡ pos_part b + neg_part a → a ≡ b
eq_of_parts a b h = ground arith

-- Go's `int32`: the 32-bit pattern of an integer, and the integer that a pattern stands for.
abbrev pub bits32 : ℤ → ℕ
bits32 (pos n) = n % 4294967296
bits32 (negsuc n) = 4294967295 - n % 4294967296

abbrev pub of_bits32 : ℕ → ℤ
of_bits32 u = if ltb u 2147483648 then pos u else negsuc (4294967295 - u)

unfoldable pub wrap32 : ℤ → ℤ
wrap32 z = of_bits32 (bits32 z)

-- Sums and differences of `int32` values wrap around.
unfoldable pub add32 : ℤ → ℤ → ℤ
unfolding wrap32 ◌+ℤ◌
add32 a b = wrap32 (a +ℤ b)

unfoldable pub sub32 : ℤ → ℤ → ℤ
unfolding wrap32 ◌-ℤ◌
sub32 a b = wrap32 (a -ℤ b)

abbrev pub max_int32 : ℕ
max_int32 = 2147483647

-- The values of `int32`.
abbrev pub IsInt32 : ℤ → Type 0
IsInt32 z = (pos_part z ≤ 2147483647) × (neg_part z ≤ 2147483648)

pub wrap32_of_IsInt32 : (z : ℤ) → IsInt32 z → wrap32 z ≡ z
unfolding wrap32
wrap32_of_IsInt32 z h = ground arith

pub wrap32-IsInt32 : (z : ℤ) → IsInt32 (wrap32 z)
unfolding wrap32
wrap32-IsInt32 z = ground arith

pub add32_pos : (a b : ℕ) → a + b ≤ 2147483647 → add32 (pos a) (pos b) ≡ pos (a + b)
unfolding add32
add32_pos a b h = ground arith

-- A sum past the largest `int32` comes out negative.
pub add32_overflow :
    (a b : ℕ)
    → a ≤ 2147483647
    → b ≤ 2147483647
    → 2147483647 < a + b
    → add32 (pos a) (pos b) ≡ negsuc (4294967295 - (a + b))
unfolding add32
add32_overflow a b h k o = ground arith

pub sub32_pos : (a b : ℕ) → a ≤ 2147483647 → b ≤ a → sub32 (pos a) (pos b) ≡ pos (a - b)
unfolding sub32
sub32_pos a b h k = ground arith

pub sub32_neg : (a b : ℕ) → b ≤ 2147483647 → a < b → sub32 (pos a) (pos b) ≡ negsuc (b - a - 1)
unfolding sub32
sub32_neg a b h k = ground arith
