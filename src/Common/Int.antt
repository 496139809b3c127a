-- ===== src/Common/Int.antt =====
-- Signed integers over the native numbers, under the library's names, and their 64-bit range.
use Prim.Native.Nat.{ℕ, suc, ◌+◌, ◌-◌, ◌%◌, ◌^◌, ◌≤◌, ◌<◌}
use mathlib.Core.Path.{◌≡◌}
use mathlib.Core.Bool.{Bool}
use native.Mathlib.Omega.{arith}
use lomo_backup.Common.Tests.{ltb, leb, ◌==◌, if◌then◌else◌}

-- `negsuc n` is -(n + 1).
pub data ℤ : Type 0 where
  pos : ℕ → ℤ
  negsuc : ℕ → ℤ

abbrev pub pos_part : ℤ → ℕ
pos_part (pos n) = n
pos_part (negsuc n) = 0

abbrev pub neg_part : ℤ → ℕ
neg_part (pos n) = 0
neg_part (negsuc n) = suc n

-- a - b, as an integer.
abbrev pub sub_ℕ : ℕ → ℕ → ℤ
sub_ℕ a b = if leb b a then pos (a - b) else negsuc (b - a - 1)

infixl 65 ◌+ℤ◌ ◌-ℤ◌
abbrev pub ◌+ℤ◌ : ℤ → ℤ → ℤ
a +ℤ b = sub_ℕ (pos_part a + pos_part b) (neg_part a + neg_part b)

abbrev pub ◌-ℤ◌ : ℤ → ℤ → ℤ
a -ℤ b = sub_ℕ (pos_part a + neg_part b) (neg_part a + pos_part b)

abbrev pub ltb_ℤ : ℤ → ℤ → Bool
ltb_ℤ a b = ltb (pos_part a + neg_part b) (pos_part b + neg_part a)

abbrev pub leb_ℤ : ℤ → ℤ → Bool
leb_ℤ a b = leb (pos_part a + neg_part b) (pos_part b + neg_part a)

abbrev pub eqb_ℤ : ℤ → ℤ → Bool
eqb_ℤ a b = pos_part a + neg_part b == pos_part b + neg_part a

-- The 64-bit pattern of an integer, and the int64 that a pattern stands for.
abbrev pattern_of : ℤ → ℕ
pattern_of (pos n) = n % 2 ^ 64
pattern_of (negsuc n) = 2 ^ 64 - 1 - n % 2 ^ 64

abbrev int64_of : ℕ → ℤ
int64_of m = if ltb m (2 ^ 63) then pos m else negsuc (2 ^ 64 - 1 - m)

unfoldable pub wrap64 : ℤ → ℤ
wrap64 z = int64_of (pattern_of z)

-- Sums and differences of int64 values wrap around.
unfoldable pub add64 : ℤ → ℤ → ℤ
unfolding wrap64
add64 a b = wrap64 (a +ℤ b)

unfoldable pub sub64 : ℤ → ℤ → ℤ
unfolding wrap64
sub64 a b = wrap64 (a -ℤ b)

abbrev pub IsInt64 : ℤ → Type 0
IsInt64 z = (pos_part z < 2 ^ 63) × (neg_part z ≤ 2 ^ 63)

pub wrap64_id : (z : ℤ) → IsInt64 z → wrap64 z ≡ z
unfolding wrap64
wrap64_id (pos n) h = ground arith
wrap64_id (negsuc n) h = ground arith

-- Offsets of a file stay in range.
pub add64_pos : (a b : ℕ) → a + b < 2 ^ 63 → add64 (pos a) (pos b) ≡ pos (a + b)
unfolding add64
add64_pos a b h = ground arith

pub sub64_pos : (a b : ℕ) → b ≤ a → a < 2 ^ 63 → sub64 (pos a) (pos b) ≡ pos (a - b)
unfolding sub64
sub64_pos a b h k = ground arith

pub add64_negsuc : (a b : ℕ) → a < 2 ^ 63 → b < a → add64 (pos a) (negsuc b) ≡ pos (a - suc b)
unfolding add64
add64_negsuc a b h k = ground arith

pub add64_below : (a b : ℕ) → b < 2 ^ 63 → a ≤ b → add64 (pos a) (negsuc b) ≡ negsuc (b - a)
unfolding add64
add64_below a b h k = ground arith

pub sub64_negsuc : (b : ℕ) → b + 1 < 2 ^ 63 → sub64 (pos 0) (negsuc b) ≡ pos (b + 1)
unfolding sub64
sub64_negsuc b h = ground arith
