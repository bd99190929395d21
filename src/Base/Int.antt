-- ===== src/Base/Int.antt =====
-- Integers over the native numbers, and the machine's 64-bit words. An int64 is an integer in
-- range, an uint64 a number below 2 ^ 64, and every operation wraps.
use Prim.Native.Nat.{ℕ, zero, suc, ◌+◌, ◌-◌, ◌*◌, ◌/◌, ◌%◌, ◌^◌, ◌<◌, ◌≤◌}
use mathlib.Core.Path.{◌≡◌}
use mathlib.Core.Bool.{Bool}
use native.Mathlib.Omega.{arith}
use csi_hostpath.Base.Tests.{ltb, leb, if◌then◌else◌}

-- `negsuc n` is -(n + 1).
pub data ℤ : Type 0 where
  pos : ℕ → ℤ
  negsuc : ℕ → ℤ

abbrev pos_part : ℤ → ℕ
pos_part (pos n) = n
pos_part (negsuc n) = 0

abbrev neg_part : ℤ → ℕ
neg_part (pos n) = 0
neg_part (negsuc n) = suc n

-- a - b
abbrev sub_ℕ : ℕ → ℕ → ℤ
sub_ℕ a b = if leb b a then pos (a - b) else negsuc (b - a - 1)

abbrev pub ltb_ℤ : ℤ → ℤ → Bool
ltb_ℤ a b = ltb (pos_part a + neg_part b) (pos_part b + neg_part a)

-- `uint64(z)`, and `int64(n)` of an uint64
unfoldable pub to_uint64 : ℤ → ℕ
to_uint64 (pos n) = n % 2 ^ 64
to_uint64 (negsuc n) = 2 ^ 64 - 1 - n % 2 ^ 64

unfoldable pub to_int64 : ℕ → ℤ
to_int64 n = if ltb n (2 ^ 63) then pos n else negsuc (2 ^ 64 - 1 - n)

abbrev wrap : ℤ → ℤ
wrap z = to_int64 (to_uint64 z)

-- `a + b`, `a - b`, `a * b` and `a / b` of int64; the division is by a positive constant, and
-- rounds towards zero.
unfoldable pub add64 : ℤ → ℤ → ℤ
unfolding to_uint64 to_int64
add64 a b = wrap (sub_ℕ (pos_part a + pos_part b) (neg_part a + neg_part b))

unfoldable pub sub64 : ℤ → ℤ → ℤ
unfolding to_uint64 to_int64
sub64 a b = wrap (sub_ℕ (pos_part a + neg_part b) (neg_part a + pos_part b))

unfoldable pub mul64 : ℤ → ℕ → ℤ
unfolding to_uint64 to_int64
mul64 a k = wrap (sub_ℕ (pos_part a * k) (neg_part a * k))

unfoldable pub quot64 : ℤ → ℕ → ℤ
quot64 a k = sub_ℕ (pos_part a / k) (neg_part a / k)

-- -n
abbrev opposite : ℕ → ℤ
opposite zero = pos 0
opposite (suc n) = negsuc n

abbrev mul_ℤ : ℤ → ℤ → ℤ
mul_ℤ (pos a) (pos b) = pos (a * b)
mul_ℤ (pos a) (negsuc b) = opposite (a * suc b)
mul_ℤ (negsuc a) (pos b) = opposite (suc a * b)
mul_ℤ (negsuc a) (negsuc b) = pos (suc a * suc b)

-- `a * b` of two int64, and `a - b` of uint64
unfoldable pub times64 : ℤ → ℤ → ℤ
unfolding to_uint64 to_int64
times64 a b = wrap (mul_ℤ a b)

unfoldable pub sub_uint64 : ℕ → ℕ → ℕ
sub_uint64 a b = (a + (2 ^ 64 - b % 2 ^ 64)) % 2 ^ 64

-- In range nothing wraps.
pub add64-pos : (a b : ℕ) → a + b < 2 ^ 63 → add64 (pos a) (pos b) ≡ pos (a + b)
unfolding add64
add64-pos a b h = ground arith

pub sub64-pos : (a b : ℕ) → b < a → a < 2 ^ 63 → sub64 (pos a) (pos b) ≡ pos (a - b)
unfolding sub64
sub64-pos a b h k = ground arith

pub quot64-pos : (a k : ℕ) → quot64 (pos a) k ≡ pos (a / k)
unfolding quot64
quot64-pos a k = ground arith

pub mul64-pos : (a k : ℕ) → a * k < 2 ^ 63 → mul64 (pos a) k ≡ pos (a * k)
unfolding mul64
mul64-pos a k h = ground arith

pub times64-pos : (a b : ℕ) → a * b < 2 ^ 63 → times64 (pos a) (pos b) ≡ pos (a * b)
unfolding times64 to_uint64 to_int64
times64-pos a b h = ground arith

pub sub_uint64-le : (a b : ℕ) → b ≤ a → a < 2 ^ 64 → sub_uint64 a b ≡ a - b
unfolding sub_uint64
sub_uint64-le a b h k = omega arith

pub to_int64-pos : (n : ℕ) → n < 2 ^ 63 → to_int64 n ≡ pos n
unfolding to_int64
to_int64-pos n h = ground arith
