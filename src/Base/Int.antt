-- ===== src/Base/Int.antt =====
-- Signed integers over the native numbers, and the bit pattern of an `i64`.
use Prim.Native.Nat.{ℕ, suc, ◌+◌, ◌-◌, ◌%◌, ◌^◌, ◌<◌}
use mathlib.Core.Path.{◌≡◌}
use mathlib.Core.Bool.{Bool, true, false}
use native.Mathlib.Omega.{arith}
use aux_ducklake.Base.Tests.{ltb, if◌then◌else◌}

-- `negsuc n` is -(n + 1).
pub data ℤ : Type 0 where
  pos : ℕ → ℤ
  negsuc : ℕ → ℤ

abbrev pub ltb_ℤ : ℤ → ℤ → Bool
ltb_ℤ (pos a) (pos b) = ltb a b
ltb_ℤ (pos a) (negsuc b) = false
ltb_ℤ (negsuc a) (pos b) = true
ltb_ℤ (negsuc a) (negsuc b) = ltb b a

abbrev pub IsI64 : ℤ → Type 0
IsI64 (pos n) = n < 2 ^ 63
IsI64 (negsuc n) = n < 2 ^ 63

-- Two's complement in 64 bits.
unfoldable pub i64_bits : ℤ → ℕ
i64_bits (pos n) = n
i64_bits (negsuc n) = 2 ^ 64 - suc n

unfoldable pub i64_of_bits : ℕ → ℤ
i64_of_bits u = if ltb u (2 ^ 63) then pos u else negsuc (2 ^ 64 - suc u)

-- `bits ^ i64::MIN`: the top bit of a 64-bit pattern is flipped.
unfoldable pub flip_top_bit : ℕ → ℕ
flip_top_bit u = (u + 2 ^ 63) % 2 ^ 64

pub i64_bits-lt : (v : ℤ) → IsI64 v → i64_bits v < 2 ^ 64
unfolding i64_bits
i64_bits-lt (pos n) h = omega arith
i64_bits-lt (negsuc n) h = omega arith

pub i64_of_bits-i64_bits : (v : ℤ) → IsI64 v → i64_of_bits (i64_bits v) ≡ v
unfolding i64_bits i64_of_bits
i64_of_bits-i64_bits (pos n) h = ground arith
i64_of_bits-i64_bits (negsuc n) h = ground arith

pub flip_top_bit-lt : (u : ℕ) → flip_top_bit u < 2 ^ 64
unfolding flip_top_bit
flip_top_bit-lt u = omega arith

pub flip_top_bit_involutive : (u : ℕ) → u < 2 ^ 64 → flip_top_bit (flip_top_bit u) ≡ u
unfolding flip_top_bit
flip_top_bit_involutive u h = omega arith

-- With the top bit flipped the bit patterns are ordered as the integers.
pub ltb-flip_top_bit :
    (a b : ℤ)
    → IsI64 a
    → IsI64 b
    → ltb (flip_top_bit (i64_bits a)) (flip_top_bit (i64_bits b)) ≡ ltb_ℤ a b
unfolding flip_top_bit i64_bits
ltb-flip_top_bit (pos a) (pos b) ha hb = ground arith
ltb-flip_top_bit (pos a) (negsuc b) ha hb = ground arith
ltb-flip_top_bit (negsuc a) (pos b) ha hb = ground arith
ltb-flip_top_bit (negsuc a) (negsuc b) ha hb = ground arith
