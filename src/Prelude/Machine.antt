-- ===== src/Prelude/Machine.antt =====
-- Rust's `i64`, as integers with the wrap-around of a release build written out.
use fossil_headers_db.Prelude.Int.{ℤ, pos, negsuc, pos_part, neg_part, ◌+ℤ◌, ◌-ℤ◌}
use fossil_headers_db.Prelude.Tests.{ltb, if◌then◌else◌}
use Prim.Native.Nat.{ℕ, ◌-◌, ◌%◌, ◌≤◌, ◌<◌}
use mathlib.Core.Path.{◌≡◌}
use native.Mathlib.Omega.{arith}

-- 2^63 and 2^64.
abbrev pub i64_half : ℕ
i64_half = 9223372036854775808

abbrev pub i64_modulus : ℕ
i64_modulus = 18446744073709551616

abbrev pub i64_max : ℤ
i64_max = pos 9223372036854775807

-- 2^31.
abbrev pub i32_half : ℕ
i32_half = 2147483648

-- The bit pattern of a number in two's complement, and the number that a pattern stands for.
unfoldable pub to_bits : ℤ → ℕ
to_bits (pos n) = n % i64_modulus
to_bits (negsuc n) = i64_modulus - 1 - n % i64_modulus

unfoldable pub of_bits : ℕ → ℤ
of_bits b = if ltb b i64_half then pos b else negsuc (i64_modulus - 1 - b)

unfoldable pub wrap_i64 : ℤ → ℤ
unfolding to_bits of_bits
wrap_i64 a = of_bits (to_bits a)

unfoldable pub add_i64 : ℤ → ℤ → ℤ
unfolding wrap_i64 ◌+ℤ◌
add_i64 a b = wrap_i64 (a +ℤ b)

unfoldable pub sub_i64 : ℤ → ℤ → ℤ
unfolding wrap_i64 ◌-ℤ◌
sub_i64 a b = wrap_i64 (a -ℤ b)

-- The range of the type.
pub record IsI64 (a : ℤ) : Type 0 where
  pub below : pos_part a < i64_half
  pub above : neg_part a ≤ i64_half

pub wrap_i64-eq : (a : ℤ) → IsI64 a → wrap_i64 a ≡ a
unfolding wrap_i64
wrap_i64-eq (pos n) h = ground arith
wrap_i64-eq (negsuc n) h = ground arith

-- Where the exact result fits, the machine's operation is exact.
pub add_i64-eq : (a b : ℤ) → IsI64 (a +ℤ b) → add_i64 a b ≡ a +ℤ b
unfolding add_i64
add_i64-eq a b h = wrap_i64-eq (a +ℤ b) h

pub sub_i64-eq : (a b : ℤ) → IsI64 (a -ℤ b) → sub_i64 a b ≡ a -ℤ b
unfolding sub_i64
sub_i64-eq a b h = wrap_i64-eq (a -ℤ b) h
