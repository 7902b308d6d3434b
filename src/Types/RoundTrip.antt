-- ===== src/Types/RoundTrip.antt =====
-- Block numbers: which values are accepted, and that what is printed is read back.
use fossil_headers_db.Prelude.{◌%◌, ℤ, pos, negsuc, ◌≤ℤ◌, ◌<ℤ◌, ◌≡◌, refl, ◌↔◌, ◌++◌, arith}
use fossil_headers_db.Prelude.Machine.{i64_half, i64_modulus, IsI64, to_bits}
use fossil_headers_db.Result.{ok}
use fossil_headers_db.Text.{text, show_i64, hex_i64, show_nat, parse_i64, from_str_radix, strip_0x}
use fossil_headers_db.Text.Radix.{from_str_radix-digits, from_str_radix-negative}
use fossil_headers_db.Types.{BlockNumber, from_trusted, largest, new, from_hex, from_str, display}

-- What `new` accepts.
abbrev pub IsValid : BlockNumber → Type 0
IsValid b = (pos 0 ≤ℤ b.value) × (b.value ≤ℤ largest)

-- Validation succeeds exactly on the numbers from 0 to `i64::MAX - 1000`, and keeps the value.
pub new_iff :
    (v : ℤ) (b : BlockNumber) → (new v ≡ ok b) ↔ ((b ≡ from_trusted v) × IsValid (from_trusted v))
unfolding new
new_iff v b = ground arith

-- Every 64-bit number is read back from its decimal form.
pub parse_i64-show_i64 : (a : ℤ) → IsI64 a → parse_i64 (show_i64 a) ≡ ok a
unfolding parse_i64 show_i64 show_nat
parse_i64-show_i64 (pos n) h =
    from_str_radix-digits 10 (omega arith) (omega arith) i64_half n h.below
parse_i64-show_i64 (negsuc n) h =
    from_str_radix-negative 10 (omega arith) (omega arith) i64_half n h.above

pub new-IsValid : (b : BlockNumber) → IsValid b → new b.value ≡ ok b
new-IsValid b h = (new_iff b.value b).1 (refl, h)

-- A valid block number is read back from the text that it is displayed as.
pub from_str-display : (b : BlockNumber) → IsValid b → from_str (display b) ≡ ok b
unfolding from_str display
from_str-display b h = rw (parse_i64-show_i64 b.value (ground arith)) (new-IsValid b h)

-- A 64-bit number that is not negative is read back from its hexadecimal digits.
pub read_hex :
    (v : ℤ) → pos 0 ≤ℤ v → v <ℤ pos i64_half → from_str_radix i64_half 16 (hex_i64 v) ≡ ok v
unfolding hex_i64 to_bits
read_hex (pos n) h k =
    let small : n % i64_modulus ≡ n = omega arith in
    rw small (from_str_radix-digits 16 (omega arith) (omega arith) i64_half n (omega arith))
read_hex (negsuc n) h k = absurd (omega arith)

-- A valid block number is read back from the hexadecimal form that requests and headers carry.
pub from_hex-hex_i64 :
    (b : BlockNumber) → IsValid b → from_hex (text "0x" ++ hex_i64 b.value) ≡ ok b
unfolding from_hex strip_0x text
from_hex-hex_i64 b h = rw (read_hex b.value h.0 (omega arith)) (new-IsValid b h)
