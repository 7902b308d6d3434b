-- ===== src/Types.antt =====
-- src/types.rs: validated block numbers, hashes and addresses.
pub mod Hashes
pub mod RoundTrip
use fossil_headers_db.Prelude.{ℕ, ℤ, pos, ltb_ℤ, leb_ℤ, eqb_ℤ, Bool, ◌++◌}
use fossil_headers_db.Prelude.Machine.{i64_half, add_i64, sub_i64}
use fossil_headers_db.Result.{Result, ok, err, ◌>>=◌, ◌>>◌, map_err, fail_if}
use fossil_headers_db.Text.{
  Text, text, strip_0x, from_str_radix, parse_i64, show_i64, show_int_error,
}
use fossil_headers_db.Errors.{BlockchainError, invalid_format}

-- `struct BlockNumber(i64)`, ordered as its value.
pub record BlockNumber : Type 0 where
  pub value : ℤ

abbrev pub from_trusted : ℤ → BlockNumber
from_trusted v = record { value = v }

-- `i64::MAX - 1000`.
abbrev pub largest : ℤ
largest = pos 9223372036854774807

-- `BlockNumber::new`.
unfoldable pub new : ℤ → Result BlockchainError BlockNumber
new v = do
  fail_if (ltb_ℤ v (pos 0)) (
      invalid_format (text "block_number") (text "Block number cannot be negative: " ++ show_i64 v))
  fail_if (ltb_ℤ largest v)
      (invalid_format (text "block_number") (text "Block number too large: " ++ show_i64 v))
  ok (from_trusted v)

unfoldable pub from_hex : Text → Result BlockchainError BlockNumber
from_hex hex = do
  value ←
      map_err
        (λ e.
          invalid_format (text "block_number")
            (text "Invalid hex block number '" ++ (hex ++ (text "': " ++ show_int_error e))))
        (from_str_radix i64_half 16 (strip_0x hex))
  new value

-- `impl FromStr`.
unfoldable pub from_str : Text → Result BlockchainError BlockNumber
from_str s = do
  value ←
      map_err
        (λ e.
          invalid_format (text "block_number")
            (text "Invalid block number '" ++ (s ++ (text "': " ++ show_int_error e))))
        (parse_i64 s)
  new value

-- `impl Display`.
unfoldable pub display : BlockNumber → Text
display b = show_i64 b.value

-- `impl Add<i64>`, `impl Sub<i64>` and `impl Sub<Self>`.
unfoldable pub add : BlockNumber → ℤ → BlockNumber
unfolding add_i64
add b n = from_trusted (add_i64 b.value n)

unfoldable pub sub : BlockNumber → ℤ → BlockNumber
unfolding sub_i64
sub b n = from_trusted (sub_i64 b.value n)

unfoldable pub sub_self : BlockNumber → BlockNumber → BlockNumber
unfolding sub_i64
sub_self b c = from_trusted (sub_i64 b.value c.value)

-- The derived order.
abbrev pub lt : BlockNumber → BlockNumber → Bool
lt b c = ltb_ℤ b.value c.value

abbrev pub le : BlockNumber → BlockNumber → Bool
le b c = leb_ℤ b.value c.value

abbrev pub eq : BlockNumber → BlockNumber → Bool
eq b c = eqb_ℤ b.value c.value
