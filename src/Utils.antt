-- ===== src/Utils.antt =====
-- src/utils.rs: hexadecimal fields of the node's answers.
pub mod RoundTrip
use fossil_headers_db.Prelude.{ℕ, ℤ}
use fossil_headers_db.Prelude.Machine.{i64_half, i32_half}
use fossil_headers_db.Result.{Result, map_err}
use fossil_headers_db.Text.{Text, trim_0x, from_str_radix}
use fossil_headers_db.Errors.{BlockchainError, invalid_hex}

unfoldable pub convert_hex_string_to_i64 : Text → Result BlockchainError ℤ
convert_hex_string_to_i64 s = map_err (λ _. invalid_hex s) (from_str_radix i64_half 16 (trim_0x s))

unfoldable pub convert_hex_string_to_i32 : Text → Result BlockchainError ℤ
convert_hex_string_to_i32 s = map_err (λ _. invalid_hex s) (from_str_radix i32_half 16 (trim_0x s))
