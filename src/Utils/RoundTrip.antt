-- ===== src/Utils/RoundTrip.antt =====
-- The fields that the node prints are read back.
use fossil_headers_db.Prelude.{suc, ℤ, pos, ◌≤ℤ◌, ◌<ℤ◌, ◌≡◌, refl, true, [], ◌++◌, arith}
use fossil_headers_db.Prelude.Machine.{i64_half, to_bits}
use fossil_headers_db.Result.{ok}
use fossil_headers_db.Text.{text, hex_i64, trim_0x, all_hex}
use fossil_headers_db.Text.Radix.{all_hex-digits, trim_0x-all_hex}
use fossil_headers_db.Types.RoundTrip.{read_hex}
use fossil_headers_db.Utils.{convert_hex_string_to_i64}

all_hex-hex_i64 : (v : ℤ) → all_hex (hex_i64 v) ≡ true
unfolding hex_i64
all_hex-hex_i64 v =
    all_hex-digits 16 (omega arith) (omega arith) (suc (to_bits v)) (to_bits v) [] (omega arith)
      (unfold all_hex in refl)

trim_0x-hex_i64 : (v : ℤ) → trim_0x (text "0x" ++ hex_i64 v) ≡ hex_i64 v
unfolding text trim_0x
trim_0x-hex_i64 v = trim_0x-all_hex (hex_i64 v) (all_hex-hex_i64 v)

-- A number from 0 to `i64::MAX` is read back from the form `0x…` in which it is requested.
pub convert-hex_i64 :
    (v : ℤ)
    → pos 0 ≤ℤ v
    → v <ℤ pos i64_half
    → convert_hex_string_to_i64 (text "0x" ++ hex_i64 v) ≡ ok v
unfolding convert_hex_string_to_i64
convert-hex_i64 v h k = rw (trim_0x-hex_i64 v) (rw (read_hex v h k))
