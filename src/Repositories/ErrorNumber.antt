-- ===== src/Repositories/ErrorNumber.antt =====
-- src/repositories/block_header.rs, the number that a validation error names.
use fossil_headers_db.Prelude.{negsuc, ◌≡◌, refl, ◌++◌}
use fossil_headers_db.Text.{Text, text, parse_i64, from_str_radix, scan, to_digit}
use fossil_headers_db.Rpc.{BlockHeader}
use fossil_headers_db.Repositories.Convert.{error_number}

-- For a header whose number has the node's form `0x…`, the number that an error names is -1.
pub error_number_hex :
    (h : BlockHeader) (s : Text) → h.number ≡ text "0x" ++ s → error_number h ≡ negsuc 0
unfolding error_number parse_i64 from_str_radix scan to_digit text
error_number_hex h s e = rw e refl
