-- ===== src/Types/Hashes.antt =====
-- src/types.rs: `BlockHash`, `TransactionHash` and `Address`.
use fossil_headers_db.Prelude.{not, ◌++◌, ◌==◌, length}
use fossil_headers_db.Result.{Result, ok, ◌>>◌, fail_if}
use fossil_headers_db.Text.{Text, text, strip_0x, all_hex, show_nat}
use fossil_headers_db.Errors.{BlockchainError, invalid_format}

-- `validate_hex_hash`, which `BlockHash` and `TransactionHash` have word for word.
unfoldable pub validate_hex_hash : Text → Text → Result BlockchainError (Unit {0})
validate_hex_hash value field = do
  let cleaned = strip_0x value
  fail_if (not (length cleaned == 64)) (
      invalid_format field (
        text "Hash must be 64 hex characters (got "
        ++ (show_nat (length cleaned) ++ (text "): " ++ value))))
  fail_if (not (all_hex cleaned))
      (invalid_format field (text "Hash contains non-hex characters: " ++ value))
  ok tt

abbrev pub validate_transaction_hash : Text → Text → Result BlockchainError (Unit {0})
validate_transaction_hash = validate_hex_hash

unfoldable pub validate_address : Text → Result BlockchainError (Unit {0})
validate_address value = do
  let cleaned = strip_0x value
  fail_if (not (length cleaned == 40)) (
      invalid_format (text "address") (
        text "Address must be 40 hex characters (got "
        ++ (show_nat (length cleaned) ++ (text "): " ++ value))))
  fail_if (not (all_hex cleaned))
      (invalid_format (text "address") (text "Address contains non-hex characters: " ++ value))
  ok tt

pub record BlockHash : Type 0 where
  pub value : Text

pub record TransactionHash : Type 0 where
  pub value : Text

pub record Address : Type 0 where
  pub value : Text

unfoldable pub new_block_hash : Text → Result BlockchainError BlockHash
unfolding validate_hex_hash
new_block_hash v = do validate_hex_hash v (text "block_hash"); ok (record { value = v })

unfoldable pub new_transaction_hash : Text → Result BlockchainError TransactionHash
unfolding validate_hex_hash
new_transaction_hash v = do
  validate_transaction_hash v (text "transaction_hash")
  ok (record { value = v })

unfoldable pub new_address : Text → Result BlockchainError Address
unfolding validate_address
new_address v = do validate_address v; ok (record { value = v })

-- `impl FromStr`.
abbrev pub block_hash_from_str : Text → Result BlockchainError BlockHash
block_hash_from_str s = new_block_hash s

abbrev pub transaction_hash_from_str : Text → Result BlockchainError TransactionHash
transaction_hash_from_str s = new_transaction_hash s

abbrev pub address_from_str : Text → Result BlockchainError Address
address_from_str s = new_address s

-- `from_trusted`, which validates nothing.
abbrev pub trusted_block_hash : Text → BlockHash
trusted_block_hash v = record { value = v }

abbrev pub trusted_transaction_hash : Text → TransactionHash
trusted_transaction_hash v = record { value = v }

abbrev pub trusted_address : Text → Address
trusted_address v = record { value = v }

-- `impl Display` and the conversion to a string.
abbrev pub show_block_hash : BlockHash → Text
show_block_hash h = h.value

abbrev pub show_transaction_hash : TransactionHash → Text
show_transaction_hash h = h.value

abbrev pub show_address : Address → Text
show_address a = a.value
