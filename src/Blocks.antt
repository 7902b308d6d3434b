-- ===== src/Blocks.antt =====
-- What both services do with blocks: ranges of numbers, and the sort before an insert.
use fossil_headers_db.Prelude.{
  ℕ, zero, suc, ◌+◌, ℤ, pos, leb_ℤ, Bool, List, [], ◌∷◌, ◌++◌, if◌then◌else◌,
}
use fossil_headers_db.Prelude.Machine.{add_i64, sub_i64}
use fossil_headers_db.Result.{Result, ok, err}
use fossil_headers_db.Text.{Text, text, show_i64}
use fossil_headers_db.Errors.{Report, message}
use fossil_headers_db.Rpc.{BlockHeader}
use fossil_headers_db.Repositories.Lookup.{block_key}
pub mod Ranges
pub mod Sorted

-- `start + idx`, `start + (idx + 1)`, … for the positions of a list.
unfoldable pub numbered : ℤ → ℕ → ℕ → List ℤ
unfolding add_i64
numbered start idx zero = []
numbered start idx (suc count) = add_i64 start (pos idx) ∷ numbered start (idx + 1) count

-- How many numbers there are from one to another, both included.
abbrev pub span : ℤ → ℕ
span (pos n) = n
span _ = 0

-- `(first..=last).collect()`.
unfoldable pub inclusive : ℤ → ℤ → List ℤ
inclusive first last =
    if leb_ℤ first last then numbered first 0 (suc (span (sub_i64 last first))) else []

-- `usize::try_from(last - first + 1)`.
unfoldable pub expected_count : ℤ → ℤ → Result Report ℕ
unfolding add_i64 sub_i64
expected_count first last = elim (add_i64 (sub_i64 last first) (pos 1)) [
  | pos n ↦ ok n
  | _ ↦
      err (
        message
          (text "Invalid block range: " ++ (show_i64 first ++ (text " to " ++ show_i64 last))))
]

-- `sort_by_key`, which is stable.
unfoldable pub insert_header : BlockHeader → List BlockHeader → List BlockHeader
unfolding block_key
insert_header h [] = h ∷ []
insert_header h (g ∷ gs) =
    if leb_ℤ (block_key h) (block_key g) then h ∷ g ∷ gs else g ∷ insert_header h gs

unfoldable pub sort_headers : List BlockHeader → List BlockHeader
unfolding insert_header
sort_headers [] = []
sort_headers (h ∷ hs) = insert_header h (sort_headers hs)

-- `{:?}` of a list of numbers.
unfoldable pub show_more : List ℤ → Text
show_more [] = text "]"
show_more (n ∷ ns) = text ", " ++ (show_i64 n ++ show_more ns)

unfoldable pub show_list : List ℤ → Text
unfolding show_more
show_list [] = text "[]"
show_list (n ∷ ns) = text "[" ++ (show_i64 n ++ show_more ns)
