-- ===== src/Repositories/Replacing.antt =====
-- src/repositories/block_header.rs: what the upserts leave as the row of a block.
use fossil_headers_db.Prelude.{ℤ, eqb_ℤ, List, [], ◌∷◌, Option, none, some, if◌then◌else◌}
use fossil_headers_db.Database.Rows.{HeaderRow}

-- The first row of a block.
abbrev pub row_for : ℤ → List HeaderRow → Option HeaderRow
row_for n [] = none
row_for n (r ∷ rows) = if eqb_ℤ r.number n then some r else row_for n rows

abbrev pub or_row : Option HeaderRow → Option HeaderRow → Option HeaderRow
or_row none o = o
or_row (some r) o = some r

-- The last of some rows for a block.
abbrev pub last_for : ℤ → List HeaderRow → Option HeaderRow
last_for n [] = none
last_for n (r ∷ rs) = or_row (last_for n rs) (if eqb_ℤ r.number n then some r else none)
