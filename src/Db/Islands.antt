-- ===== src/Db/Islands.antt =====
-- src/db/mod.rs, `find_missing_block_ranges`: its ranges beside the missing blocks one by one.
use fossil_headers_db.Prelude.{ℕ, ◌+◌, ◌≤◌, ℤ, pos, List, [], ◌∷◌, ◌++◌}
use fossil_headers_db.Blocks.{inclusive}

-- Ranges from `lo` to `hi`, ascending, none of them empty, and with a number between each two.
abbrev pub AreIslands : ℕ → ℕ → List (ℤ × ℤ) → Type 0
AreIslands lo hi [] = Unit {0}
AreIslands lo hi ((pos f, pos l) ∷ gs) = (lo ≤ f) × (f ≤ l) × (l ≤ hi) × AreIslands (l + 2) hi gs
AreIslands lo hi ((_, _) ∷ gs) = 1 ≤ 0

-- The numbers of some ranges.
abbrev pub expand : List (ℤ × ℤ) → List ℤ
expand [] = []
expand ((f, l) ∷ gs) = inclusive f l ++ expand gs
