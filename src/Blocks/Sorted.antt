-- ===== src/Blocks/Sorted.antt =====
-- A property of every header of a list, and that the sort keeps it.
use fossil_headers_db.Prelude.{inl, inr, List, [], ◌∷◌, Bool-cases, leb_ℤ}
use fossil_headers_db.Rpc.{BlockHeader}
use fossil_headers_db.Repositories.Lookup.{block_key}
use fossil_headers_db.Blocks.{insert_header, sort_headers}

abbrev pub All : (BlockHeader → Type 0) → List BlockHeader → Type 0
All P [] = Unit {0}
All P (h ∷ hs) = P h × All P hs

module _ (P : BlockHeader → Type 0) where
  insert_header-All :
      (h : BlockHeader) (hs : List BlockHeader) → P h → All P hs → All P (insert_header h hs)
  unfolding insert_header
  insert_header-All h [] s ss = (s, tt)
  insert_header-All h (g ∷ gs) s (r, rs) = elim (Bool-cases (leb_ℤ (block_key h) (block_key g))) [
    | inl before ↦ rw before (s, (r, rs))
    | inr behind ↦ rw behind (r, insert_header-All h gs s rs)
  ]

  pub sort_headers-All : (hs : List BlockHeader) → All P hs → All P (sort_headers hs)
  unfolding sort_headers
  sort_headers-All [] ss = tt
  sort_headers-All (h ∷ hs) (s, ss) =
      insert_header-All h (sort_headers hs) s (sort_headers-All hs ss)
