-- ===== src/Quick/Invariant.antt =====
-- src/indexer/quick_service.rs: what an attempt keeps. From the starting block to the recorded latest block, no block is
-- missing, whatever the node answers and whenever the database fails.
use fossil_headers_db.Prelude.{
  ℕ, ℤ, pos, negsuc, ◌+ℤ◌, int_laws, ◌≤ℤ◌, ◌<ℤ◌, leb_ℤ, ◌≡◌, refl, inl, inr, Bool, true, false,
  ◌||◌, List, [], ◌∷◌, map, arith, Bool-cases,
}
use fossil_headers_db.Prelude.Machine.{add_i64}
use fossil_headers_db.Result.{ok}
use fossil_headers_db.Types.{BlockNumber, from_trusted, largest}
use fossil_headers_db.Types.RoundTrip.{IsValid}
use fossil_headers_db.Config.Quick.{QuickIndexConfig}
use fossil_headers_db.Rpc.{BlockHeader}
use fossil_headers_db.Database.Rows.{IndexMetadataDto, Tables, stored, memb}
use fossil_headers_db.Database.Action.{Env, World}
use fossil_headers_db.Repositories.Lookup.{keys}
use fossil_headers_db.Repositories.Metadata.{with_latest, first_row}
use fossil_headers_db.Blocks.Ranges.{IsNear, memb-numbered, expected_count-eq, add_i64-one}
use fossil_headers_db.Quick.{calculate_ending_block}
use fossil_headers_db.Quick.Transaction.{Advanced}
use fossil_headers_db.Quick.Attempt.{Attempted, Covers}

or-true : (b : Bool) → (b || true) ≡ true
or-true true = refl
or-true false = refl

-- Every block from one number to another is stored.
abbrev pub Stored : ℤ → ℤ → Tables → Type 0
Stored a b t = (n : ℤ) → a ≤ℤ n → n ≤ℤ b → stored n t.blockheaders ≡ true

-- The recorded latest block is in range, and all blocks from `start` up to it are stored.
pub record NoGaps (start : ℤ) (t : Tables) : Type 0 where
  pub near :
      (m : IndexMetadataDto)
      → first_row t.index_metadata ≡ ok m
      → IsNear m.current_latest_block_number
  pub covered :
      (m : IndexMetadataDto)
      → first_row t.index_metadata ≡ ok m
      → Stored start m.current_latest_block_number t

-- What the node reports as finalized is a valid block number, as `BlockNumber::from_hex` ensures.
abbrev pub ReportsValid : Env → Type 0
ReportsValid env = (t : ℕ) (b : BlockNumber) → env.finalized t ≡ ok b → IsValid b

ending_bounds :
    (env : Env) (config : QuickIndexConfig) (l c : ℤ)
    → pos 0 ≤ℤ l
    → l <ℤ c
    → c ≤ℤ largest
    → let e = calculate_ending_block env config l (from_trusted c) in (l ≤ℤ e) × (e ≤ℤ c)
unfolding calculate_ending_block
ending_bounds env config (pos a) (pos c) h k m = ground arith
ending_bounds env config (negsuc a) c h k m = absurd (omega arith)
ending_bounds env config (pos a) (negsuc c) h k m = absurd (omega arith)

-- Where the finalized block is behind a last block that is not negative, and is at most the
-- largest valid number, the range that is chosen ends at the last block or later, and at the
-- finalized one or before.
pub calculate_ending_block_bounds :
    (env : Env) (config : QuickIndexConfig) (l : ℤ) (b : BlockNumber)
    → pos 0 ≤ℤ l
    → l <ℤ b.value
    → b.value ≤ℤ largest
    → let e = calculate_ending_block env config l b in (l ≤ℤ e) × (e ≤ℤ b.value)
calculate_ending_block_bounds env config l b = ending_bounds env config l b.value

first_row-map :
    (e : ℤ) (now : ℕ) (rows : List IndexMetadataDto) (m : IndexMetadataDto)
    → first_row (map (with_latest e now) rows) ≡ ok m
    → m.current_latest_block_number ≡ e
unfolding first_row
first_row-map e now [] m h = cc
first_row-map e now (r ∷ rows) m h = ground arith

-- The invariant of the rounds of one range: what is behind the last block stays stored.
abbrev pub Kept : ℤ → ℤ → Tables → Type 0
Kept start l t = NoGaps start t × Stored start l t

module _ (start l e : ℤ) (near_l : IsNear l) (near_e : IsNear e) (up : l ≤ℤ e) where
  next_block : add_i64 l (pos 1) ≡ l +ℤ pos 1
  next_block = add_i64-one l near_l

  range_member :
      (hs : List BlockHeader) (n : ℤ)
      → Covers (add_i64 l (pos 1)) e hs
      → l <ℤ n
      → n ≤ℤ e
      → memb n (keys hs) ≡ true
  range_member hs n (k, count, same) low high =
      let near_s : IsNear (add_i64 l (pos 1)) = rw next_block ((omega int_laws, omega int_laws)) in
      rw same (
        memb-numbered (add_i64 l (pos 1)) e n k near_s near_e (rw next_block (omega int_laws)) high
          (expected_count-eq (add_i64 l (pos 1)) e k near_s near_e count))

  stored_after :
      (hs : List BlockHeader) (t t' : Tables) (n : ℤ)
      → Stored start l t
      → Covers (add_i64 l (pos 1)) e hs
      → Advanced hs e t t'
      → start ≤ℤ n
      → n ≤ℤ e
      → stored n t'.blockheaders ≡ true
  stored_after hs t t' n old covers adv low high = elim (Bool-cases (leb_ℤ n l)) [
    | inl before ↦ rw (adv.blocks n) (rw (old n low (ground arith)) (or-true (memb n (keys hs))))
    | inr behind ↦ rw (adv.blocks n) (rw (range_member hs n covers (ground arith) high) refl)
  ]

  pub Attempted-Kept :
      (w w' : World)
      → Attempted (add_i64 l (pos 1)) e w w'
      → Kept start l w.tables
      → Kept start l w'.tables
  Attempted-Kept w w' (inl same) kept = rw same kept
  Attempted-Kept w w' (inr (hs, covers, adv)) (gaps, old) = (
    record {
      near = λ m h. rw (latest m h) near_e;
      covered = λ m h n low high.
          stored_after hs w.tables w'.tables n old covers adv low (rw (latest m h) at high);
    },
    λ n low high. stored_after hs w.tables w'.tables n old covers adv low (omega arith),
  )
    where
      latest :
          (m : IndexMetadataDto)
          → first_row w'.tables.index_metadata ≡ ok m
          → m.current_latest_block_number ≡ e
      latest m h = first_row-map e adv.now w.tables.index_metadata m (rw adv.metadata at h)
