-- ===== src/Batch/Batches.antt =====
-- src/indexer/batch_service.rs, `process_missing_blocks_in_batches`: the batches hold the missing
-- blocks, and no other.
use fossil_headers_db.Prelude.{
  ℕ, zero, suc, ◌≤◌, ◌<◌, ℤ, eqb_ℤ_refl, ◌≡◌, refl, Bool, true, false, ◌&&◌, ◌||◌, List, [], ◌∷◌,
  ◌++◌, arith, length, take, drop, is_empty,
}
use fossil_headers_db.Types.{BlockNumber}
use fossil_headers_db.Database.Rows.{memb, between}
use fossil_headers_db.Commands.Healthy.{AreBlocks}
use fossil_headers_db.Batch.Responses.{chunks}
use fossil_headers_db.Batch.Missing.{IsBlock, block_values, memb-append}

-- The numbers of all batches.
unfoldable pub all_values : List (List BlockNumber) → List ℤ
all_values [] = []
all_values (bs ∷ bss) = block_values bs ++ all_values bss

abbrev pub AreAllBlocks : List (List BlockNumber) → Type 0
AreAllBlocks [] = Unit {0}
AreAllBlocks (bs ∷ bss) = AreBlocks bs × AreAllBlocks bss

memb-take-drop :
    (n : ℤ) (k : ℕ) (bs : List BlockNumber)
    → (memb n (block_values (take k bs)) || memb n (block_values (drop k bs)))
      ≡ memb n (block_values bs)
unfolding memb block_values
memb-take-drop n zero bs = refl
memb-take-drop n (suc k) [] = refl
memb-take-drop n (suc k) (b ∷ bs) = ground (arith, memb-take-drop n k bs)

length-drop_le : (k : ℕ) (bs : List BlockNumber) → length (drop k bs) ≤ length bs
length-drop_le zero bs = omega arith
length-drop_le (suc k) [] = omega arith
length-drop_le (suc k) (b ∷ bs) = omega (arith, length-drop_le k bs)

take-AreBlocks : (k : ℕ) (bs : List BlockNumber) → AreBlocks bs → AreBlocks (take k bs)
take-AreBlocks zero bs inside = tt
take-AreBlocks (suc k) [] inside = tt
take-AreBlocks (suc k) (b ∷ bs) (here, inside) = (here, take-AreBlocks k bs inside)

drop-AreBlocks : (k : ℕ) (bs : List BlockNumber) → AreBlocks bs → AreBlocks (drop k bs)
drop-AreBlocks zero bs inside = inside
drop-AreBlocks (suc k) [] inside = tt
drop-AreBlocks (suc k) (b ∷ bs) (here, inside) = drop-AreBlocks k bs inside

-- The batches hold the blocks that they are made of, and no other.
memb-chunks :
    (n : ℤ) (fuel size : ℕ) (bs : List BlockNumber)
    → length bs ≤ fuel
    → memb n (all_values (chunks fuel (suc size) bs)) ≡ memb n (block_values bs)
unfolding chunks all_values memb block_values
memb-chunks n zero size [] h = refl
memb-chunks n zero size (b ∷ bs) h = absurd (omega arith)
memb-chunks n (suc fuel) size [] h = refl
memb-chunks n (suc fuel) size (b ∷ bs) h =
    let rest = memb-chunks n fuel size (drop size bs) (omega (arith, length-drop_le size bs)) in
    rw
      (
        memb-append n (block_values (take size bs))
            (all_values (chunks fuel (suc size) (drop size bs))),
        rest,
      )
      (ground (arith, memb-take-drop n size bs))

pub chunks-AreAllBlocks :
    (fuel size : ℕ) (bs : List BlockNumber) → AreBlocks bs → AreAllBlocks (chunks fuel size bs)
unfolding chunks
chunks-AreAllBlocks zero size bs inside = tt
chunks-AreAllBlocks (suc fuel) size [] inside = tt
chunks-AreAllBlocks (suc fuel) size (b ∷ bs) inside = (
  take-AreBlocks size (b ∷ bs) inside,
  chunks-AreAllBlocks fuel size (drop size (b ∷ bs)) (drop-AreBlocks size (b ∷ bs) inside),
)

pub memb-chunks_pos :
    (n : ℤ) (bs : List BlockNumber) (size : ℕ)
    → 0 < size
    → memb n (all_values (chunks (length bs) size bs)) ≡ memb n (block_values bs)
memb-chunks_pos n bs zero h = absurd (omega arith)
memb-chunks_pos n bs (suc size) h = memb-chunks n (length bs) size bs (omega arith)

pub range_IsBlock :
    (a b n : ℤ) (m fresh : Bool)
    → IsBlock a
    → IsBlock b
    → m ≡ (between a b n && fresh)
    → m ≡ true
    → IsBlock n
range_IsBlock a b n m fresh ha hb e k = ground arith

-- Numbers that are all in a range of blocks are blocks.
pub found-AreBlocks :
    (bs : List BlockNumber) → ((n : ℤ) → memb n (block_values bs) ≡ true → IsBlock n) → AreBlocks bs
unfolding memb block_values
found-AreBlocks [] h = tt
found-AreBlocks (b ∷ bs) h =
    (h b.value (rw (eqb_ℤ_refl b.value) refl), found-AreBlocks bs (λ n k. h n (ground arith)))

pub nothing_found :
    (bs : List BlockNumber) → ((n : ℤ) → memb n (block_values bs) ≡ false) → is_empty bs ≡ true
unfolding memb block_values
nothing_found [] h = refl
nothing_found (b ∷ bs) h = let k = h b.value in absurd (cc (rw (eqb_ℤ_refl b.value) at k))
