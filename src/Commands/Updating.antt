-- ===== src/Commands/Updating.antt =====
-- src/commands/mod.rs, `update_blocks`: what is stored after a run beside a node and a database that
-- answer.
use fossil_headers_db.Prelude.{
  ℕ, zero, suc, ◌+◌, ◌-◌, min, ◌≤◌, ◌<◌, ◌==◌, ℤ, pos, negsuc, ◌-ℤ◌, ◌≤ℤ◌, leb_ℤ, ltb_ℤ, min_ℤ, ◌≡◌,
  refl, subst, inl, inr, true, false, not, [], map, length, arith, Bool-cases, if◌then◌else◌,
}
use fossil_headers_db.Prelude.Machine.{add_i64}
use fossil_headers_db.Result.{Result, ok}
use fossil_headers_db.Errors.{BlockchainError}
use fossil_headers_db.Types
use fossil_headers_db.Types.{BlockNumber, from_trusted}
use fossil_headers_db.Database.Rows.{memb}
use fossil_headers_db.Database.Action.{Env, World, Action, continue, pure, load_terminate, ◌>>=◌}
use fossil_headers_db.Blocks.{span, numbered}
use fossil_headers_db.Blocks.Ranges.{add_i64-pos}
use fossil_headers_db.Batch.Missing.{IsBlock, memb-numbered_pos, values-from_trusted}
use fossil_headers_db.Db.Pool.{after}
use fossil_headers_db.Commands.{
  steps, is_high, apply_backpressure_if_needed, handle_batch_completion, process_block_range,
  update_batches, update_blocks,
}
use fossil_headers_db.Commands.Tasks.{Tally, process_block_batch, process_block}
use fossil_headers_db.Commands.Healthy.{
  IsHealthy, AreBlocks, Finishes, process_block-Puts, run_tasks-Finishes,
}
use fossil_headers_db.Commands.Filling.{Fills, stored-added}

backpressure-none :
    (env : Env) (s : ℕ) (w : World) → apply_backpressure_if_needed 0 s w ≡ (ok true, w)
unfolding apply_backpressure_if_needed
backpressure-none env s w = elim (Bool-cases (0 + s == 0)) [
  | inl zero_blocks ↦ rw zero_blocks refl
  | inr some_blocks ↦
      let low : is_high 0 (0 + s) ≡ false = ground arith in rw (some_blocks, low) refl
]

numbered-AreBlocks :
    (a i k : ℕ)
    → a + i + k ≤ 4611686018427387904
    → AreBlocks (map from_trusted (numbered (pos a) i k))
unfolding numbered
numbered-AreBlocks a i zero h = tt
numbered-AreBlocks a i (suc k) h =
    let sum : add_i64 (pos a) (pos i) ≡ pos (a + i) = add_i64-pos a i (omega arith) in
    (rw sum (omega arith, omega arith), numbered-AreBlocks a (i + 1) k (omega arith))

module _ (env : Env) (healthy : IsHealthy env) where
  -- A batch, from one block to the one in front of another.
  batch-Finishes :
      (a c : ℕ) (w : World)
      → a ≤ c
      → c ≤ 4611686018427387904
      → Finishes (numbered (pos a) 0 (c - a)) w (process_block_range env (pos a) (pos c) w)
  unfolding process_block_range process_block_batch ◌-ℤ◌
  batch-Finishes a c w ordered small =
      let count : span (pos c -ℤ pos a) ≡ c - a = ground arith in
      rw count (
        subst
          (λ ns.
            Finishes ns w
              (process_block_batch env (map from_trusted (numbered (pos a) 0 (c - a))) w))
          (values-from_trusted (numbered (pos a) 0 (c - a)))
          (run_tasks-Finishes env healthy (process_block env)
            (map from_trusted (numbered (pos a) 0 (c - a))) w (process_block-Puts env healthy)
            (numbered-AreBlocks a 0 (c - a) (omega arith))))

  -- The batches behind one that has finished.
  Finishes-Fills :
      (a c l : ℕ) (w v : World) (m : Result BlockchainError Tally × World)
      (f : Tally → Action BlockchainError (Unit {0}))
      → v.tables ≡ w.tables
      → a ≤ c
      → c ≤ 4611686018427387904
      → Finishes (numbered (pos a) 0 (c - a)) v m
      → ((t : Tally) → t.failed_blocks ≡ [] → Fills (pos c) (pos l) m.1 (f t m.1))
      → Fills (pos a) (pos l) w (continue m.0 f m.1)
  Finishes-Fills a c l w v m f same ordered small done rest =
      let fills : Fills (pos c) (pos l) m.1 (f done.tally m.1) = rest done.tally done.complete in
      after (Fills (pos a) (pos l) w) f m done.tally done.finished (record {
        succeeds = fills.succeeds;
        keeps = λ n h. fills.keeps n (
            rw (done.blocks n, same)
              (stored-added n (numbered (pos a) 0 (c - a)) w.tables.blockheaders h));
        stores = λ n low high. elim (Bool-cases (ltb_ℤ n (pos c))) [
          | inr late ↦ fills.stores n (ground arith) high
          | inl early ↦
              let within : memb n (numbered (pos a) 0 (c - a)) ≡ true =
                rw (memb-numbered_pos n a 0 (c - a) (omega arith)) (ground arith) in
              fills.keeps n (rw (done.blocks n, within) refl)
        ];
      })

  -- The end of a round: the batches behind it start at `c` or later.
  round-Fills :
      (c d l : ℕ) (t : Tally) (v : World) (rest : Action BlockchainError (Unit {0}))
      → t.failed_blocks ≡ []
      → c ≡ min (l + 1) d
      → Fills (pos d) (pos l) v (rest v)
      → Fills (pos c) (pos l) v (
          (apply_backpressure_if_needed (length t.failed_blocks) t.successful_count >>= λ continues.
          if not continues
          then pure tt
          else if handle_batch_completion t.failed_blocks
          then rest
          else pure tt)
            v)
  round-Fills c d l t v rest complete at_c fills =
      rw (complete, backpressure-none env t.successful_count v)
        (record {
          succeeds = fills.succeeds;
          keeps = fills.keeps;
          stores = λ n low high. fills.stores n (ground arith) high;
        })

  batches-Fills :
      (fuel a l size : ℕ) (w : World)
      → l < 4611686018427387904
      → 0 < size
      → size < 4294967296
      → l + 1 ≤ a + fuel
      → a ≤ 4611686022722355200
      → Fills
          (pos a)
          (pos l)
          w
          (update_batches env (steps fuel (pos a) size (pos l)) (from_trusted (pos l)) size w)
  unfolding steps update_batches load_terminate
  batches-Fills zero a l size w small positive fits enough near = record {
    succeeds = refl;
    keeps = λ n h. h;
    stores = λ n low high. absurd (omega arith);
  }
  batches-Fills (suc fuel) a l size w small positive fits enough near =
      elim (Bool-cases (leb_ℤ (pos a) (pos l))) [
        | inr over ↦ rw over (record {
          succeeds = refl;
          keeps = λ n h. h;
          stores = λ n low high. absurd (ground arith);
        })
        | inl inside ↦
            let ordered : a ≤ l = ground arith in
            let c : ℕ = min (l + 1) (a + size) in
            let v : World = record w { tick = w.tick + 1 } in
            let batch_end : min_ℤ (add_i64 (pos l) (pos 1)) (add_i64 (pos a) (pos size)) ≡ pos c =
              rw (add_i64-pos l 1 (omega arith), add_i64-pos a size (omega arith)) (ground arith) in
            let next : add_i64 (pos a) (pos size) ≡ pos (a + size) =
              add_i64-pos a size (omega arith) in
            rw (inside, healthy.continuing w.tick, batch_end, next)
              (Finishes-Fills a c l w v (process_block_range env (pos a) (pos c) v) _ refl
                (omega arith) (omega arith) (batch-Finishes a c v (omega arith) (omega arith))
                (λ t complete.
                  round-Fills c (a + size) l t (process_block_range env (pos a) (pos c) v).1
                    (update_batches env (steps fuel (pos (a + size)) size (pos l))
                      (from_trusted (pos l)) size)
                    complete refl
                    (batches-Fills fuel (a + size) l size
                      (process_block_range env (pos a) (pos c) v).1 small positive fits
                      (omega arith) (omega arith))))
      ]

  -- Beside a node that answers and a database that refuses nothing, while no task is cut off and
  -- nobody asks to stop, a run of `update_blocks` from a block to a larger or equal one, both between
  -- 0 and 2^62, with a size from 1 to 2^32 - 1, succeeds; behind it every block of the range is
  -- stored, and every block that was.
  pub update_blocks-Fills :
      (s l : BlockNumber) (size : ℕ) (w : World)
      → IsBlock s.value
      → IsBlock l.value
      → s.value ≤ℤ l.value
      → 0 < size
      → size < 4294967296
      → Fills s.value l.value w (update_blocks env s l size w)
  unfolding update_blocks ◌-ℤ◌
  update_blocks-Fills s l size w hs hl ordered positive fits =
      let inside : Types.le s l ≡ true = ground arith in
      let counted : (size == 0) ≡ false = ground arith in
      let batches = whole s.value l.value hs hl ordered in
      rw (inside, counted)
        (record {
          succeeds = rw batches.succeeds refl;
          keeps = batches.keeps;
          stores = batches.stores;
        })
    where
      whole :
          (a b : ℤ)
          → IsBlock a
          → IsBlock b
          → a ≤ℤ b
          → Fills a b w
              (update_batches env (steps (suc (span (b -ℤ a))) a size b) (from_trusted b) size w)
      whole (pos a) (pos b) ha hb ordered =
          batches-Fills (suc (span (pos b -ℤ pos a))) a b size w (omega arith) positive fits
            (ground arith) (omega arith)
      whole (negsuc a) b ha hb ordered = absurd (omega arith)
      whole (pos a) (negsuc b) ha hb ordered = absurd (omega arith)
