-- ===== src/Commands/Filling.antt =====
-- src/commands/mod.rs, `fill_gaps`: what is stored after a run beside a node and a database that
-- answer.
use fossil_headers_db.Prelude.{
  ℕ, zero, suc, ◌+◌, ℤ, pos, negsuc, ◌+ℤ◌, +ℤ_parts, ◌≤ℤ◌, ◌<ℤ◌, ltb_ℤ, ◌≡◌, refl, inl, inr, true,
  ◌||◌, List, [], ◌∷◌, arith, Bool-cases,
}
use fossil_headers_db.Prelude.Machine.{add_i64}
use fossil_headers_db.Result.{Result, ok}
use fossil_headers_db.Errors.{BlockchainError}
use fossil_headers_db.Types.{BlockNumber, from_trusted}
use fossil_headers_db.Database.Rows.{HeaderRow, stored, memb}
use fossil_headers_db.Database.Action.{Env, World, Action, continue, pure, load_terminate}
use fossil_headers_db.Blocks.Ranges.{add_i64-one}
use fossil_headers_db.Batch.Missing.{IsBlock, block_values}
use fossil_headers_db.Db.Pool.{after}
use fossil_headers_db.Db.Gaps.{InOrder}
use fossil_headers_db.Commands.{last_or, calculate_range_end, collect_gaps, fill_found, fill_rounds}
use fossil_headers_db.Commands.Tasks.{process_missing_blocks_batch, process_single_missing_block}
use fossil_headers_db.Commands.Healthy.{
  IsHealthy, Finishes, AreBlocks, Works, fetch_and_write-Puts, run_tasks-Finishes,
}
use fossil_headers_db.Commands.Collecting.{
  Collected, AreIn, Collects, Collected-AreIn, Collected-covers, last_or-AreIn,
  calculate_range_end-bounds, collect_gaps-Collects,
}

-- Every block that was stored is stored.
abbrev pub Kept : World → World → Type 0
Kept w v = (n : ℤ) → stored n w.tables.blockheaders ≡ true → stored n v.tables.blockheaders ≡ true

-- The action succeeds, keeps what is stored, and every block from `a` to `b` is stored behind it.
pub record Fills {E : Type 0} (a b : ℤ) (w : World) (m : Result E (Unit {0}) × World) : Type 0 where
  pub succeeds : m.0 ≡ ok tt
  pub keeps : Kept w m.1
  pub stores : (n : ℤ) → a ≤ℤ n → n ≤ℤ b → stored n m.1.tables.blockheaders ≡ true

-- A round succeeds, and every block in front of the next one is stored behind it.
pub record Advances (a r : ℤ) (w : World) (m : Result BlockchainError BlockNumber × World)
    : Type 0 where
  pub next : BlockNumber
  pub succeeds : m.0 ≡ ok next
  pub keeps : Kept w m.1
  pub further : a <ℤ next.value
  pub stores : (n : ℤ) → a ≤ℤ n → n <ℤ next.value → stored n m.1.tables.blockheaders ≡ true

pub AreIn-AreBlocks :
    (s r : ℤ) (bs : List BlockNumber) → pos 0 ≤ℤ s → IsBlock r → AreIn s r bs → AreBlocks bs
AreIn-AreBlocks s r [] hs hr inside = tt
AreIn-AreBlocks s r (b ∷ bs) hs hr (low, high, inside) =
    ((omega arith, omega arith), AreIn-AreBlocks s r bs hs hr inside)

pub stored-added :
    (n : ℤ) (ns : List ℤ) (rows : List HeaderRow)
    → stored n rows ≡ true
    → (memb n ns || stored n rows) ≡ true
stored-added n ns rows h = ground arith

-- The number behind a block of a range.
pub next_value :
    (b : BlockNumber) (a r : ℤ)
    → IsBlock r
    → pos 0 ≤ℤ a
    → a ≤ℤ b.value
    → b.value ≤ℤ r
    → add_i64 b.value (pos 1) ≡ b.value +ℤ pos 1
next_value b a r hr ha low high = add_i64-one b.value (omega arith)

module _ (env : Env) (healthy : IsHealthy env) where
  process_missing-Works : Works (process_single_missing_block env)
  unfolding process_single_missing_block
  process_missing-Works b w inside = fetch_and_write-Puts env healthy [] 9 0 b w inside

  fill_found-Advances :
      (left : ℕ) (s r : BlockNumber) (w v : World) (bs : List BlockNumber)
      → pos 0 ≤ℤ s.value
      → IsBlock r.value
      → s.value ≤ℤ r.value
      → v.tables ≡ w.tables
      → Collected (suc left) s.value r.value w.tables.blockheaders bs
      → Advances s.value r.value w (fill_found env r bs v)
  unfolding fill_found process_missing_blocks_batch last_or
  fill_found-Advances left s r w v [] hs hr ordered same whole =
      let next : add_i64 r.value (pos 1) ≡ r.value +ℤ pos 1 =
        next_value r s.value r.value hr hs ordered (omega arith) in
      record {
        next = from_trusted (add_i64 r.value (pos 1));
        succeeds = refl;
        keeps = λ n h. rw same h;
        further = rw next (omega (arith, +ℤ_parts r.value (pos 1)));
        stores = λ n low high.
            rw same (
              whole n low (let high' = rw next at high in omega (arith, +ℤ_parts r.value (pos 1))));
      }
  fill_found-Advances left s r w v (b ∷ bs) hs hr ordered same gaps =
      let inside : AreIn s.value r.value (b ∷ bs) =
        Collected-AreIn (suc left) s.value r.value w.tables.blockheaders (b ∷ bs) gaps in
      let (low, high) = last_or-AreIn s.value r.value b bs inside in
      let last : BlockNumber = last_or b bs in
      let next : add_i64 last.value (pos 1) ≡ last.value +ℤ pos 1 =
        next_value last s.value r.value hr hs low high in
      let done : Finishes (block_values (b ∷ bs)) v (process_missing_blocks_batch env (b ∷ bs) v) =
        run_tasks-Finishes env healthy (process_single_missing_block env) (b ∷ bs) v
          process_missing-Works (AreIn-AreBlocks s.value r.value (b ∷ bs) hs hr inside) in
      after (Advances s.value r.value w) (λ t. pure (from_trusted (add_i64 last.value (pos 1))))
        (process_missing_blocks_batch env (b ∷ bs) v) done.tally done.finished
        (record {
          next = from_trusted (add_i64 last.value (pos 1));
          succeeds = refl;
          keeps = λ n h.
              rw (done.blocks n, same)
                (stored-added n (block_values (b ∷ bs)) w.tables.blockheaders h);
          further = rw next (omega (arith, +ℤ_parts last.value (pos 1)));
          stores = λ n above below.
              let below' = rw next at below in
              rw (done.blocks n, same)
                (Collected-covers (suc left) s.value r.value w.tables.blockheaders
                  (record { value = negsuc 0 }) (b ∷ bs) n gaps (omega arith) above
                  (omega (arith, +ℤ_parts last.value (pos 1))));
        })

  -- The rounds behind one that has succeeded.
  Advances-Fills :
      (a r e : ℤ) (w : World) (m : Result BlockchainError BlockNumber × World)
      (f : BlockNumber → Action BlockchainError (Unit {0}))
      → Advances a r w m
      → ((c : BlockNumber) (v : World) → a <ℤ c.value → Fills c.value e v (f c v))
      → Fills a e w (continue m.0 f m.1)
  Advances-Fills a r e w m f step rest =
      let fills : Fills step.next.value e m.1 (f step.next m.1) = rest step.next m.1 step.further in
      after (Fills a e w) f m step.next step.succeeds (record {
        succeeds = fills.succeeds;
        keeps = λ n h. fills.keeps n (step.keeps n h);
        stores = λ n low high. elim (Bool-cases (ltb_ℤ n step.next.value)) [
          | inl early ↦ fills.keeps n (step.stores n low (ground arith))
          | inr late ↦ fills.stores n (ground arith) high
        ];
      })

  pub fill_rounds-Fills :
      (fuel : ℕ) (a e : BlockNumber) (w : World)
      → InOrder env
      → pos 0 ≤ℤ a.value
      → IsBlock e.value
      → e.value <ℤ a.value +ℤ pos fuel
      → Fills a.value e.value w (fill_rounds env fuel a e w)
  unfolding fill_rounds load_terminate
  fill_rounds-Fills zero a e w in_order ha he enough = record {
    succeeds = refl;
    keeps = λ n h. h;
    stores = λ n low high. absurd (omega (arith, +ℤ_parts a.value (pos 0)));
  }
  fill_rounds-Fills (suc fuel) a e w in_order ha he enough =
      elim (Bool-cases (ltb_ℤ e.value a.value)) [
        | inl over ↦
            rw (healthy.continuing w.tick, over)
              (record {
                succeeds = refl;
                keeps = λ n h. h;
                stores = λ n low high. absurd (ground arith);
              })
        | inr inside ↦
            let v : World = record w { tick = w.tick + 1 } in
            let r : BlockNumber = calculate_range_end e a in
            let (low, high) = calculate_range_end-bounds e a he ha (ground arith) in
            let found : Collects 100 a.value r.value v (collect_gaps env 100 a r v) =
              collect_gaps-Collects env healthy 100 a r v in_order ha (omega arith, omega arith) in
            rw (healthy.continuing w.tick, inside)
              (after (Fills a.value e.value w) _ (collect_gaps env 100 a r v) found.gaps
                found.collected
                (Advances-Fills a.value r.value e.value w
                  (fill_found env r found.gaps (collect_gaps env 100 a r v).1)
                  (λ c. fill_rounds env fuel c e)
                  (fill_found-Advances 99 a r w (collect_gaps env 100 a r v).1 found.gaps ha
                    (omega arith, omega arith) low found.unchanged found.gaps_are)
                  (λ c u further. fill_rounds-Fills fuel c e u in_order (omega arith) he (
                    omega
                      (arith, +ℤ_parts a.value (pos (suc fuel)), +ℤ_parts c.value (pos fuel))))))
      ]
