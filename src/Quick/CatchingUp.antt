-- ===== src/Quick/CatchingUp.antt =====
-- src/indexer/quick_service.rs: cycles one after the other, beside a node that has every block and a
-- database that refuses nothing, reach the finalized block.
use fossil_headers_db.Prelude.{
  ℕ, zero, suc, ◌+◌, ◌*◌, min, ◌≤◌, ◌<◌, ℤ, pos, leb_ℤ, ◌≡◌, refl, inl, inr, true, false, List, [],
  ◌∷◌, map, arith, Bool-cases, ltb,
}
use fossil_headers_db.Result.{Result, ok}
use fossil_headers_db.Errors.{Report}
use fossil_headers_db.Types
use fossil_headers_db.Types.{BlockNumber, from_trusted}
use fossil_headers_db.Config.Quick.{QuickIndexConfig}
use fossil_headers_db.Database.Rows.{IndexMetadataDto, stored}
use fossil_headers_db.Database.Action.{
  Env, World, Action, ◌>>◌, pure, query, ask_finalized, sleep, sleep_millis,
}
use fossil_headers_db.Repositories.Metadata.{first_row, found, get_index_metadata, with_latest}
use fossil_headers_db.Repositories.Unique.{AreUnique}
use fossil_headers_db.Batch.Complete.{Stored}
use fossil_headers_db.Batch.Serving.{IsServing}
use fossil_headers_db.Quick.{
  process_indexing_cycle, get_last_indexed_block, get_latest_finalized_block, has_new_blocks,
  wait_for_new_blocks,
}
use fossil_headers_db.Quick.Advancing.{Advances, process_indexing_cycle-Advances}

-- The first row of the metadata records the block.
pub record Records (l : ℕ) (rows : List IndexMetadataDto) : Type 0 where
  pub metadata : IndexMetadataDto
  pub first : first_row rows ≡ ok metadata
  pub latest : metadata.current_latest_block_number ≡ pos l

with_latest-Records :
    (l e now : ℕ) (rows : List IndexMetadataDto)
    → Records l rows
    → Records e (map (with_latest (pos e) now) rows)
unfolding first_row
with_latest-Records l e now [] r = absurd (cc r.first)
with_latest-Records l e now (m ∷ rows) r = record {
  metadata = with_latest (pos e) now m;
  first = refl;
  latest = refl;
}

-- The action succeeds, every block behind `l` up to `e` is stored and `e` is recorded, no block is
-- lost, and the rows are unique.
pub record Reaches {E : Type 0} (l e : ℕ) (w : World) (m : Result E (Unit {0}) × World)
    : Type 0 where
  pub succeeds : m.0 ≡ ok tt
  pub stores : Stored (pos (l + 1)) (pos e) m.1.tables
  pub keeps :
      (n : ℤ) → stored n w.tables.blockheaders ≡ true → stored n m.1.tables.blockheaders ≡ true
  pub unique : AreUnique m.1.tables.blockheaders
  pub records : Records e m.1.tables.index_metadata

module _ (env : Env) (config : QuickIndexConfig) where
  -- So many cycles, as long as they succeed.
  unfoldable pub cycles : ℕ → Action Report (Unit {0})
  cycles zero = pure tt
  cycles (suc k) = process_indexing_cycle env config >> cycles k

module _ (env : Env) (config : QuickIndexConfig) (serving : IsServing env config.should_index_txs)
    (b : BlockNumber) (v : ℕ) (latest : (t : ℕ) → env.finalized t ≡ ok b) (at_v : b.value ≡ pos v)
    (small : v < 4611686018427387904) (retries : 0 < config.max_retries)
    (size : 0 < config.index_batch_size) where
  -- A cycle that finds nothing new waits.
  waits :
      (w : World)
      → Records v w.tables.index_metadata
      → AreUnique w.tables.blockheaders
      → Reaches v v w (process_indexing_cycle env config w)
  unfolding process_indexing_cycle get_last_indexed_block get_index_metadata query found
      get_latest_finalized_block ask_finalized has_new_blocks wait_for_new_blocks sleep sleep_millis
  waits w r u =
      let level : Types.lt (from_trusted (pos v)) b ≡ false = rw at_v (ground arith) in
      rw (serving.unfailing w.tick, r.first, latest (w.tick + 1), r.latest, level)
        (record {
          succeeds = refl;
          stores = λ n low high. absurd (omega arith);
          keeps = λ n old. old;
          unique = u;
          records = r;
        })

  cycle-Reaches :
      (l : ℕ) (w : World)
      → l ≤ v
      → Records l w.tables.index_metadata
      → AreUnique w.tables.blockheaders
      → Reaches l (min (l + config.index_batch_size) v) w (process_indexing_cycle env config w)
  cycle-Reaches l w h r u = elim (Bool-cases (ltb l v)) [
    | inr level ↦
        let same : l ≡ v = ground arith in
        let there : min (l + config.index_batch_size) v ≡ l = ground arith in
        rw there (rw same (waits w (rw same at r) u))
    | inl below ↦
        let e : ℕ = min (l + config.index_batch_size) v in
        let adv : Advances (l + 1) e w (process_indexing_cycle env config w) =
          process_indexing_cycle-Advances env config serving w r.metadata b l v r.first r.latest
            (latest (w.tick + 1)) at_v (ground arith) small u retries size in
        record {
          succeeds = adv.succeeds;
          stores = adv.stores;
          keeps = adv.keeps;
          unique = adv.unique;
          records = rw adv.recorded (with_latest-Records l e adv.now w.tables.index_metadata r);
        }
  ]

  both_parts :
      (l e f : ℕ) (w : World) (m : Result Report (Unit {0}) × World)
      (x : Result Report (Unit {0}) × World)
      → Reaches l e w m
      → Reaches e f m.1 x
      → Reaches l f w x
  both_parts l e f w m x first rest = record {
    succeeds = rest.succeeds;
    stores = λ n low high. elim (Bool-cases (leb_ℤ n (pos e))) [
      | inl early ↦ rest.keeps n (first.stores n low (ground arith))
      | inr late ↦ rest.stores n (ground arith) high
    ];
    keeps = λ n old. rest.keeps n (first.keeps n old);
    unique = rest.unique;
    records = rest.records;
  }

  -- Beside a node that has every block, with its transactions where those are wanted, and a database
  -- that refuses nothing, while no task is late, nobody asks to stop, and the node's finalized block
  -- is always `v`, below 2^62: if the first row of the metadata records the block `l`, not above `v`,
  -- no two rows have the same number, and the retries and the batch size are positive, then any
  -- number `k` of cycles one after the other all succeed. Behind them the recorded block is the
  -- smaller of `v` and `l` plus `k` times the batch size, every block behind `l` up to it is stored,
  -- no block is lost, and the rows are unique.
  pub cycles-Reaches :
      (k l : ℕ) (w : World)
      → l ≤ v
      → Records l w.tables.index_metadata
      → AreUnique w.tables.blockheaders
      → Reaches l (min (l + k * config.index_batch_size) v) w (cycles env config k w)
  unfolding cycles
  cycles-Reaches zero l w h r u =
      let there : min (l + 0 * config.index_batch_size) v ≡ l = omega arith in
      rw there (record {
        succeeds = refl;
        stores = λ n low high. absurd (omega arith);
        keeps = λ n old. old;
        unique = u;
        records = r;
      })
  cycles-Reaches (suc k) l w h r u =
      let e : ℕ = min (l + config.index_batch_size) v in
      let m : Result Report (Unit {0}) × World = process_indexing_cycle env config w in
      let first : Reaches l e w m = cycle-Reaches l w h r u in
      let rest : Reaches e (min (e + k * config.index_batch_size) v) m.1 (cycles env config k m.1) =
        cycles-Reaches k e m.1 (omega arith) first.records first.unique in
      let whole : min (e + k * config.index_batch_size) v
          ≡ min (l + suc k * config.index_batch_size) v =
        omega arith in
      rw (first.succeeds, ← whole)
        (both_parts l e (min (e + k * config.index_batch_size) v) w m (cycles env config k m.1)
          first rest)
