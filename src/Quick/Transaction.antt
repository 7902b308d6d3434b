-- ===== src/Quick/Transaction.antt =====
-- src/indexer/quick_service.rs, `store_block_headers`: the whole transaction.
use fossil_headers_db.Prelude.{
  ℕ, ℤ, ◌+◌, ◌≡◌, refl, ◌∙◌, inl, inr, ◌||◌, List, map, arith, Option-cases,
}
use fossil_headers_db.Result.{Result, ok, err, Result-cases}
use fossil_headers_db.Errors.{Report}
use fossil_headers_db.Config.Quick.{QuickIndexConfig}
use fossil_headers_db.Rpc.{BlockHeader}
use fossil_headers_db.Database.Rows.{Tables, stored, memb}
use fossil_headers_db.Database.Action.{Env, World, continue, execute, begin, commit}
use fossil_headers_db.Repositories.Metadata.{
  with_latest, update_metadata, update_latest_quick_index_block_number_query,
}
use fossil_headers_db.Repositories.Lookup.{keys}
use fossil_headers_db.Blocks.{sort_headers}
use fossil_headers_db.Blocks.Ranges.{memb-sort_headers}
use fossil_headers_db.Quick.{insert_headers, store_block_headers, finish_store}
use fossil_headers_db.Quick.Responses.{verify_order}
use fossil_headers_db.Repositories.Storing.{Inserts}
use fossil_headers_db.Quick.Storing.{insert_headers-Inserts}

-- The headers are stored beside what was, and every row of the metadata has the new latest block.
pub record Advanced (hs : List BlockHeader) (ending : ℤ) (t t' : Tables) : Type 0 where
  pub now : ℕ
  pub blocks : (n : ℤ) → stored n t'.blockheaders ≡ (memb n (keys hs) || stored n t.blockheaders)
  pub metadata : t'.index_metadata ≡ map (with_latest ending now) t.index_metadata

-- A store either has done all of this, or has failed and changed no table.
abbrev pub Stores : List BlockHeader → ℤ → World → Result Report (Unit {0}) × World → Type 0
Stores hs ending w (ok _, w') = Advanced hs ending w.tables w'.tables
Stores hs ending w (err e, w') = w'.tables ≡ w.tables

pub verify_order-sorts :
    (hs sorted : List BlockHeader) (ending : ℤ)
    → verify_order hs ending ≡ ok sorted
    → sorted ≡ sort_headers hs
unfolding verify_order
verify_order-sorts hs sorted ending e = ground arith

module _ (env : Env) (config : QuickIndexConfig) where
  finish_store-Stores :
      (hs sorted : List BlockHeader) (ending : ℤ) (w v : World)
      (m : Result Report (Unit {0}) × World)
      → sorted ≡ sort_headers hs
      → v.tables ≡ w.tables
      → v.pending ≡ w.tables
      → Inserts sorted v m
      → Stores hs ending w (continue m.0 (λ _. finish_store env config ending) m.1)
  unfolding finish_store execute commit update_latest_quick_index_block_number_query update_metadata
  finish_store-Stores hs sorted ending w v (err e, u) s same open_tx ins = ins ∙ same
  finish_store-Stores hs sorted ending w v (ok a, u) s same open_tx (kept, ins) =
      elim (Option-cases (env.fault u.tick)) [
        | inr (e, p) ↦ rw p (kept ∙ same)
        | inl fine ↦ elim (Option-cases (env.fault (u.tick + 1))) [
          | inr (e, p) ↦ rw (fine, p) (kept ∙ same)
          | inl done ↦
              rw (fine, done)
                (record {
                  now = env.now u.tick;
                  blocks =
                      λ n. rw (ins.blocks n) (rw (s, open_tx) (rw (memb-sort_headers n hs) refl));
                  metadata = rw (ins.metadata, open_tx) refl;
                })
        ]
      ]

  -- A store is all or nothing: it fails and leaves the tables as they were, or it succeeds, and then
  -- the stored blocks are those that were and those of the headers, and every row of the metadata
  -- has the given ending block as its latest block.
  pub store_block_headers-Stores :
      (hs : List BlockHeader) (ending : ℤ) (w : World)
      → Stores hs ending w (store_block_headers env config hs ending w)
  unfolding store_block_headers begin
  store_block_headers-Stores hs ending w = elim (Result-cases (verify_order hs ending)) [
    | inr (e, p) ↦ rw p refl
    | inl (sorted, p) ↦ elim (Option-cases (env.fault w.tick)) [
      | inr (e, q) ↦ rw (p, q) refl
      | inl fine ↦
          let v : World = record w { tick = w.tick + 1; pending = w.tables } in
          rw (p, fine)
            (finish_store-Stores hs sorted ending w v (insert_headers env config sorted v)
              (verify_order-sorts hs sorted ending p) refl refl
              (insert_headers-Inserts env config sorted v))
    ]
  ]
