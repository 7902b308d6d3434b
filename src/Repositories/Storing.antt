-- ===== src/Repositories/Storing.antt =====
-- src/repositories/block_header.rs: what the inserts leave in the open transaction.
use fossil_headers_db.Prelude.{
  map, ℕ, ℤ, ◌+◌, ◌≡◌, refl, ◌∙◌, inl, inr, ◌||◌, List, Bool-cases, Option-cases, is_empty,
}
use fossil_headers_db.Result.{Result, ok, err, map_err, Result-cases}
use fossil_headers_db.Rpc.{BlockHeader, Transaction}
use fossil_headers_db.Database.Rows.{BlockHeaderDto, row_of, Tables, stored, memb}
use fossil_headers_db.Database.Action.{Action, Env, World, map_fault, execute}
use fossil_headers_db.Repositories.Convert.{
  format_headers, format_with_transactions, format_transactions,
}
use fossil_headers_db.Repositories.Headers.{
  put_headers, put_transactions, insert_block_header_only_query, insert_block_header_query,
  insert_block_txs_query,
}
use fossil_headers_db.Repositories.Lookup.{
  keys, numbers, stored-upsert_headers, format_headers-numbers, format_with_transactions-numbers,
}

-- The headers are in the open transaction, and the metadata is as it was.
pub record Inserted (hs : List BlockHeader) (t t' : Tables) : Type 0 where
  pub blocks : (n : ℤ) → stored n t'.blockheaders ≡ (memb n (keys hs) || stored n t.blockheaders)
  pub metadata : t'.index_metadata ≡ t.index_metadata

-- What a step inside a transaction does to the two sets of tables.
abbrev pub Inserts : {E : Type 0} → List BlockHeader → World → Result E (Unit {0}) × World → Type 0
Inserts hs w (ok _, w') = (w'.tables ≡ w.tables) × Inserted hs w.pending w'.pending
Inserts hs w (err e, w') = w'.tables ≡ w.tables

put_headers-Inserted :
    (hs : List BlockHeader) (ds : List BlockHeaderDto) (now : ℕ) (t : Tables)
    → numbers (map row_of ds) ≡ keys hs
    → Inserted hs t (put_headers ds now t)
unfolding put_headers
put_headers-Inserted hs ds now t same = record {
  blocks = λ n. rw (stored-upsert_headers n (map row_of ds) t.blockheaders, same);
  metadata = refl;
}

wrap_cases :
    {E F : Type 0} (f : E → F) (hs : List BlockHeader) (w : World) (m : Result E (Unit {0}) × World)
    → Inserts hs w m
    → Inserts hs w (map_err f m.0, m.1)
wrap_cases f hs w (ok a, v) h = h
wrap_cases f hs w (err e, v) h = h

pub wrap-Inserts :
    {E F : Type 0} (f : E → F) (hs : List BlockHeader) (w : World) (m : Action E (Unit {0}))
    → Inserts hs w (m w)
    → Inserts hs w (map_fault f m w)
wrap-Inserts f hs w m h = wrap_cases f hs w (m w) h

module _ (env : Env) where
  pub only-Inserts :
      (hs : List BlockHeader) (w : World) → Inserts hs w (insert_block_header_only_query env hs w)
  unfolding insert_block_header_only_query execute
  only-Inserts hs w = elim (Result-cases (format_headers hs)) [
    | inr (e, p) ↦ rw p refl
    | inl (ds, p) ↦ elim (Option-cases (env.fault w.tick)) [
      | inl fine ↦
          rw (p, fine)
            (
              refl,
              put_headers-Inserted hs ds (env.now w.tick) w.pending
                  (format_headers-numbers hs ds p),
            )
      | inr (e, q) ↦ rw (p, q) refl
    ]
  ]

  txs-keeps :
      (txs : List Transaction) (w : World)
      → let (r, w') = insert_block_txs_query env txs w in
        (w'.tables ≡ w.tables)
        × (w'.pending.blockheaders ≡ w.pending.blockheaders)
        × (w'.pending.index_metadata ≡ w.pending.index_metadata)
  unfolding insert_block_txs_query execute put_transactions
  txs-keeps txs w = elim (Result-cases (format_transactions txs)) [
    | inr (e, p) ↦ rw p (refl, refl, refl)
    | inl (ds, p) ↦ elim (Option-cases (env.fault w.tick)) [
      | inl fine ↦ rw (p, fine) (refl, refl, refl)
      | inr (e, q) ↦ rw (p, q) (refl, refl, refl)
    ]
  ]

  -- A step that keeps the headers and the metadata may follow an insert.
  Inserts-after :
      {E : Type 0} (hs : List BlockHeader) (w v : World) (m : Result E (Unit {0}) × World)
      → v.tables ≡ w.tables
      → Inserted hs w.pending v.pending
      → (m.1.tables ≡ v.tables)
        × (m.1.pending.blockheaders ≡ v.pending.blockheaders)
        × (m.1.pending.index_metadata ≡ v.pending.index_metadata)
      → Inserts hs w m
  Inserts-after hs w v (ok a, u) same ins (tables_same, rows, meta) = (
    tables_same ∙ same,
    record { blocks = λ n. rw rows (ins.blocks n); metadata = meta ∙ ins.metadata },
  )
  Inserts-after hs w v (err e, u) same ins (tables_same, rows, meta) = tables_same ∙ same

  pub full-Inserts :
      (hs : List BlockHeader) (w : World) → Inserts hs w (insert_block_header_query env hs w)
  unfolding insert_block_header_query execute
  full-Inserts hs w = elim (Result-cases (format_with_transactions hs)) [
    | inr (e, p) ↦ rw p refl
    | inl (f, p) ↦ elim (Option-cases (env.fault w.tick)) [
      | inr (e, q) ↦ rw (p, q) refl
      | inl fine ↦
          let ins : Inserted hs w.pending (put_headers f.0 (env.now w.tick) w.pending) =
            put_headers-Inserted hs f.0 (env.now w.tick) w.pending
              (format_with_transactions-numbers hs f p) in
          elim (Bool-cases (is_empty f.1)) [
            | inl none_left ↦ rw (p, fine) (rw none_left (refl, ins))
            | inr some_left ↦
                rw (p, fine)
                  (rw some_left (
                    Inserts-after hs w
                      (record w {
                        tick = w.tick + 1;
                        pending = put_headers f.0 (env.now w.tick) w.pending;
                      })
                      (insert_block_txs_query env f.1 _) refl ins (txs-keeps f.1 _)))
          ]
    ]
  ]
