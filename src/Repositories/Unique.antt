-- ===== src/Repositories/Unique.antt =====
-- src/repositories/block_header.rs: the primary key of blockheaders. The upserts keep it, and with it
-- a count of the rows of a range counts blocks.
use fossil_headers_db.Prelude.{
  ℕ, zero, suc, ◌+◌, ◌≤◌, ◌<◌, ℤ, pos, eqb_ℤ, eqb_ℤ→eq, eqb_ℤ_refl, ◌≡◌, refl, inl, inr, Bool, true,
  false, List, [], ◌∷◌, map, arith, Bool-cases, Option-cases, is_empty, if◌then◌else◌,
}
use fossil_headers_db.Result.{Result, Result-cases}
use fossil_headers_db.Rpc.{BlockHeader, Transaction}
use fossil_headers_db.Database.Rows.{HeaderRow, row_of, upsert_header, upsert_headers, stored, memb}
use fossil_headers_db.Database.Action.{Env, World, execute}
use fossil_headers_db.Repositories.Convert.{
  format_headers, format_with_transactions, format_transactions,
}
use fossil_headers_db.Repositories.Headers.{
  put_headers, put_transactions, insert_block_header_only_query, insert_block_header_query,
  insert_block_txs_query,
}
use fossil_headers_db.Repositories.Lookup.{stored-upsert_header}
use fossil_headers_db.Repositories.Succeeding.{inserting}
use fossil_headers_db.Quick.{count_between, count_unstored}

-- No two rows have the same number.
abbrev pub AreUnique : List HeaderRow → Type 0
AreUnique [] = Unit {0}
AreUnique (r ∷ rows) = (stored r.number rows ≡ false) × AreUnique rows

upsert_header-AreUnique :
    (r : HeaderRow) (rows : List HeaderRow) → AreUnique rows → AreUnique (upsert_header r rows)
unfolding upsert_header stored
upsert_header-AreUnique r [] u = (refl, tt)
upsert_header-AreUnique r (s ∷ rows) (fresh, u) = elim (Bool-cases (eqb_ℤ s.number r.number)) [
  | inl same ↦
      let e : s.number ≡ r.number = eqb_ℤ→eq s.number r.number same in rw same (rw e at fresh, u)
  | inr other ↦
      let apart : stored s.number (upsert_header r rows) ≡ false =
        rw (stored-upsert_header s.number r rows) (ground arith) in
      rw other (apart, upsert_header-AreUnique r rows u)
]

pub upsert_headers-AreUnique :
    (rs rows : List HeaderRow) → AreUnique rows → AreUnique (upsert_headers rs rows)
unfolding upsert_headers
upsert_headers-AreUnique [] rows u = u
upsert_headers-AreUnique (r ∷ rs) rows u =
    upsert_headers-AreUnique rs (upsert_header r rows) (upsert_header-AreUnique r rows u)

-- The rows of a range are those of its first number and those of the rest.
count_first :
    (a b : ℕ) (rows : List HeaderRow)
    → AreUnique rows
    → a ≤ b
    → count_between (pos a) (pos b) rows
      ≡ (if stored (pos a) rows then 1 else 0) + count_between (pos (suc a)) (pos b) rows
unfolding count_between stored
count_first a b [] u h = refl
count_first a b (r ∷ rows) (fresh, u) h = elim (Bool-cases (eqb_ℤ r.number (pos a))) [
  | inl same ↦
      let e : r.number ≡ pos a = eqb_ℤ→eq r.number (pos a) same in
      let gone : stored (pos a) rows ≡ false = rw e at fresh in
      ground (arith, count_first a b rows u h)
  | inr other ↦ ground (arith, count_first a b rows u h)
]

none_between : (a b : ℕ) (rows : List HeaderRow) → b < a → count_between (pos a) (pos b) rows ≡ 0
unfolding count_between
none_between a b [] h = refl
none_between a b (r ∷ rows) h = ground (arith, none_between a b rows h)

-- Where every block of a range is stored, there are as many rows as numbers.
pub count_stored :
    (k a b : ℕ) (rows : List HeaderRow)
    → AreUnique rows
    → a + k ≡ suc b
    → ((n : ℕ) → a ≤ n → n ≤ b → stored (pos n) rows ≡ true)
    → count_between (pos a) (pos b) rows ≡ k
count_stored zero a b rows u h all = none_between a b rows (omega arith)
count_stored (suc k) a b rows u h all =
    let rest : count_between (pos (suc a)) (pos b) rows ≡ k =
      count_stored k (suc a) b rows u (omega arith) (λ n low high. all n (omega arith) high) in
    rw (count_first a b rows u (omega arith), all a (omega arith) (omega arith), rest) (omega arith)

-- Where all of some numbers are stored, none is counted as missing.
pub count_unstored_none :
    (ns : List ℤ) (rows : List HeaderRow)
    → ((n : ℤ) → memb n ns ≡ true → stored n rows ≡ true)
    → count_unstored ns rows ≡ 0
unfolding count_unstored memb
count_unstored_none [] rows all = refl
count_unstored_none (n ∷ ns) rows all =
    let rest : count_unstored ns rows ≡ 0 =
      count_unstored_none ns rows (λ m h. all m (ground (arith, h))) in
    rw (all n (rw (eqb_ℤ_refl n) refl), rest) refl

-- What a step inside a transaction does to the rows: it keeps them unique.
abbrev pub KeepsUnique : {E : Type 0} → World → Result E (Unit {0}) × World → Type 0
KeepsUnique w m = AreUnique w.pending.blockheaders → AreUnique m.1.pending.blockheaders

module _ (env : Env) where
  only-KeepsUnique :
      (hs : List BlockHeader) (w : World) → KeepsUnique w (insert_block_header_only_query env hs w)
  unfolding insert_block_header_only_query execute put_headers
  only-KeepsUnique hs w u = elim (Result-cases (format_headers hs)) [
    | inr (e, p) ↦ rw p u
    | inl (ds, p) ↦ elim (Option-cases (env.fault w.tick)) [
      | inl fine ↦ rw (p, fine) (upsert_headers-AreUnique (map row_of ds) w.pending.blockheaders u)
      | inr (e, q) ↦ rw (p, q) u
    ]
  ]

  txs-rows :
      (txs : List Transaction) (w : World)
      → (insert_block_txs_query env txs w).1.pending.blockheaders ≡ w.pending.blockheaders
  unfolding insert_block_txs_query execute put_transactions
  txs-rows txs w = elim (Result-cases (format_transactions txs)) [
    | inr (e, p) ↦ rw p refl
    | inl (ds, p) ↦ elim (Option-cases (env.fault w.tick)) [
      | inl fine ↦ rw (p, fine) refl
      | inr (e, q) ↦ rw (p, q) refl
    ]
  ]

  full-KeepsUnique :
      (hs : List BlockHeader) (w : World) → KeepsUnique w (insert_block_header_query env hs w)
  unfolding insert_block_header_query execute put_headers
  full-KeepsUnique hs w u = elim (Result-cases (format_with_transactions hs)) [
    | inr (e, p) ↦ rw p u
    | inl (f, p) ↦ elim (Option-cases (env.fault w.tick)) [
      | inr (e, q) ↦ rw (p, q) u
      | inl fine ↦
          let put : AreUnique (upsert_headers (map row_of f.0) w.pending.blockheaders) =
            upsert_headers-AreUnique (map row_of f.0) w.pending.blockheaders u in
          elim (Bool-cases (is_empty f.1)) [
            | inl none_left ↦ rw (p, fine) (rw none_left put)
            | inr some_left ↦ rw (p, fine) (rw some_left (rw (txs-rows f.1 _) put))
          ]
    ]
  ]

  pub inserting-KeepsUnique :
      (b : Bool) (hs : List BlockHeader) (w : World) → KeepsUnique w (inserting env b hs w)
  inserting-KeepsUnique true hs w = full-KeepsUnique hs w
  inserting-KeepsUnique false hs w = only-KeepsUnique hs w
