-- ===== src/Batch/Missing.antt =====
-- src/indexer/batch_service.rs, `find_missing_blocks_with_db`: the chunks together find exactly the
-- numbers of the range that no row has.
use fossil_headers_db.Prelude.{
  ℕ, zero, suc, ◌+◌, ◌-◌, min, ◌≤◌, ◌<◌, ℤ, pos, negsuc, ◌≤ℤ◌, ◌<ℤ◌, leb_ℤ, ltb_ℤ, eqb_ℤ, eqb_ℤ→eq,
  min_ℤ, ◌-ℤ◌, ◌≡◌, refl, ◌∙◌, ap, inl, inr, Bool, true, not, ◌&&◌, ◌||◌, List, [], ◌∷◌, ◌++◌, map,
  arith, Bool-cases,
}
use fossil_headers_db.Prelude.Machine.{i64_half, add_i64, sub_i64}
use fossil_headers_db.Result.{Result, ok, err}
use fossil_headers_db.Errors.{Report}
use fossil_headers_db.Types.{BlockNumber, from_trusted}
use fossil_headers_db.Config.Batch.{BatchIndexConfig}
use fossil_headers_db.Database.Rows.{HeaderRow, stored, memb, between}
use fossil_headers_db.Database.Action.{Env, World, query, continue, pure, ◌>>=◌}
use fossil_headers_db.Blocks.{numbered, inclusive, span}
use fossil_headers_db.Blocks.Ranges.{add_i64-pos, sub_i64-pos}
use fossil_headers_db.Batch.{
  unstored, chunk_size, find_chunk, find_from, find_missing_blocks_with_db,
}

-- The block numbers for which no sum of the loop overflows: those below 2^62.
abbrev pub IsBlock : ℤ → Type 0
IsBlock n = (pos 0 ≤ℤ n) × (n <ℤ pos 4611686018427387904)

pub memb-append : (n : ℤ) (xs ys : List ℤ) → memb n (xs ++ ys) ≡ (memb n xs || memb n ys)
unfolding memb
memb-append n [] ys = refl
memb-append n (x ∷ xs) ys = ground (arith, memb-append n xs ys)

memb-unstored :
    (n : ℤ) (ns : List ℤ) (rows : List HeaderRow)
    → memb n (unstored ns rows) ≡ (memb n ns && not (stored n rows))
unfolding memb unstored
memb-unstored n [] rows = refl
memb-unstored n (m ∷ ns) rows = elim (Bool-cases (eqb_ℤ m n)) [
  | inl same ↦ rw (eqb_ℤ→eq m n same) (ground (arith, memb-unstored n ns rows))
  | inr other ↦ ground (arith, memb-unstored n ns rows)
]

pub memb-numbered_pos :
    (n : ℤ) (a i k : ℕ)
    → a + i + k ≤ i64_half
    → memb n (numbered (pos a) i k) ≡ (leb_ℤ (pos (a + i)) n && ltb_ℤ n (pos (a + i + k)))
unfolding memb numbered
memb-numbered_pos n a i zero h = ground arith
memb-numbered_pos n a i (suc k) h =
    rw (add_i64-pos a i (omega arith)) (ground (arith, memb-numbered_pos n a (i + 1) k))

pub inclusive-eq :
    (a c : ℕ) → a ≤ c → c < i64_half → inclusive (pos a) (pos c) ≡ numbered (pos a) 0 (suc (c - a))
unfolding inclusive
inclusive-eq a c h k =
    let test : leb_ℤ (pos a) (pos c) ≡ true = ground arith in rw (test, sub_i64-pos a c h k) refl

pub memb-inclusive :
    (n : ℤ) (a c : ℕ)
    → a ≤ c
    → c < 4611686018427397904
    → memb n (inclusive (pos a) (pos c)) ≡ between (pos a) (pos c) n
memb-inclusive n a c h k =
    rw (inclusive-eq a c h (omega arith), memb-numbered_pos n a 0 (suc (c - a)) (omega arith))
      (ground arith)

-- The end of the first chunk of a range.
chunk_end :
    (a b : ℕ)
    → a < 4611686018427387904
    → min_ℤ (sub_i64 (add_i64 (pos a) chunk_size) (pos 1)) (pos b) ≡ pos (min (a + 9999) b)
chunk_end a b h =
    rw (add_i64-pos a 10000 (omega arith), sub_i64-pos 1 (a + 10000) (omega arith) (omega arith))
      (ground arith)

-- What a search over a range has found, once it succeeds.
abbrev pub Finds : ℤ → ℤ → World → Result Report (List ℤ) × World → Type 0
Finds a b w m =
    (m.1.tables ≡ w.tables)
    × ((ms : List ℤ)
        → m.0 ≡ ok ms
        → (n : ℤ) → memb n ms ≡ (between a b n && not (stored n w.tables.blockheaders)))

Finds-nothing : (a b : ℕ) (w : World) → b < a → Finds (pos a) (pos b) w (ok [], w)
unfolding memb
Finds-nothing a b w h = (refl, λ ms e n. ground arith)

split_range :
    (a c b : ℕ) (n : ℤ) (fresh : Bool)
    → a ≤ c
    → c ≤ b
    → ((between (pos a) (pos c) n && fresh) || (between (pos (c + 1)) (pos b) n && fresh))
      ≡ (between (pos a) (pos b) n && fresh)
split_range a c b n fresh h k = ground arith

Finds-rest :
    (a c b : ℕ) (w v : World) (chunk : List ℤ) (q : Result Report (List ℤ) × World)
    → a ≤ c
    → c ≤ b
    → b < 4611686018427387904
    → v.tables ≡ w.tables
    → chunk ≡ unstored (inclusive (pos a) (pos c)) w.tables.blockheaders
    → Finds (pos (c + 1)) (pos b) v q
    → Finds (pos a) (pos b) w (continue q.0 (λ rest. pure (chunk ++ rest)) q.1)
Finds-rest a c b w v chunk (err e, u) h k small same found (kept, finds) =
    (kept ∙ same, λ ms e n. cc)
Finds-rest a c b w v chunk (ok rest, u) h k small same found (kept, finds) = (
  kept ∙ same,
  λ ms e n.
      let rows : List HeaderRow = w.tables.blockheaders in
      let whole : chunk ++ rest ≡ ms = ground arith in
      let later : memb n rest ≡ (between (pos (c + 1)) (pos b) n && not (stored n rows)) =
        rw same at (finds rest refl n) in
      rw (← whole, memb-append n chunk rest, later, found)
        (rw (memb-unstored n (inclusive (pos a) (pos c)) rows, memb-inclusive n a c h (omega arith))
          (split_range a c b n (not (stored n rows)) h k)),
)

Finds-chunk :
    (a c b : ℕ) (w : World) (m : Result Report (List ℤ) × World)
    (next : World → Result Report (List ℤ) × World)
    → a ≤ c
    → c ≤ b
    → b < 4611686018427387904
    → m.1.tables ≡ w.tables
    → ((ms : List ℤ)
        → m.0 ≡ ok ms
        → ms ≡ unstored (inclusive (pos a) (pos c)) w.tables.blockheaders)
    → Finds (pos (c + 1)) (pos b) m.1 (next m.1)
    → Finds (pos a) (pos b) w (continue m.0 (λ chunk. next >>= λ rest. pure (chunk ++ rest)) m.1)
Finds-chunk a c b w (err e, v) next h k small same found finds = (same, λ ms e n. cc)
Finds-chunk a c b w (ok chunk, v) next h k small same found finds =
    Finds-rest a c b w v chunk (next v) h k small same (found chunk refl) finds

-- The numbers of some blocks.
unfoldable pub block_values : List BlockNumber → List ℤ
block_values [] = []
block_values (b ∷ bs) = b.value ∷ block_values bs

pub values-from_trusted : (xs : List ℤ) → block_values (map from_trusted xs) ≡ xs
unfolding block_values
values-from_trusted [] = refl
values-from_trusted (x ∷ xs) = ap (λ ys. x ∷ ys) (values-from_trusted xs)

module _ (env : Env) (config : BatchIndexConfig) where
  pub find_chunk-tables : (a b : ℤ) (w : World) → (find_chunk env config a b w).1.tables ≡ w.tables
  unfolding find_chunk query
  find_chunk-tables a b w = ground arith

  find_chunk-finds :
      (a b : ℤ) (w : World) (ms : List ℤ)
      → (find_chunk env config a b w).0 ≡ ok ms
      → ms ≡ unstored (inclusive a b) w.tables.blockheaders
  unfolding find_chunk query
  find_chunk-finds a b w ms h = ground arith

  find_from-Finds :
      (fuel a b : ℕ) (w : World)
      → a < 4611686018427387905
      → b < 4611686018427387904
      → b + 1 ≤ fuel + a
      → Finds (pos a) (pos b) w (find_from env config fuel (pos a) (pos b) w)
  unfolding find_from
  find_from-Finds zero a b w ha hb enough = Finds-nothing a b w (omega arith)
  find_from-Finds (suc fuel) a b w ha hb enough = elim (Bool-cases (leb_ℤ (pos a) (pos b))) [
    | inr past ↦ rw past (Finds-nothing a b w (ground arith))
    | inl inside ↦
        let c : ℕ = min (a + 9999) b in
        let within : a ≤ b = ground arith in
        let m : Result Report (List ℤ) × World = find_chunk env config (pos a) (pos c) w in
        rw (inside, chunk_end a b (omega arith), add_i64-pos c 1 (omega arith))
          (Finds-chunk a c b w m (find_from env config fuel (pos (c + 1)) (pos b)) (omega arith)
            (omega arith) hb (find_chunk-tables (pos a) (pos c) w)
            (find_chunk-finds (pos a) (pos c) w)
            (find_from-Finds fuel (c + 1) b m.1 (omega arith) hb (omega arith)))
  ]

  -- What the search over a range returns: exactly the numbers of the range that no row has. It
  -- changes no table.
  pub find_missing_blocks-exact :
      (s e : ℤ) (w : World)
      → IsBlock s
      → IsBlock e
      → let (r, w') = find_missing_blocks_with_db env config s e w in
        (w'.tables ≡ w.tables)
        × ((bs : List BlockNumber)
            → r ≡ ok bs
            → (n : ℤ)
            → memb n (block_values bs) ≡ (between s e n && not (stored n w.tables.blockheaders)))
  unfolding find_missing_blocks_with_db ◌-ℤ◌
  find_missing_blocks-exact (pos a) (pos b) w hs he =
      let fuel : ℕ = suc (span (pos b -ℤ pos a)) in
      let found = find_from-Finds fuel a b w (omega arith) (omega arith) (ground arith) in
      returned (find_from env config fuel (pos a) (pos b) w) found
    where
      returned :
          (m : Result Report (List ℤ) × World)
          → Finds (pos a) (pos b) w m
          → ((continue m.0 (λ missing. pure (map from_trusted missing)) m.1).1.tables ≡ w.tables)
            × ((bs : List BlockNumber)
                → (continue {E = Report} m.0 (λ missing. pure (map from_trusted missing)) m.1).0
                  ≡ ok bs
                → (n : ℤ)
                → memb n (block_values bs)
                  ≡ (between (pos a) (pos b) n && not (stored n w.tables.blockheaders)))
      returned (err bad, v) (same, finds) = (same, λ bs h n. cc)
      returned (ok ms, v) (same, finds) = (
        same,
        λ bs h n.
            let e : map from_trusted ms ≡ bs = cc in
            rw (← e, values-from_trusted ms) (finds ms refl n),
      )
  find_missing_blocks-exact (negsuc a) e w hs he = absurd (omega arith)
  find_missing_blocks-exact (pos a) (negsuc b) w hs he = absurd (omega arith)

  -- A search of a range that succeeds changes no table and returns exactly the numbers of the range
  -- that no row has, for ranges that lie between 0 and 2^62.
  pub find_missing_blocks-finds :
      (s e : ℤ) (bs : List BlockNumber) (w w' : World)
      → IsBlock s
      → IsBlock e
      → find_missing_blocks_with_db env config s e w ≡ (ok bs, w')
      → (w'.tables ≡ w.tables)
        × ((n : ℤ)
            → memb n (block_values bs) ≡ (between s e n && not (stored n w.tables.blockheaders)))
  find_missing_blocks-finds s e bs w w' hs he h =
      let (same, exact) = find_missing_blocks-exact s e w hs he in
      (rw (ap (λ m. m.1) h) at same, exact bs (ap (λ m. m.0) h))
