-- ===== src/Db/Chunks.antt =====
-- src/db/mod.rs: the search in chunks beside the search of the whole range.
use fossil_headers_db.Prelude.{
  ℕ, zero, suc, ◌+◌, ◌-◌, min, ◌≤◌, ◌<◌, ℤ, pos, negsuc, ◌≤ℤ◌, ◌<ℤ◌, ◌-ℤ◌, leb_ℤ, min_ℤ, ◌≡◌, refl,
  sym, ap, ap₂, ◌∙◌, inl, inr, false, List, [], ◌∷◌, ◌++◌, map, arith, Bool-cases,
}
use fossil_headers_db.Prelude.Machine.{i64_half, add_i64, sub_i64}
use fossil_headers_db.Result.{Result, ok}
use fossil_headers_db.Errors.{BlockchainError}
use fossil_headers_db.Types.{BlockNumber, from_trusted}
use fossil_headers_db.Database.Rows.{HeaderRow, stored}
use fossil_headers_db.Database.Action.{Env, World, Action, continue, pure, query}
use fossil_headers_db.Blocks.{numbered, inclusive, span}
use fossil_headers_db.Blocks.Ranges.{add_i64-pos, sub_i64-pos}
use fossil_headers_db.Batch.{unstored}
use fossil_headers_db.Batch.Missing.{IsBlock, inclusive-eq}
use fossil_headers_db.Db.{
  get_db_pool, find_missing_blocks_in_range, find_chunks, find_missing_blocks_chunked,
}
use fossil_headers_db.Db.Pool.{Serves, after, get_db_pool-tables, get_db_pool-succeeds}

-- The blocks of a range that are not stored, as both searches return them.
abbrev pub missing : ℤ → ℤ → List HeaderRow → List BlockNumber
missing a b rows = map from_trusted (unstored (inclusive a b) rows)

-- The `k` numbers from `n` on.
unfoldable pub upto : ℕ → ℕ → List ℤ
upto n zero = []
upto n (suc k) = pos n ∷ upto (n + 1) k

numbered-upto : (a i k : ℕ) → a + i + k ≤ i64_half → numbered (pos a) i k ≡ upto (a + i) k
unfolding numbered upto
numbered-upto a i zero h = refl
numbered-upto a i (suc k) h =
    let same : a + (i + 1) ≡ a + i + 1 = omega arith in
    rw (add_i64-pos a i (omega arith), numbered-upto a (i + 1) k (omega arith), same) refl

upto-append : (n k l : ℕ) → upto n (k + l) ≡ upto n k ++ upto (n + k) l
unfolding upto
upto-append n zero l =
    let (zero_l, n_zero) : (zero + l ≡ l) × (n + zero ≡ n) = (omega arith, omega arith) in
    rw (zero_l, n_zero) refl
upto-append n (suc k) l =
    let count : suc k + l ≡ suc (k + l) = omega arith in
    let start : n + suc k ≡ n + 1 + k = omega arith in
    rw (count, start, upto-append (n + 1) k l) refl

pub inclusive-upto :
    (a b : ℕ) → a ≤ b → b < i64_half → inclusive (pos a) (pos b) ≡ upto a (suc (b - a))
inclusive-upto a b ordered small =
    let start : a + 0 ≡ a = omega arith in
    inclusive-eq a b ordered small
    ∙ numbered-upto a 0 (suc (b - a)) (omega arith)
    ∙ ap (λ x. upto x (suc (b - a))) start

unstored-append :
    (xs ys : List ℤ) (rows : List HeaderRow)
    → unstored (xs ++ ys) rows ≡ unstored xs rows ++ unstored ys rows
unfolding unstored
unstored-append [] ys rows = refl
unstored-append (x ∷ xs) ys rows = elim (Bool-cases (stored x rows)) [
  | inl here ↦ rw (here, unstored-append xs ys rows) refl
  | inr free ↦ rw (free, unstored-append xs ys rows) refl
]

map-append : {A B : Type 0} (f : A → B) (xs ys : List A) → map f (xs ++ ys) ≡ map f xs ++ map f ys
map-append f [] ys = refl
map-append f (x ∷ xs) ys = ap (λ zs. f x ∷ zs) (map-append f xs ys)

-- A range whose end comes first.
missing-over : (a b : ℕ) (rows : List HeaderRow) → b < a → missing (pos a) (pos b) rows ≡ []
unfolding inclusive unstored
missing-over a b rows over = let test : leb_ℤ (pos a) (pos b) ≡ false = ground arith in rw test refl

-- What a range misses is what its two parts miss.
missing-split :
    (a c b : ℕ) (rows : List HeaderRow)
    → a ≤ c
    → c ≤ b
    → b < i64_half
    → missing (pos a) (pos b) rows
      ≡ missing (pos a) (pos c) rows ++ missing (pos (c + 1)) (pos b) rows
unfolding unstored
missing-split a c b rows low high small = elim (Bool-cases (leb_ℤ (pos (c + 1)) (pos b))) [
  | inl more ↦
      let count : suc (b - a) ≡ suc (c - a) + suc (b - (c + 1)) = ground arith in
      let start : a + suc (c - a) ≡ c + 1 = ground arith in
      let whole : inclusive (pos a) (pos b)
          ≡ inclusive (pos a) (pos c) ++ inclusive (pos (c + 1)) (pos b) =
        inclusive-upto a b (omega arith) small
        ∙ ap (upto a) count
        ∙ upto-append a (suc (c - a)) (suc (b - (c + 1)))
        ∙ ap (λ x. upto a (suc (c - a)) ++ upto x (suc (b - (c + 1)))) start
        ∙ sym (
            ap₂ (λ xs ys. xs ++ ys) (inclusive-upto a c low (omega arith))
              (inclusive-upto (c + 1) b (ground arith) small)) in
      rw (whole, unstored-append (inclusive (pos a) (pos c)) (inclusive (pos (c + 1)) (pos b)) rows)
        (map-append from_trusted (unstored (inclusive (pos a) (pos c)) rows)
          (unstored (inclusive (pos (c + 1)) (pos b)) rows))
  | inr last ↦
      let same : c ≡ b = ground arith in
      rw (same, missing-over (b + 1) b rows (omega arith))
        (sym (append_nil (missing (pos a) (pos b) rows)))
]
  where
    append_nil : (xs : List BlockNumber) → xs ++ [] ≡ xs
    append_nil [] = refl
    append_nil (x ∷ xs) = ap (λ ys. x ∷ ys) (append_nil xs)

-- The search succeeds, changes no table, and returns what the range misses.
abbrev pub Found : ℤ → ℤ → World → Result BlockchainError (List BlockNumber) × World → Type 0
Found a b w m = (m.0 ≡ ok (missing a b w.tables.blockheaders)) × (m.1.tables ≡ w.tables)

module _ (env : Env) (serves : Serves env) where
  pub find_missing-Found :
      (s e : BlockNumber) (w : World)
      → Found s.value e.value w (find_missing_blocks_in_range env s e w)
  unfolding find_missing_blocks_in_range query
  find_missing-Found s e w =
      let v : World = (get_db_pool env w).1 in
      let same : v.tables ≡ w.tables = get_db_pool-tables env w in
      rw (get_db_pool-succeeds env serves w, serves.unfailing v.tick) (rw same refl, same)

  -- A chunk, and the chunks behind it.
  chunk-Found :
      (a c b : ℕ) (w : World) (m : Result BlockchainError (List BlockNumber) × World)
      (next : Action BlockchainError (List BlockNumber))
      → a ≤ c
      → c ≤ b
      → b < i64_half
      → Found (pos a) (pos c) w m
      → ((v : World) → Found (pos (c + 1)) (pos b) v (next v))
      → Found (pos a) (pos b) w (
          continue m.0
            (λ chunk v. continue (next v).0 (λ rest. pure (chunk ++ rest)) (next v).1)
            m.1)
  chunk-Found a c b w m next low high small (found, same) later =
      let (rest, kept) = later m.1 in
      after (Found (pos a) (pos b) w) _ m (missing (pos a) (pos c) w.tables.blockheaders) found (
        after (Found (pos a) (pos b) w) _ (next m.1)
          (missing (pos (c + 1)) (pos b) m.1.tables.blockheaders) rest
          (
            rw same (ap ok (sym (missing-split a c b w.tables.blockheaders low high small))),
            kept ∙ same,
          ))

  find_chunks-Found :
      (fuel a b c : ℕ) (w : World)
      → b < 4611686018427387904
      → a ≤ b + 1
      → 0 < c
      → c ≤ 4611686018427387904
      → b + 1 ≤ a + fuel
      → Found (pos a) (pos b) w (find_chunks env fuel (pos a) (pos b) (pos c) w)
  unfolding find_chunks
  find_chunks-Found zero a b c w small near positive fits enough =
      (ap ok (sym (missing-over a b w.tables.blockheaders (omega arith))), refl)
  find_chunks-Found (suc fuel) a b c w small near positive fits enough =
      elim (Bool-cases (leb_ℤ (pos a) (pos b))) [
        | inr over ↦
            rw over (ap ok (sym (missing-over a b w.tables.blockheaders (ground arith))), refl)
        | inl inside ↦
            let ordered : a ≤ b = ground arith in
            let last : ℕ = min (a + c - 1) b in
            let chunk_end : min_ℤ (sub_i64 (add_i64 (pos a) (pos c)) (pos 1)) (pos b) ≡ pos last =
              rw (add_i64-pos a c (omega arith), sub_i64-pos 1 (a + c) (omega arith) (omega arith))
                (ground arith) in
            rw (inside, chunk_end, add_i64-pos last 1 (ground arith))
              (chunk-Found a last b w _ (find_chunks env fuel (pos (last + 1)) (pos b) (pos c))
                (ground arith) (ground arith) (omega arith)
                (find_missing-Found (from_trusted (pos a)) (from_trusted (pos last)) w)
                (λ v.
                  find_chunks-Found fuel (last + 1) b c v small (ground arith) positive fits
                    (ground arith)))
      ]

  -- Beside a database that refuses nothing, the search in chunks of a range between 0 and 2^62, with
  -- a positive chunk size up to 2^62, and the search of the whole range both succeed, with the same
  -- blocks, and change no table.
  pub find_missing_blocks_chunked_whole :
      (s e : BlockNumber) (size : ℤ) (w : World)
      → IsBlock s.value
      → IsBlock e.value
      → s.value ≤ℤ e.value
      → pos 0 <ℤ size
      → size ≤ℤ pos 4611686018427387904
      → let (r, v) = find_missing_blocks_chunked env s e size w in
        let (r', v') = find_missing_blocks_in_range env s e w in
        (bs : List BlockNumber) × (r ≡ ok bs)
        × (r' ≡ ok bs)
        × (v.tables ≡ w.tables)
        × (v'.tables ≡ w.tables)
  unfolding find_missing_blocks_chunked ◌-ℤ◌
  find_missing_blocks_chunked_whole s e size w hs he ordered positive fits =
      let (chunked, same) = chunks s.value e.value size hs he ordered positive fits in
      let (whole, same') = find_missing-Found s e w in
      (missing s.value e.value w.tables.blockheaders, chunked, whole, same, same')
    where
      chunks :
          (a b c : ℤ)
          → IsBlock a
          → IsBlock b
          → a ≤ℤ b
          → pos 0 <ℤ c
          → c ≤ℤ pos 4611686018427387904
          → Found a b w (find_chunks env (suc (span (b -ℤ a))) a b c w)
      chunks (pos a) (pos b) (pos c) ha hb ordered positive fits =
          find_chunks-Found (suc (span (pos b -ℤ pos a))) a b c w (omega arith) (omega arith)
            (omega arith) (omega arith) (ground arith)
      chunks (negsuc a) b c ha hb ordered positive fits = absurd (omega arith)
      chunks (pos a) (negsuc b) c ha hb ordered positive fits = absurd (omega arith)
      chunks (pos a) (pos b) (negsuc c) ha hb ordered positive fits = absurd (omega arith)
