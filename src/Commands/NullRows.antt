-- ===== src/Commands/NullRows.antt =====
-- src/commands/mod.rs, `fill_null_rows`, and with it the whole of `fill_gaps`.
use fossil_headers_db.Prelude.{
  ℕ, zero, suc, ◌+◌, ℤ, pos, negsuc, ◌+ℤ◌, ◌-ℤ◌, +ℤ_parts, ◌≤ℤ◌, ◌<ℤ◌, leb_ℤ, ltb_ℤ, eqb_ℤ, ◌≡◌,
  refl, inl, inr, false, List, [], ◌∷◌, map, some, arith, Bool-cases,
}
use fossil_headers_db.Prelude.Machine.{add_i64}
use fossil_headers_db.Result.{Result, ok}
use fossil_headers_db.Errors.{BlockchainError}
use fossil_headers_db.Types
use fossil_headers_db.Types.{BlockNumber, from_trusted}
use fossil_headers_db.Database.Rows.{HeaderRow}
use fossil_headers_db.Database.Action.{Env, World, Action, continue, query, pure, load_terminate}
use fossil_headers_db.Blocks.{span}
use fossil_headers_db.Batch.Missing.{IsBlock, block_values}
use fossil_headers_db.Db.{insert_number, has_null, null_numbers, get_db_pool, find_null_data}
use fossil_headers_db.Db.Gaps.{InOrder}
use fossil_headers_db.Db.Pool.{after, get_db_pool-tables, get_db_pool-succeeds}
use fossil_headers_db.Commands.{
  last_or, calculate_range_end, fill_null_found, null_rounds, fill_null_rows, fill_rounds,
  fill_missing_blocks_in_range, get_range_end, fill_gaps,
}
use fossil_headers_db.Commands.Tasks.{process_null_blocks_batch, retry_block_retrieval}
use fossil_headers_db.Commands.Healthy.{
  IsHealthy, Finishes, Works, fetch_and_write-Puts, run_tasks-Finishes,
}
use fossil_headers_db.Commands.Collecting.{AreIn, last_or-AreIn, calculate_range_end-bounds}
use fossil_headers_db.Commands.Filling.{
  Kept, Fills, stored-added, AreIn-AreBlocks, next_value, fill_rounds-Fills,
}

-- The action succeeds and keeps what is stored.
record Passes (w : World) (m : Result BlockchainError (Unit {0}) × World) : Type 0 where
  succeeds : m.0 ≡ ok tt
  keeps : Kept w m.1

-- A round succeeds, keeps what is stored, and the next one starts further.
record Moves (a : ℤ) (w : World) (m : Result BlockchainError BlockNumber × World) : Type 0 where
  next : BlockNumber
  succeeds : m.0 ≡ ok next
  keeps : Kept w m.1
  further : a <ℤ next.value

insert_number-AreIn :
    (a b n : ℤ) (ns : List ℤ)
    → a ≤ℤ n
    → n ≤ℤ b
    → AreIn a b (map from_trusted ns)
    → AreIn a b (map from_trusted (insert_number n ns))
unfolding insert_number
insert_number-AreIn a b n [] low high inside = (low, high, tt)
insert_number-AreIn a b n (m ∷ ms) low high (low', high', inside) = elim (Bool-cases (leb_ℤ n m)) [
  | inl front ↦ rw front (low, high, (low', high', inside))
  | inr behind ↦ rw behind (low', high', insert_number-AreIn a b n ms low high inside)
]

null_numbers-AreIn :
    (a b : ℤ) (rows : List HeaderRow) → AreIn a b (map from_trusted (null_numbers a b rows))
unfolding null_numbers
null_numbers-AreIn a b [] = tt
null_numbers-AreIn a b (r ∷ rows) =
    let rest = null_numbers-AreIn a b rows in
    elim (Bool-cases (has_null r)) [
      | inr full ↦ rw full rest
      | inl null ↦ elim (Bool-cases (leb_ℤ a r.number)) [
        | inr under ↦ rw (null, under) rest
        | inl low ↦ elim (Bool-cases (leb_ℤ r.number b)) [
          | inr over ↦ rw (null, low, over) rest
          | inl high ↦
              rw (null, low, high)
                (insert_number-AreIn a b r.number (null_numbers a b rows) (ground arith)
                  (ground arith) rest)
        ]
      ]
    ]

-- The rounds that a range is given.
enough : (s e : ℤ) → pos 0 ≤ℤ s → s <ℤ e → e <ℤ s +ℤ pos (suc (suc (span (e -ℤ s))))
unfolding ◌-ℤ◌ ◌+ℤ◌
enough (pos s) (pos e) hs ordered = ground arith
enough (pos s) (negsuc e) hs ordered = absurd (omega arith)
enough (negsuc s) e hs ordered = absurd (omega arith)

module _ (env : Env) (healthy : IsHealthy env) where
  find_null_data-succeeds :
      (s e : BlockNumber) (w : World)
      → (bs : List BlockNumber) × ((find_null_data env s e w).0 ≡ ok bs)
        × ((find_null_data env s e w).1.tables ≡ w.tables)
        × AreIn s.value e.value bs
  unfolding find_null_data query
  find_null_data-succeeds s e w =
      let v : World = (get_db_pool env w).1 in
      rw (get_db_pool-succeeds env healthy.serves w, healthy.serves.unfailing v.tick)
        (
          map from_trusted (null_numbers s.value e.value v.tables.blockheaders),
          refl,
          get_db_pool-tables env w,
          null_numbers-AreIn s.value e.value v.tables.blockheaders,
        )

  retry-Works : Works (retry_block_retrieval env)
  unfolding retry_block_retrieval
  retry-Works b w inside = fetch_and_write-Puts env healthy _ 9 0 b w inside

  fill_null_found-Moves :
      (s r : BlockNumber) (w v : World) (bs : List BlockNumber)
      → pos 0 ≤ℤ s.value
      → IsBlock r.value
      → s.value ≤ℤ r.value
      → v.tables ≡ w.tables
      → AreIn s.value r.value bs
      → Moves s.value w (fill_null_found env r bs v)
  unfolding fill_null_found process_null_blocks_batch Types.add
  fill_null_found-Moves s r w v [] hs hr ordered same inside =
      let next : add_i64 r.value (pos 1) ≡ r.value +ℤ pos 1 =
        next_value r s.value r.value hr hs ordered (omega arith) in
      record {
        next = from_trusted (add_i64 r.value (pos 1));
        succeeds = refl;
        keeps = λ n h. rw same h;
        further = rw next (omega (arith, +ℤ_parts r.value (pos 1)));
      }
  fill_null_found-Moves s r w v (b ∷ bs) hs hr ordered same inside =
      let (low, high) = last_or-AreIn s.value r.value b bs inside in
      let last : BlockNumber = last_or b bs in
      let next : add_i64 last.value (pos 1) ≡ last.value +ℤ pos 1 =
        next_value last s.value r.value hr hs low high in
      let done : Finishes (block_values (b ∷ bs)) v (process_null_blocks_batch env (b ∷ bs) v) =
        run_tasks-Finishes env healthy (retry_block_retrieval env) (b ∷ bs) v retry-Works
          (AreIn-AreBlocks s.value r.value (b ∷ bs) hs hr inside) in
      after (Moves s.value w) (λ t. pure (from_trusted (add_i64 last.value (pos 1))))
        (process_null_blocks_batch env (b ∷ bs) v) done.tally done.finished
        (record {
          next = from_trusted (add_i64 last.value (pos 1));
          succeeds = refl;
          keeps = λ n h.
              rw (done.blocks n, same)
                (stored-added n (block_values (b ∷ bs)) w.tables.blockheaders h);
          further = rw next (omega (arith, +ℤ_parts last.value (pos 1)));
        })

  Moves-Passes :
      (a : ℤ) (w : World) (m : Result BlockchainError BlockNumber × World)
      (f : BlockNumber → Action BlockchainError (Unit {0}))
      → Moves a w m
      → ((c : BlockNumber) (v : World) → a <ℤ c.value → Passes v (f c v))
      → Passes w (continue m.0 f m.1)
  Moves-Passes a w m f step rest =
      let passes : Passes m.1 (f step.next m.1) = rest step.next m.1 step.further in
      after (Passes w) f m step.next step.succeeds
        (record { succeeds = passes.succeeds; keeps = λ n h. passes.keeps n (step.keeps n h) })

  null_rounds-Passes :
      (fuel : ℕ) (a e : BlockNumber) (w : World)
      → pos 0 ≤ℤ a.value
      → IsBlock e.value
      → Passes w (null_rounds env fuel a e w)
  unfolding null_rounds load_terminate
  null_rounds-Passes zero a e w ha he = record { succeeds = refl; keeps = λ n h. h }
  null_rounds-Passes (suc fuel) a e w ha he = elim (Bool-cases (ltb_ℤ e.value a.value)) [
    | inl over ↦ rw (healthy.continuing w.tick, over) (record { succeeds = refl; keeps = λ n h. h })
    | inr inside ↦
        let v : World = record w { tick = w.tick + 1 } in
        let r : BlockNumber = calculate_range_end e a in
        let (low, high) = calculate_range_end-bounds e a he ha (ground arith) in
        let (bs, found, same, inside_range) = find_null_data-succeeds a r v in
        rw (healthy.continuing w.tick, inside)
          (after (Passes w) _ (find_null_data env a r v) bs found (
            Moves-Passes a.value w (fill_null_found env r bs (find_null_data env a r v).1)
              (λ c. null_rounds env fuel c e)
              (fill_null_found-Moves a r w (find_null_data env a r v).1 bs ha
                (omega arith, omega arith) low same inside_range)
              (λ c u further. null_rounds-Passes fuel c e u (omega arith) he)))
  ]

  -- Beside a node that answers and a database that refuses nothing and returns the rows of a
  -- recursive query in the order in which they are made, while no task is cut off and nobody asks to
  -- stop, a run of `fill_gaps` from `s` to `e`, two different blocks between 0 and 2^62, `s` the
  -- smaller one, succeeds; behind it every block from `s` to `e` is stored, and every block that was.
  pub fill_gaps-Fills :
      (s e : BlockNumber) (w : World)
      → InOrder env
      → pos 0 ≤ℤ s.value
      → IsBlock e.value
      → s.value <ℤ e.value
      → Fills s.value e.value w (fill_gaps env (some s) (some e) w)
  unfolding fill_gaps get_range_end fill_missing_blocks_in_range fill_null_rows
  fill_gaps-Fills s e w in_order hs he ordered =
      let fuel : ℕ = suc (suc (span (e.value -ℤ s.value))) in
      let filled : Fills s.value e.value w (fill_rounds env fuel s e w) =
        fill_rounds-Fills env healthy fuel s e w in_order hs he
          (enough s.value e.value hs ordered) in
      let v : World = (fill_rounds env fuel s e w).1 in
      let passed : Passes v (null_rounds env fuel s e v) = null_rounds-Passes fuel s e v hs he in
      let ranged : ltb_ℤ e.value (pos 0) ≡ false = ground arith in
      let different : eqb_ℤ s.value e.value ≡ false = ground arith in
      rw (ranged, different)
        (after (Fills s.value e.value w) (λ t. fill_null_rows env s e) (fill_rounds env fuel s e w)
          tt filled.succeeds
          (record {
            succeeds = passed.succeeds;
            keeps = λ n h. passed.keeps n (filled.keeps n h);
            stores = λ n low high. passed.keeps n (filled.stores n low high);
          }))
