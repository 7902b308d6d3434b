-- ===== src/Commands/Collecting.antt =====
-- src/commands/mod.rs, `fill_missing_blocks_in_range`: the gaps that its inner loop collects.
use fossil_headers_db.Prelude.{
  ℕ, zero, suc, ◌+◌, ℤ, pos, negsuc, ◌+ℤ◌, +ℤ_parts, ◌≤ℤ◌, ◌<ℤ◌, leb_ℤ, ltb_ℤ, eqb_ℤ, min_ℤ, ◌≡◌,
  refl, ap, subst, ◌∙◌, inl, inr, true, ◌||◌, List, [], ◌∷◌, Option, none, some, arith, Bool-cases,
}
use fossil_headers_db.Prelude.Machine.{add_i64, sub_i64}
use fossil_headers_db.Result.{Result, ok}
use fossil_headers_db.Errors.{BlockchainError}
use fossil_headers_db.Types.{BlockNumber, from_trusted}
use fossil_headers_db.Database.Rows.{HeaderRow, stored, memb}
use fossil_headers_db.Database.Action.{Env, World, Action, continue, query, pure, ◌>>=◌}
use fossil_headers_db.Blocks.Ranges.{add_i64-pos, sub_i64-pos, add_i64-one}
use fossil_headers_db.Batch.Missing.{IsBlock, block_values}
use fossil_headers_db.Database.Sql.{limit_one}
use fossil_headers_db.Db.{block_of, absent, get_db_pool, find_first_gap}
use fossil_headers_db.Db.Pool.{after, get_db_pool-tables, get_db_pool-succeeds}
use fossil_headers_db.Db.Gaps.{FirstGap, InOrder, find_first_gap_least}
use fossil_headers_db.Commands.{last_or, calculate_range_end, collect_gaps}
use fossil_headers_db.Commands.Healthy.{IsHealthy}

-- The end of the range of a round.
pub calculate_range_end-bounds :
    (e s : BlockNumber)
    → IsBlock e.value
    → pos 0 ≤ℤ s.value
    → s.value ≤ℤ e.value
    → let r = (calculate_range_end e s).value in (s.value ≤ℤ r) × (r ≤ℤ e.value)
unfolding calculate_range_end
calculate_range_end-bounds e s he low ordered = bounds e.value s.value he low ordered
  where
    bounds :
        (e s : ℤ)
        → IsBlock e
        → pos 0 ≤ℤ s
        → s ≤ℤ e
        → let r = min_ℤ e (sub_i64 (add_i64 s (pos 100000)) (pos 1)) in (s ≤ℤ r) × (r ≤ℤ e)
    bounds (pos e) (pos s) he low ordered =
        rw
          (
            add_i64-pos s 100000 (omega arith),
            sub_i64-pos 1 (s + 100000) (omega arith) (omega arith),
          )
          (ground arith)
    bounds (negsuc e) s he low ordered = absurd (omega arith)
    bounds (pos e) (negsuc s) he low ordered = absurd (omega arith)

-- The gaps from `s` to `r`, ascending and without a gap between them: `left` at most, and all of
-- them where there are fewer.
abbrev pub Collected : ℕ → ℤ → ℤ → List HeaderRow → List BlockNumber → Type 0
Collected zero s r rows bs = bs ≡ []
Collected (suc left) s r rows [] = (n : ℤ) → s ≤ℤ n → n ≤ℤ r → stored n rows ≡ true
Collected (suc left) s r rows (b ∷ bs) =
    (s ≤ℤ b.value)
    × (b.value ≤ℤ r)
    × ((n : ℤ) → s ≤ℤ n → n <ℤ b.value → stored n rows ≡ true)
    × Collected left (b.value +ℤ pos 1) r rows bs

-- The blocks of a list are all from `s` to `r`.
abbrev pub AreIn : ℤ → ℤ → List BlockNumber → Type 0
AreIn s r [] = Unit {0}
AreIn s r (b ∷ bs) = (s ≤ℤ b.value) × (b.value ≤ℤ r) × AreIn s r bs

AreIn-lower : (s t r : ℤ) (bs : List BlockNumber) → s ≤ℤ t → AreIn t r bs → AreIn s r bs
AreIn-lower s t r [] below inside = tt
AreIn-lower s t r (b ∷ bs) below (low, high, inside) =
    (omega arith, high, AreIn-lower s t r bs below inside)

pub Collected-AreIn :
    (left : ℕ) (s r : ℤ) (rows : List HeaderRow) (bs : List BlockNumber)
    → Collected left s r rows bs
    → AreIn s r bs
Collected-AreIn zero s r rows [] h = tt
Collected-AreIn zero s r rows (b ∷ bs) h = cc
Collected-AreIn (suc left) s r rows [] h = tt
Collected-AreIn (suc left) s r rows (b ∷ bs) (low, high, before, rest) = (
  low,
  high,
  AreIn-lower s (b.value +ℤ pos 1) r bs (omega (arith, +ℤ_parts b.value (pos 1)))
      (Collected-AreIn left (b.value +ℤ pos 1) r rows bs rest),
)

pub last_or-AreIn :
    (s r : ℤ) (b : BlockNumber) (bs : List BlockNumber)
    → AreIn s r (b ∷ bs)
    → (s ≤ℤ (last_or b bs).value) × ((last_or b bs).value ≤ℤ r)
unfolding last_or
last_or-AreIn s r b [] (low, high, inside) = (low, high)
last_or-AreIn s r b (c ∷ cs) (low, high, inside) = last_or-AreIn s r c cs inside

-- Up to the last gap, a block is a gap or stored. The block in front of the list comes before `s`.
pub Collected-covers :
    (left : ℕ) (s r : ℤ) (rows : List HeaderRow) (front : BlockNumber) (bs : List BlockNumber)
    (n : ℤ)
    → Collected left s r rows bs
    → front.value <ℤ s
    → s ≤ℤ n
    → n ≤ℤ (last_or front bs).value
    → (memb n (block_values bs) || stored n rows) ≡ true
unfolding last_or memb block_values
Collected-covers left s r rows front [] n h behind above below = absurd (omega arith)
Collected-covers zero s r rows front (b ∷ bs) n h behind above below = cc
Collected-covers (suc left) s r rows front (b ∷ bs) n (low, high, before, rest) behind above below =
    elim (Bool-cases (ltb_ℤ n b.value)) [
      | inl early ↦ let here : stored n rows ≡ true = before n above (ground arith) in ground arith
      | inr late ↦ elim (Bool-cases (eqb_ℤ b.value n)) [
        | inl at_b ↦ rw at_b refl
        | inr other ↦ rw other (
            Collected-covers left (b.value +ℤ pos 1) r rows b bs n rest
              (omega (arith, +ℤ_parts b.value (pos 1))) (ground (arith, +ℤ_parts b.value (pos 1)))
              below)
      ]
    ]

-- The inner loop succeeds, and changes no table.
pub record Collects (left : ℕ) (s r : ℤ) (w : World)
    (m : Result BlockchainError (List BlockNumber) × World) : Type 0 where
  pub gaps : List BlockNumber
  pub collected : m.0 ≡ ok gaps
  pub unchanged : m.1.tables ≡ w.tables
  pub gaps_are : Collected left s r w.tables.blockheaders gaps

module _ (env : Env) (healthy : IsHealthy env) where
  find_first_gap-returns :
      (s e : BlockNumber) (w : World)
      → (o : Option BlockNumber) × ((find_first_gap env s e w).0 ≡ ok o)
        × ((find_first_gap env s e w).1.tables ≡ w.tables)
  unfolding find_first_gap query
  find_first_gap-returns s e w =
      let v : World = (get_db_pool env w).1 in
      let rows = v.tables.blockheaders in
      rw (get_db_pool-succeeds env healthy.serves w, healthy.serves.unfailing v.tick)
        (
          block_of (limit_one (env.position v.tick) (absent s.value e.value rows)),
          refl,
          get_db_pool-tables env w,
        )

  find_first_gap-succeeds :
      (s e : BlockNumber) (w : World)
      → InOrder env
      → IsBlock s.value
      → IsBlock e.value
      → s.value ≤ℤ e.value
      → (o : Option BlockNumber) × ((find_first_gap env s e w).0 ≡ ok o)
        × ((find_first_gap env s e w).1.tables ≡ w.tables)
        × FirstGap s.value e.value w.tables.blockheaders o
  find_first_gap-succeeds s e w in_order hs he ordered =
      let (o, found, same) = find_first_gap-returns s e w in
      let w' : World = (find_first_gap env s e w).1 in
      (
        o,
        found,
        same,
        find_first_gap_least env s e o w w' in_order hs he ordered (ap (λ r. (r, w')) found),
      )

  abbrev collect_next :
      ℕ → BlockNumber → Option BlockNumber → Action BlockchainError (List BlockNumber)
  collect_next left r none = pure []
  collect_next left r (some b) =
      collect_gaps env left (from_trusted (add_i64 b.value (pos 1))) r >>= λ rest. pure (b ∷ rest)

  gathered :
      (left : ℕ) (s r b : BlockNumber) (w v : World)
      (m : Result BlockchainError (List BlockNumber) × World)
      → v.tables ≡ w.tables
      → (s.value ≤ℤ b.value)
        × (b.value ≤ℤ r.value)
        × ((n : ℤ) → s.value ≤ℤ n → n <ℤ b.value → stored n w.tables.blockheaders ≡ true)
      → Collects left (b.value +ℤ pos 1) r.value v m
      → Collects (suc left) s.value r.value w (continue m.0 (λ rest. pure (b ∷ rest)) m.1)
  gathered left s r b w v m same (low, high, before) rest = rw rest.collected (record {
    gaps = b ∷ rest.gaps;
    collected = refl;
    unchanged = rest.unchanged ∙ same;
    gaps_are = (
      low,
      high,
      before,
      subst (λ t. Collected left (b.value +ℤ pos 1) r.value t.blockheaders rest.gaps) same
          rest.gaps_are,
    );
  })

  -- The rest of a round, behind a search that has succeeded.
  by_gap :
      (left : ℕ) (s r : BlockNumber) (w v : World) (o : Option BlockNumber)
      → pos 0 ≤ℤ s.value
      → IsBlock r.value
      → v.tables ≡ w.tables
      → FirstGap s.value r.value w.tables.blockheaders o
      → ((c : BlockNumber) (u : World)
          → pos 0 ≤ℤ c.value
          → Collects left c.value r.value u (collect_gaps env left c r u))
      → Collects (suc left) s.value r.value w (collect_next left r o v)
  by_gap left s r w v none hs hr same first again = record {
    gaps = [];
    collected = refl;
    unchanged = same;
    gaps_are = first;
  }
  by_gap left s r w v (some b) hs hr same (low, high, free, before) again =
      let c : BlockNumber = from_trusted (add_i64 b.value (pos 1)) in
      let next : add_i64 b.value (pos 1) ≡ b.value +ℤ pos 1 = add_i64-one b.value (omega arith) in
      gathered left s r b w v (collect_gaps env left c r v) same (low, high, before)
        (subst (λ x. Collects left x r.value v (collect_gaps env left c r v)) next
          (again c v (rw next (omega (arith, +ℤ_parts b.value (pos 1))))))

  pub collect_gaps-Collects :
      (left : ℕ) (s r : BlockNumber) (w : World)
      → InOrder env
      → pos 0 ≤ℤ s.value
      → IsBlock r.value
      → Collects left s.value r.value w (collect_gaps env left s r w)
  unfolding collect_gaps
  collect_gaps-Collects zero s r w in_order hs hr = record {
    gaps = [];
    collected = refl;
    unchanged = refl;
    gaps_are = refl;
  }
  collect_gaps-Collects (suc left) s r w in_order hs hr =
      elim (Bool-cases (leb_ℤ s.value r.value)) [
        | inr over ↦ rw over (record {
          gaps = [];
          collected = refl;
          unchanged = refl;
          gaps_are = λ n low high. absurd (ground arith);
        })
        | inl ordered ↦
            let (o, found, same, first) =
              find_first_gap-succeeds s r w in_order (ground arith) hr (ground arith) in
            rw ordered (
              after (Collects (suc left) s.value r.value w) (collect_next left r)
                (find_first_gap env s r w) o found
                (by_gap left s r w (find_first_gap env s r w).1 o hs hr same first
                  (λ c u h. collect_gaps-Collects left c r u in_order h hr)))
      ]
