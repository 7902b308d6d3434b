-- ===== src/Quick/Machine.antt =====
-- src/indexer/quick_service.rs: what the service promises, as a machine that keeps a last block and a
-- set of stored blocks, and that its cycles and its loop are runs of this machine.
use fossil_headers_db.Prelude.{
  ℕ, zero, suc, ◌+◌, ◌*◌, ◌^◌, ℤ, pos, negsuc, pos_part, ◌+ℤ◌, int_laws, ◌≤ℤ◌, ◌<ℤ◌, ◌≡◌, refl, sym,
  ◌∙◌, ap, subst, ◌⊎◌, inl, inr, Bool, true, false, ◌||◌, List, [], ◌∷◌, map, Option, none, some,
  arith, Bool-cases,
}
use fossil_headers_db.Prelude.Machine.{add_i64}
use fossil_headers_db.Result.{Result, ok, is_ok}
use fossil_headers_db.Errors.{Report}
use fossil_headers_db.Types.{BlockNumber, largest}
use fossil_headers_db.Types.RoundTrip.{IsValid}
use fossil_headers_db.Config.Quick.{QuickIndexConfig}
use fossil_headers_db.Rpc.{BlockHeader}
use fossil_headers_db.Database.Rows.{IndexMetadataDto, Tables, stored, memb, between}
use fossil_headers_db.Database.Action.{Env, World, load_terminate, sleep}
use fossil_headers_db.Repositories.Lookup.{keys}
use fossil_headers_db.Repositories.Metadata.{with_latest}
use fossil_headers_db.Blocks.{numbered}
use fossil_headers_db.Blocks.Ranges.{IsNear, expected_count-eq, add_i64-one}
use fossil_headers_db.Batch.Missing.{memb-numbered_pos}
use fossil_headers_db.Quick.Invariant.{ReportsValid, calculate_ending_block_bounds}
use fossil_headers_db.Quick.{
  calculate_ending_block, index_new_blocks, index_block_range, retry_with_backoff,
  fetch_and_store_blocks, apply_exponential_backoff, retry_from,
}
use fossil_headers_db.Quick.Transaction.{Advanced}
use fossil_headers_db.Quick.Attempt.{Attempted, Covers, fetch_and_store_blocks-Attempted}
use fossil_headers_db.Quick.NoGaps.{log_indexing_success-tables}

-- What the service keeps, without the order and the columns of the rows: the last block that it
-- records, if there is a row of metadata, and which blocks are stored.
pub record View : Type 0 where
  pub latest : Option ℤ
  pub has : ℤ → Bool

abbrev pub recorded : List IndexMetadataDto → Option ℤ
recorded [] = none
recorded (r ∷ rows) = some r.current_latest_block_number

abbrev pub view : Tables → View
view t = record { latest = recorded t.index_metadata; has = λ n. stored n t.blockheaders }

-- The view after the blocks behind `l` up to `e` have been added.
abbrev pub moved : ℤ → ℤ → (ℤ → Bool) → View
moved l e p = record { latest = some e; has = λ n. between (l +ℤ pos 1) e n || p n }

View-eq : (v v' : View) → v.latest ≡ v'.latest → ((n : ℤ) → v.has n ≡ v'.has n) → v ≡ v'
View-eq v v' p q = λ i. record { latest = p i; has = λ n. q n i }

recorded-map :
    (e x : ℤ) (now : ℕ) (rows : List IndexMetadataDto)
    → recorded rows ≡ some x
    → recorded (map (with_latest e now) rows) ≡ some e
recorded-map e x now [] h = cc
recorded-map e x now (r ∷ rows) h = refl

-- The numbers of a range that fits.
numbered-between :
    (l e n : ℤ) (k : ℕ)
    → IsNear l
    → IsNear e
    → l ≤ℤ e
    → k + pos_part (l +ℤ pos 1) ≡ pos_part e + 1
    → memb n (numbered (l +ℤ pos 1) 0 k) ≡ between (l +ℤ pos 1) e n
unfolding ◌+ℤ◌
numbered-between (pos l) (pos e) n k hl he up count =
    let next : pos l +ℤ pos 1 ≡ pos (l + 1) = ground arith in
    let count' : k + (l + 1) ≡ e + 1 = rw next at count in
    rw next (rw (memb-numbered_pos n (l + 1) 0 k (omega arith)) (ground arith))
numbered-between (negsuc l) e n k hl he up count = absurd (omega arith)
numbered-between (pos l) (negsuc e) n k hl he up count = absurd (omega arith)

-- The view of some tables, before or after a range has been added to those of the start.
abbrev pub Ranged : ℤ → ℤ → Tables → Tables → Type 0
Ranged l e t t' = (view t' ≡ view t) ⊎ (view t' ≡ moved l e (view t).has)

or-again : (a b : Bool) → (a || (a || b)) ≡ (a || b)
or-again true b = refl
or-again false b = refl

module _ (l e : ℤ) (near_l : IsNear l) (valid_e : e ≤ℤ largest) (up : l ≤ℤ e) where
  stored-moved :
      (hs : List BlockHeader) (u u' : Tables) (n : ℤ)
      → Covers (add_i64 l (pos 1)) e hs
      → Advanced hs e u u'
      → stored n u'.blockheaders ≡ (between (l +ℤ pos 1) e n || stored n u.blockheaders)
  stored-moved hs u u' n (k, count, same) adv =
      let next : add_i64 l (pos 1) ≡ l +ℤ pos 1 = add_i64-one l near_l in
      let near_s : IsNear (l +ℤ pos 1) = (omega int_laws, omega int_laws) in
      let near_e : IsNear e = (omega arith, omega arith) in
      let members : memb n (keys hs) ≡ between (l +ℤ pos 1) e n =
        rw (same, next)
          (numbered-between l e n k near_l near_e up
            (expected_count-eq (l +ℤ pos 1) e k near_s near_e (rw next at count))) in
      adv.blocks n ∙ ap (λ b. b || stored n u.blockheaders) members

  Attempted-Ranged :
      (t : Tables) (w w' : World)
      → (view t).latest ≡ some l
      → Attempted (add_i64 l (pos 1)) e w w'
      → Ranged l e t w.tables
      → Ranged l e t w'.tables
  Attempted-Ranged t w w' at_l (inl same) before = rw same before
  Attempted-Ranged t w w' at_l (inr (hs, covers, adv)) (inl before) = inr (
      View-eq (view w'.tables) (moved l e (view t).has)
        (ap recorded adv.metadata
          ∙ recorded-map e l adv.now w.tables.index_metadata (ap (λ v. v.latest) before ∙ at_l))
        (λ n.
          stored-moved hs w.tables w'.tables n covers adv
          ∙ ap (λ v. between (l +ℤ pos 1) e n || v.has n) before))
  Attempted-Ranged t w w' at_l (inr (hs, covers, adv)) (inr before) = inr (
      View-eq (view w'.tables) (moved l e (view t).has)
        (ap recorded adv.metadata
          ∙ recorded-map e e adv.now w.tables.index_metadata (ap (λ v. v.latest) before))
        (λ n.
          stored-moved hs w.tables w'.tables n covers adv
          ∙ ap (λ v. between (l +ℤ pos 1) e n || v.has n) before
          ∙ or-again (between (l +ℤ pos 1) e n) (stored n t.blockheaders)))

  retry_from-Ranged :
      (env : Env) (config : QuickIndexConfig) (range : List ℤ) (left round : ℕ) (t : Tables)
      (w : World)
      → (view t).latest ≡ some l
      → Ranged l e t w.tables
      → Ranged l e t (retry_from env config left round range (add_i64 l (pos 1)) e w).1.tables
  unfolding retry_from load_terminate apply_exponential_backoff sleep
  retry_from-Ranged env config range zero round t w at_l before = before
  retry_from-Ranged env config range (suc left) round t w at_l before =
      let w1 : World = record w { tick = w.tick + 1 } in
      let m : Result Report (Unit {0}) × World =
        fetch_and_store_blocks env config range (add_i64 l (pos 1)) e w1 in
      let after : Ranged l e t m.1.tables =
        Attempted-Ranged t w1 m.1 at_l
          (fetch_and_store_blocks-Attempted env config range (add_i64 l (pos 1)) e w1) before in
      elim (Bool-cases (env.terminated w.tick)) [
        | inl stop ↦ rw stop before
        | inr go ↦ elim (Bool-cases (is_ok m.0)) [
          | inl done ↦ rw (go, done) (rw (log_indexing_success-tables env config range m.1) after)
          | inr failed ↦
              rw (go, failed)
                (retry_from-Ranged env config range left (round + 1) t
                  (record m.1 { slept = (round ^ 2 * 5 * 1000) ∷ m.1.slept }) at_l after)
        ]
      ]

-- One step of the machine: nothing changes, or the blocks behind the last one, up to one that is not
-- behind a reported finalized block, are added, and the last one of them is recorded.
module _ (env : Env) where
  pub data Step : View → View → Type 0 where
    idle : {v : View} → Step v v
    advance :
        {has : ℤ → Bool} (t : ℕ) (b : BlockNumber) (l e : ℤ)
        → env.finalized t ≡ ok b
        → l ≤ℤ e
        → e ≤ℤ b.value
        → Step (record { latest = some l; has = has }) (moved l e has)

  pub data Steps : View → View → Type 0 where
    ended : {v : View} → Steps v v
    step : {v u v' : View} → Step v u → Steps u v' → Steps v v'

  pub Ranged-Step :
      (tick : ℕ) (b : BlockNumber) (l e : ℤ) (t t' : Tables)
      → env.finalized tick ≡ ok b
      → l ≤ℤ e
      → e ≤ℤ b.value
      → (view t).latest ≡ some l
      → Ranged l e t t'
      → Step (view t) (view t')
  Ranged-Step tick b l e t t' reported up bounded at_l (inl same) =
      subst (λ v. Step (view t) v) (sym same) idle
  Ranged-Step tick b l e t t' reported up bounded at_l (inr new) =
      subst (λ v. Step (view t) v) (sym new)
        (subst (λ x. Step (record { latest = x; has = (view t).has }) (moved l e (view t).has))
          (sym at_l) (advance tick b l e reported up bounded))

  module _ (config : QuickIndexConfig) (valid : ReportsValid env) where
    pub index_new_blocks-Ranged :
        (l : ℤ) (b : BlockNumber) (w : World)
        → IsNear l
        → l <ℤ b.value
        → IsValid b
        → (view w.tables).latest ≡ some l
        → let e = calculate_ending_block env config l b in
          (l ≤ℤ e)
          × (e ≤ℤ b.value)
          × Ranged l e w.tables (index_new_blocks env config l b w).1.tables
    unfolding index_new_blocks index_block_range retry_with_backoff
    index_new_blocks-Ranged l b w near_l new ok_b at_l =
        let (up, bounded) = calculate_ending_block_bounds env config l b near_l.0 new ok_b.1 in
        (
          up,
          bounded,
          retry_from-Ranged l (calculate_ending_block env config l b) near_l (omega arith) up env
              config _ config.max_retries 0 w.tables w at_l (inl refl),
        )
