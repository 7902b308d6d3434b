-- ===== src/Quick/Refinement.antt =====
-- src/indexer/quick_service.rs: the cycles and the loop of the service are runs of the machine.
use fossil_headers_db.Prelude.{
  ℕ, zero, suc, ◌+◌, ℤ, pos, ◌≡◌, refl, sym, ◌∙◌, ap, subst, inl, inr, List, [], ◌∷◌, some, arith,
  Bool-cases,
}
use fossil_headers_db.Result.{Result, ok, Result-cases}
use fossil_headers_db.Errors.{Report}
use fossil_headers_db.Types
use fossil_headers_db.Types.{BlockNumber, from_trusted, largest}
use fossil_headers_db.Config.Quick.{QuickIndexConfig}
use fossil_headers_db.Database.Rows.{IndexMetadataDto, Tables}
use fossil_headers_db.Database.Action.{Env, World, load_terminate, ask_finalized, sleep}
use fossil_headers_db.Repositories.Metadata.{first_row}
use fossil_headers_db.Blocks.Ranges.{IsNear}
use fossil_headers_db.Quick.{
  calculate_ending_block, index_new_blocks, has_new_blocks, wait_for_new_blocks,
  get_last_indexed_block, get_latest_finalized_block, process_indexing_cycle, index,
}
use fossil_headers_db.Quick.Invariant.{ReportsValid}
use fossil_headers_db.Quick.NoGaps.{get_last_indexed_block-reads}
use fossil_headers_db.Quick.Machine.{
  View, view, recorded, Step, idle, advance, Steps, ended, step, Ranged-Step,
  index_new_blocks-Ranged,
}

-- The block that is recorded, if there is one, is in range.
abbrev pub IsNearView : View → Type 0
IsNearView v = (l : ℤ) → v.latest ≡ some l → IsNear l

first_row-recorded :
    (rows : List IndexMetadataDto) (m : IndexMetadataDto)
    → first_row rows ≡ ok m
    → recorded rows ≡ some m.current_latest_block_number
unfolding first_row
first_row-recorded [] m h = cc
first_row-recorded (r ∷ rows) m h = let same : r ≡ m = cc in rw same refl

module _ (env : Env) (config : QuickIndexConfig) (valid : ReportsValid env) where
  Step-IsNearView : (v v' : View) → Step env v v' → IsNearView v → IsNearView v'
  Step-IsNearView v v' idle near = near
  Step-IsNearView v v' (advance t b l e reported up bounded) near = λ x at_x.
      let same : e ≡ x = cc in
      let near_l : IsNear l = near l refl in
      let (low, high) = valid t b reported in rw (← same) (omega arith, omega arith)

  unchanged-Step : (t t' : Tables) → t' ≡ t → Step env (view t) (view t')
  unchanged-Step t t' same = subst (λ u. Step env (view t) (view u)) (sym same) idle

  -- If the node reports valid finalized blocks only and the recorded block is in range, then one
  -- cycle, whether it succeeds or fails, is one step of the machine: it adds exactly the blocks behind
  -- the recorded one up to one that is not behind a reported finalized block, and records that one,
  -- or it adds no block and leaves the record alone.
  pub process_indexing_cycle-Step :
      (w : World)
      → IsNearView (view w.tables)
      → Step env (view w.tables) (view (process_indexing_cycle env config w).1.tables)
  unfolding process_indexing_cycle has_new_blocks wait_for_new_blocks sleep
      get_latest_finalized_block ask_finalized
  process_indexing_cycle-Step w near =
      let (same, reads) = get_last_indexed_block-reads env config (pos 0) valid w in
      let v : World = (get_last_indexed_block env config w).1 in
      let u : World = record v { tick = v.tick + 1 } in
      elim (Result-cases (get_last_indexed_block env config w).0) [
        | inr (e, p) ↦ rw p (unchanged-Step w.tables v.tables same)
        | inl (l, p) ↦ elim (Result-cases (env.finalized v.tick)) [
          | inr (e, q) ↦ rw (p, q) (unchanged-Step w.tables v.tables same)
          | inl (b, q) ↦
              let (m, row, at_m) = reads l p in
              let at_l : (view w.tables).latest ≡ some l =
                first_row-recorded w.tables.index_metadata m row ∙ ap some at_m in
              elim (Bool-cases (Types.lt (from_trusted l) b)) [
                | inr nothing_new ↦ rw (p, q, nothing_new) (unchanged-Step w.tables v.tables same)
                | inl new ↦
                    let (up, bounded, ranged) =
                      index_new_blocks-Ranged env config valid l b u (near l at_l) (ground arith)
                        (valid v.tick b q) (ap (λ t. (view t).latest) same ∙ at_l) in
                    rw (p, q, new)
                      (subst
                        (λ t. Step env (view t) (view (index_new_blocks env config l b u).1.tables))
                        same
                        (Ranged-Step env v.tick b l (calculate_ending_block env config l b) u.tables
                          (index_new_blocks env config l b u).1.tables q up bounded
                          (ap (λ t. (view t).latest) same ∙ at_l) ranged))
              ]
        ]
      ]

  -- If the node reports valid finalized blocks only and the recorded block is in range at first, then
  -- a run of the service's loop that has ended, with success or an error, is a run of the machine.
  pub index-Steps :
      (fuel : ℕ) (w w' : World) (r : Result Report (Unit {0}))
      → IsNearView (view w.tables)
      → index env config fuel w ≡ some (r, w')
      → Steps env (view w.tables) (view w'.tables)
  unfolding index load_terminate
  index-Steps zero w w' r near h = cc
  index-Steps (suc fuel) w w' r near h =
      let w1 : World = record w { tick = w.tick + 1 } in
      let m : Result Report (Unit {0}) × World = process_indexing_cycle env config w1 in
      let first : Step env (view w.tables) (view m.1.tables) =
        process_indexing_cycle-Step w1 near in
      elim (Bool-cases (env.terminated w.tick)) [
        | inl stop ↦ let e : w1 ≡ w' = cc (rw (stop, index) at h) in rw (← e) ended
        | inr go ↦ elim (Result-cases m.0) [
          | inr (bad, p) ↦
              let e : m.1 ≡ w' = cc (rw (go, p, index) at h) in rw (← e) (step first ended)
          | inl (done, p) ↦ step first (
              index-Steps fuel m.1 w' r
                (Step-IsNearView (view w.tables) (view m.1.tables) first near)
                (rw (go, p, index) at h))
        ]
      ]
