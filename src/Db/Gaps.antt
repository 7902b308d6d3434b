-- ===== src/Db/Gaps.antt =====
-- src/db/mod.rs, `find_first_gap`: what it finds, whichever row the server returns for `LIMIT 1`, and
-- where it returns the first one.
use fossil_headers_db.Prelude.{
  ℕ, zero, suc, ◌+◌, ◌-◌, ◌≤◌, ◌<◌, ℤ, pos, negsuc, ◌≤ℤ◌, ◌<ℤ◌, leb_ℤ, ltb_ℤ, ◌≡◌, sym, ap, ◌∙◌,
  inl, inr, true, false, refl, List, [], ◌∷◌, Option, none, some, arith, Bool-cases, Option-cases,
}
use fossil_headers_db.Prelude.Machine.{i64_half, add_i64}
use fossil_headers_db.Result.{ok, Result-cases}
use fossil_headers_db.Types.{BlockNumber}
use fossil_headers_db.Database.Rows.{HeaderRow, stored, between}
use fossil_headers_db.Database.Action.{Env, World, query}
use fossil_headers_db.Blocks.{numbered}
use fossil_headers_db.Blocks.Ranges.{add_i64-pos}
use fossil_headers_db.Quick.{expected_blocks}
use fossil_headers_db.Batch.Missing.{IsBlock, inclusive-eq}
use fossil_headers_db.Db.Pool.{get_db_pool-tables}
use fossil_headers_db.Database.Sql.{limit_one}
use fossil_headers_db.Types.{from_trusted}
use fossil_headers_db.Db.{block_of, absent_of, absent, get_db_pool, find_first_gap}

-- The server returns the rows of a recursive query in the order in which the recursion makes them.
-- PostgreSQL does, and its documentation calls this a detail of its implementation.
abbrev pub InOrder : Env → Type 0
InOrder env = (t : ℕ) → env.position t ≡ 0

-- The first number, if there is one.
abbrev head_block : List ℤ → Option BlockNumber
head_block [] = none
head_block (n ∷ ns) = some (from_trusted n)

-- No gap from `a` to `b`, or one of them.
abbrev pub SomeGap : ℤ → ℤ → List HeaderRow → Option BlockNumber → Type 0
SomeGap a b rows none = (n : ℤ) → a ≤ℤ n → n ≤ℤ b → stored n rows ≡ true
SomeGap a b rows (some m) = (a ≤ℤ m.value) × (m.value ≤ℤ b) × (stored m.value rows ≡ false)

-- Each number is a gap from `a` to `b`.
abbrev AllGaps : ℤ → ℤ → List HeaderRow → List ℤ → Type 0
AllGaps a b rows [] = Unit {0}
AllGaps a b rows (n ∷ ns) = ((a ≤ℤ n) × (n ≤ℤ b) × (stored n rows ≡ false)) × AllGaps a b rows ns

-- No gap from `a` to `b`, or the first one.
abbrev pub FirstGap : ℤ → ℤ → List HeaderRow → Option BlockNumber → Type 0
FirstGap a b rows none = (n : ℤ) → a ≤ℤ n → n ≤ℤ b → stored n rows ≡ true
FirstGap a b rows (some m) =
    (a ≤ℤ m.value)
    × (m.value ≤ℤ b)
    × (stored m.value rows ≡ false)
    × ((n : ℤ) → a ≤ℤ n → n <ℤ m.value → stored n rows ≡ true)

least : (n : ℤ) (c : ℕ) → pos c ≤ℤ n → n ≤ℤ pos c → n ≡ pos c
least (pos n) c low high = ground arith
least (negsuc n) c low high = absurd (omega arith)

-- A gap behind a stored number.
FirstGap-step :
    (c b : ℕ) (rows : List HeaderRow) (o : Option BlockNumber)
    → stored (pos c) rows ≡ true
    → FirstGap (pos (c + 1)) (pos b) rows o
    → FirstGap (pos c) (pos b) rows o
FirstGap-step c b rows none here later = λ n low high. elim (Bool-cases (leb_ℤ n (pos c))) [
  | inl at_c ↦ let same : n ≡ pos c = least n c low (ground arith) in rw same here
  | inr behind ↦ later n (ground arith) high
]
FirstGap-step c b rows (some m) here (low, high, free, before) = (
  omega arith,
  high,
  free,
  λ n above below. elim (Bool-cases (leb_ℤ n (pos c))) [
    | inl at_c ↦ rw (least n c above (ground arith)) here
    | inr behind ↦ before n (ground arith) below
  ],
)

numbered-FirstGap :
    (s b a i k c : ℕ) (rows : List HeaderRow)
    → c ≡ a + i
    → s ≤ c
    → c + k ≡ b + 1
    → b < i64_half
    → FirstGap
        (pos c)
        (pos b)
        rows
        (head_block (absent_of (pos s) (pos b) (numbered (pos a) i k) rows))
unfolding numbered absent_of
numbered-FirstGap s b a i zero c rows at_c low count small = λ n l h. absurd (omega arith)
numbered-FirstGap s b a i (suc k) c rows at_c low count small =
    let inside : between (pos s) (pos b) (pos c) ≡ true = ground arith in
    let number : add_i64 (pos a) (pos i) ≡ pos c =
      add_i64-pos a i (omega arith) ∙ ap pos (sym at_c) in
    rw (number, inside)
      (elim (Bool-cases (stored (pos c) rows)) [
        | inr free ↦ rw free (omega arith, omega arith, free, λ n l h. absurd (omega arith))
        | inl here ↦ rw here (
            FirstGap-step c b rows _ here (
              numbered-FirstGap s b a (i + 1) k (c + 1) rows (omega arith) (omega arith)
                (omega arith) small))
      ])

pub absent-FirstGap :
    (a b : ℕ) (rows : List HeaderRow)
    → a ≤ b
    → b < 4611686018427387904
    → FirstGap (pos a) (pos b) rows (head_block (absent (pos a) (pos b) rows))
unfolding expected_blocks
absent-FirstGap a b rows ordered small =
    let test : ltb_ℤ (pos b) (pos a) ≡ false = ground arith in
    rw (test, inclusive-eq a b ordered (omega arith))
      (numbered-FirstGap a b a 0 (suc (b - a)) a rows (omega arith) (omega arith) (omega arith)
        (omega arith))

pub block_FirstGap :
    (a b : ℤ) (rows : List HeaderRow)
    → IsBlock a
    → IsBlock b
    → a ≤ℤ b
    → FirstGap a b rows (head_block (absent a b rows))
block_FirstGap (pos a) (pos b) rows ha hb ordered =
    absent-FirstGap a b rows (omega arith) (omega arith)
block_FirstGap (negsuc a) b rows ha hb ordered = absurd (omega arith)
block_FirstGap (pos a) (negsuc b) rows ha hb ordered = absurd (omega arith)

numbered-AllGaps :
    (s b a i k : ℕ) (rows : List HeaderRow)
    → s ≤ a + i
    → a + i + k ≤ b + 1
    → b < i64_half
    → AllGaps (pos s) (pos b) rows (absent_of (pos s) (pos b) (numbered (pos a) i k) rows)
unfolding numbered absent_of
numbered-AllGaps s b a i zero rows low fits small = tt
numbered-AllGaps s b a i (suc k) rows low fits small =
    let inside : between (pos s) (pos b) (pos (a + i)) ≡ true = ground arith in
    let rest = numbered-AllGaps s b a (i + 1) k rows (omega arith) (omega arith) small in
    rw (add_i64-pos a i (omega arith), inside)
      (elim (Bool-cases (stored (pos (a + i)) rows)) [
        | inr free ↦ rw free ((omega arith, omega arith, free), rest)
        | inl here ↦ rw here rest
      ])

block_AllGaps :
    (a b : ℤ) (rows : List HeaderRow)
    → IsBlock a
    → IsBlock b
    → a ≤ℤ b
    → AllGaps a b rows (absent a b rows)
unfolding expected_blocks
block_AllGaps (pos a) (pos b) rows ha hb ordered =
    let test : ltb_ℤ (pos b) (pos a) ≡ false = ground arith in
    rw (test, inclusive-eq a b (omega arith) (omega arith))
      (numbered-AllGaps a b a 0 (suc (b - a)) rows (omega arith) (omega arith) (omega arith))
block_AllGaps (negsuc a) b rows ha hb ordered = absurd (omega arith)
block_AllGaps (pos a) (negsuc b) rows ha hb ordered = absurd (omega arith)

-- Whichever row of some gaps is returned, it is a gap.
limit_one-SomeGap :
    (a b : ℤ) (rows : List HeaderRow) (position : ℕ) (n : ℤ) (ns : List ℤ)
    → AllGaps a b rows (n ∷ ns)
    → SomeGap a b rows (block_of (limit_one position (n ∷ ns)))
unfolding limit_one
limit_one-SomeGap a b rows position n [] (gap, gaps) = gap
limit_one-SomeGap a b rows zero n (m ∷ ns) (gap, gaps) = gap
limit_one-SomeGap a b rows (suc position) n (m ∷ ns) (gap, gaps) =
    limit_one-SomeGap a b rows position m ns gaps

gaps-SomeGap :
    (a b : ℤ) (rows : List HeaderRow) (position : ℕ) (ns : List ℤ)
    → AllGaps a b rows ns
    → FirstGap a b rows (head_block ns)
    → SomeGap a b rows (block_of (limit_one position ns))
unfolding limit_one
gaps-SomeGap a b rows position [] gaps first = first
gaps-SomeGap a b rows position (n ∷ ns) gaps first = limit_one-SomeGap a b rows position n ns gaps

limit_one-head : (ns : List ℤ) → block_of (limit_one 0 ns) ≡ head_block ns
unfolding limit_one
limit_one-head [] = refl
limit_one-head (n ∷ []) = refl
limit_one-head (n ∷ m ∷ ns) = refl

module _ (env : Env) where
  -- What a search that succeeds has read, at some question.
  find_first_gap-reads :
      (s e : BlockNumber) (w : World)
      → let (r, w') = find_first_gap env s e w in
        (w'.tables ≡ w.tables)
        × ((o : Option BlockNumber)
            → r ≡ ok o
            → (t : ℕ) × (o
                ≡ block_of
                    (limit_one (env.position t) (absent s.value e.value w.tables.blockheaders))))
  unfolding find_first_gap query
  find_first_gap-reads s e w =
      let v : World = (get_db_pool env w).1 in
      let same : v.tables ≡ w.tables = get_db_pool-tables env w in
      elim (Result-cases (get_db_pool env w).0) [
        | inr (bad, p) ↦ rw p (same, λ o h. cc)
        | inl (a, p) ↦ elim (Option-cases (env.fault v.tick)) [
          | inr (bad, q) ↦ rw (p, q) (same, λ o h. cc)
          | inl fine ↦
              rw (p, fine)
                (
                  same,
                  λ o h.
                      let found : block_of (
                            limit_one (env.position v.tick)
                              (absent s.value e.value v.tables.blockheaders))
                          ≡ o =
                        cc in
                      (v.tick, rw (← found, same) refl),
                )
        ]
      ]

  -- A search for a gap of a range between 0 and 2^62 that is not empty changes no table, whichever
  -- row the server returns for `LIMIT 1`. If it succeeds without a block, every block of the range
  -- is stored; otherwise it returns a block of the range that is not stored.
  pub find_first_gap-SomeGap :
      (s e : BlockNumber) (o : Option BlockNumber) (w w' : World)
      → IsBlock s.value
      → IsBlock e.value
      → s.value ≤ℤ e.value
      → find_first_gap env s e w ≡ (ok o, w')
      → (w'.tables ≡ w.tables) × SomeGap s.value e.value w.tables.blockheaders o
  find_first_gap-SomeGap s e o w w' hs he ordered h =
      let (same, reads) = find_first_gap-reads s e w in
      let (t, found) = reads o (ap (λ m. m.0) h) in
      let rows = w.tables.blockheaders in
      (
        rw (ap (λ m. m.1) h) at same,
        (rw found (
            gaps-SomeGap s.value e.value rows (env.position t) (absent s.value e.value rows)
              (block_AllGaps s.value e.value rows hs he ordered)
              (block_FirstGap s.value e.value rows hs he ordered))),
      )

  -- Where the server returns the rows of a recursive query in the order in which they are made,
  -- what such a search returns is the first block of the range that is not stored, and nothing if
  -- there is none.
  pub find_first_gap_least :
      (s e : BlockNumber) (o : Option BlockNumber) (w w' : World)
      → InOrder env
      → IsBlock s.value
      → IsBlock e.value
      → s.value ≤ℤ e.value
      → find_first_gap env s e w ≡ (ok o, w')
      → FirstGap s.value e.value w.tables.blockheaders o
  find_first_gap_least s e o w w' in_order hs he ordered h =
      let (same, reads) = find_first_gap-reads s e w in
      let (t, found) = reads o (ap (λ m. m.0) h) in
      let rows = w.tables.blockheaders in
      rw (found, in_order t, limit_one-head (absent s.value e.value rows))
        (block_FirstGap s.value e.value rows hs he ordered)
