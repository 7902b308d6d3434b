-- ===== src/Db/Retries.antt =====
-- src/db/mod.rs, `get_last_stored_blocknumber`: its retries and its result.
use fossil_headers_db.Prelude.{
  ℕ, ◌+◌, ℤ, negsuc, ltb_ℤ, ◌≤ℤ◌, ◌≡◌, refl, ◌∙◌, ◌⊎◌, inl, inr, Bool, true, false, List, [], ◌∷◌,
  ◌++◌, some, arith, unwrap_or, Bool-cases, Option-cases, sym, ltb, if◌then◌else◌,
}
use fossil_headers_db.Text.{Text, text}
use fossil_headers_db.Errors.{BlockchainError, database_query_failed, sqlx_message}
use fossil_headers_db.Result.{ok, err, Result-cases}
use fossil_headers_db.Types.{BlockNumber, from_trusted}
use fossil_headers_db.Database.Rows.{HeaderRow, stored}
use fossil_headers_db.Database.Action.{Action, Env, World, query}
use fossil_headers_db.Quick.{max_number}
use fossil_headers_db.Db.{
  connect, is_transient_error, retry_loop, retry_async, get_db_pool, read_last_stored,
  get_last_stored_blocknumber,
}

-- The block is the largest one that is stored, and -1 where none is.
abbrev pub IsLatest : List HeaderRow → ℤ → Type 0
IsLatest [] b = b ≡ negsuc 0
IsLatest (r ∷ rows) b =
    (stored b (r ∷ rows) ≡ true) × ((n : ℤ) → stored n (r ∷ rows) ≡ true → n ≤ℤ b)

-- The largest of some rows and one more.
IsMax : List HeaderRow → ℤ → Type 0
IsMax rows m = (stored m rows ≡ true) × ((n : ℤ) → stored n rows ≡ true → n ≤ℤ m)

IsMax-one : (r : HeaderRow) → IsMax (r ∷ []) r.number
unfolding IsMax stored
IsMax-one r = (ground arith, λ n h. ground arith)

IsMax-larger :
    (r : HeaderRow) (rows : List HeaderRow) (m : ℤ)
    → ltb_ℤ m r.number ≡ true
    → IsMax rows m
    → IsMax (r ∷ rows) r.number
unfolding IsMax stored
IsMax-larger r rows m larger (there, above) = (ground arith, λ n h. ground (arith, above n))

IsMax-smaller :
    (r : HeaderRow) (rows : List HeaderRow) (m : ℤ)
    → ltb_ℤ m r.number ≡ false
    → IsMax rows m
    → IsMax (r ∷ rows) m
unfolding IsMax stored
IsMax-smaller r rows m smaller (there, above) = (ground arith, λ n h. ground (arith, above n))

max_number-IsMax :
    (r : HeaderRow) (rows : List HeaderRow)
    → (m : ℤ) × (max_number (r ∷ rows) ≡ some m) × IsMax (r ∷ rows) m
unfolding max_number
max_number-IsMax r [] = (r.number, refl, IsMax-one r)
max_number-IsMax r (s ∷ rows) =
    let (m, p, is_max) = max_number-IsMax s rows in
    elim (Bool-cases (ltb_ℤ m r.number)) [
      | inl larger ↦ (r.number, rw (p, larger) refl, IsMax-larger r (s ∷ rows) m larger is_max)
      | inr smaller ↦ (m, rw (p, smaller) refl, IsMax-smaller r (s ∷ rows) m smaller is_max)
    ]

coalesced-IsLatest :
    (rows : List HeaderRow) → IsLatest rows (unwrap_or (max_number rows) (negsuc 0))
unfolding max_number IsMax
coalesced-IsLatest [] = refl
coalesced-IsLatest (r ∷ rows) = let (m, p, is_max) = max_number-IsMax r rows in rw p is_max

module _ {A : Type 0} (operation : Action BlockchainError A) (max_retries : ℕ) where
  -- An operation that succeeds or fails for good is run once.
  pub retry_async_once :
      (w : World)
      → ((e : BlockchainError) → (operation w).0 ≡ err e → is_transient_error e ≡ false)
      → retry_async operation max_retries w ≡ operation w
  unfolding retry_async retry_loop
  retry_async_once w permanent = elim (Result-cases (operation w).0) [
    | inl (a, p) ↦ rw (p, retry_loop) refl
    | inr (e, p) ↦ elim (Bool-cases (ltb max_retries 1)) [
      | inl used ↦ rw (p, retry_loop, used) refl
      | inr left ↦ rw (p, retry_loop, left, permanent e p) refl
    ]
  ]

if_true : {A : Type 0} (b : Bool) (x y : A) → b ≡ true → (if b then x else y) ≡ x
if_true b x y h = rw h refl

module _ (env : Env) where
  pub get_db_pool-connected : (w : World) → w.connected ≡ true → get_db_pool env w ≡ (ok tt, w)
  unfolding get_db_pool
  get_db_pool-connected w h = if_true w.connected (ok tt, w) (connect env w) h

  -- What the one attempt leads to.
  abbrev ReadsLast : World → Type 0
  ReadsLast w =
      (read_last_stored env w ≡ (
        ok (from_trusted (unwrap_or (max_number w.tables.blockheaders) (negsuc 0))),
        record w { tick = w.tick + 1 },
      ))
      ⊎ ((m : Text) × (read_last_stored env w
            ≡ (err (database_query_failed m), record w { tick = w.tick + 1 })))

  read_last_stored-result : (w : World) → w.connected ≡ true → ReadsLast w
  unfolding read_last_stored query
  read_last_stored-result w there = elim (Option-cases (env.fault w.tick)) [
    | inl fine ↦ inl (rw (get_db_pool-connected w there, fine) refl)
    | inr (e, p) ↦ inr (
      text "Failed to get last stored block number: " ++ sqlx_message e,
      rw (get_db_pool-connected w there, p) refl,
    )
  ]

  -- With the pool there, the last stored block is read once, and no failure of the query is retried.
  -- If it succeeds, the result is -1 for an empty table, and the largest stored number
  -- otherwise.
  pub get_last_stored_blocknumber_lem :
      (w : World)
      → w.connected ≡ true
      → (get_last_stored_blocknumber env w ≡ read_last_stored env w)
        × ((b : BlockNumber) (w' : World)
            → get_last_stored_blocknumber env w ≡ (ok b, w')
            → IsLatest w.tables.blockheaders b.value)
  unfolding get_last_stored_blocknumber is_transient_error
  get_last_stored_blocknumber_lem w there =
      let once : get_last_stored_blocknumber env w ≡ read_last_stored env w =
        retry_async_once (read_last_stored env) 3 w (permanent (read_last_stored-result w there)) in
      (once, λ b w' h. latest (read_last_stored-result w there) b w' (sym once ∙ h))
    where
      permanent :
          ReadsLast w
          → (e : BlockchainError) → (read_last_stored env w).0 ≡ err e
          → is_transient_error e ≡ false
      permanent (inl done) e h = cc
      permanent (inr (m, bad)) e h = let same : e ≡ database_query_failed m = cc in rw same refl

      latest :
          ReadsLast w
          → (b : BlockNumber) (w' : World) → read_last_stored env w ≡ (ok b, w')
          → IsLatest w.tables.blockheaders b.value
      latest (inl done) b w' h =
          let same : from_trusted (unwrap_or (max_number w.tables.blockheaders) (negsuc 0)) ≡ b =
            cc in
          rw (← same) (coalesced-IsLatest w.tables.blockheaders)
      latest (inr (m, bad)) b w' h = cc
