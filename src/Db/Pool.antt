-- ===== src/Db/Pool.antt =====
-- src/db/mod.rs, `get_db_pool`: what making the pool changes.
use fossil_headers_db.Prelude.{
  ℕ, none, subst, sym, ◌≡◌, refl, ◌∙◌, Bool, true, false, arith, if◌then◌else◌,
}
use fossil_headers_db.Result.{Result, ok, err}
use fossil_headers_db.Errors.{BlockchainError}
use fossil_headers_db.Database.Action.{
  Env, World, Action, unset, malformed, well_formed, continue, query,
}
use fossil_headers_db.Db.{connect, get_db_pool}

-- What follows on an action that has succeeded.
pub after :
    {E A B : Type 0} (P : Result E B × World → Type 0) (f : A → Action E B) (m : Result E A × World)
    (a : A)
    → m.0 ≡ ok a
    → P (f a m.1)
    → P (continue m.0 f m.1)
after P f m a h p = subst (λ r. P (continue r f m.1)) (sym h) p

-- The pool can be made, and no statement is refused.
pub record Serves (env : Env) : Type 0 where
  pub unfailing : (t : ℕ) → env.fault t ≡ none
  pub reachable : env.connection ≡ well_formed

module _ (env : Env) where
  connect-tables : (w : World) → (connect env w).1.tables ≡ w.tables
  unfolding connect query
  connect-tables w =
      elim env.connection
        as (λ c. (connect (record env { connection = c }) w).1.tables ≡ w.tables) [
          | unset ↦ refl
          | malformed e ↦ refl
          | well_formed ↦ ground arith
        ]

  pooled :
      (b : Bool) (w : World) (m : Result BlockchainError (Unit {0}) × World)
      → m.1.tables ≡ w.tables
      → (if b then (ok tt, w) else m).1.tables ≡ w.tables
  pooled true w m h = refl
  pooled false w m h = h

  pub get_db_pool-tables : (w : World) → (get_db_pool env w).1.tables ≡ w.tables
  unfolding get_db_pool
  get_db_pool-tables w = pooled w.connected w (connect env w) (connect-tables w)

  -- A statement behind the pool.
  pub pool_then :
      {A : Type 0} (w : World) (f : Unit {0} → Action BlockchainError A)
      → ((v : World) → (f tt v).1.tables ≡ v.tables)
      → (continue (get_db_pool env w).0 f (get_db_pool env w).1).1.tables ≡ w.tables
  pool_then w f keeps = go (get_db_pool env w) (get_db_pool-tables w)
    where
      go :
          (m : Result BlockchainError (Unit {0}) × World)
          → m.1.tables ≡ w.tables
          → (continue m.0 f m.1).1.tables ≡ w.tables
      go (ok a, v) same = keeps v ∙ same
      go (err e, v) same = same

  pub get_db_pool-succeeds : Serves env → (w : World) → (get_db_pool env w).0 ≡ ok tt
  unfolding get_db_pool connect query
  get_db_pool-succeeds serves w = by_pool w.connected (connect env w) (connected w)
    where
      by_pool :
          (b : Bool) (m : Result BlockchainError (Unit {0}) × World)
          → m.0 ≡ ok tt
          → (if b then (ok tt, w) else m).0 ≡ ok tt
      by_pool true m h = refl
      by_pool false m h = h

      connected : (w : World) → (connect env w).0 ≡ ok tt
      connected w = rw (serves.reachable, serves.unfailing w.tick) refl
