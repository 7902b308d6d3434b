-- ===== src/Batch/Backoff.antt =====
-- src/indexer/batch_service.rs, `apply_fetch_retry_backoff`: where the machine's arithmetic is exact.
use native.Mathlib.Nat.{mod-lt, pow-le-pow_left}
use fossil_headers_db.Prelude.{
  ℕ, zero, suc, ◌+◌, ◌*◌, ◌^◌, ◌%◌, ◌≤◌, ◌<◌, ◌≡◌, ◌↔◌, refl, inl, inr, Bool-cases, ltb, arith,
}
use fossil_headers_db.Batch.{fetch_retry_backoff}

exact_below : (a : ℕ) → a < 7 → fetch_retry_backoff a ≡ (a + 1) ^ 2 * 5
unfolding fetch_retry_backoff
exact_below zero h = refl
exact_below (suc zero) h = refl
exact_below (suc (suc zero)) h = refl
exact_below (suc (suc (suc zero))) h = refl
exact_below (suc (suc (suc (suc zero)))) h = refl
exact_below (suc (suc (suc (suc (suc zero))))) h = refl
exact_below (suc (suc (suc (suc (suc (suc zero)))))) h = refl
exact_below (suc (suc (suc (suc (suc (suc (suc a))))))) h = absurd (omega arith)

square_large : (a : ℕ) → 7 ≤ a → 64 ≤ (a + 1) ^ 2
square_large a h = let base : 8 ≤ a + 1 = omega arith in pow-le-pow_left base 2

backoff_small : (a : ℕ) → fetch_retry_backoff a < 256
unfolding fetch_retry_backoff
backoff_small a = mod-lt (((a + 1) % 256) ^ 2 % 256 * 5) (omega arith)

-- The pause between two rounds is five times the square of the round's number, counted from one,
-- exactly in the first seven rounds; from the eighth on the product does not fit in a `u8`.
pub fetch_retry_backoff_exact : (a : ℕ) → (fetch_retry_backoff a ≡ (a + 1) ^ 2 * 5) ↔ (a < 7)
fetch_retry_backoff_exact a = (from_exact, exact_below a)
  where
    from_exact : fetch_retry_backoff a ≡ (a + 1) ^ 2 * 5 → a < 7
    from_exact h = elim (Bool-cases (ltb a 7)) [
      | inl small ↦ ground arith
      | inr large ↦
          let square : 64 ≤ (a + 1) ^ 2 = square_large a (ground arith) in
          let bound : fetch_retry_backoff a < 256 = backoff_small a in absurd (omega arith)
    ]
