-- ===== src/Rpc/Client/Retries.antt =====
-- src/rpc/mod.rs, `make_retrying_rpc_call`: how often the node is asked, and what is returned.
use fossil_headers_db.Prelude.{
  ℕ, zero, suc, ◌+◌, ◌^◌, ◌%◌, ◌≤◌, ◌<◌, ◌≡◌, refl, sym, ◌⊎◌, inl, inr, true, false, List, [], ◌∷◌,
  arith, length, ltb, Bool-cases,
}
use fossil_headers_db.Result.{Result, ok, err, Result-cases}
use fossil_headers_db.Text.{Text}
use fossil_headers_db.Errors.{BlockchainError, rpc_connection}
use fossil_headers_db.Rpc.Client.{Call, is_fatal, retry_loop, make_retrying_rpc_call}

module _ {A : Type 0} (debug : BlockchainError → Text) (call : ℕ → Result BlockchainError A)
    (max_retries : ℕ) where
  -- The attempts up to one have failed, and none of the failures was fatal.
  abbrev Failing : ℕ → Type 0
  Failing k =
      (i : ℕ)
      → i < k
      → (e : BlockchainError) × (call i ≡ err e) × (is_fatal debug call max_retries e ≡ false)

  -- What a call with retries is: the attempt `last` is the one that is returned.
  pub record IsRetried (c : Call A) : Type 0 where
    pub last : ℕ
    pub made : c.made ≡ suc last
    pub within : last ≤ max_retries
    pub pauses : length c.slept ≡ last
    pub outcome : c.outcome ≡ call last
    pub earlier : Failing last
    pub final :
        (e : BlockchainError)
        → c.outcome ≡ err e
        → (is_fatal debug call max_retries e ≡ true) ⊎ (last ≡ max_retries)

  Failing-next :
      (k : ℕ) (e : BlockchainError)
      → Failing k
      → call k ≡ err e
      → is_fatal debug call max_retries e ≡ false
      → Failing (k + 1)
  Failing-next k e before bad mild i h = elim (Bool-cases (ltb i k)) [
    | inl less ↦ before i (ground arith)
    | inr at_k ↦ let same : i ≡ k = ground arith in rw same (e, bad, mild)
  ]

  IsRetried-last :
      (k : ℕ) (slept : List ℕ) (r : Result BlockchainError A)
      → call k ≡ r
      → k ≤ max_retries
      → length slept ≡ k
      → Failing k
      → ((e : BlockchainError)
          → r ≡ err e
          → (is_fatal debug call max_retries e ≡ true) ⊎ (k ≡ max_retries))
      → IsRetried (record { outcome = r; slept = slept; made = k + 1 })
  IsRetried-last k slept r p within pauses failing final = record {
    last = k;
    made = omega arith;
    within = within;
    pauses = pauses;
    outcome = sym p;
    earlier = failing;
    final = final;
  }

  -- One round, where `rest` is what the further rounds lead to after a failure.
  round-IsRetried :
      (fuel attempts : ℕ) (before : BlockchainError) (slept : List ℕ)
      → fuel + attempts ≡ max_retries
      → length slept ≡ attempts
      → Failing attempts
      → ((e : BlockchainError)
          → attempts < max_retries
          → Failing (attempts + 1)
          → IsRetried (
              retry_loop debug call max_retries fuel
                (attempts + 1)
                e
                ((2 ^ (attempts + 1) % 2 ^ 64) ∷ slept)))
      → IsRetried (retry_loop debug call max_retries (suc fuel) attempts before slept)
  unfolding retry_loop
  round-IsRetried fuel attempts before slept enough pauses failing rest =
      elim (Result-cases (call attempts)) [
        | inl (a, p) ↦
            rw (p, retry_loop)
              (IsRetried-last attempts slept (ok a) p (omega arith) pauses failing (λ e h. cc))
        | inr (e, p) ↦ elim (Bool-cases (is_fatal debug call max_retries e)) [
          | inl fatal ↦
              rw (p, retry_loop, fatal)
                (IsRetried-last attempts slept (err e) p (omega arith) pauses failing
                  (λ d h. inl cc))
          | inr mild ↦ elim (Bool-cases (ltb max_retries (attempts + 1))) [
            | inl used ↦
                rw (p, retry_loop, mild, used)
                  (IsRetried-last attempts slept (err e) p (omega arith) pauses failing
                    (λ d h. inr (ground arith)))
            | inr left ↦
                rw (p, retry_loop, mild, left)
                  (rest e (ground arith) (Failing-next attempts e failing p mild))
          ]
        ]
      ]

  retry_loop-IsRetried :
      (fuel attempts : ℕ) (before : BlockchainError) (slept : List ℕ)
      → fuel + attempts ≡ max_retries
      → length slept ≡ attempts
      → Failing attempts
      → IsRetried (retry_loop debug call max_retries (suc fuel) attempts before slept)
  retry_loop-IsRetried zero attempts before slept enough pauses failing =
      round-IsRetried zero attempts before slept enough pauses failing
        (λ e less next. absurd (omega arith))
  retry_loop-IsRetried (suc f) attempts before slept enough pauses failing =
      round-IsRetried (suc f) attempts before slept enough pauses failing (λ e less next.
        retry_loop-IsRetried f (attempts + 1) e ((2 ^ (attempts + 1) % 2 ^ 64) ∷ slept)
          (omega arith) (omega arith) next)

  -- The node is asked at most `max_retries + 1` times with a pause between two attempts. The result
  -- is that of the last attempt, all earlier ones failed without a fatal error, and an error is
  -- returned only if it is fatal or the retries are used up.
  pub make_retrying_rpc_call-IsRetried : IsRetried (make_retrying_rpc_call debug call max_retries)
  unfolding make_retrying_rpc_call
  make_retrying_rpc_call-IsRetried =
      retry_loop-IsRetried max_retries 0 (rpc_connection []) [] (omega arith) refl
        (λ i h. absurd (omega arith))
