-- ===== src/Router.antt =====
-- src/router/mod.rs: the health endpoint. The listener and the HTTP server are a parameter: how each
-- step of the start ends, and how serving ends once the shutdown signal has come.
use fossil_headers_db.Prelude.{
  ℕ, zero, suc, ◌+◌, ◌*◌, ◌≤◌, ◌≡◌, refl, Bool, true, false, Option, none, some, ◌++◌, arith, inl,
  inr, Bool-cases, ◌∷◌,
}
use fossil_headers_db.Result.{Result, ok, err, ◌>>=◌, map_err, is_ok}
use fossil_headers_db.Text.{Text, text}
use fossil_headers_db.Errors.{Report, message}
use fossil_headers_db.Database.Action.{Env, World, Action, load_terminate, sleep, sleep_millis}
use fossil_headers_db.Db.{check_db_connection}
use fossil_headers_db.Quick.Ending.{not_yet}

-- An answer of the endpoint.
pub record Response : Type 0 where
  pub status : ℕ
  pub body : Text

abbrev pub response_for : Bool → Response
response_for true = record { status = 200; body = text "Healthy" }
response_for false = record { status = 500; body = text "Db connection failed" }

-- The variable ROUTER_ENDPOINT, the listener at an address with its own address, and the end of the
-- server; an error is its message.
pub record Listening : Type 0 where
  pub endpoint : Result Text Text
  pub bind : Text → Result Text (Result Text Text)
  pub served : Result Text (Unit {0})

-- Whether the router listens.
unfoldable pub listen : Listening → Result Report Text
listen l = do
  endpoint ← map_err (λ e. message (text "ROUTER_ENDPOINT must be set: " ++ e)) l.endpoint
  listener ← map_err message (l.bind endpoint)
  map_err (λ e. message (text "Failed to get local address: " ++ e)) listener

module _ (env : Env) where
  -- The handler of `GET /`.
  unfoldable pub health_check : {E : Type 0} → Action E Response
  health_check w =
      (ok (response_for (is_ok (check_db_connection env w).0)), (check_db_connection env w).1)

  -- The loop on fuel: `none` while it runs.
  unfoldable pub shutdown_signal : ℕ → World → Option World
  shutdown_signal zero w = none
  shutdown_signal (suc fuel) w = elim (env.terminated w.tick) [
    | true ↦ some (load_terminate env {E = Report} w).1
    | false ↦ shutdown_signal fuel (sleep {E = Report} 10 (load_terminate env {E = Report} w).1).1
  ]

  abbrev serve_until :
      Option World → Result Text (Unit {0}) → Option (Result Report (Unit {0}) × World)
  serve_until none r = none
  serve_until (some w) r = some (map_err message r, w)

  -- The server serves until the signal, and a router that cannot listen ends at once.
  abbrev initialize_from :
      Result Report Text → Listening → ℕ → World → Option (Result Report (Unit {0}) × World)
  initialize_from (err e) l fuel w = some (err e, w)
  initialize_from (ok address) l fuel w = serve_until (shutdown_signal fuel w) l.served

  unfoldable pub initialize_router :
      Listening → ℕ → World → Option (Result Report (Unit {0}) × World)
  initialize_router l fuel w = initialize_from (listen l) l fuel w

  -- Told to stop from the question `limit` on, the loop ends.
  pub shutdown_signal_ends :
      (limit fuel : ℕ) (w : World)
      → ((t : ℕ) → limit ≤ t → env.terminated t ≡ true)
      → limit + 1 ≤ fuel + w.tick
      → 1 ≤ fuel
      → (w' : World) × (shutdown_signal fuel w ≡ some w') × (w'.tables ≡ w.tables)
  unfolding shutdown_signal load_terminate sleep sleep_millis
  shutdown_signal_ends limit zero w told enough h = absurd (omega arith)
  shutdown_signal_ends limit (suc fuel) w told enough h =
      let w1 : World = record w { tick = w.tick + 1 } in
      let u : World = record w1 { slept = (10 * 1000) ∷ w.slept } in
      elim (Bool-cases (env.terminated w.tick)) [
        | inl stop ↦ (w1, rw (stop, shutdown_signal) refl, refl)
        | inr go ↦
            let before : w.tick + 1 ≤ limit = not_yet limit w.tick (told w.tick) go in
            let (w', p, same) =
              shutdown_signal_ends limit fuel u told (omega arith) (omega arith) in
            (w', rw (go, shutdown_signal) p, same)
      ]
