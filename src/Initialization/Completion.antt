-- ===== src/Initialization/Completion.antt =====
-- src/indexer/lib.rs, `wait_for_thread_completion`: how the services' ends become the program's.
use fossil_headers_db.Prelude.{◌≡◌, refl, ◌↔◌, Bool, true, false, List, [], ◌∷◌, if◌then◌else◌}
use fossil_headers_db.Result.{Result, ok, err}
use fossil_headers_db.Text.{text}
use fossil_headers_db.Errors.{BlockchainError, internal}

-- How a spawned service ends: it returns, it panics, or it is cancelled.
pub data ServiceEnd : Type 0 where
  returned : Result BlockchainError (Unit {0}) → ServiceEnd
  service_panicked : ServiceEnd
  service_cancelled : ServiceEnd

-- The loop, with `has_errors` so far; all handles are awaited, in their order.
unfoldable pub await_handles : Bool → List ServiceEnd → Bool
await_handles has_errors [] = has_errors
await_handles has_errors (returned (ok done) ∷ handles) = await_handles has_errors handles
await_handles has_errors (returned (err e) ∷ handles) = await_handles true handles
await_handles has_errors (service_panicked ∷ handles) = await_handles true handles
await_handles has_errors (service_cancelled ∷ handles) = await_handles true handles

unfoldable pub wait_for_thread_completion : List ServiceEnd → Result BlockchainError (Unit {0})
unfolding await_handles
wait_for_thread_completion handles =
    if await_handles false handles
    then err (internal (text "One or more indexing services failed"))
    else ok tt

-- Every service has returned without an error.
abbrev pub AllDone : List ServiceEnd → Type 0
AllDone [] = Unit {0}
AllDone (end ∷ handles) = (end ≡ returned (ok tt)) × AllDone handles

stays_failed : (handles : List ServiceEnd) → await_handles true handles ≡ true
unfolding await_handles
stays_failed [] = refl
stays_failed (returned (ok done) ∷ handles) = stays_failed handles
stays_failed (returned (err e) ∷ handles) = stays_failed handles
stays_failed (service_panicked ∷ handles) = stays_failed handles
stays_failed (service_cancelled ∷ handles) = stays_failed handles

done_if : (handles : List ServiceEnd) → await_handles false handles ≡ false → AllDone handles
unfolding await_handles
done_if [] h = tt
done_if (returned (ok done) ∷ handles) h = (refl, done_if handles h)
done_if (returned (err e) ∷ handles) h = absurd (cc (h, stays_failed handles))
done_if (service_panicked ∷ handles) h = absurd (cc (h, stays_failed handles))
done_if (service_cancelled ∷ handles) h = absurd (cc (h, stays_failed handles))

if_done : (handles : List ServiceEnd) → AllDone handles → await_handles false handles ≡ false
unfolding await_handles
if_done [] h = refl
if_done (end ∷ handles) (same, rest) = rw (same, await_handles) (if_done handles rest)

-- The program ends without an error exactly where every service has returned without one: an error,
-- a panic or a cancellation of any of them is reported, whatever the order is.
pub wait_for_thread_completion_iff :
    (handles : List ServiceEnd) → (wait_for_thread_completion handles ≡ ok tt) ↔ AllDone handles
unfolding wait_for_thread_completion
wait_for_thread_completion_iff handles =
    (sound (await_handles false handles) refl, λ h. rw (if_done handles h) refl)
  where
    sound :
        (b : Bool)
        → await_handles false handles ≡ b
        → wait_for_thread_completion handles ≡ ok tt
        → AllDone handles
    sound false p h = done_if handles p
    sound true p h = absurd (cc (rw p at h))
