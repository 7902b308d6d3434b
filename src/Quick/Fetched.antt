-- ===== src/Quick/Fetched.antt =====
-- src/indexer/quick_service.rs: where the node answers each request with the right header, all checks
-- on a range pass.
use fossil_headers_db.Prelude.{
  ℕ, zero, suc, ◌+◌, ◌-◌, ◌≤◌, ◌<◌, ℤ, pos, eqb_ℤ_refl, leb_ℤ, ◌≡◌, refl, ◌∙◌, ap, Bool, true,
  false, List, [], ◌∷◌, arith, length, is_empty,
}
use fossil_headers_db.Prelude.Machine.{i64_half, add_i64, sub_i64}
use fossil_headers_db.Result.{Result, ok, traverse}
use fossil_headers_db.Errors.{BlockchainError}
use fossil_headers_db.Types.{from_trusted}
use fossil_headers_db.Utils.{convert_hex_string_to_i64}
use fossil_headers_db.Rpc.{BlockHeader}
use fossil_headers_db.Database.Action.{Env}
use fossil_headers_db.Repositories.Lookup.{block_key}
use fossil_headers_db.Repositories.Succeeding.{AreStorable}
use fossil_headers_db.Blocks.{numbered, expected_count, insert_header, sort_headers}
use fossil_headers_db.Blocks.Ranges.{add_i64-pos, sub_i64-pos}
use fossil_headers_db.Batch.Serving.{IsServing}
use fossil_headers_db.Quick.Responses.{
  unjoin, join_all, collect, process_rpc_responses, check_sequence, first_number, last_number,
  read_number, verify_order,
}

-- The headers of the numbers from `a` on, in order.
pub data Sequence : ℕ → List BlockHeader → Type 0 where
  nothing : {a : ℕ} → Sequence a []
  next :
      {a : ℕ} (h : BlockHeader) (hs : List BlockHeader)
      → convert_hex_string_to_i64 h.number ≡ ok (pos a)
      → Sequence (suc a) hs
      → Sequence a (h ∷ hs)

unfoldable pub answers_of : List BlockHeader → List (Result BlockchainError BlockHeader)
answers_of [] = []
answers_of (h ∷ hs) = ok h ∷ answers_of hs

length-answers_of : (hs : List BlockHeader) → length (answers_of hs) ≡ length hs
unfolding answers_of
length-answers_of [] = refl
length-answers_of (h ∷ hs) = ap suc (length-answers_of hs)

-- All headers of a range of `k` numbers, as the node sends them.
pub record Fetched (env : Env) (with_txs : Bool) (t a i k : ℕ) : Type 0 where
  pub headers : List BlockHeader
  pub sequence : Sequence (a + i) headers
  pub count : length headers ≡ k
  pub storable : AreStorable with_txs headers
  pub joins : join_all (env.fetch t) (numbered (pos a) i k) ≡ ok (answers_of headers)

pub fetched :
    (env : Env) (with_txs : Bool) (serving : IsServing env with_txs) (t a i k : ℕ)
    → a + i + k ≤ 4611686018427387904
    → Fetched env with_txs t a i k
unfolding join_all traverse numbered answers_of
fetched env b serving t a i zero h = record {
  headers = [];
  sequence = nothing;
  count = refl;
  storable = tt;
  joins = refl;
}
fetched env b serving t a i (suc k) h =
    let sum : add_i64 (pos a) (pos i) ≡ pos (a + i) = add_i64-pos a i (omega arith) in
    let rest : Fetched env b t a (i + 1) k = fetched env b serving t a (i + 1) k (omega arith) in
    let (g, sends, reads, fits) =
      serving.answers t (from_trusted (pos (a + i))) (omega arith, omega arith) in
    let step : a + (i + 1) ≡ suc (a + i) = omega arith in
    let others : traverse (λ n. unjoin (env.fetch t (from_trusted n))) (numbered (pos a) (i + 1) k)
        ≡ ok (answers_of rest.headers) =
      rest.joins in
    record {
      headers = g ∷ rest.headers;
      sequence = next g rest.headers reads (rw step at rest.sequence);
      count = ap suc rest.count;
      storable = (fits, rest.storable);
      joins = rw (sum, sends, others) refl;
    }

-- Collecting them finds no fault.
collect-answers :
    (a i : ℕ) (hs : List BlockHeader)
    → a + i + length hs ≤ i64_half
    → Sequence (a + i) hs
    → collect (pos a) i (answers_of hs) ≡ ok (hs, [])
unfolding collect answers_of
collect-answers a i [] h s = refl
collect-answers a i (g ∷ gs) h (next _ _ reads s) =
    let sum : add_i64 (pos a) (pos i) ≡ pos (a + i) = add_i64-pos a i (omega arith) in
    let step : suc (a + i) ≡ a + (i + 1) = omega arith in
    let rest = collect-answers a (i + 1) gs (omega arith) (rw step at s) in
    rw (reads, sum, eqb_ℤ_refl (pos (a + i)), rest) refl

-- They are in order already.
pub key-next :
    (a : ℕ) (h : BlockHeader)
    → convert_hex_string_to_i64 h.number ≡ ok (pos a)
    → block_key h ≡ pos a
unfolding block_key
key-next a h reads = rw reads refl

sort_headers-Sequence : (a : ℕ) (hs : List BlockHeader) → Sequence a hs → sort_headers hs ≡ hs
unfolding sort_headers insert_header
sort_headers-Sequence a [] s = refl
sort_headers-Sequence a (h ∷ []) s = refl
sort_headers-Sequence a (h ∷ g ∷ gs) (next _ _ reads (next _ _ reads' s)) =
    let rest = sort_headers-Sequence (suc a) (g ∷ gs) (next g gs reads' s) in
    let before : leb_ℤ (block_key h) (block_key g) ≡ true =
      rw (key-next a h reads, key-next (suc a) g reads') (ground arith) in
    rw rest (rw before refl)

check_sequence-Sequence :
    (a i : ℕ) (hs : List BlockHeader)
    → a + i + length hs ≤ i64_half
    → Sequence (a + i) hs
    → check_sequence (pos a) i hs ≡ ok tt
unfolding check_sequence
check_sequence-Sequence a i [] h s = refl
check_sequence-Sequence a i (g ∷ gs) h (next _ _ reads s) =
    let sum : add_i64 (pos a) (pos i) ≡ pos (a + i) = add_i64-pos a i (omega arith) in
    let step : suc (a + i) ≡ a + (i + 1) = omega arith in
    let rest = check_sequence-Sequence a (i + 1) gs (omega arith) (rw step at s) in
    rw (reads, sum, eqb_ℤ_refl (pos (a + i)), rest) refl

last_number-Sequence :
    (a b : ℕ) (hs : List BlockHeader)
    → a + length hs ≡ suc b
    → 0 < length hs
    → Sequence a hs
    → last_number hs ≡ ok (pos b)
unfolding last_number read_number
last_number-Sequence a b [] h k s = absurd (omega arith)
last_number-Sequence a b (g ∷ []) h k (next _ _ reads s) =
    let same : a ≡ b = omega arith in rw (reads, same) refl
last_number-Sequence a b (g ∷ f ∷ gs) h k (next _ _ reads s) =
    last_number-Sequence (suc a) b (f ∷ gs) (omega arith) (omega arith) s

verified :
    (a b : ℤ) (hs : List BlockHeader)
    → is_empty hs ≡ false
    → sort_headers hs ≡ hs
    → first_number hs ≡ ok a
    → check_sequence a 0 hs ≡ ok tt
    → last_number hs ≡ ok b
    → verify_order hs b ≡ ok hs
unfolding verify_order
verified a b hs some_there sorted first checked last =
    rw (some_there, sorted, first, checked, last, eqb_ℤ_refl b) refl

first_number-Sequence :
    (a : ℕ) (hs : List BlockHeader) → 0 < length hs → Sequence a hs → first_number hs ≡ ok (pos a)
unfolding first_number read_number
first_number-Sequence a [] k s = absurd (omega arith)
first_number-Sequence a (g ∷ gs) k (next _ _ reads s) = rw reads refl

pub verify_order-Sequence :
    (a b : ℕ) (hs : List BlockHeader)
    → a + length hs ≡ suc b
    → 0 < length hs
    → b < i64_half
    → Sequence a hs
    → verify_order hs (pos b) ≡ ok hs
verify_order-Sequence a b hs h k small s =
    let zero_more : a ≡ a + 0 = omega arith in
    verified (pos a) (pos b) hs (ground arith) (sort_headers-Sequence a hs s)
      (first_number-Sequence a hs k s)
      (check_sequence-Sequence a 0 hs (omega arith) (rw zero_more at s))
      (last_number-Sequence a b hs h k s)

responses_pass :
    (s e : ℤ) (k : ℕ) (rs : List (Result BlockchainError BlockHeader)) (hs : List BlockHeader)
    → expected_count s e ≡ ok k
    → length rs ≡ k
    → collect s 0 rs ≡ ok (hs, [])
    → length hs ≡ k
    → process_rpc_responses rs s e ≡ ok hs
unfolding process_rpc_responses
responses_pass s e k rs hs counted size collected whole =
    rw (counted, size, collected, whole) (ground arith)

pub process_rpc_responses-Sequence :
    (a b k : ℕ) (hs : List BlockHeader)
    → expected_count (pos a) (pos b) ≡ ok k
    → length hs ≡ k
    → a + k ≤ i64_half
    → Sequence a hs
    → process_rpc_responses (answers_of hs) (pos a) (pos b) ≡ ok hs
process_rpc_responses-Sequence a b k hs counted size small s =
    let zero_more : a ≡ a + 0 = omega arith in
    responses_pass (pos a) (pos b) k (answers_of hs) hs counted (length-answers_of hs ∙ size)
      (collect-answers a 0 hs (omega arith) (rw zero_more at s)) size

pub expected_count-pos :
    (a b : ℕ) → a ≤ b → b < 4611686018427387904 → expected_count (pos a) (pos b) ≡ ok (suc (b - a))
unfolding expected_count
expected_count-pos a b h k =
    let span : sub_i64 (pos b) (pos a) ≡ pos (b - a) = sub_i64-pos a b h (omega arith) in
    let count : add_i64 (pos (b - a)) (pos 1) ≡ pos (b - a + 1) =
      add_i64-pos (b - a) 1 (omega arith) in
    let whole : b - a + 1 ≡ suc (b - a) = omega arith in
    rw (expected_count, span, count, whole) refl
